-- ===== src/Addresses.antt =====
-- src/addresses.rs and src/ports.rs: the addresses and the ports that the sockets are bound to. What the
-- operating system answers is an argument.
pub mod Ordered
use terracotta_ffi.Base.{
  ℕ, ◌+◌, ◌*◌, ◌^◌, Bool, true, false, not, ◌&&◌, ◌||◌, List, [], ◌∷◌, ◌++◌, Option, none, some,
  ◌==◌, ltb, if◌then◌else◌,
}
use terracotta_ffi.EasyTier.{Ipv4Addr, ipv4_unspecified}

-- An address of version 6 is its number.
pub data IpAddr : Type 0 where
  v4 : Ipv4Addr → IpAddr
  v6 : ℕ → IpAddr

-- The derived order of `IpAddr`: version 4 below version 6, and each by its octets, the first octet
-- first. For octets below 256 that is the order of these numbers.
abbrev pub rank : IpAddr → ℕ
rank (v4 ip) = ip.a * 2 ^ 24 + ip.b * 2 ^ 16 + ip.c * 2 ^ 8 + ip.d
rank (v6 n) = 2 ^ 32 + n

abbrev pub same_ipv4 : Ipv4Addr → Ipv4Addr → Bool
same_ipv4 p q = p.a == q.a && p.b == q.b && p.c == q.c && p.d == q.d

abbrev pub ipv4_localhost : Ipv4Addr
ipv4_localhost = record { a = 127; b = 0; c = 0; d = 1 }

-- The network that EasyTier makes.
abbrev pub is_virtual : Ipv4Addr → Bool
is_virtual ip = ip.a == 10 && ip.b == 144 && ip.c == 144

-- The addresses of interfaces that are kept.
unfoldable pub is_kept : IpAddr → Bool
is_kept (v4 ip) =
    not (is_virtual ip) && not (same_ipv4 ip ipv4_localhost) && not (same_ipv4 ip ipv4_unspecified)
is_kept (v6 n) = not (n == 1) && not (n == 0)

unfoldable pub keep_addresses : List IpAddr → List IpAddr
keep_addresses [] = []
keep_addresses (ip ∷ ips) = let rest = keep_addresses ips in if is_kept ip then ip ∷ rest else rest

-- `sort_by` with the arguments of `cmp` swapped: a stable sort_addresses, the greatest first.
unfoldable pub insert_address : IpAddr → List IpAddr → List IpAddr
insert_address ip [] = ip ∷ []
insert_address ip (q ∷ qs) =
    let later = insert_address ip qs in if ltb (rank ip) (rank q) then q ∷ later else ip ∷ q ∷ qs

unfoldable pub sort_addresses : List IpAddr → List IpAddr
unfolding insert_address
sort_addresses [] = []
sort_addresses (ip ∷ ips) = insert_address ip (sort_addresses ips)

abbrev pub listed : Option (List IpAddr) → List IpAddr
listed none = []
listed (some ips) = ips

-- `addresses`, from the addresses of the interfaces, if they could be listed.
unfoldable pub addresses : Option (List IpAddr) → List IpAddr
unfolding keep_addresses sort_addresses
addresses networks =
    sort_addresses (keep_addresses (listed networks) ++ v4 ipv4_unspecified ∷ v6 0 ∷ [])

pub data PortRequest : Type 0 where
  easytier_rpc scaffolding minecraft : PortRequest

abbrev pub request_number : PortRequest → ℕ
request_number easytier_rpc = 0
request_number scaffolding = 1
request_number minecraft = 2

-- `PortRequest::request`: the port that the operating system gives, or a fixed one for each use.
unfoldable pub request : PortRequest → Option ℕ → ℕ
request use_ none = request_number use_ + 35780
request use_ (some port) = port
