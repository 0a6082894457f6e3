-- ===== src/EasyTier/Peers.antt =====
-- The peer list that `easytier-cli peer` prints: `get_players` of src/easytier/process.rs.
use terracotta_ffi.Base.{
  ℕ, ◌+◌, ◌-◌, ◌*◌, Bool, ◌&&◌, List, [], ◌∷◌, Option, none, some, ◌==◌, ltb, leb, if◌then◌else◌,
  Text, Bytes, codes, text_eq, length,
}
use terracotta_ffi.Json.{Json, Items, nil, cons, as_array, str_field, Codec}
use terracotta_ffi.EasyTier.{
  NatType, unknown, open_internet, no_pat, full_cone, restricted, port_restricted, symmetric,
  symmetric_udp_wall, symmetric_easy_increase, symmetric_easy_decrease, Ipv4Addr,
}

pub record EasyTierMember : Type 0 where
  pub hostname : Text
  pub address : Option Ipv4Addr
  pub is_local : Bool
  pub nat : NatType

infixl 5 ◌>>=◌
abbrev ◌>>=◌ {ℓ κ} : {A : Type ℓ} {B : Type κ} → Option A → (A → Option B) → Option B
none >>= f = none
some a >>= f = f a

-- The name of a NAT type; an unknown name fails, as in a release build.
abbrev nat_table : List (Text × NatType)
nat_table =
    (codes "Unknown", unknown)
    ∷ (codes "OpenInternet", open_internet)
    ∷ (codes "NoPat", no_pat)
    ∷ (codes "FullCone", full_cone)
    ∷ (codes "Restricted", restricted)
    ∷ (codes "PortRestricted", port_restricted)
    ∷ (codes "Symmetric", symmetric)
    ∷ (codes "SymUdpFirewall", symmetric_udp_wall)
    ∷ (codes "SymmetricEasyInc", symmetric_easy_increase)
    ∷ (codes "SymmetricEasyDec", symmetric_easy_decrease)
    ∷ []

find_nat : Text → List (Text × NatType) → Option NatType
find_nat name [] = none
find_nat name ((n, t) ∷ rest) = if text_eq n name then some t else find_nat name rest

-- `Ipv4Addr::from_str`: four decimal octets, none with a leading zero.
split_at : ℕ → Text → List Text
split_at sep [] = [] ∷ []
split_at sep (c ∷ s) = elim (split_at sep s) [
  | [] ↦ []
  | part ∷ parts ↦ if c == sep then [] ∷ part ∷ parts else (c ∷ part) ∷ parts
]

digits_value : ℕ → Text → Option ℕ
digits_value acc [] = some acc
digits_value acc (c ∷ s) =
    let rest = digits_value (acc * 10 + (c - b'0')) s in
    if leb b'0' c && leb c b'9' then rest else none

octet : Text → Option ℕ
unfolding digits_value
octet [] = none
octet (c ∷ s) =
    if ltb 3 (length (c ∷ s))
    then none
    else if (c == b'0') && ltb 0 (length s)
    then none
    else do n ← digits_value 0 (c ∷ s); if ltb n 256 then some n else none

octets : List Text → Option Ipv4Addr
unfolding octet
octets (a ∷ b ∷ c ∷ d ∷ []) = do
  a ← octet a
  b ← octet b
  c ← octet c
  d ← octet d
  some (record { a = a; b = b; c = c; d = d })
octets _ = none

unfoldable pub parse_ipv4 : Text → Option Ipv4Addr
unfolding octets split_at
parse_ipv4 s = octets (split_at b'.' s)

-- One item of the list.
unfoldable pub read_member : Json → Option EasyTierMember
unfolding find_nat
read_member item = do
  hostname ← str_field (codes "hostname") item
  ip ← str_field (codes "ipv4") item
  cost ← str_field (codes "cost") item
  kind ← str_field (codes "nat_type") item
  nat ← find_nat kind nat_table
  some (record {
    hostname = hostname;
    address = parse_ipv4 ip;
    is_local = text_eq cost (codes "Local");
    nat = nat;
  })

unfoldable pub read_members : Items → Option (List EasyTierMember)
unfolding read_member
read_members nil = some []
read_members (cons item items) = do m ← read_member item; ms ← read_members items; some (m ∷ ms)

-- `get_players`, from what the command printed, if it ran.
unfoldable pub get_players : Codec → Option Bytes → Option (List EasyTierMember)
get_players codec stdout = do
  bytes ← stdout
  object ← codec.from_slice bytes
  items ← as_array object
  read_members items
