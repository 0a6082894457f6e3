-- ===== src/Mc/Sockets.antt =====
-- The sockets of src/mc: those on which a fake server announces (fakeserver.rs), and those on which the
-- scanner listens (scanner.rs). Whether a socket can be made on an address is an argument.
pub mod Meeting
use terracotta_ffi.Base.{
  ℕ, ◌+◌, ◌*◌, ◌^◌, Bool, true, false, List, [], ◌∷◌, map, if◌then◌else◌, Text, Bytes,
}
use terracotta_ffi.Base.Utf8.{encode}
use terracotta_ffi.EasyTier.{Ipv4Addr}
use terracotta_ffi.Addresses.{IpAddr, v4, v6}
use terracotta_ffi.Mc.{message}

pub record SocketAddr : Type 0 where
  pub ip : IpAddr
  pub port : ℕ

-- `ADDR_V4` and `ADDR_V6` of `run` in fakeserver.rs.
abbrev pub addr_v4 : SocketAddr
addr_v4 = record { ip = v4 (record { a = 224; b = 0; c = 2; d = 60 }); port = 4445 }

abbrev pub addr_v6 : SocketAddr
addr_v6 = record { ip = v6 (0xFF75 * 2 ^ 112 + 0x230 * 2 ^ 96 + 0x60); port = 4445 }

abbrev pub announced_at : IpAddr → SocketAddr
announced_at (v4 ip) = addr_v4
announced_at (v6 n) = addr_v6

-- The sockets of a fake server, each with the address that it sends to; one that cannot be made is
-- left out.
unfoldable pub server_sockets : (IpAddr → Bool) → List IpAddr → List (IpAddr × SocketAddr)
server_sockets opens [] = []
server_sockets opens (ip ∷ ips) =
    let rest = server_sockets opens ips in if opens ip then (ip, announced_at ip) ∷ rest else rest

-- The groups that the scanner joins: 224.0.2.60 and FF75:230::60.
abbrev pub joined_group : IpAddr → IpAddr
joined_group (v4 ip) = v4 (record { a = 224; b = 0; c = 2; d = 60 })
joined_group (v6 n) = v6 (0xFF75 * 2 ^ 112 + 0x230 * 2 ^ 96 + 0x60)

-- A socket of the scanner: the address and the port that it is bound to, and its group.
pub record Listener : Type 0 where
  pub address : SocketAddr
  pub group : IpAddr

abbrev pub listener_on : IpAddr → Listener
listener_on ip = record { address = record { ip = ip; port = 4445 }; group = joined_group ip }

unfoldable pub scanner_sockets : (IpAddr → Bool) → List IpAddr → List Listener
scanner_sockets opens [] = []
scanner_sockets opens (ip ∷ ips) =
    let rest = scanner_sockets opens ips in if opens ip then listener_on ip ∷ rest else rest

-- What is sent in one round of a fake server; an error of a socket is logged.
abbrev pub Sent : Type 0
Sent = SocketAddr × Bytes

unfoldable pub announce_round : Text → ℕ → List (IpAddr × SocketAddr) → List Sent
announce_round motd port sockets = map (λ s. (s.1, encode (message motd port))) sockets

-- The rounds of `run` of a fake server, each with whether the `FakeServer` has been dropped.
unfoldable pub run_server : Text → ℕ → List (IpAddr × SocketAddr) → List Bool → List (List Sent)
unfolding announce_round
run_server motd port sockets [] = []
run_server motd port sockets (dropped ∷ rounds) =
    let later = run_server motd port sockets rounds in
    if dropped then [] else announce_round motd port sockets ∷ later
