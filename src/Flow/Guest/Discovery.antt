-- ===== src/Flow/Guest/Discovery.antt =====
-- How a guest finds its host, and how that ends.
use terracotta_ffi.Base.{
  ℕ, ◌<◌, ◌≡◌, true, false, List, [], ◌∷◌, ◌++◌, Option, none, some, All, codes,
}
use terracotta_ffi.Base.Decimal.{u16_to_string, parse_u16-u16_to_string}
use terracotta_ffi.EasyTier.{NatType, Ipv4Addr}
use terracotta_ffi.EasyTier.Peers.{EasyTierMember}
use terracotta_ffi.Emitter.{Emitter}
use terracotta_ffi.Session.{EasyTier, can_capture}
use terracotta_ffi.Flow.Guest.{
  server_of, find_server, blocked, fail_with, Round, discover_round, discover, discover_rounds,
  first, forward_minecraft,
}

-- The member that a host is in the eyes of a guest: `host_arguments` gives it this host name.
abbrev pub advertised : ℕ → Ipv4Addr → NatType → EasyTierMember
advertised port ip nat = record {
  hostname = codes "scaffolding-mc-server-" ++ u16_to_string port;
  address = some ip;
  is_local = false;
  nat = nat;
}

server_of-advertised :
    (port : ℕ) (ip : Ipv4Addr) (nat : NatType)
    → port < 65536
    → server_of (advertised port ip nat) ≡ some (ip, port, nat)
unfolding server_of
server_of-advertised port ip nat h = rw (parse_u16-u16_to_string port h)

-- A guest reads a host's address, its scaffolding port, which is below 65536, and its NAT type off
-- the peer list, if no member before the host is a server.
pub find_server-advertised :
    (port : ℕ) (ip : Ipv4Addr) (nat : NatType) (before after : List EasyTierMember)
    → port < 65536
    → All (λ m. server_of m ≡ none) before
    → find_server (before ++ advertised port ip nat ∷ after) ≡ some (ip, port, nat)
unfolding find_server
find_server-advertised port ip nat [] after h a =
    rw (server_of-advertised port ip nat h, find_server)
find_server-advertised port ip nat (m ∷ before) after h a =
    rw (a.0, find_server) (find_server-advertised port ip nat before after h a.1)

round_blocks :
    (r : Round) (token : ℕ) (e : Emitter) (et : EasyTier)
    → e.session.easytier ≡ some et
    → can_capture e.session token ≡ true
    → r.alive et ≡ false
    → discover_round r token e ≡ blocked
unfolding discover_round fail_with
round_blocks r token e et there good dead = rw (good, there, discover_round) (rw dead)

-- With a good token and an EasyTier child that is dead, a search that starts now blocks for ever
-- on the session's lock, and so does the block of the Minecraft forwards if they cannot be set up.
pub held_lock_blocks :
    (looks : ℕ → Round) (token fallback : ℕ) (specific : Option ℕ) (e : Emitter) (et : EasyTier)
    → e.session.easytier ≡ some et
    → can_capture e.session token ≡ true
    → (looks 0).alive et ≡ false
    → (discover looks token e ≡ blocked)
      × (forward_minecraft specific fallback false token e ≡ blocked)
unfolding discover discover_rounds first forward_minecraft fail_with
held_lock_blocks looks token fallback specific e et there good dead = (
  rw (round_blocks (looks 0) token e et there good dead, discover_rounds),
  rw (there, forward_minecraft),
)
