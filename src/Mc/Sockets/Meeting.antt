-- ===== src/Mc/Sockets/Meeting.antt =====
-- A fake server sends to the groups that a scanner joins.
use terracotta_ffi.Base.{
  ℕ, ◌≡◌, refl, ◌⊎◌, inl, inr, subst, Bool, true, false, List, [], ◌∷◌, Text, Bytes, Option, All,
  Bool-cases,
}
use terracotta_ffi.Base.Utf8.{encode}
use terracotta_ffi.Addresses.{IpAddr, v4, v6, addresses}
use terracotta_ffi.Addresses.Ordered.{IsMember}
use terracotta_ffi.Mc.{message}
use terracotta_ffi.Mc.Sockets.{
  SocketAddr, announced_at, server_sockets, joined_group, Listener, scanner_sockets, Sent,
  announce_round, run_server,
}

-- A packet that is sent to a listener: to its group, and to its port.
abbrev pub Reaches : Bytes → List Listener → Sent → Type 0
Reaches bytes [] sent = ⊥
Reaches bytes (l ∷ ls) sent =
    ((sent.0 ≡ record { ip = l.group; port = l.address.port }) × (sent.1 ≡ bytes))
    ⊎ Reaches bytes ls sent

-- A round that sends some packet to a listener.
abbrev pub IsHeard : Bytes → List Listener → List Sent → Type 0
IsHeard bytes ls [] = ⊥
IsHeard bytes ls (sent ∷ more) = Reaches bytes ls sent ⊎ IsHeard bytes ls more

same_group : (ip : IpAddr) → announced_at ip ≡ record { ip = joined_group ip; port = 4445 }
same_group (v4 ip) = refl
same_group (v6 n) = refl

Reaches-scanner_sockets :
    (bytes : Bytes) (opens : IpAddr → Bool) (ip : IpAddr) (ips : List IpAddr)
    → opens ip ≡ true
    → IsMember ip ips
    → Reaches bytes (scanner_sockets opens ips) (announced_at ip, bytes)
unfolding scanner_sockets
Reaches-scanner_sockets bytes opens ip [] ok m = elim m [ ]
Reaches-scanner_sockets bytes opens ip (q ∷ qs) ok (inl e) =
    let ok' : opens q ≡ true = subst (λ a. opens a ≡ true) e ok in
    rw ok' (
      inl (
        subst (λ a. announced_at ip ≡ record { ip = joined_group a; port = 4445 }) e
            (same_group ip),
        refl,
      ))
Reaches-scanner_sockets bytes opens ip (q ∷ qs) ok (inr m) = elim (Bool-cases (opens q)) [
  | inl t ↦ rw t (inr (Reaches-scanner_sockets bytes opens ip qs ok m))
  | inr t ↦ rw t (Reaches-scanner_sockets bytes opens ip qs ok m)
]

announce_round-IsHeard :
    (motd : Text) (port : ℕ) (opens : IpAddr → Bool) (ls : List Listener) (ip : IpAddr)
    (ips : List IpAddr)
    → opens ip ≡ true
    → IsMember ip ips
    → Reaches (encode (message motd port)) ls (announced_at ip, encode (message motd port))
    → IsHeard (encode (message motd port)) ls (announce_round motd port (server_sockets opens ips))
unfolding announce_round server_sockets
announce_round-IsHeard motd port opens ls ip [] ok m r = elim m [ ]
announce_round-IsHeard motd port opens ls ip (q ∷ qs) ok (inl e) r =
    let ok' : opens q ≡ true = subst (λ a. opens a ≡ true) e ok in
    rw ok' (
      inl (
        subst
          (λ a.
            Reaches (encode (message motd port)) ls (announced_at a, encode (message motd port)))
          e r))
announce_round-IsHeard motd port opens ls ip (q ∷ qs) ok (inr m) r = elim (Bool-cases (opens q)) [
  | inl t ↦ rw t (inr (announce_round-IsHeard motd port opens ls ip qs ok m r))
  | inr t ↦ rw t (announce_round-IsHeard motd port opens ls ip qs ok m r)
]

run_server-All :
    (P : List Sent → Type 0) (motd : Text) (port : ℕ) (sockets : List (IpAddr × SocketAddr))
    (rounds : List Bool)
    → P (announce_round motd port sockets)
    → All P (run_server motd port sockets rounds)
unfolding run_server
run_server-All P motd port sockets [] h = tt
run_server-All P motd port sockets (true ∷ rounds) h = tt
run_server-All P motd port sockets (false ∷ rounds) h =
    (h, run_server-All P motd port sockets rounds h)

-- Where both a fake server and a scanner can make their socket on one of the addresses, every round of
-- the fake server sends its message to the group that a socket of the scanner has joined, and to the
-- port that it is bound to.
pub run_server-IsHeard :
    (networks : Option (List IpAddr)) (motd : Text) (port : ℕ) (opens listens : IpAddr → Bool)
    (ip : IpAddr) (rounds : List Bool)
    → IsMember ip (addresses networks)
    → opens ip ≡ true
    → listens ip ≡ true
    → All
        (IsHeard (encode (message motd port)) (scanner_sockets listens (addresses networks)))
        (run_server motd port (server_sockets opens (addresses networks)) rounds)
run_server-IsHeard networks motd port opens listens ip rounds m opened listening =
    run_server-All _ motd port (server_sockets opens (addresses networks)) rounds (
      announce_round-IsHeard motd port opens (scanner_sockets listens (addresses networks)) ip
        (addresses networks) opened m
        (Reaches-scanner_sockets (encode (message motd port)) listens ip (addresses networks)
          listening m))
