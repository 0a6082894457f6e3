-- ===== src/Flow/Guest.antt =====
-- `run_guest` of src/flow.rs up to its monitor thread. The code between two locks is a step, and takes
-- the emitter as it is then. `parking_lot`'s mutex is not reentrant: a write of the emitter that is
-- made while the session's guard is still alive never returns.
pub mod Discovery
pub mod Refresh
pub mod Run
use terracotta_ffi.Base.{
  ℕ, zero, suc, ◌+◌, Bool, true, false, not, ◌&&◌, List, [], ◌∷◌, ◌++◌, Option, none, some, map,
  ◌==◌, ltb, if◌then◌else◌, length, drop, take, Text, Bytes, codes, text_eq, from_be_bytes,
}
use terracotta_ffi.Base.Decimal.{parse_u16}
use terracotta_ffi.EasyTier.{
  NatType, Ipv4Addr, ipv4_unspecified, PortForward, SocketAddr, v4, v6, Proto, tcp, udp, Argument,
  dhcp, tcp_whitelist, udp_whitelist, calc_conn_difficulty,
}
use terracotta_ffi.EasyTier.Peers.{EasyTierMember}
use terracotta_ffi.Emitter.{Emitter, emit, transition, set_exception, mutate_shared}
use terracotta_ffi.Event.{connection_difficulty, guest_ready}
use terracotta_ffi.Profile.{Profile, local}
use terracotta_ffi.Room.{Room}
use terracotta_ffi.Session.{
  Session, SessionStateId, guest_starting, guest_ok, EasyTier, FakeServer, unknown, SessionError,
  ping_host_fail, guest_easytier_crash, can_capture,
}
use terracotta_ffi.Snapshot.{guest_url}
use terracotta_ffi.Flow.{default_motd, compute_arguments, unwrap_or, no_machine_id, runs}

unfoldable pub guest_arguments : Room → List Text → List Argument
guest_arguments room nodes =
    compute_arguments room nodes ++ dhcp ∷ tcp_whitelist 0 ∷ udp_whitelist 0 ∷ []

abbrev pub to_guest_starting : EasyTier → Session → Session × SessionStateId
to_guest_starting easytier s =
    (record s { easytier = some easytier; difficulty = some unknown }, guest_starting)

unfoldable pub start_guest : Emitter → ℕ → EasyTier → Emitter × Option ℕ
start_guest e token easytier = transition e token (to_guest_starting easytier)

-- The two searches through the peers.
unfoldable pub find_local : List EasyTierMember → Option NatType
find_local [] = none
find_local (m ∷ ms) = let rest = find_local ms in if m.is_local then some m.nat else rest

abbrev pub server_prefix : Text
server_prefix = codes "scaffolding-mc-server-"

abbrev pub starts_with : Text → Text → Bool
starts_with [] s = true
starts_with (c ∷ p) [] = false
starts_with (c ∷ p) (d ∷ s) = (c == d) && starts_with p s

-- A member that is a scaffolding server: its address, its port and its NAT type.
unfoldable pub server_of : EasyTierMember → Option (Ipv4Addr × ℕ × NatType)
server_of m = elim m.address [
  | none ↦ none
  | some ip ↦
      if not m.is_local && starts_with server_prefix m.hostname
      then (elim (parse_u16 (drop (length server_prefix) m.hostname)) [
        | none ↦ none
        | some port ↦ some (ip, port, m.nat)
      ])
      else none
]

unfoldable pub find_server : List EasyTierMember → Option (Ipv4Addr × ℕ × NatType)
find_server [] = none
find_server (m ∷ ms) =
    let rest = find_server ms in elim (server_of m) [ none ↦ rest | some found ↦ some found ]

-- What the rounds of a loop `for _ in 0..n` find, in their order.
unfoldable pub first : {A : Type 0} → ℕ → (ℕ → A) → List A
first zero f = []
first (suc n) f = f zero ∷ first n (λ i. f (suc i))

-- How a step ends: the flow goes on with a value, tries again, returns, or blocks for ever on the lock
-- of the session, which it holds itself.
pub data Outcome (A : Type 0) : Type 0 where
  proceed : Emitter → A → Outcome A
  again : Emitter → Outcome A
  stopped : Emitter → Outcome A
  blocked : Outcome A

-- `set_exception` and a return, with the guard of the session still alive or not.
unfoldable pub fail_with : {A : Type 0} → Bool → Emitter → ℕ → SessionError → Outcome A
fail_with true e token error = blocked
fail_with false e token error = stopped (set_exception e token error).0

-- One of the five rounds that look for the host: what the system says is alive, the peers, the local
-- port that was picked, and whether the forward was set up.
pub record Round : Type 0 where
  pub alive : EasyTier → Bool
  pub players : Option (List EasyTierMember)
  pub local_port : ℕ
  pub forwarded : Bool

abbrev pub report : Emitter → ℕ → NatType → NatType → Emitter
report e token local_nat server_nat =
    let difficulty = calc_conn_difficulty local_nat server_nat in
    emit (mutate_shared e token (λ s. record s { difficulty = some difficulty })).0
      (connection_difficulty difficulty)

-- What a round does once the peers are known.
unfoldable pub connect : Round → ℕ → Emitter → List EasyTierMember → Outcome (ℕ × Ipv4Addr)
connect r token e players = elim (find_local players) [
  | none ↦ again e
  | some local_nat ↦ elim (find_server players) [
    | none ↦ again e
    | some (address, port, server_nat) ↦ elim e.session.easytier [
      | none ↦ stopped e
      | some _ ↦
          if r.forwarded
          then proceed (report e token local_nat server_nat) (r.local_port, address)
          else fail_with false e token guest_easytier_crash
    ]
  ]
]

unfoldable pub discover_round : Round → ℕ → Emitter → Outcome (ℕ × Ipv4Addr)
discover_round r token e =
    if not (can_capture e.session token) then stopped e else (elim e.session.easytier [
      | none ↦ stopped e
      | some et ↦
          if not (r.alive et)
          then fail_with true e token guest_easytier_crash
          else (elim r.players [ none ↦ again e | some players ↦ connect r token e players ])
    ])

-- The loop `'local_port`, if nobody else writes between its rounds.
unfoldable pub discover_rounds : List Round → ℕ → Emitter → Outcome (ℕ × Ipv4Addr)
discover_rounds [] token e = fail_with false e token ping_host_fail
discover_rounds (r ∷ rs) token e =
    let rest = λ (e' : Emitter). discover_rounds rs token e' in
    elim (discover_round r token e) [
      | proceed e' found ↦ proceed e' found
      | again e' ↦ rest e'
      | stopped e' ↦ stopped e'
      | blocked ↦ blocked
    ]

-- It has five rounds; `looks` is what the i-th finds, if it is reached.
unfoldable pub discover : (ℕ → Round) → ℕ → Emitter → Outcome (ℕ × Ipv4Addr)
discover looks token e = discover_rounds (first 5 looks) token e

abbrev pub fingerprint : Bytes
fingerprint =
    0x41 ∷ 0x57 ∷ 0x48 ∷ 0x44 ∷ 0x86 ∷ 0x37 ∷ 0x40 ∷ 0x59 ∷ 0x57 ∷ 0x44 ∷ 0x92 ∷ 0x43 ∷ 0x96 ∷ 0x99
    ∷ 0x85 ∷ 0x01 ∷ []

-- One of the sixty rounds that verify the server: the answer to c:ping, if a session could be opened.
pub record Handshake : Type 0 where
  pub alive : EasyTier → Bool
  pub pong : Option Bytes

abbrev pub is_fingerprint : Option Bytes → Bool
is_fingerprint none = false
is_fingerprint (some answered) = (length answered == 16) && text_eq answered fingerprint

-- The loop `'session`, and its sixty rounds.
unfoldable pub verify_rounds : List Handshake → ℕ → Emitter → Outcome (Unit {0})
verify_rounds [] token e = fail_with false e token ping_host_fail
verify_rounds (h ∷ hs) token e =
    let rest = verify_rounds hs token e in
    if is_fingerprint h.pong
    then proceed e tt
    else if runs h.alive e.session.easytier
    then rest
    else fail_with false e token guest_easytier_crash

unfoldable pub verify_server : (ℕ → Handshake) → ℕ → Emitter → Outcome (Unit {0})
verify_server handshakes token e = verify_rounds (first 60 handshakes) token e

-- The answer to c:server_port.
unfoldable pub read_port : Option Bytes → ℕ → Emitter → Outcome ℕ
read_port none token e = fail_with false e token ping_host_fail
read_port (some answered) token e =
    if length answered == 2
    then proceed e (from_be_bytes 0 answered)
    else fail_with false e token ping_host_fail

-- The four forwards of the Minecraft port: `forwards[i * 2 + j]` is the i-th address under protocol j.
unfoldable pub minecraft_forwards : Ipv4Addr → ℕ → ℕ → List PortForward
minecraft_forwards host_ip port local_port =
    let remote = v4 host_ip port in
    let here = v4 ipv4_unspecified local_port in
    let here6 = v6 (codes "::") local_port in
    record { local = here; remote = remote; proto = tcp }
    ∷ record { local = here; remote = remote; proto = udp }
    ∷ record { local = here6; remote = remote; proto = tcp }
    ∷ record { local = here6; remote = remote; proto = udp }
    ∷ []

-- The block of the Minecraft port: the specific port if it was free, and whether the forwards were set
-- up. The guard lives to the end of the block.
unfoldable pub forward_minecraft : Option ℕ → ℕ → Bool → ℕ → Emitter → Outcome ℕ
forward_minecraft specific fallback forwarded token e = elim e.session.easytier [
  | none ↦ stopped e
  | some _ ↦
      if forwarded
      then proceed e (unwrap_or specific fallback)
      else fail_with true e token guest_easytier_crash
]

unfoldable pub local_profile : Option Text → Option Text → Text → Profile
local_profile machine_id player_name vendor = record {
  machine_id = unwrap_or machine_id no_machine_id;
  name = unwrap_or player_name (codes "Terracotta Anonymous Guest");
  vendor = vendor;
  kind = local;
}

abbrev pub to_guest_ok : ℕ → Text → ℕ → Profile → Session → Session × SessionStateId
to_guest_ok port motd now profile s = (
  record s {
    server = some (record { port = port; motd = motd });
    port = some port;
    profiles = (now, profile) ∷ [];
  },
  guest_ok,
)

unfoldable pub finish_guest : Emitter → ℕ → ℕ → Option Text → ℕ → Profile → Emitter × Option ℕ
finish_guest e token port motd now profile =
    let (e', next) =
      transition e token (to_guest_ok port (unwrap_or motd default_motd) now profile) in
    elim next [
      | none ↦ (e', none)
      | some t ↦ (emit e' (guest_ready (guest_url (some port))), some t)
    ]
