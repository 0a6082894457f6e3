-- ===== src/Flow/Host.antt =====
-- `run_host` of src/flow.rs. The code between two locks is a step, and takes the emitter as it is then.
pub mod Eviction
pub mod Strikes
pub mod Run
use terracotta_ffi.Base.{
  ℕ, suc, ◌+◌, Bool, true, false, not, ◌||◌, List, [], ◌∷◌, ◌++◌, Option, none, some, map, ltb, leb,
  if◌then◌else◌, Text, codes,
}
use terracotta_ffi.Base.Decimal.{u16_to_string}
use terracotta_ffi.EasyTier.{Argument, host_name, ipv4, tcp_whitelist, udp_whitelist}
use terracotta_ffi.Emitter.{Emitter, emit, transition, set_exception, commit_shared, announce}
use terracotta_ffi.Event.{Event, host_ready, player_left}
use terracotta_ffi.Profile.{Profile, host}
use terracotta_ffi.Room.{Room}
use terracotta_ffi.Session.{
  Session, SessionStateId, host_starting, host_ok, exception, EasyTier, host_easytier_crash,
  ping_server_rst, can_capture, commit,
}
use terracotta_ffi.Flow.{compute_arguments, unwrap_or, no_machine_id, runs, emit_all}

-- One look at the scanner, 200 ms after the last, and the emitter at that time.
pub record Look : Type 0 where
  pub ports : List ℕ
  pub emitter : Emitter

pub data Scan : Type 0 where
  found : ℕ → Scan
  cancelled : Scan
  pending : Scan

-- The loop `'scan`; `pending` means that it still runs after these looks.
unfoldable pub scan : ℕ → List Look → Scan
scan token [] = pending
scan token (l ∷ ls) =
    let later = scan token ls in
    let stops = l.emitter.shutdown || not (can_capture l.emitter.session token) in
    elim l.ports [ port ∷ _ ↦ found port | [] ↦ (if stops then cancelled else later) ]

abbrev pub to_starting : ℕ → Session → Session × SessionStateId
to_starting port s = (record s { port = some port }, host_starting)

unfoldable pub start_host : Emitter → ℕ → ℕ → Emitter × Option ℕ
start_host e token port = transition e token (to_starting port)

unfoldable pub host_arguments : Room → List Text → ℕ → ℕ → List Argument
host_arguments room nodes scaffolding port =
    compute_arguments room nodes
    ++ host_name (codes "scaffolding-mc-server-" ++ u16_to_string scaffolding)
      ∷ ipv4 (record { a = 10; b = 144; c = 144; d = 1 })
      ∷ tcp_whitelist scaffolding
      ∷ tcp_whitelist port
      ∷ udp_whitelist port
      ∷ []

unfoldable pub host_profile : Option Text → Option Text → Text → Profile
host_profile machine_id player_name vendor = record {
  machine_id = unwrap_or machine_id no_machine_id;
  name = unwrap_or player_name (codes "Terracotta Anonymous Host");
  vendor = vendor;
  kind = host;
}

abbrev pub to_host_ok : EasyTier → ℕ → ℕ → Profile → Session → Session × SessionStateId
to_host_ok easytier port now profile s = (
  record s { easytier = some easytier; port = some port; profiles = (now, profile) ∷ [] },
  host_ok,
)

unfoldable pub finish_host : Emitter → ℕ → Room → EasyTier → ℕ → ℕ → Profile → Emitter × Option ℕ
finish_host e token room easytier port now profile =
    let (e', next) = transition e token (to_host_ok easytier port now profile) in
    elim next [ none ↦ (e', none) | some t ↦ (emit e' (host_ready room.code port), some t) ]

-- One round of the monitor thread: whether Minecraft answered, what the system says is alive, and the
-- time in milliseconds.
pub record Tick : Type 0 where
  pub answers : Bool
  pub alive : EasyTier → Bool
  pub now : ℕ

-- Ten seconds without a ping. A time in the future has not expired.
abbrev pub has_expired : ℕ → ℕ × Profile → Bool
has_expired now (time, p) = leb (time + 10000) now

-- The profiles behind the host's, from the last to the first: those that stay, and the machine ids of
-- those that leave.
unfoldable pub evict_guests : ℕ → List (ℕ × Profile) → List (ℕ × Profile) × List Text
evict_guests now [] = ([], [])
evict_guests now (x ∷ xs) =
    let (kept, left) = evict_guests now xs in
    if has_expired now x then (kept, left ++ x.1.machine_id ∷ []) else (x ∷ kept, left)

unfoldable pub evict : ℕ → List (ℕ × Profile) → List (ℕ × Profile) × List Text
unfolding evict_guests
evict now [] = ([], [])
evict now (x ∷ xs) = let (kept, left) = evict_guests now xs in (x ∷ kept, left)

abbrev crashed : Session → Session
crashed s = commit (record s { state = exception; error = some host_easytier_crash })

-- What follows the check of the connection.
unfoldable pub watch : Tick → ℕ → ℕ → Emitter → Emitter × Option ℕ
unfolding evict
watch tick token counter e =
    let (kept, left) = evict tick.now e.session.profiles in
    let e' = record e { session = record e.session { profiles = kept } } in
    if not (can_capture e.session token)
    then (e, none)
    else if not (runs tick.alive e.session.easytier)
    then (announce e (crashed e.session), none)
    else (
      elim left [
        | [] ↦ e'
        | m ∷ ms ↦ emit_all (commit_shared e' (λ s. s)) (map player_left (m ∷ ms))
      ],
      some counter,
    )

-- A round: the counter of failed checks for the next one, or `none` if the thread ends.
unfoldable pub monitor : Tick → ℕ → ℕ → Emitter → Emitter × Option ℕ
monitor tick token counter e =
    if tick.answers
    then watch tick token 0 e
    else if leb 3 (counter + 1)
    then ((set_exception e token ping_server_rst).0, none)
    else watch tick token (counter + 1) e
