-- ===== src/Flow/Host/Run.antt =====
-- `run_host` of src/flow.rs as a whole, up to the start of its monitor, when nobody else writes to the
-- session meanwhile.
use terracotta_ffi.Base.{
  ℕ, ◌+◌, ◌<◌, ◌≡◌, refl, true, false, List, [], ◌∷◌, Option, none, some, map, Text, arith,
  Option-cases, inl, inr,
}
use terracotta_ffi.Emitter.{Emitter, emit, announce, transition}
use terracotta_ffi.Profile.{Profile}
use terracotta_ffi.Room.{Room}
use terracotta_ffi.Session.{Session, EasyTier, host_ok, u64_mod, version, can_capture, commit}
use terracotta_ffi.Session.Tokens.{
  commit-index, commit-state, commit_keeps, can_capture-commit_self,
}
use terracotta_ffi.Flow.Host.{
  Look, found, cancelled, pending, scan, to_starting, start_host, host_profile, to_host_ok,
  finish_host,
}

-- What the flow finds outside the program: the ports at each look at the scanner, the EasyTier that it
-- starts, the machine id and the time.
pub record World : Type 0 where
  pub looks : List (List ℕ)
  pub easytier : EasyTier
  pub machine_id : Option Text
  pub vendor : Text
  pub now : ℕ

-- The flow has started its monitor with a token, has returned, or still scans after these looks.
pub data Outcome : Type 0 where
  hosting : Emitter → ℕ → Outcome
  returned : Emitter → Outcome
  scanning : Outcome

abbrev pub or_return : Emitter × Option ℕ → (Emitter → ℕ → Outcome) → Outcome
or_return (e, none) f = returned e
or_return (e, some token) f = f e token

abbrev look_at : Emitter → List ℕ → Look
look_at e ports = record { ports = ports; emitter = e }

unfoldable pub run_host : World → Room → Option Text → Emitter → ℕ → Outcome
run_host w room player_name e token = elim (scan token (map (look_at e) w.looks)) [
  | pending ↦ scanning
  | cancelled ↦ returned e
  | found port ↦ or_return (start_host e token port) λ e token.
      or_return
        (finish_host e token room w.easytier port w.now
          (host_profile w.machine_id player_name w.vendor))
        hosting
]

-- The port that the scanner reports first.
abbrev pub first_port : List (List ℕ) → Option ℕ
first_port [] = none
first_port ([] ∷ looks) = first_port looks
first_port ((port ∷ ports) ∷ looks) = some port

scan-first_port :
    (e : Emitter) (t : ℕ) (looks : List (List ℕ))
    → can_capture e.session t ≡ true
    → e.shutdown ≡ false
    → scan t (map (look_at e) looks)
      ≡ elim (first_port looks) [ none ↦ pending | some port ↦ found port ]
unfolding scan
scan-first_port e t [] good up = refl
scan-first_port e t ([] ∷ looks) good up = rw (up, good, scan) (scan-first_port e t looks good up)
scan-first_port e t ((port ∷ ports) ∷ looks) good up = refl

-- A host in HostOk: its EasyTier, its port and itself in the session, and its token good.
pub record IsHosting (easytier : EasyTier) (port now : ℕ) (own : Profile) (e : Emitter) (t : ℕ)
    : Type 0 where
  pub good : can_capture e.session t ≡ true
  pub running : e.session.state ≡ host_ok
  pub started : e.session.easytier ≡ some easytier
  pub at_port : e.session.port ≡ some port
  pub alone : e.session.profiles ≡ (now, own) ∷ []

abbrev pub Hosts : EasyTier → Option ℕ → ℕ → Profile → Outcome → Type 0
Hosts easytier (some port) now own (hosting e t) = IsHosting easytier port now own e t
Hosts easytier none now own scanning = Unit
Hosts easytier port now own o = ⊥

finished :
    (e : Emitter) (t port now : ℕ) (room : Room) (easytier : EasyTier) (own : Profile)
    → e.session.index + 1 < u64_mod
    → can_capture e.session t ≡ true
    → Hosts easytier
        (some port)
        now
        own
        (or_return (finish_host e t room easytier port now own) hosting)
unfolding finish_host transition emit version
finished e t port now room easytier own below good =
    let (s, state) = to_host_ok easytier port now own e.session in
    let s' : Session = record s { state = state } in
    rw (finish_host, transition, good, transition, good)
      (record {
        good = can_capture-commit_self s' below;
        running = commit-state s';
        started = (commit_keeps s').0;
        at_port = (commit_keeps s').2;
        alone = (commit_keeps s').3;
      })

-- A host flow with a good token in a session two commits below the end of the counter, in a context
-- that is not shut down, and with the session to itself: once the scanner reports a port the flow
-- comes to its end with the first one, in HostOk with a good token, its EasyTier and its port in the
-- session and the host alone in the list. Until then it scans.
pub run_host-Hosts :
    (w : World) (room : Room) (player_name : Option Text) (e : Emitter) (t : ℕ)
    → e.session.index + 2 < u64_mod
    → can_capture e.session t ≡ true
    → e.shutdown ≡ false
    → Hosts w.easytier
        (first_port w.looks)
        w.now
        (host_profile w.machine_id player_name w.vendor)
        (run_host w room player_name e t)
unfolding run_host start_host transition emit version
run_host-Hosts w room player_name e t below good up = elim (Option-cases (first_port w.looks)) [
  | inl n ↦ rw (run_host, scan-first_port e t w.looks good up, n) tt
  | inr (port, n) ↦
      let (s, state) = to_starting port e.session in
      let s' : Session = record s { state = state } in
      let fresh : s'.index + 1 < u64_mod = omega arith in
      rw (run_host, scan-first_port e t w.looks good up, n, good)
        (finished (announce e (commit s')) (commit s').index port w.now room w.easytier
          (host_profile w.machine_id player_name w.vendor) (omega (arith, commit-index s' fresh))
          (can_capture-commit_self s' fresh))
]
