-- ===== src/Flow/Exclusive/Refines.antt =====
-- The code of the emitter, the commands and the flows takes the steps of the transition system.
use terracotta_ffi.Base.{
  ℕ, ◌≡◌, ◌≢◌, refl, ◌⊎◌, inl, inr, true, List, [], ◌++◌, map, Option, none, some, set, get_elem?,
  Text, Bool-cases, Bool, false,
}
use terracotta_ffi.Context.{
  Env, Command, create_room, join_room, set_waiting, shutdown, Role, Task, Outcome, open_room,
  start_flow, room_or_new, handle_command,
}
use terracotta_ffi.Emitter.{
  Emitter, emit, transition, set_exception, mutate, mutate_shared, commit_shared, is_waiting,
  reset_to_waiting,
}
use terracotta_ffi.Emitter.Writes.{waiting_of_is_waiting}
use terracotta_ffi.Flow.Exclusive.{System, IsQuiet, Step, start, reset, advance, fail, share}
use terracotta_ffi.Flow.Guest.{to_guest_starting, to_guest_ok}
use terracotta_ffi.Flow.Host.{to_starting, to_host_ok}
use terracotta_ffi.Profile.{Profile}
use terracotta_ffi.Room.{Room}
use terracotta_ffi.Session.Tokens.{commit-state}
use terracotta_ffi.Session.{
  Session, SessionStateId, waiting, host_scanning, guest_connecting, host_starting, host_ok,
  guest_starting, guest_ok, EasyTier, SessionError, ConnectionDifficulty, can_capture, commit,
  version,
}

abbrev pub system : Session → List ℕ → System
system s ts = record { session = s; tokens = ts }

-- What a write of a flow with its token leaves: the token is stale, nothing changes and the write returns
-- its refusal, or it is a step of the system to tokens that fit what it returns.
abbrev pub IsWrite :
    {A : Type 0} → Emitter → List ℕ → ℕ → A → Emitter × A → (A → List ℕ → Type 0) → Type 0
IsWrite e ts t refused r Next =
    ((can_capture e.session t ≡ false) × (r ≡ (e, refused)))
    ⊎ ((zs : List ℕ) × Next r.1 zs × Step (system e.session ts) (system r.0.session zs))

-- A transition gives the flow the token that it holds then, and the other writes let it keep its own.
abbrev pub IsTransition : Emitter → List ℕ → ℕ → ℕ → SessionStateId → Emitter × Option ℕ → Type 0
IsTransition e ts i t state r = IsWrite e ts t none r (λ next zs.
    (next ≡ some (version r.0.session))
    × (zs ≡ set ts i (version r.0.session))
    × (r.0.session.state ≡ state))

abbrev pub IsKeeping : Emitter → List ℕ → ℕ → Emitter × Bool → Type 0
IsKeeping e ts t r = IsWrite e ts t false r (λ written zs. (written ≡ true) × (zs ≡ ts))

transition-IsTransition :
    (e : Emitter) (ts : List ℕ) (i t : ℕ) (state : SessionStateId) (f : Session → Session)
    → IsQuiet f
    → state ≢ waiting
    → get_elem? ts i ≡ some t
    → IsTransition e ts i t state (transition e t (λ s. (f s, state)))
unfolding transition emit version
transition-IsTransition e ts i t state f q active at = elim (Bool-cases (can_capture e.session t)) [
  | inr stale ↦ rw stale (inl (refl, refl))
  | inl good ↦
      let p : Session = record (f e.session) { state = state } in
      rw good (
        inr (
          set ts i (commit p).index,
          (refl, refl, commit-state p),
          advance i t state f q at good active refl refl,
        ))
]

set_exception-IsKeeping :
    (e : Emitter) (ts : List ℕ) (i t : ℕ) (error : SessionError)
    → get_elem? ts i ≡ some t
    → IsKeeping e ts t (set_exception e t error)
unfolding set_exception mutate emit
set_exception-IsKeeping e ts i t error at = elim (Bool-cases (can_capture e.session t)) [
  | inr stale ↦ rw stale (inl (refl, refl))
  | inl good ↦ rw good (inr (ts, (refl, refl), fail i t error at good refl refl))
]

mutate_shared-IsKeeping :
    (e : Emitter) (ts : List ℕ) (t : ℕ) (f : Session → Session)
    → IsQuiet f
    → IsKeeping e ts t (mutate_shared e t f)
unfolding mutate_shared emit
mutate_shared-IsKeeping e ts t f q = elim (Bool-cases (can_capture e.session t)) [
  | inr stale ↦ rw stale (inl (refl, refl))
  | inl good ↦ rw good (inr (ts, (refl, refl), share f q refl refl))
]

-- Whatever a flow writes with the token that it holds, by one of the four transitions, an exception or the
-- report of the difficulty: if the token is stale, nothing changes and the write
-- reports that, and a transition hands out no token. Otherwise the write is one step of the system; after
-- a transition the session is in the state that was asked for and the flow holds the version of the
-- session, which is what the transition returns, and after the other writes the tokens are the same.
pub flow_writes-Step :
    (e : Emitter) (ts : List ℕ) (i t port now : ℕ) (et : EasyTier) (p : Profile) (motd : Text)
    (error : SessionError) (d : ConnectionDifficulty)
    → get_elem? ts i ≡ some t
    → IsTransition e ts i t host_starting (transition e t (to_starting port))
      × IsTransition e ts i t host_ok (transition e t (to_host_ok et port now p))
      × IsTransition e ts i t guest_starting (transition e t (to_guest_starting et))
      × IsTransition e ts i t guest_ok (transition e t (to_guest_ok port motd now p))
      × IsKeeping e ts t (set_exception e t error)
      × IsKeeping e ts t (mutate_shared e t (λ s. record s { difficulty = some d }))
flow_writes-Step e ts i t port now et p motd error d at = (
  transition-IsTransition e ts i t host_starting (λ s. (to_starting port s).0)
      (record { index_eq = λ s. refl; sharing_eq = λ s. refl; state_eq = λ s. refl }) (λ h. cc) at,
  transition-IsTransition e ts i t host_ok (λ s. (to_host_ok et port now p s).0)
      (record { index_eq = λ s. refl; sharing_eq = λ s. refl; state_eq = λ s. refl }) (λ h. cc) at,
  transition-IsTransition e ts i t guest_starting (λ s. (to_guest_starting et s).0)
      (record { index_eq = λ s. refl; sharing_eq = λ s. refl; state_eq = λ s. refl }) (λ h. cc) at,
  transition-IsTransition e ts i t guest_ok (λ s. (to_guest_ok port motd now p s).0)
      (record { index_eq = λ s. refl; sharing_eq = λ s. refl; state_eq = λ s. refl }) (λ h. cc) at,
  set_exception-IsKeeping e ts i t error at,
  mutate_shared-IsKeeping e ts t (λ s. record s { difficulty = some d })
      (record { index_eq = λ s. refl; sharing_eq = λ s. refl; state_eq = λ s. refl }),
)

-- Every shared commit is a step.
pub commit_shared-Step :
    (e : Emitter) (ts : List ℕ) (f : Session → Session)
    → IsQuiet f
    → Step (system e.session ts) (system (commit_shared e f).session ts)
unfolding commit_shared emit
commit_shared-Step e ts f q = share f q refl refl

-- What a command leaves: the session as it was and no flow, or a step that adds the flows it starts.
abbrev pub Stays : Emitter → Outcome → Type 0
Stays e r = (r.0.session ≡ e.session) × (r.1 ≡ [])

abbrev pub Moves : Emitter → List ℕ → Outcome → Type 0
Moves e ts r =
    Step (system e.session ts) (system r.0.session (map (λ (k : Task). k.token) r.1 ++ ts))

start_flow-Moves :
    (e : Emitter) (ts : List ℕ) (role : Role) (state : SessionStateId) (room : Room)
    (name : Option Text) (nodes : List Text)
    → state ≢ waiting
    → Stays e (start_flow e role state room name nodes)
      ⊎ Moves e ts (start_flow e role state room name nodes)
unfolding start_flow emit
start_flow-Moves e ts role state room name nodes active =
    elim (Bool-cases (is_waiting e.session.state)) [
      | inl w ↦ rw w (
          inr (
            start state (λ s. record s { room = some room; port = none })
              (record { index_eq = λ s. refl; sharing_eq = λ s. refl; state_eq = λ s. refl })
              (waiting_of_is_waiting e.session.state w) active refl refl))
      | inr w ↦ rw w (inl (refl, refl))
    ]

open_room-Moves :
    (e : Emitter) (ts : List ℕ) (role : Role) (state : SessionStateId) (shown : Text)
    (o : Option Room) (name : Option Text) (nodes : List Text)
    → state ≢ waiting
    → Stays e (open_room e role state shown o name nodes)
      ⊎ Moves e ts (open_room e role state shown o name nodes)
unfolding open_room emit
open_room-Moves e ts role state shown none name nodes active = inl (refl, refl)
open_room-Moves e ts role state shown (some room) name nodes active =
    start_flow-Moves e ts role state room name nodes active

reset-Moves :
    (e : Emitter) (ts : List ℕ)
    → ((reset_to_waiting e).0.session ≡ e.session)
      ⊎ Step (system e.session ts) (system (reset_to_waiting e).0.session ts)
unfolding reset_to_waiting emit
reset-Moves e ts = elim (Bool-cases (is_waiting e.session.state)) [
  | inl w ↦ rw w (inl refl)
  | inr w ↦ rw w (inr (reset (λ s. cc w) refl refl))
]

-- Every command either leaves the session as it was and starts no flow, or takes one step of the
-- system that adds the tokens of the flows it starts.
pub handle_command-Moves :
    (env : Env) (e : Emitter) (ts : List ℕ) (c : Command)
    → Stays e (handle_command env e c) ⊎ Moves e ts (handle_command env e c)
unfolding handle_command
handle_command-Moves env e ts shutdown = inl (refl, refl)
handle_command-Moves env e ts set_waiting = elim (reset-Moves e ts) [
  | inl s ↦ inl (s, refl)
  | inr s ↦ inr s
]
handle_command-Moves env e ts (create_room name code nodes) =
    open_room-Moves e ts Role.host host_scanning (env.debug code) (room_or_new env code) name nodes
      (λ h. cc)
handle_command-Moves env e ts (join_room code name nodes) =
    open_room-Moves e ts Role.guest guest_connecting code _ name nodes (λ h. cc)
