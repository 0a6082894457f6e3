-- ===== src/Context/Commands.antt =====
-- What each command does to the session, on every branch.
use terracotta_ffi.Base.{
  ℕ, ◌+◌, ◌%◌, ◌<◌, ◌≡◌, refl, sym, ap, ◌∙◌, ◌⊎◌, ◌↔◌, ◌≢◌, inl, inr, true, false, List, [], ◌∷◌,
  ◌++◌, Option, none, some, Text, arith, Bool-cases, codes, leb,
}
use terracotta_ffi.Event.{error_event}
use terracotta_ffi.Room.{Room, parse}
use terracotta_ffi.Session.{
  Session, SessionStateId, waiting, host_scanning, guest_connecting, u64_mod, can_capture, commit,
}
use terracotta_ffi.Session.Tokens.{can_capture-commit}
use terracotta_ffi.Emitter.{Emitter, emit, is_waiting}
use terracotta_ffi.Context.{
  create_room, join_room, Env, Task, Role, Outcome, start_flow, open_room, room_or_new,
  handle_command, busy, invalid_room_code,
}

-- A command that is turned away: the session, the queue's receiver and the configuration stay, nothing
-- is started, and one error event with this code is sent.
abbrev pub Refused : Emitter → ℕ → Outcome → Type 0
Refused e code r = (message : Text) × (r ≡ (emit e (error_event code message), [], false))

-- A command that is accepted: one flow of the role starts with the next token, which is good, while
-- every one before it is not.
abbrev pub Started : Emitter → Role → SessionStateId → Room → Outcome → Type 0
Started e role state room r =
    (task : Task) × (r.1 ≡ task ∷ [])
    × (r.2 ≡ false)
    × (task.role ≡ role)
    × (task.room ≡ room)
    × (r.0.session.state ≡ state)
    × (r.0.session.room ≡ some room)
    × (task.token ≡ e.session.index + 1)
    × ((u : ℕ) → can_capture r.0.session u ≡ leb task.token u)

start_flow-busy :
    (e : Emitter) (role : Role) (state : SessionStateId) (room : Room) (name : Option Text)
    (nodes : List Text)
    → is_waiting e.session.state ≡ false
    → Refused e busy (start_flow e role state room name nodes)
unfolding start_flow
start_flow-busy e role state room name nodes w = (codes "a session is already active", rw w)

start_flow-Started :
    (e : Emitter) (role : Role) (state : SessionStateId) (room : Room) (name : Option Text)
    (nodes : List Text)
    → e.session.index + 1 < u64_mod
    → is_waiting e.session.state ≡ true
    → Started e role state room (start_flow e role state room name nodes)
unfolding start_flow emit commit
start_flow-Started e role state room name nodes h w =
    let s : Session = record e.session { room = some room; port = none; state = state } in
    let task : Task = record {
      role = role;
      token = (e.session.index + 1) % u64_mod;
      room = room;
      player_name = name;
      public_nodes = nodes;
      config = e.config;
    } in
    let next : task.token ≡ e.session.index + 1 = omega arith in
    rw w (
      task,
      refl,
      refl,
      refl,
      refl,
      refl,
      refl,
      next,
      λ u. can_capture-commit s u h ∙ ap (λ n. leb n u) (sym next),
    )

-- The answer to a room command, from the room that its code names.
abbrev pub Answer : Emitter → Role → SessionStateId → Option Room → Outcome → Type 0
Answer e role state none r = Refused e invalid_room_code r
Answer e role state (some room) r =
    ((e.session.state ≢ waiting) × Refused e busy r)
    ⊎ ((e.session.state ≡ waiting) × Started e role state room r)

is_waiting_iff : (s : SessionStateId) → (is_waiting s ≡ true) ↔ (s ≡ waiting)
is_waiting_iff s = (λ h. ground arith, λ h. rw h)

start_flow-Answer :
    (e : Emitter) (role : Role) (state : SessionStateId) (room : Room) (name : Option Text)
    (nodes : List Text)
    → e.session.index + 1 < u64_mod
    → Answer e role state (some room) (start_flow e role state room name nodes)
start_flow-Answer e role state room name nodes h = elim (Bool-cases (is_waiting e.session.state)) [
  | inl w ↦
      inr
        ((is_waiting_iff e.session.state).0 w, start_flow-Started e role state room name nodes h w)
  | inr w ↦ inl (
    λ same. cc (w, (is_waiting_iff e.session.state).1 same),
    start_flow-busy e role state room name nodes w,
  )
]

open_room-Answer :
    (e : Emitter) (role : Role) (state : SessionStateId) (shown : Text) (o : Option Room)
    (name : Option Text) (nodes : List Text)
    → e.session.index + 1 < u64_mod
    → Answer e role state o (open_room e role state shown o name nodes)
unfolding open_room
open_room-Answer e role state shown none name nodes h = (codes "invalid room code: " ++ shown, refl)
open_room-Answer e role state shown (some room) name nodes h =
    start_flow-Answer e role state room name nodes h

-- `CreateRoom` hosts the room of its code, or a new one without a code. Below the end of the
-- counter, a code that `parse` refuses is an error 1, an active session an error 2, and in the
-- waiting state the host flow starts with the only good token.
pub create_room-Answer :
    (env : Env) (e : Emitter) (name code : Option Text) (nodes : List Text)
    → e.session.index + 1 < u64_mod
    → Answer e Role.host host_scanning
        (room_or_new env code)
        (handle_command env e (create_room name code nodes))
unfolding handle_command
create_room-Answer env e name code nodes h =
    open_room-Answer e Role.host host_scanning (env.debug code) (room_or_new env code) name nodes h

-- `JoinRoom` joins the room of its code. Below the end of the counter, a code that `parse` refuses
-- is an error 1, an active session an error 2, and in the waiting state the guest flow starts with
-- the only good token.
pub join_room-Answer :
    (env : Env) (e : Emitter) (code : Text) (name : Option Text) (nodes : List Text)
    → e.session.index + 1 < u64_mod
    → Answer e Role.guest guest_connecting
        (parse code)
        (handle_command env e (join_room code name nodes))
unfolding handle_command
join_room-Answer env e code name nodes h =
    open_room-Answer e Role.guest guest_connecting code (parse code) name nodes h
