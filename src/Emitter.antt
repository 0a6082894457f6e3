-- ===== src/Emitter.antt =====
-- The `Emitter` of src/context.rs: the session behind its lock, the bounded queue of events and the
-- shared counters. A method that runs under the lock is one step.
pub mod Queue
pub mod Writes
use terracotta_ffi.Base.{
  ℕ, ◌+◌, ◌%◌, Bool, true, false, ◌&&◌, not, List, [], ◌∷◌, ◌++◌, Option, none, some, ltb,
  if◌then◌else◌, length, Text,
}
use terracotta_ffi.Event.{Event, state_changed}
use terracotta_ffi.Session.{
  Session, SessionStateId, waiting, exception, SessionError, u64_mod, version, can_capture, commit,
  commit_shared as session_commit_shared, reset_to_waiting as session_reset_to_waiting, new_session,
}

abbrev pub event_queue_capacity : ℕ
event_queue_capacity = 256

pub record ContextConfig : Type 0 where
  pub public_nodes : List Text
  pub data_dir : Text
  pub motd : Option Text

-- `queue` holds the events sent and not yet received, oldest first; `connected` says that the
-- receiving end still exists.
pub record Emitter : Type 0 where
  pub session : Session
  pub queue : List Event
  pub connected : Bool
  pub next_seq : ℕ
  pub dropped : ℕ
  pub shutdown : Bool
  pub config : ContextConfig
  pub scaffolding_port : ℕ

-- `try_send`: a full queue counts the event as dropped, and without a receiver it is lost.
unfoldable pub emit : Emitter → Event → Emitter
emit e ev =
    let fits = ltb (length e.queue) event_queue_capacity in
    record e {
      next_seq = (e.next_seq + 1) % u64_mod;
      queue = if e.connected && fits then e.queue ++ ev ∷ [] else e.queue;
      dropped = if e.connected && not fits then (e.dropped + 1) % u64_mod else e.dropped;
    }

-- The receiving end: `poll_event` of the context.
unfoldable pub poll : Emitter → Emitter × Option Event
poll e = elim e.queue [ [] ↦ (e, none) | ev ∷ rest ↦ (record e { queue = rest }, some ev) ]

-- The `StateChanged` that follows a commit.
abbrev pub announce : Emitter → Session → Emitter
announce e s = emit (record e { session = s }) (state_changed s.state (version s))

unfoldable pub commit_shared : Emitter → (Session → Session) → Emitter
commit_shared e f = announce e (session_commit_shared (f e.session))

unfoldable pub transition : Emitter → ℕ → (Session → Session × SessionStateId) → Emitter × Option ℕ
transition e token f =
    if can_capture e.session token
    then (let (s, state) = f e.session in
        let s' = commit (record s { state = state }) in (announce e s', some (version s')))
    else (e, none)

unfoldable pub mutate : Emitter → ℕ → (Session → Session) → Emitter × Bool
mutate e token f =
    if can_capture e.session token then (announce e (commit (f e.session)), true) else (e, false)

unfoldable pub mutate_shared : Emitter → ℕ → (Session → Session) → Emitter × Bool
mutate_shared e token f =
    if can_capture e.session token
    then (announce e (session_commit_shared (f e.session)), true)
    else (e, false)

unfoldable pub set_exception : Emitter → ℕ → SessionError → Emitter × Bool
unfolding mutate
set_exception e token error =
    mutate e token (λ s. record s { state = exception; error = some error })

abbrev pub is_waiting : SessionStateId → Bool
is_waiting waiting = true
is_waiting _ = false

unfoldable pub reset_to_waiting_quietly : Emitter → Emitter × Bool
reset_to_waiting_quietly e =
    if is_waiting e.session.state
    then (e, false)
    else (record e { session = session_reset_to_waiting e.session }, true)

unfoldable pub reset_to_waiting : Emitter → Emitter × Bool
unfolding reset_to_waiting_quietly
reset_to_waiting e =
    let (e', changed) = reset_to_waiting_quietly e in
    if changed
    then (emit e' (state_changed e'.session.state (version e'.session)), true)
    else (e', false)

-- The emitter that `TerracottaContext::create` sets up.
unfoldable pub new_emitter : ContextConfig → Emitter
new_emitter config = record {
  session = new_session;
  queue = [];
  connected = true;
  next_seq = 1;
  dropped = 0;
  shutdown = false;
  config = config;
  scaffolding_port = 0;
}
