-- ===== src/Context.antt =====
-- `TerracottaContext`, `run_main` and `handle_command` of src/context.rs, with src/command.rs.
pub mod Commands
pub mod Destruction
pub mod Loop
use terracotta_ffi.Base.{
  ℕ, ◌+◌, ◌%◌, Bool, true, false, List, [], ◌∷◌, ◌++◌, Option, none, some, if◌then◌else◌, Text,
  Bytes, text_eq, codes,
}
use terracotta_ffi.Crate.{ErrorCode, error_code_number}
use terracotta_ffi.Event.{Event, state_changed, error_event}
use terracotta_ffi.Room.{Room, parse, create}
use terracotta_ffi.Session.{
  Session, SessionStateId, host_scanning, guest_connecting, version, commit,
}
use terracotta_ffi.Snapshot.{Snapshot, snapshot}
use terracotta_ffi.Emitter.{
  Emitter, ContextConfig, new_emitter, emit, announce, poll, is_waiting, reset_to_waiting,
  reset_to_waiting_quietly,
}

-- `ContextConfig::default`, whose directory lies in the one for temporary files.
abbrev pub default_config : Text → ContextConfig
default_config dir = record { public_nodes = []; data_dir = dir; motd = none }

pub data Command : Type 0 where
  create_room : Option Text → Option Text → List Text → Command
  join_room : Text → Option Text → List Text → Command
  set_waiting : Command
  shutdown : Command

-- `ErrorCode as u32` of lib.rs, for the two codes that commands use.
abbrev pub invalid_room_code : ℕ
invalid_room_code = error_code_number ErrorCode.invalid_room_code

abbrev pub busy : ℕ
busy = error_code_number ErrorCode.busy

pub data Role : Type 0 where
  host guest : Role

-- A call of `run_host` or `run_guest` that `spawn_blocking` has started.
pub record Task : Type 0 where
  pub role : Role
  pub token : ℕ
  pub room : Room
  pub player_name : Option Text
  pub public_nodes : List Text
  pub config : ContextConfig

-- What a command finds outside the program: the random bytes of `Room::create`, and the `Debug`
-- printer of an optional string.
pub record Env : Type 0 where
  pub random : Bytes
  pub debug : Option Text → Text

-- The emitter and the tasks started, and whether `run_main` stops.
abbrev pub Outcome : Type 0
Outcome = Emitter × List Task × Bool

abbrev busy_outcome : Emitter → Outcome
busy_outcome e = (emit e (error_event busy (codes "a session is already active")), [], false)

-- The second half of both room commands: take the session, announce it and start the flow.
unfoldable pub start_flow :
    Emitter → Role → SessionStateId → Room → Option Text → List Text → Outcome
start_flow e role state room name nodes =
    if is_waiting e.session.state
    then (let s = commit (record e.session { room = some room; port = none; state = state }) in
        let task : Task = record {
          role = role;
          token = s.index;
          room = room;
          player_name = name;
          public_nodes = nodes;
          config = e.config;
        } in
        (announce e s, task ∷ [], false))
    else busy_outcome e

-- The `let Some(room) = … else` that heads both.
unfoldable pub open_room :
    Emitter → Role → SessionStateId → Text → Option Room → Option Text → List Text → Outcome
open_room e role state shown none name nodes =
    (emit e (error_event invalid_room_code (codes "invalid room code: " ++ shown)), [], false)
open_room e role state shown (some room) name nodes = start_flow e role state room name nodes

-- `room_code.as_deref().map(Room::parse).unwrap_or(Some(Room::create()))`.
abbrev pub room_or_new : Env → Option Text → Option Room
room_or_new env none = some (create env.random)
room_or_new env (some code) = parse code

unfoldable pub handle_command : Env → Emitter → Command → Outcome
handle_command env e shutdown = (e, [], true)
handle_command env e set_waiting = ((reset_to_waiting e).0, [], false)
handle_command env e (create_room name code nodes) =
    open_room e Role.host host_scanning (env.debug code) (room_or_new env code) name nodes
handle_command env e (join_room code name nodes) =
    open_room e Role.guest guest_connecting code (parse code) name nodes

-- The commands that `recv` yields, each with what it finds; it stops at a shutdown or a closed channel.
unfoldable pub run_main : Emitter → List (Env × Command) → Emitter × List Task
run_main e [] = (e, [])
run_main e ((env, c) ∷ cs) =
    let (e', started, stop) = handle_command env e c in
    let (e'', later) = run_main e' cs in
    if e.shutdown then (e, []) else if stop then (e', started) else (e'', started ++ later)

-- The context: its emitter, the commands sent and not yet handled, whether the scaffolding server and
-- the command thread still run, and the data directory of the process-wide EasyTier factory.
pub record Context : Type 0 where
  pub emitter : Emitter
  pub commands : List Command
  pub serving : Bool
  pub joined : Bool
  pub factory : Option Text

-- `easytier::initialize`, whose unpacking of the archive succeeds or not.
unfoldable pub initialize : Bool → Option Text → Text → Option Text × Bool
initialize unpacks none dir = if unpacks then (some dir, true) else (none, false)
initialize unpacks (some old) dir =
    if text_eq old dir
    then (some old, true)
    else if unpacks
    then (some dir, true)
    else (some old, false)

-- `create`, once the factory, the runtime and the server on `port` are up.
unfoldable pub new_context : Bool → Option Text → ContextConfig → ℕ → Option Context
new_context unpacks factory config port =
    let (factory', ready) = initialize unpacks factory config.data_dir in
    if ready
    then some (record {
      emitter = record (new_emitter config) { scaffolding_port = port };
      commands = [];
      serving = true;
      joined = false;
      factory = factory';
    })
    else none

unfoldable pub set_config : Bool → Context → ContextConfig → Context
set_config unpacks c config =
    if is_waiting c.emitter.session.state
    then record c {
      emitter = record c.emitter { config = config };
      factory = (initialize unpacks c.factory config.data_dir).0;
    }
    else c

unfoldable pub submit : Context → Command → Context
submit c command = record c { commands = c.commands ++ command ∷ [] }

unfoldable pub poll_event : Context → Context × Option Event
poll_event c = let (e, ev) = poll c.emitter in (record c { emitter = e }, ev)

unfoldable pub session_snapshot : Context → Snapshot
session_snapshot c = snapshot c.emitter.session

-- The actions that `destroy` makes one after the other. Each has a lock or an atomic of its own, and
-- other threads may act between them: Context/Destruction has their interleavings.
pub data DestroyAction : Type 0 where
  reset_session stop_server raise_flag send_shutdown : DestroyAction

unfoldable pub act : DestroyAction → Context → Context
unfolding reset_to_waiting_quietly submit
act reset_session c = record c { emitter = (reset_to_waiting_quietly c.emitter).0 }
act stop_server c = record c { serving = false }
act raise_flag c = record c { emitter = record c.emitter { shutdown = true } }
act send_shutdown c = submit c shutdown

abbrev pub act_all : List DestroyAction → Context → Context
act_all [] c = c
act_all (a ∷ actions) c = act_all actions (act a c)

abbrev pub shutdown_actions : List DestroyAction
shutdown_actions = raise_flag ∷ send_shutdown ∷ []

abbrev pub destroy_actions : List DestroyAction
destroy_actions = reset_session ∷ stop_server ∷ shutdown_actions

-- With no other thread between its actions.
unfoldable pub request_shutdown : Context → Context
unfolding act
request_shutdown c = act_all shutdown_actions c

-- With no other thread between its actions, and the command thread after them, for which it waits.
unfoldable pub destroy : Context → Context
unfolding act
destroy c = record (act_all destroy_actions c) { joined = true }
