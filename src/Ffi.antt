-- ===== src/Ffi.antt =====
-- src/ffi.rs, the C functions. A handle is the record behind it, or `none` for a null pointer; a call
-- returns the record as it leaves it. A C string is the bytes before its zero byte, or `none` for null.
-- The commands between two calls are handled by `run_main` of Context.antt.
pub mod Calls
pub mod Memory
pub mod Values
use terracotta_ffi.Base.{
  ℕ, Bool, true, false, List, [], ◌∷◌, ◌++◌, Option, none, some, ◌==◌, ◌&&◌, not, if◌then◌else◌,
  length, Text, Bytes,
}
use mathlib.Core.Option
use terracotta_ffi.Base.Utf8.{encode, decode}
use terracotta_ffi.Json.{Json}
use terracotta_ffi.Event.{Event, payload_json, type_id, state_number}
use terracotta_ffi.Room.{Room, parse, verify}
use terracotta_ffi.Emitter.{ContextConfig, is_waiting}
use terracotta_ffi.Ffi.Values.{
  Code, ok, invalid_handle, invalid_argument, bad_state, invalid_room_code, already_active,
  no_event, Result, done, failed, ◌>>=◌, ForeignString, ForeignConfig, TerracottaString,
  TerracottaEvent, TerracottaState, make_string, read_string, room_code_from_c, player_name_from_c,
}
use terracotta_ffi.Context.{
  Context, Command, default_config, create_room, join_room, set_waiting, new_context, set_config,
  submit, poll_event, session_snapshot, destroy,
}

pub record HandleRecord : Type 0 where
  pub destroyed : Bool
  pub context : Option Context

abbrev pub Handle : Type 0
Handle = Option HandleRecord

-- What the functions find outside the program: `std::env::temp_dir().join("conic-terracotta")`, whether the archive unpacks,
-- the JSON printer, and the port that the scaffolding server is given.
pub record Env : Type 0 where
  pub default_dir : Text
  pub unpacks : Bool
  pub print : Json → Text
  pub port : ℕ

-- `HandleRecord::get`, then `with`.
unfoldable pub context_of : Handle → Result Context
context_of none = failed invalid_handle
context_of (some r) =
    if r.destroyed
    then failed invalid_handle
    else (elim r.context [ none ↦ failed invalid_handle | some c ↦ done c ])

unfoldable pub require_waiting : Context → Result (Unit {0})
require_waiting c = if is_waiting c.emitter.session.state then done tt else failed already_active

abbrev pub put : Context → Handle
put c = some (record { destroyed = false; context = some c })

-- The end of every function: the new context and the code, or the handle as it was and an error.
abbrev pub finish : Handle → Result Context → Handle × Code
finish h (done c) = (put c, ok)
finish h (failed code) = (h, code)

-- `terracotta_create`: `ContextConfig::default` has no nodes and no message.
unfoldable pub terracotta_create : Env → Option Text → Handle
terracotta_create env factory =
    elim (new_context env.unpacks factory (default_config env.default_dir) env.port) [
      | none ↦ none
      | some c ↦ put c
    ]

unfoldable pub terracotta_destroy : Handle → Handle × Option Context
terracotta_destroy none = (none, none)
terracotta_destroy (some r) =
    if r.destroyed
    then (some r, none)
    else (some (record { destroyed = true; context = none }), Option.map destroy r.context)

unfoldable pub read_nodes : List ForeignString → Result (List Text)
read_nodes [] = done []
read_nodes (s ∷ ss) = do node ← read_string s; nodes ← read_nodes ss; done (node ∷ nodes)

abbrev nodes_or_none : Option (List ForeignString) → List ForeignString
nodes_or_none none = []
nodes_or_none (some ss) = ss

abbrev or_default : Text → Text → Text
or_default default [] = default
or_default default (c ∷ cs) = c ∷ cs

abbrev non_empty : Text → Option Text
non_empty [] = none
non_empty (c ∷ cs) = some (c ∷ cs)

-- The configuration that a C configuration stands for.
unfoldable pub read_config : Text → Option ForeignConfig → Result ContextConfig
read_config dir none = done (default_config dir)
read_config default (some f) = do
  nodes ← read_nodes (nodes_or_none f.public_nodes)
  dir ← read_string f.data_dir
  motd ← read_string f.motd
  done (record { public_nodes = nodes; data_dir = or_default default dir; motd = non_empty motd })

-- `terracotta_configure`, when no command is handled between its two looks at the state.
unfoldable pub terracotta_configure : Env → Handle → Option ForeignConfig → Handle × Code
terracotta_configure env h config = finish h (do
  c ← context_of h
  config ← read_config env.default_dir config
  if is_waiting c.emitter.session.state
      then done (set_config env.unpacks c config)
      else failed bad_state)

unfoldable pub terracotta_create_room : Handle → Option Bytes → Option Bytes → Handle × Code
terracotta_create_room h player_name room_code = finish h (do
  c ← context_of h
  code ← room_code_from_c room_code
  name ← player_name_from_c player_name
  _ ← require_waiting c
  done (submit c (create_room name code [])))

-- The room code of a guest: it must be there, and it must parse.
unfoldable pub joined_code : Option Bytes → Result Text
joined_code none = failed invalid_argument
joined_code (some bytes) = elim (decode bytes) [
  | none ↦ failed invalid_argument
  | some code ↦ elim (parse code) [ none ↦ failed invalid_room_code | some _ ↦ done code ]
]

unfoldable pub terracotta_join_room : Handle → Option Bytes → Option Bytes → Handle × Code
terracotta_join_room h room_code player_name = finish h (do
  c ← context_of h
  code ← joined_code room_code
  name ← player_name_from_c player_name
  _ ← require_waiting c
  done (submit c (join_room code name [])))

unfoldable pub terracotta_set_waiting : Handle → Handle × Code
terracotta_set_waiting h = finish h (do c ← context_of h; done (submit c set_waiting))

-- The two functions that write to `out`, which is null or not.
unfoldable pub terracotta_get_state : Env → Handle → Bool → Result TerracottaState
terracotta_get_state env h out = do
  c ← context_of h
  if not out then failed invalid_argument else (do
    code ← make_string (session_snapshot c).room_code
    detail ← make_string (env.print (session_snapshot c).detail)
    done (record {
      version = (session_snapshot c).version;
      state = state_number (session_snapshot c).state;
      room_code = code;
      detail = detail;
    }))

-- The sequence number is the one that the next event will get, whatever number this event got.
unfoldable pub export_event : Env → ℕ → Event → Result TerracottaEvent
export_event env sequence ev = do
  payload ← make_string (env.print (payload_json ev))
  done (record { sequence = sequence; type = type_id ev; payload = payload })

-- The event is off the queue before its payload is made.
unfoldable pub terracotta_poll_event : Env → Handle → Bool → Handle × Result TerracottaEvent
terracotta_poll_event env h out = elim (context_of h) [
  | failed code ↦ (h, failed code)
  | done c ↦
      if not out
      then (h, failed invalid_argument)
      else (let (c', got) = poll_event c in
          elim got [
            | none ↦ (h, failed no_event)
            | some ev ↦ (put c', export_event env c'.emitter.next_seq ev)
          ])
]

-- 3 for a code that parses; `none` stands for -1.
unfoldable pub terracotta_verify_room_code : Option Bytes → Option ℕ
terracotta_verify_room_code none = none
terracotta_verify_room_code (some bytes) = elim (decode bytes) [
  | none ↦ none
  | some s ↦ (if verify s then some 3 else none)
]
