-- ===== src/Examples/Suite/Exports.antt =====
-- The unit tests of src/ffi.rs.
use terracotta_ffi.Base.{
  ℕ, zero, suc, ◌≡◌, refl, Bool, true, false, ◌&&◌, [], Option, none, some, ◌==◌, if◌then◌else◌,
  length, replicate, Bytes, Text, codes, text_eq,
}
use mathlib.Core.Option
use terracotta_ffi.Base.Utf8.{encode, encode_char, decode, decode_from}
use terracotta_ffi.Event.{state_number, type_id}
use terracotta_ffi.Snapshot.{snapshot}
use terracotta_ffi.Room.{
  create, parse, verify, parse_window, scan_digits, lookup_char, position, from_value,
  from_value_loop, char_at,
}
use terracotta_ffi.Session.{
  waiting, host_scanning, commit, new_session, version,
  reset_to_waiting as session_reset_to_waiting,
}
use terracotta_ffi.Emitter.{
  ContextConfig, new_emitter, emit, poll, reset_to_waiting, reset_to_waiting_quietly,
}
use terracotta_ffi.Context.{
  Env as Found, new_context, initialize, set_config, submit, poll_event, session_snapshot,
  request_shutdown, destroy, run_main, handle_command, open_room, start_flow,
}
use terracotta_ffi.Ffi.Values.{
  Code, ok, invalid_handle, invalid_room_code, no_event, Result, done, failed, TerracottaState,
  TerracottaString, make_string, read_string, room_code_from_c, player_name_from_c,
}
use terracotta_ffi.Ffi.{
  Handle, Env, context_of, terracotta_create, terracotta_destroy, terracotta_configure,
  terracotta_create_room, terracotta_join_room, terracotta_set_waiting, terracotta_get_state,
  terracotta_poll_event, terracotta_verify_room_code, require_waiting, joined_code, read_config,
  read_nodes, export_event,
}
use terracotta_ffi.Client.{code_number}
use terracotta_ffi.Examples.Suite.{is_none, wait}

unfoldable same_code : Code → Code → Bool
unfolding code_number
same_code a b = text_eq (code_number a) (code_number b)

unfoldable has_failed : {A : Type 0} → Code → Result A → Bool
has_failed code (done a) = false
has_failed code (failed found) = same_code code found

unfoldable state_satisfies : (TerracottaState → Bool) → Result TerracottaState → Bool
state_satisfies test (done s) = test s
state_satisfies test (failed code) = false

unfoldable has_length : ℕ → TerracottaString → Bool
has_length n none = false
has_length n (some bytes) = length bytes == n

-- The verdicts on room codes; the version is a constant of the build.
unfoldable version_and_verify : Bytes → Bool
version_and_verify random =
    elim (terracotta_verify_room_code (some (encode (create random).code))) [
      | none ↦ false
      | some n ↦ n == 3
    ]
    && is_none (terracotta_verify_room_code (some (codes "not-a-code")))
    && is_none (terracotta_verify_room_code none)

-- A wait of the test.
unfoldable wait_handle : Found → Handle → Handle
wait_handle found none = none
wait_handle found (some r) = some (record r { context = Option.map (wait found) r.context })

-- The polls until an event of type 1 comes.
unfoldable await_state_changed : ℕ → Env → Handle → Handle × Bool
await_state_changed zero env h = (h, false)
await_state_changed (suc n) env h =
    let (h', got) = terracotta_poll_event env h true in
    let later = await_state_changed n env h' in
    elim got [ failed code ↦ later | done event ↦ (if event.type == 1 then (h', true) else later) ]

unfoldable create_room_poll_events_and_destroy : Env → Found → Handle → Bool
create_room_poll_events_and_destroy env found handle =
    let created = terracotta_create_room handle (some (codes "test-player")) none in
    let polled = await_state_changed 8 env (wait_handle found created.0) in
    let asked = terracotta_set_waiting polled.0 in
    let stopped = wait_handle found asked.0 in
    let handle = (terracotta_destroy (terracotta_destroy stopped).0).0 in
    same_code created.1 ok
    && polled.1
    && state_satisfies (λ s. (s.state == state_number host_scanning) && has_length 21 s.room_code)
        (terracotta_get_state env polled.0 true)
    && same_code asked.1 ok
    && state_satisfies (λ s. s.state == state_number waiting)
        (terracotta_get_state env stopped true)
    && same_code (terracotta_set_waiting handle).1 invalid_handle
    && has_failed invalid_handle (terracotta_get_state env handle true)

unfoldable invalid_handle_and_bad_room_code : Env → Handle → Bool
invalid_handle_and_bad_room_code env handle =
    let created = terracotta_create_room handle none (some (codes "U/INVALID")) in
    let joined = terracotta_join_room created.0 (some (codes "U/AAAA-AAAA-AAAA-AAA")) none in
    same_code created.1 invalid_room_code
    && same_code joined.1 invalid_room_code
    && has_failed invalid_handle (terracotta_get_state env none true)
    && has_failed no_event (terracotta_poll_event env joined.0 true).1

-- What a test sees of the configuration behind a handle.
unfoldable config_satisfies : (ContextConfig → Bool) → Handle → Bool
config_satisfies test h = elim (context_of h) [
  | failed code ↦ false
  | done c ↦ test c.emitter.config
]

unfoldable motd_is : Text → Option Text → Bool
motd_is text none = false
motd_is text (some motd) = text_eq text motd

unfoldable configure_motd_roundtrip : Env → Handle → Bool
configure_motd_roundtrip env handle =
    let configured = terracotta_configure env handle (
      some (record {
        public_nodes = none;
        data_dir = some (codes "/tmp/conic-ffi-motd-test");
        motd = some (codes "custom-motd");
      })) in
    let emptied =
      terracotta_configure env configured.0
        (some (record { public_nodes = none; data_dir = none; motd = none })) in
    same_code configured.1 ok
    && config_satisfies
        (λ c.
          motd_is (codes "custom-motd") c.motd
          && text_eq c.data_dir (codes "/tmp/conic-ffi-motd-test"))
        configured.0
    && same_code emptied.1 ok
    && config_satisfies (λ c. is_none c.motd) emptied.0

abbrev env : Env
env = record { default_dir = codes "/tmp"; unpacks = true; print = λ v. codes "{}"; port = 40000 }

abbrev found : Found
found = record { random = replicate 16 7; debug = λ s. [] }

version_and_verify_test : version_and_verify (replicate 16 7) ≡ true
unfolding version_and_verify terracotta_verify_room_code decode decode_from encode encode_char
    create from_value from_value_loop char_at verify parse parse_window scan_digits lookup_char
    position is_none
version_and_verify_test = refl

create_room_poll_events_and_destroy_test :
    create_room_poll_events_and_destroy env found (terracotta_create env none) ≡ true
unfolding create_room_poll_events_and_destroy same_code terracotta_create_room context_of
    terracotta_create new_context initialize room_code_from_c player_name_from_c decode
    require_waiting new_emitter new_session await_state_changed terracotta_poll_event wait_handle
    poll_event decode_from encode encode_char code_number destroy handle_command open_room
    request_shutdown run_main session_snapshot start_flow submit emit poll reset_to_waiting
    reset_to_waiting_quietly state_number type_id has_failed has_length state_satisfies wait
    make_string export_event terracotta_destroy terracotta_get_state terracotta_set_waiting commit
    session_reset_to_waiting version snapshot create from_value from_value_loop char_at
create_room_poll_events_and_destroy_test = refl

invalid_handle_and_bad_room_code_test :
    invalid_handle_and_bad_room_code env (terracotta_create env none) ≡ true
unfolding invalid_handle_and_bad_room_code same_code terracotta_create_room terracotta_join_room
    joined_code context_of terracotta_create new_context initialize room_code_from_c decode
    decode_from parse parse_window scan_digits lookup_char position code_number has_failed
    terracotta_get_state terracotta_poll_event poll_event poll new_emitter
invalid_handle_and_bad_room_code_test = refl

configure_motd_roundtrip_test : configure_motd_roundtrip env (terracotta_create env none) ≡ true
unfolding configure_motd_roundtrip same_code terracotta_configure context_of terracotta_create
    new_context initialize read_config read_nodes read_string decode new_emitter new_session
    config_satisfies motd_is set_config is_none decode_from code_number
configure_motd_roundtrip_test = refl
