-- ===== src/Client.antt =====
-- What the example programs (examples/terracotta-test and examples/terracotta-client-test) do with the C
-- interface: names, the draining of the event queue, and the report of the state. The two programs
-- share this code. A line of output is a text; `lossy` is the standard library's decoding of UTF-8.
pub mod Drain
pub mod Programs
pub mod Bindings
use terracotta_ffi.Base.{
  ℕ, zero, suc, Bool, true, false, not, ◌&&◌, ◌||◌, List, [], ◌∷◌, ◌++◌, Option, none, some, ◌==◌,
  if◌then◌else◌, Text, Bytes, codes, text_eq,
}
use terracotta_ffi.Base.Utf8.{encode}
use terracotta_ffi.Base.Decimal.{decimal}
use terracotta_ffi.Ffi.Values.{
  Code, ok, invalid_handle, invalid_argument, bad_state, invalid_room_code, already_active,
  internal, out_of_memory, no_event, shutting_down, Result, done, failed, TerracottaString,
  TerracottaEvent, TerracottaState,
}
use terracotta_ffi.Ffi.{
  Handle, Env, terracotta_join_room, terracotta_get_state, terracotta_poll_event,
  terracotta_verify_room_code,
}

unfoldable pub result_code_name : Code → Text
result_code_name ok = codes "TERRA_OK"
result_code_name invalid_handle = codes "TERRA_ERR_INVALID_HANDLE"
result_code_name invalid_argument = codes "TERRA_ERR_INVALID_ARGUMENT"
result_code_name bad_state = codes "TERRA_ERR_BAD_STATE"
result_code_name invalid_room_code = codes "TERRA_ERR_INVALID_ROOM_CODE"
result_code_name already_active = codes "TERRA_ERR_ALREADY_ACTIVE"
result_code_name internal = codes "TERRA_ERR_INTERNAL"
result_code_name out_of_memory = codes "TERRA_ERR_OUT_OF_MEMORY"
result_code_name no_event = codes "TERRA_ERR_NO_EVENT"
result_code_name shutting_down = codes "TERRA_ERR_SHUTTING_DOWN"

-- The codes from 0 down to -9, as they are printed.
unfoldable pub code_number : Code → Text
code_number ok = codes "0"
code_number invalid_handle = codes "-1"
code_number invalid_argument = codes "-2"
code_number bad_state = codes "-3"
code_number invalid_room_code = codes "-4"
code_number already_active = codes "-5"
code_number internal = codes "-6"
code_number out_of_memory = codes "-7"
code_number no_event = codes "-8"
code_number shutting_down = codes "-9"

unfoldable pub state_name : ℕ → Text
state_name n =
    if n == 0
    then codes "WAITING"
    else if n == 1
    then codes "HOST_SCANNING"
    else if n == 2
    then codes "HOST_STARTING"
    else if n == 3
    then codes "HOST_OK"
    else if n == 4
    then codes "GUEST_CONNECTING"
    else if n == 5
    then codes "GUEST_STARTING"
    else if n == 6
    then codes "GUEST_OK"
    else if n == 7
    then codes "EXCEPTION"
    else codes "UNKNOWN"

unfoldable pub event_name : ℕ → Text
event_name n =
    if n == 1
    then codes "STATE_CHANGED"
    else if n == 2
    then codes "PLAYER_JOINED"
    else if n == 3
    then codes "PLAYER_LEFT"
    else if n == 4
    then codes "CONNECTION_DIFFICULTY"
    else if n == 5
    then codes "HOST_READY"
    else if n == 6
    then codes "GUEST_READY"
    else if n == 7
    then codes "ERROR"
    else codes "UNKNOWN"

-- The decimal digits of a number of 64 bits.
abbrev pub show_u64 : ℕ → Text
show_u64 n = decimal 20 n

abbrev pub warning : Text → Code → Text
warning call code =
    codes "warning: "
    ++ (call
        ++ (codes " returned "
            ++ (code_number code ++ (codes " (" ++ (result_code_name code ++ codes ")")))))

abbrev pub is_state : Option ℕ → ℕ → Bool
is_state none state = false
is_state (some n) state = n == state

module _ (lossy : Bytes → Text) where
  unfoldable pub as_string : TerracottaString → Text
  as_string none = []
  as_string (some []) = []
  as_string (some (b ∷ bs)) = lossy (b ∷ bs)

  unfoldable pub event_line : TerracottaEvent → Text
  unfolding as_string event_name
  event_line event =
      codes "[event #"
      ++ (show_u64 event.sequence
          ++ (codes "] "
              ++ (event_name event.type ++ (codes " payload=" ++ as_string event.payload))))

  -- One poll of `drain_events`, with what the later ones do.
  abbrev pub after_poll :
      Handle → Result TerracottaEvent → Option (Handle × List Text) → Option (Handle × List Text)
  after_poll h (failed no_event) later = some (h, [])
  after_poll h (failed invalid_handle) later = some (h, [])
  after_poll h (failed code) later = some (h, warning (codes "terracotta_poll_event") code ∷ [])
  after_poll h (done event) none = none
  after_poll h (done event) (some (h', lines)) = some (h', event_line event ∷ lines)

  -- The loop, with what the other threads do before each of its polls: the handle and the lines printed,
  -- or `none` when it still polls after these.
  unfoldable pub drain_events : List (Handle → Handle) → Env → Handle → Option (Handle × List Text)
  unfolding event_line
  drain_events [] env h = none
  drain_events (other ∷ others) env h =
      let (h', polled) = terracotta_poll_event env (other h) true in
      after_poll h' polled (drain_events others env h')

  -- The detail of a state, unless there is none.
  abbrev pub detail_lines : Text → List Text
  detail_lines detail =
      if text_eq detail [] || text_eq detail (codes "{}")
      then []
      else (codes "  detail: " ++ detail) ∷ []

  -- What the loop of `main` prints of the state, and the state printed last; there is none at first.
  unfoldable pub report_state : Env → Handle → Option ℕ → List Text × Option ℕ
  unfolding as_string state_name
  report_state env h last_state = elim (terracotta_get_state env h true) [
    | failed code ↦ (warning (codes "terracotta_get_state") code ∷ [], last_state)
    | done s ↦ if is_state last_state s.state then ([], last_state) else (
      (codes "[state] "
            ++ (state_name s.state ++ (codes " (version " ++ (show_u64 s.version ++ codes ")"))))
          ∷ detail_lines (as_string s.detail),
      some s.state,
    )
  ]
