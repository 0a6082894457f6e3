-- ===== src/Examples/Strings.antt =====
-- The strings of a caller with one struct for a state and one for an event.
use terracotta_ffi.Base.{◌≡◌, refl, [], ◌∷◌, some, arith}
use terracotta_ffi.Ffi.Memory.{
  OutState, OutEvent, null_string, Memory, get_state_call, poll_event_call, free_state_call,
  free_detail_call, perform_all,
}
use terracotta_ffi.Ffi.Memory.Balance.{IsSound, IsExact}
use terracotta_ffi.Ffi.Memory.Owned.{perform_all-IsSound}
use terracotta_ffi.Ffi.Memory.Tidy.{read_state, read_event, drop_state, tidy, perform_all-IsExact}
use terracotta_ffi.Base.Utf8.{encode, encode_char}
use terracotta_ffi.Examples.Calls.{env, handle}

abbrev no_state : OutState
no_state = record { version = 0; state = 0; room_code = null_string; detail = null_string }

abbrev no_event : OutEvent
no_event = record { sequence = 0; type = 0; payload = null_string }

abbrev memory : Memory
memory = record {
  heap = record { next = 1; blocks = [] };
  states = no_state ∷ [];
  events = no_event ∷ [];
}

-- The second reading loses two strings, and the last two calls free the detail once.
perform_all-IsSound_example :
    (m' : Memory) × (perform_all env memory (
        get_state_call handle 0
        ∷ get_state_call handle 0
        ∷ poll_event_call handle 0
        ∷ free_detail_call 0
        ∷ free_state_call 0
        ∷ [])
      ≡ some m')
    × IsSound m'
perform_all-IsSound_example =
    perform_all-IsSound env memory
      (get_state_call handle 0
        ∷ get_state_call handle 0
        ∷ poll_event_call handle 0
        ∷ free_detail_call 0
        ∷ free_state_call 0
        ∷ [])
      (λ p. omega arith)

perform_all-IsExact_example :
    (m' : Memory) × (perform_all env memory
        (tidy (read_state handle 0 ∷ read_event handle 0 ∷ read_state handle 0 ∷ drop_state 0 ∷ []))
      ≡ some m')
    × IsExact m'
unfolding encode encode_char
perform_all-IsExact_example =
    perform_all-IsExact env (λ v. refl) memory
      (read_state handle 0 ∷ read_event handle 0 ∷ read_state handle 0 ∷ drop_state 0 ∷ [])
      (λ p. omega arith)
