-- ===== src/Event.antt =====
-- src/event.rs, and the numbers that session.rs gives its enumerations.
use terracotta_ffi.Base.{ℕ, Text, codes}
use terracotta_ffi.Json.{Json, num, str, obj, end, field}
use terracotta_ffi.Profile.{Profile, to_json}
use terracotta_ffi.Session.{
  SessionStateId, waiting, host_scanning, host_starting, host_ok, guest_connecting, guest_starting,
  guest_ok, exception, ConnectionDifficulty, unknown, easiest, simple, medium, tough,
}

-- `SessionStateId as u8` and `ConnectionDifficulty as u8`.
unfoldable pub state_number : SessionStateId → ℕ
state_number waiting = 0
state_number host_scanning = 1
state_number host_starting = 2
state_number host_ok = 3
state_number guest_connecting = 4
state_number guest_starting = 5
state_number guest_ok = 6
state_number exception = 7

unfoldable pub difficulty_number : ConnectionDifficulty → ℕ
difficulty_number unknown = 0
difficulty_number easiest = 1
difficulty_number simple = 2
difficulty_number medium = 3
difficulty_number tough = 4

pub data Event : Type 0 where
  state_changed : SessionStateId → ℕ → Event
  player_joined : Profile → Event
  player_left : Text → Event
  connection_difficulty : ConnectionDifficulty → Event
  host_ready : Text → ℕ → Event
  guest_ready : Text → Event
  error_event : ℕ → Text → Event

unfoldable pub payload_json : Event → Json
payload_json (state_changed s v) =
    obj (field (codes "state") (num (state_number s)) (field (codes "version") (num v) end))
payload_json (player_joined p) = obj (field (codes "profile") (to_json p) end)
payload_json (player_left m) = obj (field (codes "machine_id") (str m) end)
payload_json (connection_difficulty d) =
    obj (field (codes "difficulty") (num (difficulty_number d)) end)
payload_json (host_ready room port) =
    obj (field (codes "port") (num port) (field (codes "room") (str room) end))
payload_json (guest_ready url) = obj (field (codes "url") (str url) end)
payload_json (error_event code message) =
    obj (field (codes "code") (num code) (field (codes "message") (str message) end))

unfoldable pub type_id : Event → ℕ
type_id (state_changed s v) = 1
type_id (player_joined p) = 2
type_id (player_left m) = 3
type_id (connection_difficulty d) = 4
type_id (host_ready room port) = 5
type_id (guest_ready url) = 6
type_id (error_event code message) = 7
