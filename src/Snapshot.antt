-- ===== src/Snapshot.antt =====
-- src/snapshot.rs
use terracotta_ffi.Base.{
  ℕ, List, [], ◌∷◌, ◌++◌, Option, none, some, ◌==◌, if◌then◌else◌, Text, codes,
}
use terracotta_ffi.Base.Decimal.{u16_to_string}
use terracotta_ffi.Json.{Json, Items, null, num, str, arr, obj, nil, cons, end, field}
use terracotta_ffi.Profile.{Profile, to_json}
use terracotta_ffi.Session.{
  Session, SessionStateId, host_ok, guest_ok, exception, SessionError, ping_host_fail,
  ping_host_rst, guest_easytier_crash, host_easytier_crash, ping_server_rst,
  scaffolding_invalid_response, version,
}
use terracotta_ffi.Room.{Room}

-- `SessionError as u32`.
unfoldable pub error_number : SessionError → ℕ
error_number ping_host_fail = 0
error_number ping_host_rst = 1
error_number guest_easytier_crash = 2
error_number host_easytier_crash = 3
error_number ping_server_rst = 4
error_number scaffolding_invalid_response = 5

unfoldable pub error_message : SessionError → Text
error_message ping_host_fail = codes "cannot reach the host"
error_message ping_host_rst = codes "host reset the connection"
error_message guest_easytier_crash = codes "guest EasyTier process exited"
error_message host_easytier_crash = codes "host EasyTier process exited"
error_message ping_server_rst = codes "Minecraft server connection lost"
error_message scaffolding_invalid_response = codes "invalid scaffolding response"

unfoldable pub guest_url : Option ℕ → Text
guest_url none = codes "127.0.0.1"
guest_url (some port) =
    if port == 25565 then codes "127.0.0.1" else codes "127.0.0.1:" ++ u16_to_string port

-- The serialisation of `Profiles`: the times are left out.
unfoldable pub profiles_json : List (ℕ × Profile) → Items
profiles_json [] = nil
profiles_json ((t, p) ∷ ps) = cons (to_json p) (profiles_json ps)

abbrev port_json : Option ℕ → Json
port_json none = null
port_json (some p) = num p

abbrev error_json : Option SessionError → Json
error_json none = obj (field (codes "code") (num 0) (field (codes "message") (str []) end))
error_json (some e) = obj (
    field (codes "code") (num (error_number e))
      (field (codes "message") (str (error_message e)) end))

pub record Snapshot : Type 0 where
  pub state : SessionStateId
  pub version : ℕ
  pub room_code : Text
  pub detail : Json

-- The `match session.state` of `Snapshot::from`.
unfoldable pub detail : SessionStateId → Session → Json
detail host_ok s = obj (
    field (codes "port") (port_json s.port)
      (field (codes "profiles") (arr (profiles_json s.profiles)) end))
detail guest_ok s = obj (
    field (codes "profiles") (arr (profiles_json s.profiles))
      (field (codes "url") (str (guest_url s.port)) end))
detail exception s = obj (field (codes "error") (error_json s.error) end)
detail _ s = obj end

abbrev code_or_empty : Option Room → Text
code_or_empty none = []
code_or_empty (some r) = r.code

unfoldable pub snapshot : Session → Snapshot
unfolding detail
snapshot s = record {
  state = s.state;
  version = version s;
  room_code = code_or_empty s.room;
  detail = detail s.state s;
}
