-- ===== src/Session.antt =====
-- src/session.rs. The counters are u64 and wrap as in a release build.
use terracotta_ffi.Base.{ℕ, ◌+◌, ◌-◌, ◌%◌, ◌^◌, Bool, Option, none, some, List, [], ◌∷◌, leb, Text}
use terracotta_ffi.Room.{Room}
use terracotta_ffi.Profile.{Profile}
pub mod Tokens

pub data SessionStateId : Type 0 where
  waiting host_scanning host_starting host_ok : SessionStateId
  guest_connecting guest_starting guest_ok exception : SessionStateId

pub data ConnectionDifficulty : Type 0 where
  unknown easiest simple medium tough : ConnectionDifficulty

pub data SessionError : Type 0 where
  ping_host_fail ping_host_rst guest_easytier_crash : SessionError
  host_easytier_crash ping_server_rst scaffolding_invalid_response : SessionError

-- A running EasyTier child, by its process number, and the port of its RPC.
pub record EasyTier : Type 0 where
  pub process : ℕ
  pub rpc : ℕ

pub record FakeServer : Type 0 where
  pub port : ℕ
  pub motd : Text

-- A `SystemTime` is a number of milliseconds.
pub record Session : Type 0 where
  pub state : SessionStateId
  pub index : ℕ
  pub sharing : ℕ
  pub room : Option Room
  pub profiles : List (ℕ × Profile)
  pub easytier : Option EasyTier
  pub server : Option FakeServer
  pub port : Option ℕ
  pub host_ip : Option ℕ
  pub difficulty : Option ConnectionDifficulty
  pub error : Option SessionError

abbrev pub u64_mod : ℕ
u64_mod = 2 ^ 64

unfoldable pub new_session : Session
new_session = record {
  state = waiting;
  index = 0;
  sharing = 0;
  room = none;
  profiles = [];
  easytier = none;
  server = none;
  port = none;
  host_ip = none;
  difficulty = none;
  error = none;
}

-- `version` and `token` both read `index`.
unfoldable pub version : Session → ℕ
version s = s.index

unfoldable pub token : Session → ℕ
token s = s.index

unfoldable pub can_capture : Session → ℕ → Bool
can_capture s token = leb ((s.index + u64_mod - s.sharing) % u64_mod) token

-- `commit` and `commit_shared` return the new index, `version` of the result.
unfoldable pub commit : Session → Session
commit s = record s { index = (s.index + 1) % u64_mod; sharing = 0 }

unfoldable pub commit_shared : Session → Session
commit_shared s = record s { index = (s.index + 1) % u64_mod; sharing = (s.sharing + 1) % u64_mod }

unfoldable pub reset_to_waiting : Session → Session
unfolding commit
reset_to_waiting s = commit (record s {
  state = waiting;
  room = none;
  profiles = [];
  easytier = none;
  server = none;
  port = none;
  host_ip = none;
  difficulty = none;
  error = none;
})
