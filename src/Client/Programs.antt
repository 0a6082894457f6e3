-- ===== src/Client/Programs.antt =====
-- How the two example programs start: `main` of examples/terracotta-test, the host, and of
-- examples/terracotta-client-test, the guest, up to their loops. The first line of the errors is kept.
pub mod Ready
use terracotta_ffi.Base.{
  ℕ, Bool, true, false, List, [], ◌∷◌, ◌++◌, Option, none, some, ◌==◌, if◌then◌else◌, Text, Bytes,
  codes, text_eq,
}
use terracotta_ffi.Base.Utf8.{encode}
use terracotta_ffi.Ffi.Values.{Code, ok, ForeignConfig, Result, done, failed, TerracottaState}
use terracotta_ffi.Ffi.{
  Handle, HandleRecord, Env, terracotta_create, terracotta_configure, terracotta_create_room,
  terracotta_join_room, terracotta_get_state, terracotta_verify_room_code,
}
use terracotta_ffi.Client.{result_code_name, code_number, as_string}

-- A program has stopped with an error, or it runs on with a handle, after some warnings.
pub data Program : Type 0 where
  exited : Text → Program
  running : Handle → List Text → Program

abbrev pub example_motd : Text
example_motd = codes "Ciallo～(∠・ω< )⌒★!"

-- The configuration of both programs, each with its own data directory.
abbrev pub example_config : Text → ForeignConfig
example_config data_dir = record {
  public_nodes = none;
  data_dir = some (encode data_dir);
  motd = some (encode example_motd);
}

abbrev pub config_warnings : Code → List Text
config_warnings ok = []
config_warnings code =
    (codes "warning: terracotta_configure returned " ++ result_code_name code) ∷ []

abbrev pub call_error : Text → Code → Text
call_error call code =
    codes "error: "
    ++ (call
        ++ (codes " returned "
            ++ (code_number code ++ (codes " (" ++ (result_code_name code ++ codes ")")))))

-- The end of the call that opens the room; on an error the handle is destroyed.
abbrev pub opened : Text → List Text → Handle × Code → Program
opened call warnings (h, ok) = running h warnings
opened call warnings (h, code) = exited (call_error call code)

abbrev pub null_handle : Text
null_handle = codes "error: terracotta_create returned NULL handle"

unfoldable pub host_program : Env → Option Text → Text → Program
host_program env factory data_dir = elim (terracotta_create env factory) [
  | none ↦ exited null_handle
  | some r ↦
      let (h, configured) = terracotta_configure env (some r) (some (example_config data_dir)) in
      opened (codes "terracotta_create_room") (config_warnings configured)
        (terracotta_create_room h (some (encode (codes "Conic_Connect"))) none)
]

abbrev pub joining : Env → Option Text → Text → Text → Program
joining env factory data_dir room_code = elim (terracotta_create env factory) [
  | none ↦ exited null_handle
  | some r ↦
      let (h, configured) = terracotta_configure env (some r) (some (example_config data_dir)) in
      opened (codes "terracotta_join_room") (config_warnings configured) (
        terracotta_join_room h (some (encode room_code))
          (some (encode (codes "conic-example-guest"))))
]

-- The result that stands for a valid code.
abbrev pub is_valid : Option ℕ → Bool
is_valid none = false
is_valid (some n) = n == 3

-- The guest verifies the code before it creates a context.
unfoldable pub guest_program : Env → Option Text → Text → Text → Program
guest_program env factory data_dir room_code =
    if is_valid (terracotta_verify_room_code (some (encode room_code)))
    then joining env factory data_dir room_code
    else exited (codes "error: invalid room code: " ++ room_code)

-- One look of the host at the state while it waits for its room code, 20 ms after the last: the handle as
-- it is then, and whether ten seconds are over when the look is done.
pub record Look : Type 0 where
  pub handle : Handle
  pub late : Bool

-- The room code, an error, or still waiting after these looks.
pub data Waited : Type 0 where
  has_code : Text → Waited
  gave_up : Text → Waited
  waits : Waited

-- The loop up to the room code. A code that comes with the deadline is not used.
unfoldable pub await_room_code : (Bytes → Text) → Env → List Look → Waited
await_room_code lossy env [] = waits
await_room_code lossy env (l ∷ ls) =
    let later = await_room_code lossy env ls in
    elim (terracotta_get_state env l.handle true) [
      | failed code ↦ gave_up (call_error (codes "terracotta_get_state") code)
      | done s ↦
          let code = as_string lossy s.room_code in
          if l.late
          then gave_up (codes "error: no room code obtained within 10s")
          else if text_eq code []
          then later
          else has_code code
    ]
