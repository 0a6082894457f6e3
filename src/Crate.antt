-- ===== src/Crate.antt =====
-- src/lib.rs: the codes of the errors, the vendor, and the macro that logs.
use terracotta_ffi.Base.{ℕ, List, ◌∷◌, ◌++◌, Text, codes}
use terracotta_ffi.Logging.{log}

pub data ErrorCode : Type 0 where
  invalid_room_code busy internal not_implemented : ErrorCode

-- `ErrorCode as u32`.
abbrev pub error_code_number : ErrorCode → ℕ
error_code_number invalid_room_code = 1
error_code_number busy = 2
error_code_number internal = 3
error_code_number not_implemented = 4

-- `VENDOR`, for the two versions of the build.
unfoldable pub vendor : Text → Text → Text
vendor version easytier_version =
    codes "Conic Connect " ++ (version ++ (codes ", EasyTier " ++ easytier_version))

-- `logging!`, with the text that its arguments format to.
unfoldable pub logging : List Text → Text → Text → List Text
logging ring prefix message = log ring (b'[' ∷ (prefix ++ (codes "]: " ++ message)))
