-- ===== src/Client/Bindings.antt =====
-- bindings.rs of the example programs: the symbols that are looked up in the library, and the wrappers of
-- its functions. Whether the library opens and which names it has is an argument.
pub mod Loading
use terracotta_ffi.Base.{
  ℕ, Bool, true, false, List, [], ◌∷◌, Option, none, some, ◌==◌, if◌then◌else◌, Text, Bytes, codes,
  text_eq,
}
use terracotta_ffi.Base.Utf8.{encode}
use terracotta_ffi.Ffi.Values.{
  Code, ForeignConfig, Result, done, failed, has_zero, TerracottaState, TerracottaEvent,
}
use terracotta_ffi.Ffi.{
  Handle, Env, terracotta_configure, terracotta_create_room, terracotta_join_room,
  terracotta_get_state, terracotta_poll_event, terracotta_verify_room_code,
}

-- The names in the order in which `load` looks them up.
abbrev pub symbols : List Text
symbols =
    codes "terracotta_create"
    ∷ codes "terracotta_destroy"
    ∷ codes "terracotta_configure"
    ∷ codes "terracotta_create_room"
    ∷ codes "terracotta_join_room"
    ∷ codes "terracotta_set_waiting"
    ∷ codes "terracotta_get_state"
    ∷ codes "terracotta_poll_event"
    ∷ codes "terracotta_verify_room_code"
    ∷ codes "terracotta_version"
    ∷ codes "terracotta_free_string"
    ∷ codes "terracotta_free_state"
    ∷ codes "terracotta_free_event"
    ∷ []

pub data Loaded : Type 0 where
  loaded : Loaded
  not_opened : Loaded
  missing : Text → Loaded

-- The `?` behind each `symbol`.
unfoldable pub look_up : (Text → Bool) → List Text → Loaded
look_up has [] = loaded
look_up has (name ∷ names) = let rest = look_up has names in if has name then rest else missing name

unfoldable pub load : Bool → (Text → Bool) → Loaded
load opens has = if opens then look_up has symbols else not_opened

-- `CString::new(…).unwrap()`; `none` is its panic on a zero byte.
unfoldable pub c_string : Text → Option Bytes
c_string value = if has_zero (encode value) then none else some (encode value)

-- `cstr_or_null`, and the pointer to it.
unfoldable pub cstr_or_null : Option Text → Option (Option Bytes)
cstr_or_null none = some none
cstr_or_null (some value) = elim (c_string value) [ none ↦ none | some bytes ↦ some (some bytes) ]

unfoldable pub create_room : Handle → Option Text → Option (Handle × Code)
create_room h player_name = elim (cstr_or_null player_name) [
  | none ↦ none
  | some name ↦ some (terracotta_create_room h name none)
]

unfoldable pub join_room : Handle → Text → Option Text → Option (Handle × Code)
join_room h room_code player_name = elim (c_string room_code) [
  | none ↦ none
  | some code ↦ elim (cstr_or_null player_name) [
    | none ↦ none
    | some name ↦ some (terracotta_join_room h (some code) name)
  ]
]

unfoldable pub verify_room_code : Text → Option (Option ℕ)
verify_room_code code = elim (c_string code) [
  | none ↦ none
  | some bytes ↦ some (terracotta_verify_room_code (some bytes))
]
