-- ===== src/Ffi/Values.antt =====
-- The result codes of src/ffi.rs and the strings that cross the C interface.
use terracotta_ffi.Base.{
  ℕ, Bool, true, false, List, [], ◌∷◌, Option, none, some, ◌==◌, if◌then◌else◌, Text, Bytes,
}
use terracotta_ffi.Base.Utf8.{encode, decode}
use terracotta_ffi.Room.{parse}

-- The result codes, from 0 down to -9.
pub data Code : Type 0 where
  ok invalid_handle invalid_argument bad_state invalid_room_code : Code
  already_active internal out_of_memory no_event shutting_down : Code

pub data Result (A : Type 0) : Type 0 where
  done : A → Result A
  failed : Code → Result A

infixl 5 ◌>>=◌
abbrev pub ◌>>=◌ : {A B : Type 0} → Result A → (A → Result B) → Result B
done a >>= f = f a
failed c >>= f = failed c

-- A C string of the caller, with its length; its pointer may be null.
abbrev pub ForeignString : Type 0
ForeignString = Option Bytes

pub record ForeignConfig : Type 0 where
  pub public_nodes : Option (List ForeignString)
  pub data_dir : ForeignString
  pub motd : ForeignString

-- A string handed out: its bytes, without the final zero byte.
abbrev pub TerracottaString : Type 0
TerracottaString = Option Bytes

pub record TerracottaEvent : Type 0 where
  pub sequence : ℕ
  pub type : ℕ
  pub payload : TerracottaString

pub record TerracottaState : Type 0 where
  pub version : ℕ
  pub state : ℕ
  pub room_code : TerracottaString
  pub detail : TerracottaString

abbrev pub has_zero : Bytes → Bool
has_zero [] = false
has_zero (b ∷ bs) = if b == 0 then true else has_zero bs

-- `make_string`: a text with a zero byte panics, since so does the fallback, and `catch` makes that
-- an internal error where panics unwind.
unfoldable pub make_string : Text → Result TerracottaString
make_string value = if has_zero (encode value) then failed internal else done (some (encode value))

unfoldable pub read_string : ForeignString → Result Text
read_string none = done []
read_string (some bytes) = elim (decode bytes) [ none ↦ failed invalid_argument | some s ↦ done s ]

unfoldable pub free_string : TerracottaString → TerracottaString
free_string s = none

unfoldable pub free_state : TerracottaState → TerracottaState
unfolding free_string
free_state s = record s { room_code = free_string s.room_code; detail = free_string s.detail }

unfoldable pub free_event : TerracottaEvent → TerracottaEvent
unfolding free_string
free_event e = record e { payload = free_string e.payload }

unfoldable pub room_code_from_c : Option Bytes → Result (Option Text)
room_code_from_c none = done none
room_code_from_c (some bytes) = elim (decode bytes) [
  | none ↦ failed invalid_argument
  | some [] ↦ done none
  | some (c ∷ cs) ↦ elim (parse (c ∷ cs)) [
    | none ↦ failed invalid_room_code
    | some _ ↦ done (some (c ∷ cs))
  ]
]

unfoldable pub player_name_from_c : Option Bytes → Result (Option Text)
player_name_from_c none = done none
player_name_from_c (some bytes) = elim (decode bytes) [
  | none ↦ failed invalid_argument
  | some [] ↦ done none
  | some (c ∷ cs) ↦ done (some (c ∷ cs))
]
