-- ===== src/Json.antt =====
-- The JSON values of serde_json (a dependency): its documented data type, and its printer and
-- its parsers as the parameter `Codec`. An object is the list of its entries in ascending key order, as
-- its map keeps them.
use terracotta_ffi.Base.{ℕ, Bool, Option, none, some, if◌then◌else◌, Text, Bytes, text_eq}

mutual
  pub data Json : Type 0 where
    null : Json
    bool : Bool → Json
    num : ℕ → Json
    str : Text → Json
    arr : Items → Json
    obj : Fields → Json

  pub data Items : Type 0 where
    nil : Items
    cons : Json → Items → Items

  pub data Fields : Type 0 where
    end : Fields
    field : Text → Json → Fields → Fields

-- `Map::get`.
abbrev pub get : Text → Fields → Option Json
get k end = none
get k (field j v fs) = if text_eq j k then some v else get k fs

-- `Value::as_object`, `as_array` and `as_str`.
abbrev pub as_object : Json → Option Fields
as_object (obj fs) = some fs
as_object _ = none

abbrev pub as_array : Json → Option Items
as_array (arr xs) = some xs
as_array _ = none

abbrev pub as_str : Json → Option Text
as_str (str s) = some s
as_str _ = none

-- `value.as_object()?.get(key)?.as_str()`.
abbrev pub str_field : Text → Json → Option Text
str_field k v = elim (as_object v) [
  | none ↦ none
  | some fs ↦ elim (get k fs) [ none ↦ none | some x ↦ as_str x ]
]

-- serde_json itself: `to_writer`, `from_slice`, and `from_str` on `String::from_utf8_lossy` of the bytes.
pub record Codec : Type 0 where
  pub to_writer : Json → Bytes
  pub from_slice : Bytes → Option Json
  pub from_lossy : Bytes → Option Json
