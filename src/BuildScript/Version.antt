-- ===== src/BuildScript/Version.antt =====
-- `easytier_version` of build.rs: the version that Cargo.toml names. A panic is `none`.
use terracotta_ffi.Base.{List, [], ◌∷◌, Option, none, some, if◌then◌else◌, Text, codes, text_eq}

-- A TOML value, as far as the build script looks at one.
mutual
  pub data Toml : Type 0 where
    table : Table → Toml
    text : Text → Toml
    other : Toml

  pub data Table : Type 0 where
    end : Table
    entry : Text → Toml → Table → Table

unfoldable pub lookup : Text → Table → Option Toml
lookup key end = none
lookup key (entry k value rest) =
    let later = lookup key rest in if text_eq k key then some value else later

-- The table at a path of keys; a key that is missing or is no table stops the build.
unfoldable pub table_at : List Text → Table → Option Table
unfolding lookup
table_at [] t = some t
table_at (key ∷ keys) t = elim (lookup key t) [
  | some (table inner) ↦ table_at keys inner
  | _ ↦ none
]

unfoldable pub easytier_version : Table → Option Text
unfolding table_at
easytier_version cargo_toml =
    elim (table_at (codes "package" ∷ codes "metadata" ∷ codes "easytier" ∷ []) cargo_toml) [
      | none ↦ none
      | some t ↦ elim (lookup (codes "version") t) [ some (text v) ↦ some v | _ ↦ none ]
    ]
