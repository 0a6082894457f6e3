-- ===== src/Profile.antt =====
-- src/profile.rs
use terracotta_ffi.Base.{Text, codes}
use terracotta_ffi.Json.{Json, str, obj, end, field}

pub data ProfileKind : Type 0 where
  host local guest : ProfileKind

-- `ProfileSnapshot` has the same four fields, and `into_profile` copies them.
pub record Profile : Type 0 where
  pub machine_id : Text
  pub name : Text
  pub vendor : Text
  pub kind : ProfileKind

abbrev pub set_name : Text → Profile → Profile
set_name name p = record p { name = name }

-- The derived `Serialize`: the kind in upper case.
abbrev pub kind_name : ProfileKind → Text
kind_name host = codes "HOST"
kind_name local = codes "LOCAL"
kind_name guest = codes "GUEST"

abbrev pub to_json : Profile → Json
to_json p = obj (
    field (codes "kind") (str (kind_name p.kind)) (
      field (codes "machine_id") (str p.machine_id)
        (field (codes "name") (str p.name) (field (codes "vendor") (str p.vendor) end))))
