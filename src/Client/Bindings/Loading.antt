-- ===== src/Client/Bindings/Loading.antt =====
-- When the library loads, and what the wrappers pass on.
use terracotta_ffi.Base.{
  ◌≡◌, refl, Bool, true, false, List, [], ◌∷◌, none, some, ◌↔◌, All, Text, Bool-cases, inl, inr,
}
use terracotta_ffi.Base.Utf8.{encode}
use terracotta_ffi.Ffi.Values.{has_zero}
use terracotta_ffi.Ffi.{Handle, terracotta_create_room, terracotta_join_room}
use terracotta_ffi.Client.Bindings.{
  symbols, loaded, look_up, load, c_string, cstr_or_null, create_room, join_room,
}

look_up-all :
    (has : Text → Bool) (names : List Text)
    → All (λ n. has n ≡ true) names
    → look_up has names ≡ loaded
unfolding look_up
look_up-all has [] h = refl
look_up-all has (n ∷ ns) h = rw (h.0, look_up-all has ns h.1)

all-look_up :
    (has : Text → Bool) (names : List Text)
    → look_up has names ≡ loaded
    → All (λ n. has n ≡ true) names
unfolding look_up
all-look_up has [] h = tt
all-look_up has (n ∷ ns) h = elim (Bool-cases (has n)) [
  | inl t ↦ (t, all-look_up has ns (rw t at h))
  | inr t ↦ cc (rw t at h)
]

-- The library loads exactly when it opens and exports every name of the interface.
pub load-loaded :
    (opens : Bool) (has : Text → Bool)
    → (load opens has ≡ loaded) ↔ ((opens ≡ true) × All (λ n. has n ≡ true) symbols)
unfolding load
load-loaded true has =
    ((λ h. (refl, all-look_up has symbols h)), (λ h. look_up-all has symbols h.1))
load-loaded false has = ((λ h. cc), (λ h. cc h.0))

-- The programs' calls pass the text of a name and of a code on, when it has no zero byte.
pub create_room-text :
    (h : Handle) (name : Text)
    → has_zero (encode name) ≡ false
    → create_room h (some name) ≡ some (terracotta_create_room h (some (encode name)) none)
unfolding create_room cstr_or_null c_string
create_room-text h name z = rw (z, create_room, cstr_or_null, c_string) refl

pub join_room-text :
    (h : Handle) (code name : Text)
    → has_zero (encode code) ≡ false
    → has_zero (encode name) ≡ false
    → join_room h code (some name)
      ≡ some (terracotta_join_room h (some (encode code)) (some (encode name)))
unfolding join_room cstr_or_null c_string
join_room-text h code name zc zn = rw (zc, zn, join_room, cstr_or_null, c_string) refl
