-- ===== src/Flow/Guest/Refresh/Served.antt =====
-- The merge keeps track of the entries that the session's profiles have used.
use terracotta_ffi.Base.{
  ℕ, ◌≡◌, refl, subst, sym, ◌∙◌, inl, inr, ◌⊎◌, Bool, true, false, not, ◌&&◌, List, [], ◌∷◌, some,
  if◌then◌else◌, All, Text, text_eq, Bool-cases, Option-cases, arith,
}
use terracotta_ffi.Profile.{Profile, ProfileKind, host, guest, local, set_name}
use terracotta_ffi.Flow.Guest.Refresh.{
  Entries, search, mark, Merge, same_kind, keep, rename, drop_profile, break_off, merge_host,
  merge_guest, merge_by,
}
use terracotta_ffi.Flow.Guest.Refresh.Merging.{search-IsIn, same_kind-eq}

-- A profile of the session under the machine id, the name and the kind of a listed one.
abbrev pub IsUnder : Profile → List (ℕ × Profile) → Type 0
IsUnder p [] = ⊥
IsUnder p (x ∷ xs) =
    ((x.1.machine_id ≡ p.machine_id) × (x.1.name ≡ p.name) × (x.1.kind ≡ p.kind)) ⊎ IsUnder p xs

unfoldable pub IsServed : List (ℕ × Profile) → Bool × Profile → Type 0
IsServed xs e = (e.0 ≡ false) ⊎ IsUnder e.1 xs

unfoldable pub IsCovering : Merge → Type 0
unfolding IsServed
IsCovering m = All (IsServed m.profiles) m.entries

cons-IsServed :
    (x : ℕ × Profile) (xs : List (ℕ × Profile)) (es : Entries)
    → All (IsServed xs) es
    → All (IsServed (x ∷ xs)) es
unfolding IsServed
cons-IsServed x xs [] a = tt
cons-IsServed x xs (e ∷ es) (inl u, a) = (inl u, cons-IsServed x xs es a)
cons-IsServed x xs (e ∷ es) (inr h, a) = (inr (inr h), cons-IsServed x xs es a)

mark-IsServed :
    (id : Text) (x : ℕ × Profile) (xs : List (ℕ × Profile)) (es : Entries) {used : Bool}
    {q : Profile}
    → search id es ≡ some (used, q)
    → (x.1.machine_id ≡ q.machine_id) × (x.1.name ≡ q.name) × (x.1.kind ≡ q.kind)
    → All (IsServed xs) es
    → All (IsServed (x ∷ xs)) (mark id es)
unfolding search mark IsServed
mark-IsServed id x xs [] f h a = tt
mark-IsServed id x xs ((u, p) ∷ es) {used} {q} f h (s, a) =
    elim (Bool-cases (text_eq p.machine_id id)) [
      | inl t ↦
          let g : some (u, p) ≡ some (used, q) = rw (t, search) at f in
          let e : q ≡ p = cc g in
          rw (t, mark)
            (
              inr (
                  inl (
                    subst
                      (λ r.
                        (x.1.machine_id ≡ r.machine_id) × (x.1.name ≡ r.name) × (x.1.kind ≡ r.kind))
                      e h)),
              cons-IsServed x xs es a,
            )
      | inr t ↦
          let rest = mark-IsServed id x xs es (rw (t, search) at f) h a in
          rw (t, mark) (elim s [ inl v ↦ (inl v, rest) | inr v ↦ (inr (inr v), rest) ])
    ]

rename-IsCovering :
    (t : ℕ) (p q : Profile) (m : Merge) {used : Bool}
    → search p.machine_id m.entries ≡ some (used, q)
    → p.machine_id ≡ q.machine_id
    → p.kind ≡ q.kind
    → IsCovering m
    → IsCovering (rename (t, p) q m)
unfolding rename IsCovering
rename-IsCovering t p q m f i k c =
    mark-IsServed p.machine_id (t, set_name q.name p) m.profiles m.entries f (i, refl, k) c

kept-IsCovering :
    (x : ℕ × Profile) (m : Merge)
    → IsCovering m
    → IsCovering (keep x m) × IsCovering (break_off x m)
unfolding keep break_off IsCovering
kept-IsCovering x m c =
    (cons-IsServed x m.profiles m.entries c, cons-IsServed x m.profiles m.entries c)

drop-IsCovering : (x : ℕ × Profile) (m : Merge) → IsCovering m → IsCovering (drop_profile x m)
unfolding drop_profile IsCovering
drop-IsCovering x m c = c

merge_host-IsCovering :
    (t : ℕ) (p : Profile) (m : Merge)
    → p.kind ≡ host
    → IsCovering m
    → IsCovering (merge_host (t, p) m)
unfolding merge_host
merge_host-IsCovering t p m e c = elim (Option-cases (search p.machine_id m.entries)) [
  | inl f ↦ rw (f, merge_host) ((kept-IsCovering (t, p) m c).1)
  | inr ((used, q), f) ↦ elim (Bool-cases (not used && same_kind q.kind host)) [
    | inl w ↦
        let h : same_kind q.kind host ≡ true = ground arith in
        rw (f, w, merge_host)
          (rename-IsCovering t p q m f (sym (search-IsIn p.machine_id m.entries f).1)
            (e ∙ sym (same_kind-eq q.kind host h)) c)
    | inr w ↦ rw (f, w, merge_host) ((kept-IsCovering (t, p) m c).1)
  ]
]

merge_guest-IsCovering :
    (t : ℕ) (p : Profile) (m : Merge)
    → p.kind ≡ guest
    → IsCovering m
    → IsCovering (merge_guest (t, p) m)
unfolding merge_guest
merge_guest-IsCovering t p m e c = elim (Option-cases (search p.machine_id m.entries)) [
  | inl f ↦ rw (f, merge_guest) (drop-IsCovering (t, p) m c)
  | inr ((used, q), f) ↦ elim (Bool-cases (same_kind q.kind guest)) [
    | inr w ↦ rw (f, w, merge_guest) ((kept-IsCovering (t, p) m c).1)
    | inl w ↦ elim (Bool-cases used) [
      | inl u ↦ rw (f, w, u, merge_guest) (drop-IsCovering (t, p) m c)
      | inr u ↦
          rw (f, w, u, merge_guest)
            (rename-IsCovering t p q m f (sym (search-IsIn p.machine_id m.entries f).1)
              (e ∙ sym (same_kind-eq q.kind guest w)) c)
    ]
  ]
]

pub step-IsCovering :
    (b : Bool) (kind : ProfileKind) (x : ℕ × Profile) (m : Merge)
    → x.1.kind ≡ kind
    → IsCovering m
    → IsCovering (if b then keep x m else merge_by kind x m)
unfolding merge_by
step-IsCovering true kind x m e c = (kept-IsCovering x m c).0
step-IsCovering false local x m e c = (kept-IsCovering x m c).0
step-IsCovering false host (t, p) m e c = merge_host-IsCovering t p m e c
step-IsCovering false guest (t, p) m e c = merge_guest-IsCovering t p m e c
