-- ===== src/Flow/Guest/Refresh/Merging.antt =====
-- What the merge of the host's list leaves in the session.
use terracotta_ffi.Base.{
  ℕ, ◌≡◌, refl, subst, sym, ap, ◌∙◌, inl, inr, ◌⊎◌, Bool, true, false, not, ◌&&◌, List, [], ◌∷◌,
  map, some, if◌then◌else◌, All, Text, text_eq, eq_of_text_eq, Bool-cases, Option-cases, arith,
}
use terracotta_ffi.Profile.{Profile, ProfileKind, host, guest, local}
use terracotta_ffi.Flow.Guest.Refresh.{
  Entries, search, mark, Merge, same_kind, keep, rename, drop_profile, break_off, merge_host,
  merge_guest, merge_by, merge,
}

abbrev pub listed : Entries → List Profile
listed es = map (λ (x : Bool × Profile). x.1) es

abbrev pub IsIn : Profile → List Profile → Type 0
IsIn q [] = ⊥
IsIn q (p ∷ ps) = (p ≡ q) ⊎ IsIn q ps

-- A profile of the session is the guest's own, or the server lists one of its machine id, name and kind.
abbrev pub IsShown : List Profile → ℕ × Profile → Type 0
IsShown server x =
    (x.1.kind ≡ local)
    ⊎ ((q : Profile) × IsIn q server
        × (q.machine_id ≡ x.1.machine_id)
        × (q.name ≡ x.1.name)
        × (q.kind ≡ x.1.kind))

pub search-IsIn :
    (m : Text) (es : Entries) {used : Bool} {q : Profile}
    → search m es ≡ some (used, q)
    → IsIn q (listed es) × (q.machine_id ≡ m)
unfolding search
search-IsIn m [] e = cc
search-IsIn m ((u, p) ∷ es) e = elim (Bool-cases (text_eq p.machine_id m)) [
  | inl t ↦
      let f : some (u, p) ≡ some (_, _) = rw (t, search) at e in
      let g : p ≡ _ = cc f in
      (inl g, ap (λ (r : Profile). r.machine_id) (sym g) ∙ eq_of_text_eq p.machine_id m t)
  | inr t ↦ let (i, k) = search-IsIn m es (rw (t, search) at e) in (inr i, k)
]

mark-listed : (m : Text) (es : Entries) → listed (mark m es) ≡ listed es
unfolding mark
mark-listed m [] = refl
mark-listed m ((u, p) ∷ es) = elim (Bool-cases (text_eq p.machine_id m)) [
  | inl t ↦ rw t refl
  | inr t ↦ rw t (ap (λ l. p ∷ l) (mark-listed m es))
]

-- A merge whose profiles are shown by the server, for as long as it has not broken off.
record IsSound (server : List Profile) (m : Merge) : Type 0 where
  same : listed m.entries ≡ server
  shown : m.invalid ≡ false → All (IsShown server) m.profiles

rename-IsSound :
    (server : List Profile) (t : ℕ) (p q : Profile) (m : Merge)
    → IsIn q server
    → q.machine_id ≡ p.machine_id
    → q.kind ≡ p.kind
    → IsSound server m
    → IsSound server (rename (t, p) q m)
unfolding rename
rename-IsSound server t p q m i e k s = record {
  same = mark-listed p.machine_id m.entries ∙ s.same;
  shown = λ v. (inr (q, i, e, refl, k), s.shown v);
}

break_off-IsSound :
    (server : List Profile) (x : ℕ × Profile) (m : Merge)
    → IsSound server m
    → IsSound server (break_off x m)
unfolding break_off
break_off-IsSound server x m s = record { same = s.same; shown = λ v. cc }

pub same_kind-eq : (k l : ProfileKind) → same_kind k l ≡ true → k ≡ l
same_kind-eq k l h = ground arith

found-IsIn :
    (server : List Profile) (m : Merge) (id : Text) {used : Bool} {q : Profile}
    → IsSound server m
    → search id m.entries ≡ some (used, q)
    → IsIn q server × (q.machine_id ≡ id)
found-IsIn server m id {used} {q} s f =
    let (i, e) = search-IsIn id m.entries f in (subst (IsIn q) s.same i, e)

merge_host-IsSound :
    (server : List Profile) (t : ℕ) (p : Profile) (m : Merge)
    → p.kind ≡ host
    → IsSound server m
    → IsSound server (merge_host (t, p) m)
unfolding merge_host
merge_host-IsSound server t p m e s = elim (Option-cases (search p.machine_id m.entries)) [
  | inl f ↦ rw (f, merge_host) (break_off-IsSound server (t, p) m s)
  | inr ((used, q), f) ↦ elim (Bool-cases (not used && same_kind q.kind host)) [
    | inl w ↦
        let (i, k) = found-IsIn server m p.machine_id s f in
        let h : same_kind q.kind host ≡ true = ground arith in
        rw (f, w, merge_host)
          (rename-IsSound server t p q m i k (same_kind-eq q.kind host h ∙ sym e) s)
    | inr w ↦ rw (f, w, merge_host) (break_off-IsSound server (t, p) m s)
  ]
]

drop-IsSound :
    (server : List Profile) (x : ℕ × Profile) (m : Merge)
    → IsSound server m
    → IsSound server (drop_profile x m)
unfolding drop_profile
drop-IsSound server x m s = record { same = s.same; shown = λ v. s.shown v }

merge_guest-IsSound :
    (server : List Profile) (t : ℕ) (p : Profile) (m : Merge)
    → p.kind ≡ guest
    → IsSound server m
    → IsSound server (merge_guest (t, p) m)
unfolding merge_guest
merge_guest-IsSound server t p m e s = elim (Option-cases (search p.machine_id m.entries)) [
  | inl f ↦ rw (f, merge_guest) (drop-IsSound server (t, p) m s)
  | inr ((used, q), f) ↦ elim (Bool-cases (same_kind q.kind guest)) [
    | inr w ↦ rw (f, w, merge_guest) (break_off-IsSound server (t, p) m s)
    | inl w ↦ elim (Bool-cases used) [
      | inl u ↦ rw (f, w, u, merge_guest) (drop-IsSound server (t, p) m s)
      | inr u ↦
          let (i, k) = found-IsIn server m p.machine_id s f in
          rw (f, w, u, merge_guest)
            (rename-IsSound server t p q m i k (same_kind-eq q.kind guest w ∙ sym e) s)
    ]
  ]
]

merge_by-IsSound :
    (server : List Profile) (kind : ProfileKind) (x : ℕ × Profile) (m : Merge)
    → x.1.kind ≡ kind
    → IsSound server m
    → IsSound server (merge_by kind x m)
unfolding merge_by
merge_by-IsSound server local x m e s =
    unfold keep in record { same = s.same; shown = λ v. (inl e, s.shown v) }
merge_by-IsSound server host (t, p) m e s = merge_host-IsSound server t p m e s
merge_by-IsSound server guest (t, p) m e s = merge_guest-IsSound server t p m e s

-- A merge that has broken off keeps the rest as it is.
step-IsSound :
    (server : List Profile) (b : Bool) (x : ℕ × Profile) (m : Merge)
    → m.invalid ≡ b
    → IsSound server m
    → IsSound server (if b then keep x m else merge_by x.1.kind x m)
unfolding keep
step-IsSound server true x m w s = record { same = s.same; shown = λ v. cc (w, v) }
step-IsSound server false x m w s = merge_by-IsSound server x.1.kind x m refl s

merge-IsSound : (es : Entries) (xs : List (ℕ × Profile)) → IsSound (listed es) (merge es xs)
unfolding merge
merge-IsSound es [] = record { same = refl; shown = λ v. tt }
merge-IsSound es (x ∷ xs) =
    step-IsSound (listed es) (merge es xs).invalid x (merge es xs) refl (merge-IsSound es xs)

pub merge-listed :
    (es : Entries) (xs : List (ℕ × Profile)) → listed (merge es xs).entries ≡ listed es
merge-listed es xs = (merge-IsSound es xs).same

-- After a merge that has not broken off, every profile of the session is the guest's own or one of the
-- server's list, under the name that the server gives it.
pub merge-IsShown :
    (es : Entries) (xs : List (ℕ × Profile))
    → (merge es xs).invalid ≡ false
    → All (IsShown (listed es)) (merge es xs).profiles
merge-IsShown es xs v = (merge-IsSound es xs).shown v
