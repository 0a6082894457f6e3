-- ===== src/Flow/Guest/Refresh/Distinct.antt =====
-- A list with distinct machine ids has no two equal neighbours once it is sorted.
use terracotta_ffi.Base.{
  ◌≡◌, refl, inl, inr, true, false, List, [], ◌∷◌, ◌++◌, Text, text_eq, text_eq_sym, text_ltb, All,
  All-append, Bool-cases,
}
use terracotta_ffi.Profile.{Profile}
use terracotta_ffi.Flow.Guest.Refresh.Reading.{insert, sort, has_no_conflict}

abbrev pub IsNew : Text → List Profile → Type 0
IsNew m ps = All (λ p. text_eq p.machine_id m ≡ false) ps

abbrev pub IsDistinct : List Profile → Type 0
IsDistinct [] = Unit {0}
IsDistinct (p ∷ ps) = IsNew p.machine_id ps × IsDistinct ps

insert-IsNew :
    (m : Text) (p : Profile) (ps : List Profile)
    → text_eq p.machine_id m ≡ false
    → IsNew m ps
    → IsNew m (insert p ps)
unfolding insert
insert-IsNew m p [] h a = (h, tt)
insert-IsNew m p (q ∷ ps) h a = elim (Bool-cases (text_ltb q.machine_id p.machine_id)) [
  | inl e ↦ rw e (a.0, insert-IsNew m p ps h a.1)
  | inr e ↦ rw e (h, a)
]

sort-IsNew : (m : Text) (ps : List Profile) → IsNew m ps → IsNew m (sort ps)
unfolding sort
sort-IsNew m [] a = tt
sort-IsNew m (p ∷ ps) a = insert-IsNew m p (sort ps) a.0 (sort-IsNew m ps a.1)

insert-IsDistinct :
    (p : Profile) (ps : List Profile)
    → IsNew p.machine_id ps
    → IsDistinct ps
    → IsDistinct (insert p ps)
unfolding insert
insert-IsDistinct p [] a d = (tt, tt)
insert-IsDistinct p (q ∷ ps) a d = elim (Bool-cases (text_ltb q.machine_id p.machine_id)) [
  | inl e ↦ rw e (
    insert-IsNew q.machine_id p ps (text_eq_sym q.machine_id p.machine_id a.0) d.0,
    insert-IsDistinct p ps a.1 d.1,
  )
  | inr e ↦ rw e (a, d)
]

sort-IsDistinct : (ps : List Profile) → IsDistinct ps → IsDistinct (sort ps)
unfolding sort
sort-IsDistinct [] d = tt
sort-IsDistinct (p ∷ ps) d =
    insert-IsDistinct p (sort ps) (sort-IsNew p.machine_id ps d.0) (sort-IsDistinct ps d.1)

no_conflict : (ps : List Profile) → IsDistinct ps → has_no_conflict ps ≡ true
unfolding has_no_conflict
no_conflict [] d = refl
no_conflict (p ∷ []) d = refl
no_conflict (p ∷ q ∷ ps) d =
    rw (text_eq_sym q.machine_id p.machine_id d.0.0, no_conflict (q ∷ ps) d.1) refl

pub sort-no_conflict : (ps : List Profile) → IsDistinct ps → has_no_conflict (sort ps) ≡ true
sort-no_conflict ps d = no_conflict (sort ps) (sort-IsDistinct ps d)

-- A profile with a new machine id behind the others.
pub append-IsDistinct :
    (ps : List Profile) (p : Profile)
    → IsNew p.machine_id ps
    → IsDistinct ps
    → IsDistinct (ps ++ p ∷ [])
append-IsDistinct [] p a d = (tt, tt)
append-IsDistinct (q ∷ ps) p a d = (
  All-append (λ x. text_eq x.machine_id q.machine_id ≡ false) ps (p ∷ []) d.0
      (text_eq_sym q.machine_id p.machine_id a.0, tt),
  append-IsDistinct ps p a.1 d.1,
)
