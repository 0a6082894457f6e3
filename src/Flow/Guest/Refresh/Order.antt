-- ===== src/Flow/Guest/Refresh/Order.antt =====
-- The order and the kinds of the list of players that a guest has sorted.
use terracotta_ffi.Base.{
  ℕ, ◌+◌, ◌≡◌, refl, inl, inr, true, false, List, [], ◌∷◌, ◌++◌, if◌then◌else◌, Text, text_eq,
  text_eq_sym, text_ltb, text_ltb_irrefl, text_ltb_trans, text_total, arith, Bool-cases,
}
use terracotta_ffi.Profile.{Profile, ProfileKind}
use terracotta_ffi.Flow.Guest.Refresh.Reading.{insert, sort, has_no_conflict}
use terracotta_ffi.Flow.Guest.Refresh.{same_kind}

-- Every machine id from a bound on, in weakly ascending order.
unfoldable pub IsFrom : Text → List Profile → Type 0
IsFrom m [] = Unit {0}
IsFrom m (p ∷ ps) = (text_ltb p.machine_id m ≡ false) × IsFrom p.machine_id ps

unfoldable pub IsOrdered : List Profile → Type 0
unfolding IsFrom
IsOrdered [] = Unit {0}
IsOrdered (p ∷ ps) = IsFrom p.machine_id ps

-- Strictly ascending machine ids, above a bound.
unfoldable pub IsAbove : Text → List Profile → Type 0
IsAbove m [] = Unit {0}
IsAbove m (p ∷ ps) = (text_ltb m p.machine_id ≡ true) × IsAbove p.machine_id ps

unfoldable pub IsAscending : List Profile → Type 0
unfolding IsAbove
IsAscending [] = Unit {0}
IsAscending (p ∷ ps) = IsAbove p.machine_id ps

text_ltb_asym : (s t : Text) → text_ltb s t ≡ true → text_ltb t s ≡ false
text_ltb_asym s t h = elim (Bool-cases (text_ltb t s)) [
  | inl k ↦ cc (text_ltb_irrefl s, text_ltb_trans s t s h k)
  | inr k ↦ k
]

insert-IsFrom :
    (m : Text) (p : Profile) (ps : List Profile)
    → text_ltb p.machine_id m ≡ false
    → IsFrom m ps
    → IsFrom m (insert p ps)
unfolding insert IsFrom
insert-IsFrom m p [] h k = (h, tt)
insert-IsFrom m p (q ∷ ps) h k = elim (Bool-cases (text_ltb q.machine_id p.machine_id)) [
  | inl e ↦
      rw e (k.0, insert-IsFrom q.machine_id p ps (text_ltb_asym q.machine_id p.machine_id e) k.1)
  | inr e ↦ rw e (h, (e, k.1))
]

insert-IsOrdered : (p : Profile) (ps : List Profile) → IsOrdered ps → IsOrdered (insert p ps)
unfolding insert IsFrom IsOrdered
insert-IsOrdered p [] k = tt
insert-IsOrdered p (q ∷ ps) k = elim (Bool-cases (text_ltb q.machine_id p.machine_id)) [
  | inl e ↦ rw e (insert-IsFrom q.machine_id p ps (text_ltb_asym q.machine_id p.machine_id e) k)
  | inr e ↦ rw e (e, k)
]

pub sort-IsOrdered : (ps : List Profile) → IsOrdered (sort ps)
unfolding sort IsOrdered
sort-IsOrdered [] = tt
sort-IsOrdered (p ∷ ps) = insert-IsOrdered p (sort ps) (sort-IsOrdered ps)

above : (m k : Text) → text_ltb k m ≡ false → text_eq m k ≡ false → text_ltb m k ≡ true
above m k h d = text_total k m h (text_eq_sym m k d)

IsFrom-strict :
    (p : Profile) (ps : List Profile)
    → IsFrom p.machine_id ps
    → has_no_conflict (p ∷ ps) ≡ true
    → IsAbove p.machine_id ps
unfolding IsFrom IsAbove has_no_conflict
IsFrom-strict p [] k h = tt
IsFrom-strict p (q ∷ ps) k h = elim (Bool-cases (text_eq p.machine_id q.machine_id)) [
  | inl e ↦ cc (rw (e, has_no_conflict) at h)
  | inr e ↦
      (above p.machine_id q.machine_id k.0 e, IsFrom-strict q ps k.1 (rw (e, has_no_conflict) at h))
]

pub IsOrdered-strict :
    (ps : List Profile) → IsOrdered ps → has_no_conflict ps ≡ true → IsAscending ps
unfolding IsOrdered IsAscending
IsOrdered-strict [] k h = tt
IsOrdered-strict (p ∷ ps) k h = IsFrom-strict p ps k h

-- How many profiles are of a kind.
unfoldable pub count : ProfileKind → List Profile → ℕ
count kind [] = 0
count kind (p ∷ ps) = (if same_kind p.kind kind then 1 else 0) + count kind ps

pub count-append :
    (kind : ProfileKind) (ps qs : List Profile)
    → count kind (ps ++ qs) ≡ count kind ps + count kind qs
unfolding count
count-append kind [] qs = omega arith
count-append kind (p ∷ ps) qs = omega (arith, count-append kind ps qs)

count-insert :
    (kind : ProfileKind) (p : Profile) (ps : List Profile)
    → count kind (insert p ps) ≡ count kind (p ∷ ps)
unfolding count insert
count-insert kind p [] = refl
count-insert kind p (q ∷ ps) = elim (Bool-cases (text_ltb q.machine_id p.machine_id)) [
  | inl e ↦ rw e (omega (arith, count-insert kind p ps))
  | inr e ↦ rw e refl
]

pub count-sort : (kind : ProfileKind) (ps : List Profile) → count kind (sort ps) ≡ count kind ps
unfolding count sort
count-sort kind [] = refl
count-sort kind (p ∷ ps) = omega (arith, count-insert kind p (sort ps), count-sort kind ps)
