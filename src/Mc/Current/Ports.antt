-- ===== src/Mc/Current/Ports.antt =====
-- The removals of src/mc/scanner.rs, on lists of distinct ports.
use terracotta_ffi.Base.{
  ℕ, ◌≡◌, refl, ap, ◌∙◌, inl, inr, Bool, true, false, ◌||◌, List, [], ◌∷◌, ◌++◌, map, ◌==◌, arith,
  Bool-cases,
}
use terracotta_ffi.Mc.Scanner.{Port, port_of, has_expired, expire, remove_port}

abbrev pub has : ℕ → List ℕ → Bool
has x [] = false
has x (y ∷ ys) = (y == x) || has x ys

abbrev pub HasDistinct : List ℕ → Type 0
HasDistinct [] = Unit {0}
HasDistinct (x ∷ xs) = (has x xs ≡ false) × HasDistinct xs

abbrev pub numbers : List Port → List ℕ
numbers = map port_of

pub expire-kept : (now : ℕ) (ps : List Port) → (expire now ps).1 ≡ false → (expire now ps).0 ≡ ps
unfolding expire
expire-kept now [] h = refl
expire-kept now (p ∷ ps) h = elim (Bool-cases (has_expired now p)) [
  | inl e ↦ cc (rw e at h)
  | inr e ↦ rw e (ap (◌∷◌ p) (expire-kept now ps (rw e at h)))
]

expire-has :
    (now x : ℕ) (ps : List Port)
    → has x (numbers ps) ≡ false
    → has x (numbers (expire now ps).0) ≡ false
unfolding expire
expire-has now x [] h = h
expire-has now x (p ∷ ps) h = ground (arith, expire-has now x ps)

pub expire-HasDistinct :
    (now : ℕ) (ps : List Port) → HasDistinct (numbers ps) → HasDistinct (numbers (expire now ps).0)
unfolding expire
expire-HasDistinct now [] d = tt
expire-HasDistinct now (p ∷ ps) d = elim (Bool-cases (has_expired now p)) [
  | inl e ↦ rw e (expire-HasDistinct now ps d.1)
  | inr e ↦ rw e (expire-has now p.0 ps d.0, expire-HasDistinct now ps d.1)
]

-- The removal of a port that is not there changes nothing.
pub remove_port-absent :
    (x : ℕ) (ps : List Port)
    → (remove_port x ps).1 ≡ false
    → ((remove_port x ps).0 ≡ ps) × (has x (numbers ps) ≡ false)
unfolding remove_port
remove_port-absent x [] h = (refl, refl)
remove_port-absent x (p ∷ ps) h = elim (Bool-cases (p.0 == x)) [
  | inl e ↦ cc (rw e at h)
  | inr e ↦ let rest = remove_port-absent x ps (rw e at h) in rw e (ap (◌∷◌ p) rest.0, rest.1)
]

pub remove_port-has :
    (x y : ℕ) (ps : List Port)
    → (remove_port x ps).1 ≡ true
    → (has y (numbers (remove_port x ps).0) || (x == y)) ≡ has y (numbers ps)
unfolding remove_port
remove_port-has x y [] h = cc h
remove_port-has x y (p ∷ ps) h = elim (Bool-cases (p.0 == x)) [
  | inl e ↦ rw e (ground arith)
  | inr e ↦ rw e (ground (arith, remove_port-has x y ps (rw e at h)))
]

remove_port-fewer :
    (x y : ℕ) (ps : List Port)
    → has y (numbers ps) ≡ false
    → has y (numbers (remove_port x ps).0) ≡ false
unfolding remove_port
remove_port-fewer x y [] h = h
remove_port-fewer x y (p ∷ ps) h = ground (arith, remove_port-fewer x y ps)

pub remove_port-HasDistinct :
    (x : ℕ) (ps : List Port)
    → HasDistinct (numbers ps)
    → HasDistinct (numbers (remove_port x ps).0) × (has x (numbers (remove_port x ps).0) ≡ false)
unfolding remove_port
remove_port-HasDistinct x [] d = (tt, refl)
remove_port-HasDistinct x (p ∷ ps) d =
    let rest = remove_port-HasDistinct x ps d.1 in
    elim (Bool-cases (p.0 == x)) [
      | inl e ↦ rw e (d.1, ground (arith, d.0))
      | inr e ↦ rw e ((remove_port-fewer x p.0 ps d.0, rest.0), ground (arith, e, rest.1))
    ]

pub has-append :
    (x : ℕ) (ps : List Port) (p : Port)
    → has x (numbers (ps ++ p ∷ [])) ≡ (has x (numbers ps) || (p.0 == x))
has-append x [] p = ground arith
has-append x (q ∷ ps) p = ground (arith, has-append x ps p)

pub append-HasDistinct :
    (ps : List Port) (p : Port)
    → has p.0 (numbers ps) ≡ false
    → HasDistinct (numbers ps)
    → HasDistinct (numbers (ps ++ p ∷ []))
append-HasDistinct [] p h d = (refl, tt)
append-HasDistinct (q ∷ ps) p h d =
    (has-append q.0 ps p ∙ ground (arith, d.0, h), append-HasDistinct ps p (ground (arith, h)) d.1)
