-- ===== src/EasyTier/Forwarding/Removal.antt =====
-- What a round of attempts leaves.
use terracotta_ffi.Base.{
  ℕ, zero, suc, ◌≤◌, ◌≡◌, ◌↔◌, refl, ap, inl, inr, true, false, List, [], ◌∷◌, none, some, length,
  drop, get_elem?, All, arith, Bool-cases, Option-cases,
}
use terracotta_ffi.EasyTier.{PortForward}
use terracotta_ffi.EasyTier.Forwarding.{
  Attempt, is_successful, behind_first, bring_last, swap_remove, remove_if_done, remove_done,
}

bring_last-All :
    (P : PortForward → Type 0) (fs : List PortForward) → All P fs ↔ All P (bring_last fs)
unfolding bring_last
bring_last-All P [] = (λ a. a, λ a. a)
bring_last-All P (f ∷ fs) =
    elim (bring_last fs)
        as (λ gs. All P fs ↔ All P gs → (P f × All P fs) ↔ All P (behind_first f gs)) [
          | [] ↦ λ e. (λ a. (a.0, tt), λ a. (a.0, e.1 tt))
          | g ∷ gs ↦ λ e. (λ a. ((e.0 a.1).0, (a.0, (e.0 a.1).1)), λ a. (a.1.0, e.1 (a.0, a.1.1)))
        ]
      (bring_last-All P fs)

-- The entry at an index, and the entries from the next on, in place of which come those.
swap_remove-All :
    (P : PortForward → Type 0) (i : ℕ) (fs : List PortForward) {f : PortForward}
    → get_elem? fs i ≡ some f
    → All P fs ↔ (P f × All P (swap_remove i fs))
unfolding swap_remove
swap_remove-All P i [] h = cc h
swap_remove-All P zero (g ∷ fs) {f} h =
    let e : f ≡ g = cc h in
    let moved = bring_last-All P fs in rw e (λ a. (a.0, moved.0 a.1), λ a. (a.0, moved.1 a.1))
swap_remove-All P (suc i) (g ∷ fs) h =
    let rest = swap_remove-All P i fs h in
    (λ a. ((rest.0 a.1).0, (a.0, (rest.0 a.1).1)), λ a. (a.1.0, rest.1 (a.0, a.1.1)))

-- From an index on, all entries satisfy P.
swap_remove-drop :
    (P : PortForward → Type 0) (i : ℕ) (fs : List PortForward)
    → All P (drop (suc i) fs)
    → All P (drop i (swap_remove i fs))
unfolding swap_remove
swap_remove-drop P zero [] a = tt
swap_remove-drop P (suc i) [] a = tt
swap_remove-drop P zero (f ∷ fs) a = (bring_last-All P fs).0 a
swap_remove-drop P (suc i) (f ∷ fs) a = swap_remove-drop P i fs a

drop-All_some :
    (P : PortForward → Type 0) (i : ℕ) (fs : List PortForward) {f : PortForward}
    → get_elem? fs i ≡ some f
    → P f
    → All P (drop (suc i) fs)
    → All P (drop i fs)
drop-All_some P i [] h p a = cc h
drop-All_some P zero (g ∷ fs) {f} h p a = let e : g ≡ f = cc h in rw e (p, a)
drop-All_some P (suc i) (g ∷ fs) h p a = drop-All_some P i fs h p a

drop-All_none :
    (P : PortForward → Type 0) (i : ℕ) (fs : List PortForward)
    → get_elem? fs i ≡ none
    → All P (drop i fs)
drop-All_none P zero [] h = tt
drop-All_none P (suc i) [] h = tt
drop-All_none P zero (g ∷ fs) h = cc h
drop-All_none P (suc i) (g ∷ fs) h = drop-All_none P i fs h

pub drop-All_all :
    (P : PortForward → Type 0) (n : ℕ) (fs : List PortForward) → length fs ≤ n → All P (drop n fs)
drop-All_all P zero [] h = tt
drop-All_all P zero (f ∷ fs) h = ground arith
drop-All_all P (suc n) [] h = tt
drop-All_all P (suc n) (f ∷ fs) h = drop-All_all P n fs (omega (arith, h))

-- Going on with the entries below an index.
module _ (rpc : ℕ) (cli : ℕ → PortForward → Attempt) (P : PortForward → Type 0) (time : ℕ) where
  abbrev pub IsFailed : PortForward → Type 0
  IsFailed f = is_successful (cli time f) ≡ false

  remove_if_done-All :
      (i : ℕ) (fs : List PortForward) → All P fs → All P (remove_if_done rpc cli time i fs)
  unfolding remove_if_done
  remove_if_done-All i fs a = elim (Option-cases (get_elem? fs i)) [
    | inl e ↦ rw (remove_if_done, e) a
    | inr (f, e) ↦ elim (Bool-cases (is_successful (cli time f))) [
      | inl s ↦ rw (remove_if_done, e, s) ((swap_remove-All P i fs e).0 a).1
      | inr s ↦ rw (remove_if_done, e, s) a
    ]
  ]

  remove_if_done-drop :
      (i : ℕ) (fs : List PortForward)
      → All IsFailed (drop (suc i) fs)
      → All IsFailed (drop i (remove_if_done rpc cli time i fs))
  unfolding remove_if_done
  remove_if_done-drop i fs a = elim (Option-cases (get_elem? fs i)) [
    | inl e ↦ rw (remove_if_done, e) (drop-All_none IsFailed i fs e)
    | inr (f, e) ↦ elim (Bool-cases (is_successful (cli time f))) [
      | inl s ↦ rw (remove_if_done, e, s) (swap_remove-drop IsFailed i fs a)
      | inr s ↦ rw (remove_if_done, e, s) (drop-All_some IsFailed i fs e s a)
    ]
  ]

  remove_if_done-covers :
      (i : ℕ) (fs : List PortForward)
      → ((f : PortForward) → is_successful (cli time f) ≡ true → P f)
      → All P (remove_if_done rpc cli time i fs)
      → All P fs
  unfolding remove_if_done
  remove_if_done-covers i fs h a = elim (Option-cases (get_elem? fs i)) [
    | inl e ↦ rw (remove_if_done, e) at a
    | inr (f, e) ↦ elim (Bool-cases (is_successful (cli time f))) [
      | inl s ↦ (swap_remove-All P i fs e).1 (h f s, rw (remove_if_done, e, s) at a)
      | inr s ↦ rw (remove_if_done, e, s) at a
    ]
  ]

  -- What holds of all entries holds of those left.
  pub remove_done-All :
      (i : ℕ) (fs : List PortForward) → All P fs → All P (remove_done rpc cli time i fs)
  unfolding remove_done
  remove_done-All zero fs a = a
  remove_done-All (suc i) fs a =
      remove_done-All i (remove_if_done rpc cli time i fs) (remove_if_done-All i fs a)

  -- What is left has not succeeded.
  pub remove_done-IsFailed :
      (i : ℕ) (fs : List PortForward)
      → All IsFailed (drop i fs)
      → All IsFailed (remove_done rpc cli time i fs)
  unfolding remove_done
  remove_done-IsFailed zero fs a = a
  remove_done-IsFailed (suc i) fs a =
      remove_done-IsFailed i (remove_if_done rpc cli time i fs) (remove_if_done-drop i fs a)

  -- What is not left has succeeded.
  pub remove_done-covers :
      (i : ℕ) (fs : List PortForward)
      → ((f : PortForward) → is_successful (cli time f) ≡ true → P f)
      → All P (remove_done rpc cli time i fs)
      → All P fs
  unfolding remove_done
  remove_done-covers zero fs h a = a
  remove_done-covers (suc i) fs h a =
      remove_if_done-covers i fs h (remove_done-covers i (remove_if_done rpc cli time i fs) h a)

bring_last-length : (fs : List PortForward) → length (bring_last fs) ≡ length fs
unfolding bring_last
bring_last-length [] = refl
bring_last-length (f ∷ fs) =
    elim (bring_last fs)
        as (λ gs. length gs ≡ length fs → length (behind_first f gs) ≡ suc (length fs)) [
          | [] ↦ λ e. ap suc e
          | g ∷ gs ↦ λ e. ap suc e
        ]
      (bring_last-length fs)

swap_remove-length : (i : ℕ) (fs : List PortForward) → length (swap_remove i fs) ≤ length fs
unfolding swap_remove
swap_remove-length i [] = omega arith
swap_remove-length zero (f ∷ fs) = omega (arith, bring_last-length fs)
swap_remove-length (suc i) (f ∷ fs) = omega (arith, swap_remove-length i fs)

-- One look at an entry leaves the list or takes the entry out.
remove_if_done-either :
    (Q : List PortForward → Type 0) (rpc : ℕ) (cli : ℕ → PortForward → Attempt) (time i : ℕ)
    (fs : List PortForward)
    → Q fs
    → Q (swap_remove i fs)
    → Q (remove_if_done rpc cli time i fs)
unfolding remove_if_done
remove_if_done-either Q rpc cli time i fs same less = elim (Option-cases (get_elem? fs i)) [
  | inl e ↦ rw (remove_if_done, e) same
  | inr (f, e) ↦ elim (Bool-cases (is_successful (cli time f))) [
    | inl s ↦ rw (remove_if_done, e, s) less
    | inr s ↦ rw (remove_if_done, e, s) same
  ]
]

remove_if_done-length :
    (rpc : ℕ) (cli : ℕ → PortForward → Attempt) (time i : ℕ) (fs : List PortForward)
    → length (remove_if_done rpc cli time i fs) ≤ length fs
remove_if_done-length rpc cli time i fs =
    remove_if_done-either (λ l. length l ≤ length fs) rpc cli time i fs (omega arith)
      (swap_remove-length i fs)

pub remove_done-length :
    (rpc : ℕ) (cli : ℕ → PortForward → Attempt) (time i : ℕ) (fs : List PortForward)
    → length (remove_done rpc cli time i fs) ≤ length fs
unfolding remove_done
remove_done-length rpc cli time zero fs = omega arith
remove_done-length rpc cli time (suc i) fs = omega (
  arith,
  remove_done-length rpc cli time i (remove_if_done rpc cli time i fs),
  remove_if_done-length rpc cli time i fs,
)
