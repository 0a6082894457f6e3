-- ===== src/EasyTier/Output/Rotation.antt =====
-- A list read from an index on and around.
use terracotta_ffi.Base.{
  ℕ, zero, suc, ◌≤◌, ◌<◌, ◌≡◌, refl, sym, ap, ap₂, ◌∙◌, List, [], ◌∷◌, ◌++◌, length, length-append,
  take, drop, set, get_or, append_assoc, append-nil, arith,
}

module _ {ℓ} {A : Type ℓ} where
  abbrev pub rotated : ℕ → List A → List A
  rotated i xs = drop i xs ++ take i xs

  drop-set : (i : ℕ) (xs : List A) (v : A) → drop (suc i) (set xs i v) ≡ drop (suc i) xs
  drop-set i [] v = refl
  drop-set zero (x ∷ xs) v = refl
  drop-set (suc i) (x ∷ xs) v = drop-set i xs v

  take-set :
      (i : ℕ) (xs : List A) (v : A)
      → i < length xs
      → take (suc i) (set xs i v) ≡ take i xs ++ v ∷ []
  take-set i [] v h = ground arith
  take-set zero (x ∷ xs) v h = refl
  take-set (suc i) (x ∷ xs) v h = ap (◌∷◌ x) (take-set i xs v (omega (arith, h)))

  pub drop-get_or :
      (i : ℕ) (xs : List A) (d : A) → i < length xs → drop i xs ≡ get_or xs i d ∷ drop (suc i) xs
  drop-get_or i [] d h = ground arith
  drop-get_or zero (x ∷ xs) d h = refl
  drop-get_or (suc i) (x ∷ xs) d h = drop-get_or i xs d (omega (arith, h))

  take-get_or :
      (i : ℕ) (xs : List A) (d : A)
      → i < length xs
      → take (suc i) xs ≡ take i xs ++ get_or xs i d ∷ []
  take-get_or i [] d h = ground arith
  take-get_or zero (x ∷ xs) d h = refl
  take-get_or (suc i) (x ∷ xs) d h = ap (◌∷◌ x) (take-get_or i xs d (omega (arith, h)))

  -- Overwriting the entry at the index and moving on drops the first of the rotation.
  pub rotated-set :
      (i : ℕ) (xs : List A) (v : A)
      → i < length xs
      → rotated (suc i) (set xs i v) ≡ drop 1 (rotated i xs) ++ v ∷ []
  rotated-set i xs v h =
      ap₂ (◌++◌) (drop-set i xs v) (take-set i xs v h)
      ∙ sym (append_assoc (drop (suc i) xs) (take i xs) (v ∷ []))
      ∙ ap (λ l. drop 1 (l ++ take i xs) ++ v ∷ []) (sym (drop-get_or i xs v h))

  -- Moving on alone puts the first of the rotation last.
  pub rotated-suc :
      (i : ℕ) (xs : List A) (d : A)
      → i < length xs
      → rotated (suc i) xs ≡ drop 1 (rotated i xs) ++ take 1 (rotated i xs)
  rotated-suc i xs d h =
      ap (λ l. drop (suc i) xs ++ l) (take-get_or i xs d h)
      ∙ sym (append_assoc (drop (suc i) xs) (take i xs) (get_or xs i d ∷ []))
      ∙ ap (λ l. drop 1 (l ++ take i xs) ++ take 1 (l ++ take i xs)) (sym (drop-get_or i xs d h))

  pub length-set : (i : ℕ) (xs : List A) (v : A) → length (set xs i v) ≡ length xs
  length-set i [] v = refl
  length-set zero (x ∷ xs) v = refl
  length-set (suc i) (x ∷ xs) v = ap suc (length-set i xs v)

  pub drop_whole : (n : ℕ) (xs : List A) → length xs ≤ n → drop n xs ≡ []
  drop_whole zero [] h = refl
  drop_whole zero (x ∷ xs) h = ground arith
  drop_whole (suc n) [] h = refl
  drop_whole (suc n) (x ∷ xs) h = drop_whole n xs (omega (arith, h))

  pub take_whole : (n : ℕ) (xs : List A) → length xs ≤ n → take n xs ≡ xs
  take_whole zero [] h = refl
  take_whole zero (x ∷ xs) h = ground arith
  take_whole (suc n) [] h = refl
  take_whole (suc n) (x ∷ xs) h = ap (◌∷◌ x) (take_whole n xs (omega (arith, h)))

  -- All the way around.
  pub rotated-length : (xs : List A) → rotated (length xs) xs ≡ rotated 0 xs
  rotated-length xs =
      ap₂ (◌++◌) (drop_whole (length xs) xs (omega arith)) (take_whole (length xs) xs (omega arith))
      ∙ sym (append-nil xs)

  -- Each of some entries pushed out at the front by one put behind.
  abbrev pub push_all : List A → List A → List A
  push_all xs [] = xs
  push_all xs (y ∷ ys) = push_all (drop 1 xs ++ y ∷ []) ys

  pub push_all-drop :
      (xs ys : List A) → 0 < length xs → push_all xs ys ≡ drop (length ys) (xs ++ ys)
  push_all-drop xs [] h = sym (append-nil xs)
  push_all-drop [] (y ∷ ys) h = ground arith
  push_all-drop (x ∷ xs) (y ∷ ys) h =
      push_all-drop (xs ++ y ∷ []) ys (ground (arith, length-append xs (y ∷ [])))
      ∙ ap (drop (length ys)) (append_assoc xs (y ∷ []) ys)
