-- ===== src/EasyTier/Output/Reads.antt =====
-- Reading a buffer of 500 places around its end.
use terracotta_ffi.Base.{
  ℕ, zero, suc, ◌+◌, ◌-◌, ◌%◌, ◌≤◌, ◌≡◌, refl, ap, ap₂, ◌∙◌, List, [], ◌∷◌, ◌++◌, Option, none,
  length, take, drop, get_or, Text, arith,
}
use terracotta_ffi.EasyTier.Output.Rotation.{rotated, drop-get_or, take_whole}

-- The places at some number of positions from one on, around the buffer.
unfoldable pub reads : ℕ → ℕ → List (Option Text) → List (Option Text)
reads zero k xs = []
reads (suc n) k xs = get_or xs (k % 500) none ∷ reads n (suc k) xs

reads-plain :
    (n k : ℕ) (xs : List (Option Text))
    → k + n ≤ length xs
    → length xs ≡ 500
    → reads n k xs ≡ take n (drop k xs)
unfolding reads
reads-plain zero k xs h l = refl
reads-plain (suc n) k xs h l =
    let m : k % 500 ≡ k = omega (arith, h, l) in
    rw (m, drop-get_or k xs none (omega (arith, h)))
      (ap (◌∷◌ (get_or xs k none)) (reads-plain n (suc k) xs (omega (arith, h)) l))

reads-around : (n k : ℕ) (xs : List (Option Text)) → reads n (500 + k) xs ≡ reads n k xs
unfolding reads
reads-around zero k xs = refl
reads-around (suc n) k xs =
    let m : (500 + k) % 500 ≡ k % 500 = omega arith in
    let s : suc (500 + k) ≡ 500 + suc k = omega arith in
    rw (m, s) (ap (◌∷◌ (get_or xs (k % 500) none)) (reads-around n (suc k) xs))

reads-split :
    (m n k : ℕ) (xs : List (Option Text)) → reads (m + n) k xs ≡ reads m k xs ++ reads n (k + m) xs
unfolding reads
reads-split zero n k xs = ap₂ (λ a b. reads a b xs) (omega arith) (omega arith)
reads-split (suc m) n k xs =
    let s : suc m + n ≡ suc (m + n) = omega arith in
    let t : k + suc m ≡ suc k + m = omega arith in
    rw (s, t) (ap (◌∷◌ (get_or xs (k % 500) none)) (reads-split m n (suc k) xs))

length-drop : (n : ℕ) (xs : List (Option Text)) → length (drop n xs) ≡ length xs - n
length-drop zero xs = omega arith
length-drop (suc n) [] = omega arith
length-drop (suc n) (x ∷ xs) = length-drop n xs ∙ omega arith

pub reads-rotated :
    (k : ℕ) (xs : List (Option Text)) → k ≤ 500 → length xs ≡ 500 → reads 500 k xs ≡ rotated k xs
reads-rotated k xs h l =
    let n : ℕ = 500 - k in
    let whole : 500 ≡ n + k = omega (arith, h) in
    let far : k + n ≡ 500 + 0 = omega (arith, h) in
    let front : reads n k xs ≡ drop k xs =
      reads-plain n k xs (omega (arith, h, l)) l
      ∙ take_whole n (drop k xs) (omega (arith, length-drop k xs, l)) in
    let back : reads k (k + n) xs ≡ take k xs =
      ap (λ m. reads k m xs) far
      ∙ reads-around k 0 xs
      ∙ reads-plain k 0 xs (omega (arith, h, l)) l in
    ap (λ m. reads m k xs) whole ∙ reads-split n k k xs ∙ ap₂ (◌++◌) front back
