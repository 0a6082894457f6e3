-- ===== src/EasyTier/Output/Lines.antt =====
-- Places with and without a line.
use terracotta_ffi.Base.{
  ℕ, zero, suc, ◌-◌, ◌≤◌, ◌≡◌, refl, ap, ◌∙◌, List, [], ◌∷◌, ◌++◌, Option, none, some, map, take,
  drop, replicate, Text, arith,
}

-- The lines in some places.
abbrev pub somes : List (Option Text) → List Text
somes [] = []
somes (none ∷ xs) = somes xs
somes (some line ∷ xs) = line ∷ somes xs

pub somes-some : (lines : List Text) → somes (map some lines) ≡ lines
somes-some [] = refl
somes-some (line ∷ lines) = ap (◌∷◌ line) (somes-some lines)

pub somes-append : (xs ys : List (Option Text)) → somes (xs ++ ys) ≡ somes xs ++ somes ys
somes-append [] ys = refl
somes-append (none ∷ xs) ys = somes-append xs ys
somes-append (some x ∷ xs) ys = ap (◌∷◌ x) (somes-append xs ys)

pub somes-replicate : (n : ℕ) → somes (replicate n none) ≡ []
somes-replicate zero = refl
somes-replicate (suc n) = somes-replicate n

pub drop-replicate :
    (m n : ℕ) (xs : List (Option Text))
    → m ≤ n
    → drop m (replicate n none ++ xs) ≡ replicate (n - m) none ++ xs
drop-replicate zero n xs h = ap (λ k. replicate k none ++ xs) (omega arith)
drop-replicate (suc m) zero xs h = ground arith
drop-replicate (suc m) (suc n) xs h =
    drop-replicate m n xs (omega (arith, h)) ∙ ap (λ k. replicate k none ++ xs) (omega arith)

pub drop-behind :
    (n m : ℕ) (xs : List (Option Text)) → n ≤ m → drop m (replicate n none ++ xs) ≡ drop (m - n) xs
drop-behind zero m xs h = ap (λ k. drop k xs) (omega arith)
drop-behind (suc n) zero xs h = ground arith
drop-behind (suc n) (suc m) xs h =
    drop-behind n m xs (omega (arith, h)) ∙ ap (λ k. drop k xs) (omega arith)

pub drop-map : (n : ℕ) (lines : List Text) → drop n (map some lines) ≡ map some (drop n lines)
drop-map zero lines = refl
drop-map (suc n) [] = refl
drop-map (suc n) (line ∷ lines) = drop-map n lines

pub take-map : (n : ℕ) (lines : List Text) → take n (map some lines) ≡ map some (take n lines)
take-map zero lines = refl
take-map (suc n) [] = refl
take-map (suc n) (line ∷ lines) = ap (◌∷◌ (some line)) (take-map n lines)
