-- ===== src/Mc/Announcement/Find.antt =====
-- Where a tag first occurs behind other text.
use terracotta_ffi.Base.{
  ℕ, zero, suc, ◌+◌, ◌/◌, ◌%◌, ◌≤◌, ◌<◌, ◌≡◌, refl, sym, ap, ◌∙◌, inl, inr, Bool, true, false, not,
  ◌&&◌, [], ◌∷◌, ◌++◌, Option, none, some, ◌==◌, ltb, leb, length, length-append, All, All-append,
  Text, arith, Bool-cases,
}
use terracotta_ffi.Base.Decimal.{decimal, u16_to_string}
use terracotta_ffi.Mc.{starts_with, next, find}

-- Without a `[`.
abbrev pub is_plain : Text → Bool
is_plain [] = true
is_plain (c ∷ t) = not (c == b'[') && is_plain t

abbrev pub shift : ℕ → Option ℕ → Option ℕ
shift n none = none
shift n (some i) = some (n + i)

starts_with-block :
    (t xs zs : Text) → is_plain t ≡ true → starts_with t (xs ++ b'[' ∷ zs) ≡ starts_with t xs
starts_with-block [] xs zs p = refl
starts_with-block (c ∷ t) [] zs p = ground (arith, p)
starts_with-block (c ∷ t) (x ∷ xs) zs p =
    ap (λ b. (c == x) && b) (starts_with-block t xs zs (ground (arith, p)))

next-none : (o : Option ℕ) → next o ≡ none → o ≡ none
next-none none h = refl
next-none (some i) h = cc h

shift_zero : (o : Option ℕ) → shift 0 o ≡ o
shift_zero none = refl
shift_zero (some i) = ap some (omega arith)

next-shift : (n : ℕ) (o : Option ℕ) → next (shift n o) ≡ shift (suc n) o
next-shift n none = refl
next-shift n (some i) = ap some (omega arith)

-- A tag that does not occur in a text, and has its only `[` in front, occurs first where it occurs in
-- the rest.
pub find-skip :
    (t xs zs : Text)
    → is_plain t ≡ true
    → find (b'[' ∷ t) xs ≡ none
    → find (b'[' ∷ t) (xs ++ b'[' ∷ zs) ≡ shift (length xs) (find (b'[' ∷ t) (b'[' ∷ zs))
unfolding find
find-skip t [] zs p h = sym (shift_zero (find (b'[' ∷ t) (b'[' ∷ zs)))
find-skip t (x ∷ xs) zs p h = elim (Bool-cases (starts_with (b'[' ∷ t) (x ∷ xs))) [
  | inl s ↦ cc (rw s at h)
  | inr s ↦
      let behind : starts_with (b'[' ∷ t) (x ∷ (xs ++ b'[' ∷ zs)) ≡ false =
        ap (λ b. (b'[' == x) && b) (starts_with-block t xs zs p) ∙ s in
      let h2 = next-none (find (b'[' ∷ t) xs) (rw s at h) in
      rw (behind, find-skip t xs zs p h2) (next-shift (length xs) _)
]

pub find-plain : (t xs : Text) → is_plain xs ≡ true → find (b'[' ∷ t) xs ≡ none
unfolding find
find-plain t [] p = refl
find-plain t (x ∷ xs) p =
    let e : (b'[' == x) ≡ false = ground (arith, p) in rw (e, find-plain t xs (ground (arith, p)))

-- Decimal digits.
abbrev pub IsDigits : Text → Type 0
IsDigits t = All (λ c. leb b'0' c && leb c b'9' ≡ true) t

decimal-IsDigits : (k n : ℕ) → IsDigits (decimal k n)
unfolding decimal
decimal-IsDigits zero n = tt
decimal-IsDigits (suc k) n = elim (Bool-cases (ltb n 10)) [
  | inl s ↦ rw s (ground arith, tt)
  | inr s ↦
      rw s (All-append _ (decimal k (n / 10)) _ (decimal-IsDigits k (n / 10)) (ground arith, tt))
]

pub u16_to_string-IsDigits : (n : ℕ) → IsDigits (u16_to_string n)
unfolding u16_to_string
u16_to_string-IsDigits n = decimal-IsDigits 5 n

pub is_plain-digits : (t : Text) → IsDigits t → is_plain t ≡ true
is_plain-digits [] d = refl
is_plain-digits (c ∷ t) d = ground (arith, d.0, is_plain-digits t d.1)

decimal_longer :
    (k n : ℕ)
    → length (decimal k (n / 10)) ≤ k
    → (0 < length (decimal (suc k) n)) × (length (decimal (suc k) n) ≤ suc k)
unfolding decimal
decimal_longer k n h = elim (Bool-cases (ltb n 10)) [
  | inl s ↦ rw s (omega arith, omega arith)
  | inr s ↦
      let front : Text = decimal k (n / 10) in
      let sum : length (front ++ (b'0' + n % 10) ∷ []) ≡ length front + 1 = length-append front _ in
      rw s (omega (arith, sum), omega (arith, sum, h))
]

decimal_short : (k n : ℕ) → length (decimal k n) ≤ k
decimal_short zero n = unfold decimal in omega arith
decimal_short (suc k) n = (decimal_longer k n (decimal_short k (n / 10))).1

-- One digit at least, and five at most.
pub u16_length : (n : ℕ) → (0 < length (u16_to_string n)) × (length (u16_to_string n) ≤ 5)
unfolding u16_to_string
u16_length n = decimal_longer 4 n (decimal_short 4 (n / 10))
