-- ===== src/Room/Chars.antt =====
-- The 34 digits of a room code: tables over every digit, checked by evaluation.
use terracotta_ffi.Base.{
  ℕ, ◌<◌, ◌≡◌, refl, Bool, false, true, Option, none, some, ◌==◌, all_below_sound,
  to_ascii_uppercase, ==_eq, arith, if◌then◌else◌, length, Option-cases, inl, inr, [], ◌∷◌, Text,
}
use terracotta_ffi.Room.{chars, char_at, lookup_char, position}

is_some_of : Option ℕ → ℕ → Bool
is_some_of none n = false
is_some_of (some m) n = m == n

some_of_is_some_of : (o : Option ℕ) (n : ℕ) → is_some_of o n ≡ true → o ≡ some n
unfolding is_some_of
some_of_is_some_of none n h = cc
some_of_is_some_of (some m) n h = ground arith

-- `lookup_char` inverts the table of digits.
pub lookup_char-char_at : (d : ℕ) → d < 34 → lookup_char (char_at d) ≡ some d
unfolding lookup_char char_at is_some_of
lookup_char-char_at d h =
    some_of_is_some_of _ d
      (all_below_sound 34 (λ d. is_some_of (lookup_char (char_at d)) d) d refl h)

-- A digit is in upper case already.
pub to_ascii_uppercase-char_at : (d : ℕ) → d < 34 → to_ascii_uppercase (char_at d) ≡ char_at d
unfolding char_at
to_ascii_uppercase-char_at d h =
    ==_eq _ _ (all_below_sound 34 (λ d. to_ascii_uppercase (char_at d) == char_at d) d refl h)

position-lt : (cs : Text) (c : ℕ) {d : ℕ} → position cs c ≡ some d → d < length cs
unfolding position
position-lt [] c h = cc
position-lt (x ∷ cs) c h = elim (Option-cases (position cs c)) [
  | inl e ↦ ground arith
  | inr (k, e) ↦ ground (arith, position-lt cs c e)
]

-- A digit is below 34.
pub lookup_char-lt : (c : ℕ) {d : ℕ} → lookup_char c ≡ some d → d < 34
unfolding lookup_char
lookup_char-lt c h = position-lt chars (if c == b'I' then b'1' else if c == b'O' then b'0' else c) h
