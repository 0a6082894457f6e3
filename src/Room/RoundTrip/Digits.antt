-- ===== src/Room/RoundTrip/Digits.antt =====
-- The loop of `parse` over the digits that `from_value` prints.
use terracotta_ffi.Base.{
  ℕ, suc, ◌+◌, ◌*◌, ◌/◌, ◌%◌, ◌^◌, ◌<◌, ◌≡◌, refl, ◌∙◌, true, false, some, get_or, Text, arith,
}
use terracotta_ffi.Room.{char_at, is_dash, u128_mod, from_value, scan_digits}
use terracotta_ffi.Room.Chars.{lookup_char-char_at}

-- One round of the loop on a digit: what was read, `v / 34`, becomes `v`.
scan_digit :
    (i : ℕ) (w : Text) (u v : ℕ)
    → is_dash i ≡ false
    → get_or w (i + 2) 0 ≡ char_at (v % 34)
    → u ≡ v / 34
    → v < u128_mod
    → scan_digits (suc i) w u ≡ scan_digits i w v
unfolding scan_digits
scan_digit i w u v d c e h =
    let back : (u * 34 + v % 34) % u128_mod ≡ v = omega arith in
    rw (d, c, lookup_char-char_at (v % 34) (omega arith)) (rw back)

scan_dash :
    (i : ℕ) (w : Text) (u : ℕ)
    → is_dash i ≡ true
    → get_or w (i + 2) 0 ≡ b'-'
    → scan_digits (suc i) w u ≡ scan_digits i w u
unfolding scan_digits
scan_dash i w u d c = rw (d, c)

div34-lt : (v k : ℕ) → v < 34 * k → v / 34 < k
div34-lt v k h = omega arith

pub scan_digits-from_value : (v : ℕ) → v < 34 ^ 16 → scan_digits 19 (from_value v).code 0 ≡ some v
unfolding from_value
scan_digits-from_value v h =
    let w : Text = (from_value v).code in
    let v1 : ℕ = v / 34 in
    let v2 : ℕ = v1 / 34 in
    let v3 : ℕ = v2 / 34 in
    let v4 : ℕ = v3 / 34 in
    let v5 : ℕ = v4 / 34 in
    let v6 : ℕ = v5 / 34 in
    let v7 : ℕ = v6 / 34 in
    let v8 : ℕ = v7 / 34 in
    let v9 : ℕ = v8 / 34 in
    let v10 : ℕ = v9 / 34 in
    let v11 : ℕ = v10 / 34 in
    let v12 : ℕ = v11 / 34 in
    let v13 : ℕ = v12 / 34 in
    let v14 : ℕ = v13 / 34 in
    let v15 : ℕ = v14 / 34 in
    let b1 : v1 < 34 ^ 15 = div34-lt v (34 ^ 15) h in
    let b2 : v2 < 34 ^ 14 = div34-lt v1 (34 ^ 14) b1 in
    let b3 : v3 < 34 ^ 13 = div34-lt v2 (34 ^ 13) b2 in
    let b4 : v4 < 34 ^ 12 = div34-lt v3 (34 ^ 12) b3 in
    let b5 : v5 < 34 ^ 11 = div34-lt v4 (34 ^ 11) b4 in
    let b6 : v6 < 34 ^ 10 = div34-lt v5 (34 ^ 10) b5 in
    let b7 : v7 < 34 ^ 9 = div34-lt v6 (34 ^ 9) b6 in
    let b8 : v8 < 34 ^ 8 = div34-lt v7 (34 ^ 8) b7 in
    let b9 : v9 < 34 ^ 7 = div34-lt v8 (34 ^ 7) b8 in
    let b10 : v10 < 34 ^ 6 = div34-lt v9 (34 ^ 6) b9 in
    let b11 : v11 < 34 ^ 5 = div34-lt v10 (34 ^ 5) b10 in
    let b12 : v12 < 34 ^ 4 = div34-lt v11 (34 ^ 4) b11 in
    let b13 : v13 < 34 ^ 3 = div34-lt v12 (34 ^ 3) b12 in
    let b14 : v14 < 34 ^ 2 = div34-lt v13 (34 ^ 2) b13 in
    let b15 : v15 < 34 ^ 1 = div34-lt v14 (34 ^ 1) b14 in
    scan_digit 18 w 0 v15 refl refl (omega arith) (omega arith)
    ∙ scan_digit 17 w v15 v14 refl refl refl (omega arith)
    ∙ scan_digit 16 w v14 v13 refl refl refl (omega arith)
    ∙ scan_digit 15 w v13 v12 refl refl refl (omega arith)
    ∙ scan_dash 14 w v12 refl refl
    ∙ scan_digit 13 w v12 v11 refl refl refl (omega arith)
    ∙ scan_digit 12 w v11 v10 refl refl refl (omega arith)
    ∙ scan_digit 11 w v10 v9 refl refl refl (omega arith)
    ∙ scan_digit 10 w v9 v8 refl refl refl (omega arith)
    ∙ scan_dash 9 w v8 refl refl
    ∙ scan_digit 8 w v8 v7 refl refl refl (omega arith)
    ∙ scan_digit 7 w v7 v6 refl refl refl (omega arith)
    ∙ scan_digit 6 w v6 v5 refl refl refl (omega arith)
    ∙ scan_digit 5 w v5 v4 refl refl refl (omega arith)
    ∙ scan_dash 4 w v4 refl refl
    ∙ scan_digit 3 w v4 v3 refl refl refl (omega arith)
    ∙ scan_digit 2 w v3 v2 refl refl refl (omega arith)
    ∙ scan_digit 1 w v2 v1 refl refl refl (omega arith)
    ∙ scan_digit 0 w v1 v refl refl refl (omega arith)
    ∙ unfold scan_digits in refl
