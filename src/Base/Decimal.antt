-- ===== src/Base/Decimal.antt =====
-- `format!("{}", n)` and `u16::from_str`.
use Prim.Native.Nat.{ℕ, zero, suc, ◌+◌, ◌-◌, ◌*◌, ◌/◌, ◌%◌, ◌^◌, ◌≤◌, ◌<◌}
use mathlib.Core.Path.{◌≡◌, refl, ◌∙◌}
use mathlib.Core.Logic.{inl, inr}
use mathlib.Core.Bool.{true, false, ◌&&◌}
use mathlib.Core.Option.{Option, none, some}
use mathlib.Core.List.{[], ◌∷◌, ◌++◌, append_assoc, append-nil}
use native.Mathlib.Omega.{arith}
use native.Mathlib.Nat.{pow-suc}
use terracotta_ffi.Base.Tests.{◌==◌, leb, ltb, if◌then◌else◌, Bool-cases}
use terracotta_ffi.Base.Texts.{Text}

-- The decimal digits of n, for n below 10 ^ k and k > 0.
unfoldable pub decimal : ℕ → ℕ → Text
decimal zero n = []
decimal (suc k) n =
    let front = decimal k (n / 10) in (if ltb n 10 then [] else front) ++ (b'0' + n % 10) ∷ []

-- `u16::to_string`.
unfoldable pub u16_to_string : ℕ → Text
unfolding decimal
u16_to_string n = decimal 5 n

-- Decimal digits of a number below the limit.
unfoldable pub parse_digits : ℕ → ℕ → Text → Option ℕ
parse_digits limit acc [] = some acc
parse_digits limit acc (c ∷ cs) =
    let n = acc * 10 + (c - b'0') in
    let rest = parse_digits limit n cs in
    if leb b'0' c && leb c b'9' && ltb n limit then rest else none

-- `u16::from_str`: an optional plus sign, and one digit or more.
unfoldable pub parse_u16 : Text → Option ℕ
unfolding parse_digits
parse_u16 [] = none
parse_u16 (c ∷ []) = parse_digits 65536 0 (c ∷ [])
parse_u16 (c ∷ d ∷ cs) =
    if c == b'+' then parse_digits 65536 0 (d ∷ cs) else parse_digits 65536 0 (c ∷ d ∷ cs)

parse_digits-step :
    (limit acc d n : ℕ) (cs : Text)
    → d < 10
    → acc * 10 + d ≡ n
    → n < limit
    → parse_digits limit acc ((b'0' + d) ∷ cs) ≡ parse_digits limit n cs
unfolding parse_digits
parse_digits-step limit acc d n cs h v l =
    let e : acc * 10 + (b'0' + d - b'0') ≡ n = omega arith in
    let t : (leb b'0' (b'0' + d) && leb (b'0' + d) b'9' && ltb n limit) ≡ true = ground arith in
    rw (e, t)

decimal-small : (k n : ℕ) → n < 10 → decimal (suc k) n ≡ (b'0' + n) ∷ []
unfolding decimal
decimal-small k n h =
    let t : ltb n 10 ≡ true = ground arith in let e : n % 10 ≡ n = omega arith in rw (t, e)

decimal-big : (k n : ℕ) → 10 ≤ n → decimal (suc k) n ≡ decimal k (n / 10) ++ (b'0' + n % 10) ∷ []
unfolding decimal
decimal-big k n h = let t : ltb n 10 ≡ false = ground arith in rw t

parse_digits-decimal :
    (limit k n : ℕ) (cs : Text)
    → n < 10 ^ suc k
    → n < limit
    → parse_digits limit 0 (decimal (suc k) n ++ cs) ≡ parse_digits limit n cs
parse_digits-decimal limit zero n cs h l =
    rw (decimal-small 0 n h) (parse_digits-step limit 0 n n cs h (omega arith) l)
parse_digits-decimal limit (suc k) n cs h l = elim (Bool-cases (ltb n 10)) [
  | inl s ↦
      rw (decimal-small (suc k) n (ground arith))
        (parse_digits-step limit 0 n n cs (ground arith) (omega arith) l)
  | inr b ↦
      rw (decimal-big (suc k) n (ground arith), append_assoc)
        (parse_digits-decimal limit k (n / 10) ((b'0' + n % 10) ∷ cs)
            (omega (arith, h, pow-suc 10 (suc k))) (omega arith)
          ∙ parse_digits-step limit (n / 10) (n % 10) n cs (omega arith) (omega arith) l)
]

-- A decimal numeral does not begin with a plus sign.
decimal-head : (k n : ℕ) → (d : ℕ) × (cs : Text) × (decimal (suc k) n ≡ d ∷ cs) × (b'0' ≤ d)
decimal-head zero n = elim (Bool-cases (ltb n 10)) [
  | inl s ↦ (b'0' + n, [], decimal-small 0 n (ground arith), omega arith)
  | inr b ↦
      (b'0' + n % 10, [], decimal-big 0 n (ground arith) ∙ unfold decimal in refl, omega arith)
]
decimal-head (suc k) n = elim (Bool-cases (ltb n 10)) [
  | inl s ↦ (b'0' + n, [], decimal-small (suc k) n (ground arith), omega arith)
  | inr b ↦
      let (d, cs, e, h) = decimal-head k (n / 10) in
      (d, cs ++ (b'0' + n % 10) ∷ [], decimal-big (suc k) n (ground arith) ∙ rw e, h)
]

parse_u16-digits :
    (d : ℕ) (cs : Text) → b'0' ≤ d → parse_u16 (d ∷ cs) ≡ parse_digits 65536 0 (d ∷ cs)
unfolding parse_u16
parse_u16-digits d [] h = refl
parse_u16-digits d (c ∷ cs) h = let t : (d == b'+') ≡ false = ground arith in rw t

-- Every port is read back from its decimal text.
pub parse_u16-u16_to_string : (n : ℕ) → n < 65536 → parse_u16 (u16_to_string n) ≡ some n
unfolding u16_to_string
parse_u16-u16_to_string n h =
    let (d, cs, e, p) = decimal-head 4 n in
    rw e (
      parse_u16-digits d cs p
      ∙ rw (← e) (
          rw (append-nil (decimal 5 n)) at (parse_digits-decimal 65536 4 n [] (omega arith) h)
          ∙ unfold parse_digits in refl))
