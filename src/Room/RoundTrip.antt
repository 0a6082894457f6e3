-- ===== src/Room/RoundTrip.antt =====
-- `parse` reads back the code of every room, whatever stands around it and in either letter case.
mod Digits
mod Upper
use terracotta_ffi.Base.{
  ℕ, suc, ◌+◌, ◌*◌, ◌/◌, ◌%◌, ◌^◌, ◌≤◌, ◌<◌, ◌≡◌, refl, sym, ap, ◌∙◌, ◌≢◌, true, false, Option,
  none, some, List, [], ◌∷◌, ◌++◌, map, leb, length, length-append, take, drop, get_or, windows,
  find_map, All, Text, Bytes, to_ascii_uppercase, arith, ltb, append-nil, ap₂,
}
use terracotta_ffi.Room.{
  char_at, is_dash, u128_mod, from_value, scan_digits, parse_window, parse, create,
}
use terracotta_ffi.Room.RoundTrip.Digits.{scan_digits-from_value}
use terracotta_ffi.Room.RoundTrip.Upper.{upper-code}
use mathlib.Core.Option

-- Seven divides the value of a room.
abbrev pub IsValue : ℕ → Type 0
IsValue v = (v < 34 ^ 16) × (v % 7 ≡ 0)

accept_window :
    (w : Text) {v : ℕ}
    → get_or w 0 0 ≡ b'U'
    → get_or w 1 0 ≡ b'/'
    → scan_digits 19 w 0 ≡ some v
    → v % 7 ≡ 0
    → parse_window w ≡ some v
unfolding parse_window
accept_window w u slash e seven = rw (u, slash, e, seven)

pub parse_window-from_value : (v : ℕ) → IsValue v → parse_window (from_value v).code ≡ some v
parse_window-from_value v (h, seven) =
    accept_window (from_value v).code (unfold from_value in refl) (unfold from_value in refl)
      (scan_digits-from_value v h) seven

length-code : (v : ℕ) → length (from_value v).code ≡ 21
unfolding from_value
length-code v = refl

parse_window-ne_U : (x : ℕ) (w : Text) → x ≢ b'U' → parse_window (x ∷ w) ≡ none
unfolding parse_window
parse_window-ne_U x w h = ground arith

windows-cons :
    (x : ℕ) (xs : Text) → 20 ≤ length xs → windows 21 (x ∷ xs) ≡ take 21 (x ∷ xs) ∷ windows 21 xs
windows-cons x xs h = let e : leb 21 (suc (length xs)) ≡ true = ground arith in rw e

-- The code, as a list with its first character apart.
code_tail : ℕ → Text
code_tail v = drop 1 (from_value v).code

code-eq : (v : ℕ) → (from_value v).code ≡ b'U' ∷ code_tail v
unfolding from_value code_tail
code-eq v = refl

length-code_tail : (v : ℕ) → length (code_tail v) ≡ 20
unfolding from_value code_tail
length-code_tail v = refl

take-code : (v : ℕ) (rest : Text) → take 20 (code_tail v ++ rest) ≡ code_tail v
unfolding from_value code_tail
take-code v rest = refl

find_map-cons :
    (f : Text → Option ℕ) (x : Text) (xs : List Text)
    → f x ≡ none
    → find_map f (x ∷ xs) ≡ find_map f xs
find_map-cons f x xs e = rw (e, find_map)

find_map-head :
    (f : Text → Option ℕ) (x : Text) (xs : List Text) {v : ℕ}
    → f x ≡ some v
    → find_map f (x ∷ xs) ≡ some v
find_map-head f x xs e = rw (e, find_map)

-- A code at the front of a text is found.
find_front :
    (v : ℕ) (c rest : Text)
    → length c ≡ 20
    → take 20 (c ++ rest) ≡ c
    → parse_window (b'U' ∷ c) ≡ some v
    → find_map parse_window (windows 21 ((b'U' ∷ c) ++ rest)) ≡ some v
find_front v c rest n t e =
    rw (windows-cons b'U' (c ++ rest) (omega (arith, length-append c rest)))
      (find_map-head parse_window (b'U' ∷ take 20 (c ++ rest)) (windows 21 (c ++ rest)) (rw t e))

-- A code in a text is found, if no U stands before it.
find_code :
    (v : ℕ) (p t : Text)
    → 21 ≤ length t
    → All (λ c. c ≢ b'U') p
    → find_map parse_window (windows 21 t) ≡ some v
    → find_map parse_window (windows 21 (p ++ t)) ≡ some v
find_code v [] t n a e = e
find_code v (x ∷ p) t n a e = rw (windows-cons x (p ++ t) (omega (arith, length-append p t))) (
    find_map-cons parse_window (x ∷ take 20 (p ++ t)) (windows 21 (p ++ t))
      (parse_window-ne_U x (take 20 (p ++ t)) a.0)
    ∙ find_code v p t n a.1 e)

-- The code of a multiple of seven below 34^16 is recognised inside any text, in either case, if no
-- U of either case stands before it.
pub parse-embedded :
    (v : ℕ) (s p rest : Text)
    → IsValue v
    → map to_ascii_uppercase s ≡ p ++ ((from_value v).code ++ rest)
    → All (λ c. c ≢ b'U') p
    → parse s ≡ some (from_value v)
unfolding parse
parse-embedded v s p rest h e a = rw long (ap (Option.map from_value) {y = some v} (rw e found))
  where
    front : find_map parse_window (windows 21 ((from_value v).code ++ rest)) ≡ some v
    front = rw (code-eq v) (
        find_front v (code_tail v) rest (length-code_tail v) (take-code v rest)
          (rw (← code-eq v) (parse_window-from_value v h)))

    found : find_map parse_window (windows 21 (p ++ ((from_value v).code ++ rest))) ≡ some v
    found =
        find_code v p _ (omega (arith, length-append (from_value v).code rest, length-code v)) a
          front

    long : ltb (length (map to_ascii_uppercase s)) 21 ≡ false
    long = rw e (
        ground (
          arith,
          length-append p ((from_value v).code ++ rest),
          length-append (from_value v).code rest,
          length-code v,
        ))

-- `parse` reads back the code of every room.
pub parse-from_value : (v : ℕ) → IsValue v → parse (from_value v).code ≡ some (from_value v)
parse-from_value v h =
    parse-embedded v (from_value v).code [] [] h
      (upper-code v ∙ sym (append-nil (from_value v).code)) tt

-- The code of a created room, whatever its random bytes, is read back as the same room.
pub parse-create : (bytes : Bytes) → parse (create bytes).code ≡ some (create bytes)
unfolding create
parse-create bytes = parse-from_value _ (omega arith, omega arith)
