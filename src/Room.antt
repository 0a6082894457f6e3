-- ===== src/Room.antt =====
-- src/room.rs
use terracotta_ffi.Base.{
  ℕ, zero, suc, ◌+◌, ◌-◌, ◌*◌, ◌/◌, ◌%◌, ◌^◌, Bool, true, false, ◌&&◌, ◌||◌, Option, none, some,
  List, [], ◌∷◌, ◌++◌, map, ◌==◌, ltb, if◌then◌else◌, length, get_or, windows, find_map, Text,
  Bytes, codes, to_ascii_uppercase, from_be_bytes,
}
use mathlib.Core.Option
mod Chars
pub mod RoundTrip
pub mod Sound
pub mod Networks
mod Tests

-- The length of `FORMAT`, `U/XXXX-XXXX-XXXX-XXXX`, and of `DIGITS`.
abbrev pub format_len : ℕ
format_len = 21

abbrev pub digits_len : ℕ
digits_len = 19

abbrev pub u128_mod : ℕ
u128_mod = 2 ^ 128

abbrev pub chars : Text
chars = codes "0123456789ABCDEFGHJKLMNPQRSTUVWXYZ"

-- `CHARS[i] as char`; the index is below 34 wherever the code reads it.
unfoldable pub char_at : ℕ → ℕ
char_at i = get_or chars i 0

unfoldable pub position : Text → ℕ → Option ℕ
position [] c = none
position (x ∷ xs) c = if x == c then some 0 else Option.map suc (position xs c)

unfoldable pub lookup_char : ℕ → Option ℕ
unfolding position
lookup_char c = position chars (if c == b'I' then b'1' else if c == b'O' then b'0' else c)

pub record Room : Type 0 where
  pub code : Text
  pub network_name : Text
  pub network_secret : Text

-- The rounds of `from_value` that are left, the counter `i` and the three texts under construction.
unfoldable pub from_value_loop : ℕ → ℕ → ℕ → Room → Room
from_value_loop zero i value r = r
from_value_loop (suc n) i value r =
    let v = char_at (value % 34) in
    let code = r.code ++ (if (i == 4) || (i == 8) || (i == 12) then b'-' ∷ v ∷ [] else v ∷ []) in
    let name = r.network_name ++ (if i == 4 then b'-' ∷ v ∷ [] else v ∷ []) in
    let secret = r.network_secret ++ (if i == 12 then b'-' ∷ v ∷ [] else v ∷ []) in
    from_value_loop n (i + 1) (value / 34) (record {
      code = code;
      network_name = if ltb i 8 then name else r.network_name;
      network_secret = if ltb i 8 then r.network_secret else secret;
    })

unfoldable pub from_value : ℕ → Room
unfolding from_value_loop
from_value value =
    from_value_loop 16 0 value
      (record { code = codes "U/"; network_name = codes "scaffolding-mc-"; network_secret = [] })

abbrev is_dash : ℕ → Bool
is_dash i = (i == 4) || (i == 9) || (i == 14)

-- `for i in (0..DIGITS.len()).rev()`, with `i` rounds left; the arithmetic is that of `u128`.
unfoldable pub scan_digits : ℕ → Text → ℕ → Option ℕ
scan_digits zero window value = some value
scan_digits (suc i) window value =
    let c = get_or window (i + 2) 0 in
    let after_dash = scan_digits i window value in
    if is_dash i then (if c == b'-' then after_dash else none) else elim (lookup_char c) [
      | none ↦ none
      | some v ↦ scan_digits i window ((value * 34 + v) % u128_mod)
    ]

-- The closure of `find_map` in `parse`.
unfoldable pub parse_window : Text → Option ℕ
parse_window window =
    if (get_or window 0 0 == b'U') && (get_or window 1 0 == b'/')
    then elim (scan_digits digits_len window 0) [
      | none ↦ none
      | some value ↦ if value % 7 == 0 then some value else none
    ]
    else none

unfoldable pub parse : Text → Option Room
parse code =
    let upper = map to_ascii_uppercase code in
    if ltb (length upper) format_len
    then none
    else Option.map from_value (find_map parse_window (windows format_len upper))

unfoldable pub verify : Text → Bool
verify code = elim (parse code) [ none ↦ false | some _ ↦ true ]

-- `create`, with the sixteen random bytes as its argument.
unfoldable pub create : Bytes → Room
create bytes = let value = from_be_bytes 0 bytes % 34 ^ 16 in from_value (value - value % 7)
