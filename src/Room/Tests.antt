-- ===== src/Room/Tests.antt =====
-- Runs of room.rs.
use terracotta_ffi.Base.{◌≡◌, refl, some, none, codes, Text}
use terracotta_ffi.Room.{parse, parse_window, scan_digits, lookup_char, from_value, char_at}

parse_prefixed : parse (codes "[x] u/0000-0000-0000-0000zz") ≡ some (from_value 0)
unfolding parse parse_window scan_digits lookup_char from_value char_at
parse_prefixed = refl

parse_short : parse (codes "U/AAAA-AAAA-AAAA-AAA") ≡ none
unfolding parse parse_window scan_digits lookup_char
parse_short = refl

parse_bad_dash : parse (codes "U/AAAA-AAAA+AAAA-AAAA") ≡ none
unfolding parse parse_window scan_digits lookup_char
parse_bad_dash = refl

code_of_value : ◌≡◌ {A = Text} (from_value 1234567).code (codes "U/TYDX-0000-0000-0000")
unfolding from_value char_at
code_of_value = refl
