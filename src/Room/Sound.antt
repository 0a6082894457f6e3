-- ===== src/Room/Sound.antt =====
-- `parse` yields the rooms of multiples of seven below 34^16, and no other.
use terracotta_ffi.Base.{
  ℕ, zero, suc, ◌+◌, ◌*◌, ◌%◌, ◌^◌, ◌<◌, ◌≡◌, refl, sym, ◌∙◌, inl, inr, ◌&&◌, Option, none, some,
  List, [], ◌∷◌, ◌++◌, map, ◌==◌, ltb, if◌then◌else◌, length, get_or, windows, find_map, Text,
  to_ascii_uppercase, take, drop, arith, Bool-cases, Option-cases, codes,
}
use terracotta_ffi.Room.{
  Room, is_dash, u128_mod, format_len, from_value, scan_digits, parse_window, parse, lookup_char,
}
use terracotta_ffi.Room.Chars.{lookup_char-lt}
use terracotta_ffi.Room.RoundTrip.{IsValue}
use mathlib.Core.Option
use mathlib.Core.Option.{some-injective}

-- What `i` more rounds can make of a value below `b`.
bound : ℕ → ℕ → ℕ
bound zero b = b
bound (suc i) b = bound i (if is_dash i then b else b * 34)

scan_digits-lt :
    (i : ℕ) (w : Text) (u b : ℕ) {v : ℕ} → u < b → scan_digits i w u ≡ some v → v < bound i b
unfolding scan_digits bound
scan_digits-lt zero w u b h e = ground arith
scan_digits-lt (suc i) w u b h e = elim (Bool-cases (is_dash i)) [
  | inl d ↦ elim (Bool-cases (get_or w (i + 2) 0 == b'-')) [
    | inl c ↦ rw d (scan_digits-lt i w u b h (rw (d, c) at e))
    | inr c ↦ cc (rw (d, c) at e)
  ]
  | inr d ↦ elim (Option-cases (lookup_char (get_or w (i + 2) 0))) [
    | inl c ↦ cc (rw (d, c) at e)
    | inr (x, c) ↦
        let small : x < 34 = lookup_char-lt _ c in
        rw d (scan_digits-lt i w ((u * 34 + x) % u128_mod) (b * 34) (omega arith) (rw (d, c) at e))
  ]
]

bound_top : bound 19 1 ≡ 34 ^ 16
unfolding bound
bound_top = refl

-- What is left of `parse_window` after the digits.
accepted-IsValue :
    (w : Text) (x : ℕ) {v : ℕ}
    → x < bound 19 1
    → (if (get_or w 0 0 == b'U') && (get_or w 1 0 == b'/')
        then (if x % 7 == 0 then some x else none)
        else none)
      ≡ some v
    → IsValue v
accepted-IsValue w x h e = ground (arith, bound_top)

parse_window-IsValue : (w : Text) {v : ℕ} → parse_window w ≡ some v → IsValue v
unfolding parse_window
parse_window-IsValue w e = elim (Option-cases (scan_digits 19 w 0)) [
  | inl c ↦ ground arith
  | inr (x, c) ↦
      accepted-IsValue w x (scan_digits-lt 19 w 0 1 (omega arith) c) (rw (c, parse_window) at e)
]

find_map-some {ℓ} :
    {A : Type ℓ} (f : A → Option ℕ) (xs : List A) {v : ℕ}
    → find_map f xs ≡ some v
    → (x : A) × (f x ≡ some v)
find_map-some f [] e = cc
find_map-some f (x ∷ xs) e = elim (Option-cases (f x)) [
  | inl c ↦ find_map-some f xs (rw (c, find_map) at e)
  | inr (y, c) ↦ (x, c ∙ rw (c, find_map) at e)
]

-- A room that `parse` returns is the room of a multiple of seven below 34^16.
pub parse_sound :
    (s : Text) {r : Room} → parse s ≡ some r → (v : ℕ) × IsValue v × (r ≡ from_value v)
unfolding parse
parse_sound s {r} e = elim (Bool-cases (ltb (length (map to_ascii_uppercase s)) format_len)) [
  | inl short ↦ cc (rw short at e)
  | inr long ↦
      from_found (find_map parse_window (windows 21 (map to_ascii_uppercase s))) refl (rw long at e)
]
  where
    from_found :
        (o : Option ℕ)
        → find_map parse_window (windows 21 (map to_ascii_uppercase s)) ≡ o
        → Option.map from_value o ≡ some r
        → (v : ℕ) × IsValue v × (r ≡ from_value v)
    from_found none c h = cc
    from_found (some v) c h = (
      v,
      parse_window-IsValue _ (find_map-some parse_window _ c).1,
      sym (some-injective (from_value v) r h),
    )

-- The network is named and keyed by the code alone: the name holds its first eight digits, the
-- secret its last eight.
pub network-code :
    (v : ℕ)
    → let r = from_value v in
      (length r.code ≡ 21)
      × (take 2 r.code ≡ codes "U/")
      × (r.network_name ≡ codes "scaffolding-mc-" ++ take 9 (drop 2 r.code))
      × (r.network_secret ≡ take 4 (drop 12 r.code) ++ b'-' ∷ take 4 (drop 17 r.code))
unfolding from_value
network-code v = (refl, refl, refl, refl)
