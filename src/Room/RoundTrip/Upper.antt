-- ===== src/Room/RoundTrip/Upper.antt =====
-- A code is in upper case.
use terracotta_ffi.Base.{
  ℕ, zero, suc, ◌+◌, ◌/◌, ◌%◌, ◌≡◌, refl, Bool, true, false, [], ◌∷◌, map, ap₂, All, All-append,
  Text, to_ascii_uppercase, arith, codes, if◌then◌else◌,
}
use terracotta_ffi.Room.{Room, char_at, from_value, from_value_loop}
use terracotta_ffi.Room.Chars.{to_ascii_uppercase-char_at}

abbrev IsUpper : ℕ → Type 0
IsUpper c = to_ascii_uppercase c ≡ c

-- A function that fixes every element fixes the list.
map-fixes : (f : ℕ → ℕ) (xs : Text) → All (λ c. f c ≡ c) xs → map f xs ≡ xs
map-fixes f [] h = refl
map-fixes f (x ∷ xs) h = ap₂ ◌∷◌ h.0 (map-fixes f xs h.1)

-- What a round adds.
added-IsUpper :
    (dash : Bool) (c : ℕ) → IsUpper c → All IsUpper (if dash then b'-' ∷ c ∷ [] else c ∷ [])
added-IsUpper true c h = (refl, (h, tt))
added-IsUpper false c h = (h, tt)

loop-IsUpper :
    (n i v : ℕ) (r : Room) → All IsUpper r.code → All IsUpper (from_value_loop n i v r).code
unfolding from_value_loop
loop-IsUpper zero i v r h = h
loop-IsUpper (suc n) i v r h = loop-IsUpper n (i + 1) (v / 34) _ (
    All-append IsUpper r.code _ h
      (added-IsUpper _ (char_at (v % 34)) (to_ascii_uppercase-char_at (v % 34) (omega arith))))

pub upper-code : (v : ℕ) → map to_ascii_uppercase (from_value v).code ≡ (from_value v).code
unfolding from_value
upper-code v =
    let start : Room = record {
      code = codes "U/";
      network_name = codes "scaffolding-mc-";
      network_secret = [];
    } in
    map-fixes to_ascii_uppercase (from_value v).code (loop-IsUpper 16 0 v start (refl, (refl, tt)))
