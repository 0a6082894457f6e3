-- ===== src/Base/Utf8.antt =====
-- `str::as_bytes` and `String::from_utf8`, over lists of numbers.
use Prim.Native.Nat.{ℕ, zero, suc, ◌+◌, ◌-◌, ◌*◌, ◌/◌, ◌%◌, ◌≤◌, ◌<◌}
use mathlib.Core.Path.{◌≡◌, refl, sym, ap, ◌∙◌}
use mathlib.Core.Bool.{Bool, true, false, ◌&&◌, ◌||◌}
use mathlib.Core.Option
use mathlib.Core.Option.{Option, none, some}
use mathlib.Core.Logic.{inl, inr}
use mathlib.Core.List.{[], ◌∷◌, ◌++◌, append_assoc}
use native.Mathlib.Omega.{arith}
use terracotta_ffi.Base.Tests.{ltb, leb, if◌then◌else◌, Bool-cases}
use terracotta_ffi.Base.Lists.{All}
use terracotta_ffi.Base.Texts.{Text, Bytes}

-- A Unicode scalar value: no surrogate.
abbrev pub is_scalar : ℕ → Bool
is_scalar c = ltb c 0xd800 || (leb 0xe000 c && ltb c 0x110000)

abbrev cont : ℕ → ℕ
cont c = 0x80 + c % 64

unfoldable pub encode_char : ℕ → Bytes
encode_char c =
    if ltb c 0x80
    then c ∷ []
    else if ltb c 0x800
    then (0xc0 + c / 64) ∷ cont c ∷ []
    else if ltb c 0x10000
    then (0xe0 + c / 4096) ∷ cont (c / 64) ∷ cont c ∷ []
    else (0xf0 + c / 262144) ∷ cont (c / 4096) ∷ cont (c / 64) ∷ cont c ∷ []

unfoldable pub encode : Text → Bytes
encode [] = []
encode (c ∷ cs) = encode_char c ++ encode cs

-- The continuation bytes still wanted, the bits read so far, and the least value that this many bytes
-- may stand for.
unfoldable pub decode_from : ℕ → ℕ → ℕ → Bytes → Option Text
decode_from zero acc least [] = some []
decode_from (suc k) acc least [] = none
decode_from zero acc least (b ∷ bs) =
    let one = Option.map (◌∷◌ b) (decode_from 0 0 0 bs) in
    let two = decode_from 1 (b - 0xc0) 0x80 bs in
    let three = decode_from 2 (b - 0xe0) 0x800 bs in
    let four = decode_from 3 (b - 0xf0) 0x10000 bs in
    if ltb b 0x80
    then one
    else if ltb b 0xc0
    then none
    else if ltb b 0xe0
    then two
    else if ltb b 0xf0
    then three
    else if ltb b 0xf8
    then four
    else none
decode_from (suc k) acc least (b ∷ bs) =
    let c = acc * 64 + (b - 0x80) in
    let last = Option.map (◌∷◌ c) (decode_from 0 0 0 bs) in
    let more = decode_from k c least bs in
    if leb 0x80 b && ltb b 0xc0
    then (elim k [ zero ↦ (if leb least c && is_scalar c then last else none) | suc j ↦ more ])
    else none

unfoldable pub decode : Bytes → Option Text
unfolding decode_from
decode bs = decode_from 0 0 0 bs

one_byte :
    (b : ℕ) (bs : Bytes)
    → b < 0x80
    → decode_from 0 0 0 (b ∷ bs) ≡ Option.map (◌∷◌ b) (decode_from 0 0 0 bs)
unfolding decode_from
one_byte b bs h = let t : ltb b 0x80 ≡ true = ground arith in rw t

lead_two :
    (q : ℕ) (bs : Bytes) → q < 32 → decode_from 0 0 0 ((0xc0 + q) ∷ bs) ≡ decode_from 1 q 0x80 bs
unfolding decode_from
lead_two q bs h =
    let t1 : ltb (0xc0 + q) 0x80 ≡ false = ground arith in
    let t2 : ltb (0xc0 + q) 0xc0 ≡ false = ground arith in
    let t3 : ltb (0xc0 + q) 0xe0 ≡ true = ground arith in
    let e : 0xc0 + q - 0xc0 ≡ q = omega arith in rw (t1, t2, t3, e)

lead_three :
    (q : ℕ) (bs : Bytes) → q < 16 → decode_from 0 0 0 ((0xe0 + q) ∷ bs) ≡ decode_from 2 q 0x800 bs
unfolding decode_from
lead_three q bs h =
    let t1 : ltb (0xe0 + q) 0x80 ≡ false = ground arith in
    let t2 : ltb (0xe0 + q) 0xc0 ≡ false = ground arith in
    let t3 : ltb (0xe0 + q) 0xe0 ≡ false = ground arith in
    let t4 : ltb (0xe0 + q) 0xf0 ≡ true = ground arith in
    let e : 0xe0 + q - 0xe0 ≡ q = omega arith in rw (t1, t2, t3, t4, e)

lead_four :
    (q : ℕ) (bs : Bytes) → q < 8 → decode_from 0 0 0 ((0xf0 + q) ∷ bs) ≡ decode_from 3 q 0x10000 bs
unfolding decode_from
lead_four q bs h =
    let t1 : ltb (0xf0 + q) 0x80 ≡ false = ground arith in
    let t2 : ltb (0xf0 + q) 0xc0 ≡ false = ground arith in
    let t3 : ltb (0xf0 + q) 0xe0 ≡ false = ground arith in
    let t4 : ltb (0xf0 + q) 0xf0 ≡ false = ground arith in
    let t5 : ltb (0xf0 + q) 0xf8 ≡ true = ground arith in
    let e : 0xf0 + q - 0xf0 ≡ q = omega arith in rw (t1, t2, t3, t4, t5, e)

inner :
    (k acc v least : ℕ) (bs : Bytes)
    → acc ≡ v / 64
    → decode_from (suc (suc k)) acc least (cont v ∷ bs) ≡ decode_from (suc k) v least bs
unfolding decode_from
inner k acc v least bs h =
    let t : (leb 0x80 (0x80 + v % 64) && ltb (0x80 + v % 64) 0xc0) ≡ true = ground arith in
    let e : acc * 64 + (0x80 + v % 64 - 0x80) ≡ v = omega arith in rw (t, e)

last_byte :
    (acc v least : ℕ) (bs : Bytes)
    → acc ≡ v / 64
    → least ≤ v
    → is_scalar v ≡ true
    → decode_from 1 acc least (cont v ∷ bs) ≡ Option.map (◌∷◌ v) (decode_from 0 0 0 bs)
unfolding decode_from
last_byte acc v least bs h le s =
    let t : (leb 0x80 (0x80 + v % 64) && ltb (0x80 + v % 64) 0xc0) ≡ true = ground arith in
    let e : acc * 64 + (0x80 + v % 64 - 0x80) ≡ v = omega arith in
    let ok : (leb least v && is_scalar v) ≡ true = ground arith in rw (t, e, ok)

-- One character is read back.
decode_from-char :
    (c : ℕ) (bs : Bytes)
    → is_scalar c ≡ true
    → decode_from 0 0 0 (encode_char c ++ bs) ≡ Option.map (◌∷◌ c) (decode_from 0 0 0 bs)
unfolding encode_char
decode_from-char c bs h = elim (Bool-cases (ltb c 0x80)) [
  | inl a ↦ rw a (one_byte c bs (ground arith))
  | inr a ↦ elim (Bool-cases (ltb c 0x800)) [
    | inl b ↦
        rw (a, b)
          (lead_two (c / 64) _ (ground arith) ∙ last_byte (c / 64) c 0x80 bs refl (ground arith) h)
    | inr b ↦ elim (Bool-cases (ltb c 0x10000)) [
      | inl d ↦
          rw (a, b, d)
            (lead_three (c / 4096) _ (ground arith)
              ∙ inner 0 (c / 4096) (c / 64) 0x800 _ (omega arith)
              ∙ last_byte (c / 64) c 0x800 bs refl (ground arith) h)
      | inr d ↦
          rw (a, b, d)
            (lead_four (c / 262144) _ (ground arith)
              ∙ inner 1 (c / 262144) (c / 4096) 0x10000 _ (omega arith)
              ∙ inner 0 (c / 4096) (c / 64) 0x10000 _ (omega arith)
              ∙ last_byte (c / 64) c 0x10000 bs refl (ground arith) h)
    ]
  ]
]

-- `String::from_utf8` reads back what `as_bytes` gives.
pub decode-encode : (s : Text) → All (λ c. is_scalar c ≡ true) s → decode (encode s) ≡ some s
unfolding decode encode
decode-encode [] h = refl
decode-encode (c ∷ s) h =
    decode_from-char c (encode s) h.0 ∙ ap (Option.map (◌∷◌ c)) (decode-encode s h.1)

pub encode-append : (s t : Text) → encode (s ++ t) ≡ encode s ++ encode t
unfolding encode
encode-append [] t = refl
encode-append (c ∷ s) t =
    rw (encode-append s t) (sym (append_assoc (encode_char c) (encode s) (encode t)))

-- A test of every character of a text.
abbrev pub all_scalar : Text → Bool
all_scalar [] = true
all_scalar (c ∷ t) = is_scalar c && all_scalar t

pub all_scalar_sound : (t : Text) → all_scalar t ≡ true → All (λ c. is_scalar c ≡ true) t
all_scalar_sound [] h = tt
all_scalar_sound (c ∷ t) h = (ground (arith, h), all_scalar_sound t (ground (arith, h)))
