-- ===== src/Ffi/Memory/Counts.antt =====
-- How often an address is live, and how often the structs of a caller point to it.
use terracotta_ffi.Base.{
  ℕ, zero, suc, ◌+◌, ◌≤◌, ◌≡◌, refl, List, [], ◌∷◌, Option, none, some, ◌==◌, if◌then◌else◌,
  get_elem?, set, Text, Bytes, arith, Bool-cases, inl, inr,
}
use terracotta_ffi.Ffi.Memory.{
  Heap, OutString, OutState, OutEvent, Memory, release, allocate_string, free_string, null_string,
}
use terracotta_ffi.Ffi.Values.{done, failed}

abbrev pub once : ℕ → ℕ → ℕ
once p q = if q == p then 1 else 0

abbrev pub live : ℕ → List (ℕ × Bytes) → ℕ
live p [] = 0
live p (b ∷ bs) = once p b.0 + live p bs

abbrev pub refers : ℕ → OutString → ℕ
refers p s = elim s.pointer [ none ↦ 0 | some q ↦ once p q ]

abbrev pub state_refers : ℕ → OutState → ℕ
state_refers p s = refers p s.room_code + refers p s.detail

abbrev pub event_refers : ℕ → OutEvent → ℕ
event_refers p e = refers p e.payload

abbrev pub total : {A : Type 0} → (A → ℕ) → List A → ℕ
total f [] = 0
total f (x ∷ xs) = f x + total f xs

-- How often the structs of a caller point to an address.
abbrev pub owned : ℕ → Memory → ℕ
owned p m = total (state_refers p) m.states + total (event_refers p) m.events

pub total-set :
    {A : Type 0} (f : A → ℕ) (xs : List A) (i : ℕ) (x y : A)
    → get_elem? xs i ≡ some x
    → total f (set xs i y) + f x ≡ total f xs + f y
total-set f [] i x y h = cc h
total-set f (z ∷ xs) zero x y h = ground arith
total-set f (z ∷ xs) (suc i) x y h = omega (arith, total-set f xs i x y h)

pub total-le :
    {A : Type 0} (f : A → ℕ) (xs : List A) (i : ℕ) (x : A)
    → get_elem? xs i ≡ some x
    → f x ≤ total f xs
total-le f [] i x h = cc h
total-le f (z ∷ xs) zero x h = ground arith
total-le f (z ∷ xs) (suc i) x h = omega (arith, total-le f xs i x h)

-- A live block can be released, and then it is live once less.
pub release_found :
    (q : ℕ) (bs : List (ℕ × Bytes))
    → 1 ≤ live q bs
    → (cs : List (ℕ × Bytes)) × (release q bs ≡ some cs)
      × ((p : ℕ) → live p cs + once p q ≡ live p bs)
unfolding release
release_found q [] h = absurd (omega arith)
release_found q (b ∷ bs) h = elim (Bool-cases (b.0 == q)) [
  | inl e ↦ (bs, rw e refl, λ p. ground arith)
  | inr e ↦
      let (cs, released, counts) = release_found q bs (ground arith) in
      (b ∷ cs, rw (e, released) refl, λ p. omega (arith, counts p))
]

-- The struct of a freed string is null.
abbrev pub freed : OutString → OutString
freed s = elim s.pointer [ none ↦ s | some q ↦ null_string ]

refers-freed_at :
    (p : ℕ) (pointer : Option ℕ) (len : ℕ)
    → refers p (freed (record { pointer = pointer; len = len })) ≡ 0
refers-freed_at p none len = refl
refers-freed_at p (some q) len = refl

pub refers-freed : (p : ℕ) (s : OutString) → refers p (freed s) ≡ 0
refers-freed p s = refers-freed_at p s.pointer s.len

once_self : (q : ℕ) → once q q ≡ 1
once_self q = ground arith

-- The result of freeing a string that points to a live block, or nowhere.
abbrev pub Frees : Heap → OutString → Type 0
Frees h s =
    (h' : Heap) × (free_string h s ≡ some (h', freed s))
    × ((p : ℕ) → live p h'.blocks + refers p s ≡ live p h.blocks)

free_string_at :
    (h : Heap) (pointer : Option ℕ) (len : ℕ)
    → ((p : ℕ) → refers p (record { pointer = pointer; len = len }) ≤ live p h.blocks)
    → Frees h (record { pointer = pointer; len = len })
unfolding free_string
free_string_at h none len holds = (h, refl, λ p. omega arith)
free_string_at h (some q) len holds =
    let (cs, released, counts) = release_found q h.blocks (omega (arith, holds q, once_self q)) in
    (record h { blocks = cs }, rw released refl, counts)

pub free_string_found :
    (h : Heap) (s : OutString) → ((p : ℕ) → refers p s ≤ live p h.blocks) → Frees h s
free_string_found h s holds = free_string_at h s.pointer s.len holds

-- An allocated string points to a block of its own; a panic leaves the heap as it was.
pub allocate_string_counts :
    (h : Heap) (value : Text) (p : ℕ)
    → live p (allocate_string h value).0.blocks
      ≡ live p h.blocks + elim (allocate_string h value).1 [ failed code ↦ 0 | done s ↦ refers p s ]
unfolding allocate_string
allocate_string_counts h value p = ground arith
