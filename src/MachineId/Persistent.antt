-- ===== src/MachineId/Persistent.antt =====
-- Which files keep the machine id.
use terracotta_ffi.Base.{
  ℕ, zero, suc, ◌-◌, ◌≤◌, ◌<◌, ◌≡◌, refl, ap, ◌∙◌, inl, inr, true, false, [], ◌∷◌, ◌++◌, Option,
  none, some, ◌==◌, length, take, drop, replicate, length-append, append-nil, Text, Bytes, arith,
  Bool-cases,
}
use terracotta_ffi.MachineId.{
  File, System, content, write_at_start, read_buffer, renew, get_or_create,
}

take_all : (n : ℕ) (xs : Bytes) → length xs ≤ n → take n xs ≡ xs
take_all zero [] h = refl
take_all zero (x ∷ xs) h = ground arith
take_all (suc n) [] h = refl
take_all (suc n) (x ∷ xs) h = ap (◌∷◌ x) (take_all n xs (omega (arith, h)))

length-take_more : (n : ℕ) (xs : Bytes) → n ≤ length xs → length (take n xs) ≡ n
length-take_more zero xs h = refl
length-take_more (suc n) [] h = ground arith
length-take_more (suc n) (x ∷ xs) h = ground (arith, length-take_more n xs)

drop_all : (n : ℕ) (xs : Bytes) → length xs ≤ n → drop n xs ≡ []
drop_all zero [] h = refl
drop_all zero (x ∷ xs) h = ground arith
drop_all (suc n) [] h = refl
drop_all (suc n) (x ∷ xs) h = drop_all n xs (omega (arith, h))

take-append_le : (n : ℕ) (xs ys : Bytes) → n ≤ length xs → take n (xs ++ ys) ≡ take n xs
take-append_le zero xs ys h = refl
take-append_le (suc n) [] ys h = ground arith
take-append_le (suc n) (x ∷ xs) ys h = ap (◌∷◌ x) (take-append_le n xs ys (omega (arith, h)))

length-take_le : (n : ℕ) (xs : Bytes) → length (take n xs) ≤ length xs
length-take_le zero xs = omega arith
length-take_le (suc n) [] = omega arith
length-take_le (suc n) (x ∷ xs) = omega (arith, length-take_le n xs)

length-drop : (n : ℕ) (xs : Bytes) → length (drop n xs) ≡ length xs - n
length-drop zero xs = omega arith
length-drop (suc n) [] = omega arith
length-drop (suc n) (x ∷ xs) = length-drop n xs ∙ omega arith

-- A write of no more bytes than the file has keeps its length.
length-write_at_start :
    (writes : Option ℕ) (bytes old : Bytes)
    → length bytes ≤ length old
    → length (write_at_start writes bytes old) ≡ length old
unfolding write_at_start
length-write_at_start none bytes old h = refl
length-write_at_start (some n) bytes old h =
    let part : Bytes = take n bytes in
    length-append part (drop (length part) old)
    ∙ ground (arith, length-drop (length part) old, length-take_le n bytes)

module _ (hex : Bytes → Text) where
  -- A file of 16 bytes is the machine id, and is left as it is, whatever else the system does.
  pub get_or_create-restores :
      (system : System) (id : Bytes)
      → system.opens ≡ true
      → system.reads ≡ true
      → length id ≡ 16
      → get_or_create hex system (some id) ≡ (some id, some (hex id))
  unfolding get_or_create read_buffer
  get_or_create-restores system id o r l =
      let short : take 17 id ≡ id = take_all 17 id (omega (arith, l)) in
      let whole : take 16 (id ++ replicate (17 - length id) 0) ≡ id =
        take-append_le 16 id _ (omega (arith, l)) ∙ take_all 16 id (omega (arith, l)) in
      let t : (length id == 16) ≡ true = ground (arith, l) in rw (o, r, short, t, whole) refl

  -- A missing file or one of fewer than 16 bytes gets 16 random bytes, whose hex text is the id. A later
  -- call that opens and reads the file gives the same id and leaves the file. The first call opens, reads
  -- and rewinds the file, gets its random bytes and writes all of them.
  pub get_or_create-persists :
      (first later : System) (file : File) (id : Bytes)
      → length (content file) < 16
      → first.opens ≡ true
      → first.reads ≡ true
      → first.random ≡ some id
      → length id ≡ 16
      → first.seeks ≡ true
      → first.writes ≡ some 16
      → later.opens ≡ true
      → later.reads ≡ true
      → let r = get_or_create hex first file in
        (r ≡ (some id, some (hex id))) × (get_or_create hex later r.0 ≡ r)
  unfolding get_or_create renew write_at_start
  get_or_create-persists first later file id short o r g l s w o2 r2 =
      let old : Bytes = content file in
      let read : take 17 old ≡ old = take_all 17 old (omega (arith, short)) in
      let t : (length old == 16) ≡ false = ground (arith, short) in
      let all : take 16 id ≡ id = take_all 16 id (omega (arith, l)) in
      let gone : drop (length id) old ≡ [] = drop_all (length id) old (omega (arith, short, l)) in
      let made : get_or_create hex first file ≡ (some id, some (hex id)) =
        rw (o, r, read, t, g, s, w, all, gone, append-nil) refl in
      (made, rw made (get_or_create-restores later id o2 r2 l))

  -- A file of more than 16 bytes stays as long, and each call gives the id of its own random bytes.
  pub get_or_create-long :
      (system : System) (old : Bytes) (id : Bytes)
      → 16 < length old
      → system.opens ≡ true
      → system.reads ≡ true
      → system.random ≡ some id
      → length id ≡ 16
      → let r = get_or_create hex system (some old) in
        (r.1 ≡ some (hex id)) × (length (content r.0) ≡ length old)
  unfolding get_or_create renew
  get_or_create-long system old id long o r g l =
      let t : (length (take 17 old) == 16) ≡ false =
        ground (arith, length-take_more 17 old (omega (arith, long))) in
      let same : length (write_at_start system.writes id old) ≡ length old =
        length-write_at_start system.writes id old (omega (arith, long, l)) in
      elim (Bool-cases system.seeks) [
        | inl s ↦ rw (o, r, t, g, s) (refl, same)
        | inr s ↦ rw (o, r, t, g, s) (refl, refl)
      ]
