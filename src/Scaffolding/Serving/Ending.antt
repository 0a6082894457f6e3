-- ===== src/Scaffolding/Serving/Ending.antt =====
-- The ends of the server's loops.
use terracotta_ffi.Base.{
  ℕ, zero, suc, ◌<◌, ◌≤◌, ◌≡◌, refl, ap, Bool, true, false, List, [], ◌∷◌, ◌++◌, Option, none, some,
  length, drop, All, Text, Bytes, from_be_bytes, arith, append-nil, Option-cases, inl, inr,
}
use terracotta_ffi.Base.Utf8.{decode}
use terracotta_ffi.Scaffolding.{
  Handler, header_room, find_handler, status_and_buffer, read_exact, read_request, two_parts,
  splitn, handle_connection, ◌>>=◌,
}
use terracotta_ffi.Scaffolding.Serving.{
  serve, after_request, connection, timed_out, broken, Round, accept_loop,
}

length-drop-le : (n : ℕ) (xs : Bytes) → length (drop n xs) ≤ length xs
length-drop-le zero xs = omega arith
length-drop-le (suc n) [] = omega arith
length-drop-le (suc n) (x ∷ xs) = omega (arith, length-drop-le n xs)

read_exact-le : (n : ℕ) (xs ys zs : Bytes) → read_exact n xs ≡ some (ys, zs) → length zs ≤ length xs
unfolding read_exact
read_exact-le n xs ys zs h = ground (arith, length-drop-le n xs)

read_exact-lt : (xs ys zs : Bytes) → read_exact 1 xs ≡ some (ys, zs) → length zs < length xs
unfolding read_exact
read_exact-lt [] ys zs h = ground arith
read_exact-lt (x ∷ xs) ys zs h = ground arith

>>=-eq-some {ℓ κ} :
    {A : Type ℓ} {B : Type κ} (m : Option A) (f : A → Option B) {b : B}
    → (m >>= f) ≡ some b
    → (a : A) × (m ≡ some a) × (f a ≡ some b)
>>=-eq-some (some a) f h = (a, refl, h)
>>=-eq-some none f h = cc

abbrev left_by_request : Option (Text × Text × Bytes × Bytes) → ℕ
left_by_request none = 0
left_by_request (some (namespace, path, body, rest)) = length rest

abbrev left_by_response : Option (Bytes × Bytes) → ℕ
left_by_response none = 0
left_by_response (some (response, rest)) = length rest

-- A request takes at least its first byte off the stream.
read_request-lt :
    (stream : Bytes) (namespace path : Text) (body rest : Bytes)
    → read_request stream ≡ some (namespace, path, body, rest)
    → length rest < length stream
unfolding read_request
read_request-lt stream namespace path body rest h =
    let ((size, s1), e1, h1) = >>=-eq-some (read_exact 1 stream) _ h in
    let ((kind, s2), e2, h2) = >>=-eq-some (read_exact (from_be_bytes 0 size) s1) _ h1 in
    let (text, e3, h3) = >>=-eq-some (decode kind) _ h2 in
    let ((a, b), e4, h4) = >>=-eq-some (two_parts (splitn 3 text)) _ h3 in
    let ((size2, s3), e5, h5) = >>=-eq-some (read_exact 4 s2) _ h4 in
    let ((body2, s4), e6, h6) = >>=-eq-some (read_exact (from_be_bytes 0 size2) s3) _ h5 in
    omega (
      arith,
      ap left_by_request h6,
      read_exact-lt stream size s1 e1,
      read_exact-le _ s1 kind s2 e2,
      read_exact-le 4 s2 size2 s3 e5,
      read_exact-le _ s3 body2 s4 e6,
    )

module _ {S : Type 0} (handlers : List (Handler S)) where
  handle_connection-lt :
      (s s' : S) (stream response rest : Bytes)
      → handle_connection handlers s stream ≡ (s', some (response, rest))
      → length rest < length stream
  unfolding handle_connection
  handle_connection-lt s s' stream response rest h = elim (Option-cases (read_request stream)) [
    | inl n ↦ cc (rw (n, handle_connection) at h)
    | inr ((namespace, path, body, rest2), n) ↦
        let found = find_handler handlers namespace path s body header_room in
        let h2 = rw (n, handle_connection) at h in
        elim (Option-cases (status_and_buffer found.1)) [
          | inl m ↦ cc (rw m at h2)
          | inr ((status, buffer), m) ↦
              let h3 = ap (λ r. left_by_response r.1) (rw m at h2) in
              omega (arith, h3, read_request-lt stream namespace path body rest2 n)
        ]
  ]

  after_request-none :
      (next : S → Bytes → S × List Bytes × Bool) (r : S × Option (Bytes × Bytes))
      → r.1 ≡ none
      → (after_request next r).2 ≡ true
  after_request-none next (s, none) e = refl
  after_request-none next (s, some x) e = cc e

  after_request-some :
      (next : S → Bytes → S × List Bytes × Bool) (s : S) (r : Option (Bytes × Bytes))
      (response rest : Bytes)
      → r ≡ some (response, rest)
      → (next s rest).2 ≡ true
      → (after_request next (s, r)).2 ≡ true
  after_request-some next s r response rest e h = rw e h

  -- Whatever bytes a peer sends, the thread of its connection ends, within one round more than there
  -- are bytes.
  pub serve_ends :
      (rounds : List (S → S)) (s : S) (stream : Bytes)
      → length stream < length rounds
      → (serve handlers rounds s stream).2 ≡ true
  unfolding serve
  serve_ends [] s stream h = absurd (omega arith)
  serve_ends (others ∷ rounds) s stream h =
      let r = handle_connection handlers (others s) stream in
      let next = λ (t : S) (rest : Bytes). serve handlers rounds t rest in
      elim (Option-cases r.1) [
        | inl n ↦ after_request-none next r n
        | inr ((response, rest), n) ↦
            let less =
              handle_connection-lt (others s) r.0 stream response rest (ap (λ x. (r.0, x)) n) in
            after_request-some next r.0 r.1 response rest n
              (serve_ends rounds r.0 rest (omega arith))
      ]

-- The connections that the rounds accept.
abbrev pub accepted_in : List Round → List Bytes
accepted_in [] = []
accepted_in (r ∷ rs) = elim r.accepted [
  | connection stream ↦ stream ∷ accepted_in rs
  | timed_out ↦ accepted_in rs
  | broken ↦ accepted_in rs
]

-- A round that does not see a shutdown.
abbrev pub IsOpen : Round → Type 0
IsOpen r = (r.stopped_before ≡ false) × (r.stopped_after ≡ false)

accept_loop-open :
    (rs later : List Round)
    → All IsOpen rs
    → accept_loop (rs ++ later) ≡ (accepted_in rs ++ (accept_loop later).0, (accept_loop later).1)
unfolding accept_loop
accept_loop-open [] later h = refl
accept_loop-open (r ∷ rs) later h = ground (arith, accept_loop-open rs later)

accept_loop-stopping :
    (r next : Round) (later : List Round)
    → r.stopped_after ≡ true
    → next.stopped_before ≡ true
    → accept_loop (r ∷ next ∷ later) ≡ ([], true)
unfolding accept_loop
accept_loop-stopping r next later h k = ground arith

-- Once the shutdown flag is set, the accept loop starts no thread for a further connection, and it
-- ends within a round: it has started one for each connection that was accepted before, in order.
pub accept_loop-stopped :
    (rs : List Round) (r next : Round) (later : List Round)
    → All IsOpen rs
    → r.stopped_after ≡ true
    → next.stopped_before ≡ true
    → accept_loop (rs ++ r ∷ next ∷ later) ≡ (accepted_in rs, true)
accept_loop-stopped rs r next later open_before stopped still =
    rw
      (
        accept_loop-open rs (r ∷ next ∷ later) open_before,
        accept_loop-stopping r next later stopped still,
        append-nil,
      )
      refl
