-- ===== src/Ffi/Memory/Freed.antt =====
-- The calls that give strings back: each finds its blocks live, and leaves null pointers.
use terracotta_ffi.Base.{
  ℕ, ◌+◌, ◌≤◌, ◌≡◌, refl, sym, subst, zero, suc, ◌∙◌, inl, inr, List, [], ◌∷◌, some, get_elem?, set,
  arith, Option-cases,
}
use terracotta_ffi.Ffi.{Env}
use terracotta_ffi.Ffi.Memory.{
  Heap, OutState, OutEvent, Memory, free_state, free_event, Call, free_state_call, free_event_call,
  free_room_code_call, free_detail_call, free_payload_call, perform,
}
use terracotta_ffi.Ffi.Memory.Counts.{
  live, refers, state_refers, event_refers, total-le, freed, refers-freed, free_string_found,
}
use terracotta_ffi.Ffi.Memory.Balance.{IsSound, Keeps, states-Keeps, events-Keeps}

abbrev pub freed_state : OutState → OutState
freed_state s = record s { room_code = freed s.room_code; detail = freed s.detail }

abbrev pub freed_event : OutEvent → OutEvent
freed_event e = record e { payload = freed e.payload }

free_state_found :
    (h : Heap) (s : OutState)
    → ((p : ℕ) → state_refers p s ≤ live p h.blocks)
    → (h' : Heap) × (free_state h s ≡ some (h', freed_state s))
      × ((p : ℕ)
          → state_refers p (freed_state s) + live p h.blocks ≡ live p h'.blocks + state_refers p s)
unfolding free_state
free_state_found h s holds =
    let (h1, first, counts1) = free_string_found h s.room_code (λ p. omega (arith, holds p)) in
    let (h2, second, counts2) =
      free_string_found h1 s.detail (λ p. omega (arith, holds p, counts1 p)) in
    (
      h2,
      rw (first, second) refl,
      λ p. omega (arith, counts1 p, counts2 p, refers-freed p s.room_code, refers-freed p s.detail),
    )

get_elem?-set :
    {A : Type 0} (xs : List A) (i : ℕ) (x y : A)
    → get_elem? xs i ≡ some x
    → get_elem? (set xs i y) i ≡ some y
get_elem?-set [] i x y h = cc h
get_elem?-set (z ∷ xs) zero x y h = refl
get_elem?-set (z ∷ xs) (suc i) x y h = get_elem?-set xs i x y h

-- No string of a struct is left.
abbrev pub IsEmptyAt : {A : Type 0} → (ℕ → A → ℕ) → List A → ℕ → Type 0
IsEmptyAt {A} refers xs i = (out : A) → get_elem? xs i ≡ some out → (p : ℕ) → refers p out ≡ 0

IsEmptyAt-set :
    {A : Type 0} (refers : ℕ → A → ℕ) (xs : List A) (i : ℕ) (x y : A)
    → get_elem? xs i ≡ some x
    → ((p : ℕ) → refers p y ≡ 0)
    → IsEmptyAt refers (set xs i y) i
IsEmptyAt-set refers xs i x y at empty out h p =
    let same : some y ≡ some out = sym (get_elem?-set xs i x y at) ∙ h in
    let same_out : y ≡ out = cc same in subst (λ z. refers p z ≡ 0) same_out (empty p)

-- A call that gives strings back to a sound memory does not fault.
abbrev pub GivesBack : Env → Memory → Call → Type 0
GivesBack env m call = (m' : Memory) × (perform env m call ≡ some m') × Keeps m m'

module _ (env : Env) (m : Memory) (sound : IsSound m) (i : ℕ) where
  state_live :
      (out : OutState)
      → get_elem? m.states i ≡ some out
      → (p : ℕ) → state_refers p out ≤ live p m.heap.blocks
  state_live out at p = omega (arith, sound p, total-le (state_refers p) m.states i out at)

  event_live :
      (out : OutEvent)
      → get_elem? m.events i ≡ some out
      → (p : ℕ) → event_refers p out ≤ live p m.heap.blocks
  event_live out at p = omega (arith, sound p, total-le (event_refers p) m.events i out at)

  pub free_state_empties :
      (m' : Memory) × (perform env m (free_state_call i) ≡ some m')
      × Keeps m m'
      × IsEmptyAt state_refers m'.states i
  unfolding perform
  free_state_empties = elim (Option-cases (get_elem? m.states i)) [
    | inl n ↦ (m, rw (n, perform) refl, λ p. omega arith, λ out h p. cc (n, h))
    | inr (out, n) ↦
        let (h, done, counts) = free_state_found m.heap out (state_live out n) in
        (
          record m { heap = h; states = set m.states i (freed_state out) },
          rw (n, perform, done) refl,
          states-Keeps m i h out (freed_state out) n counts,
          IsEmptyAt-set state_refers m.states i out (freed_state out) n
              (λ p. omega (arith, refers-freed p out.room_code, refers-freed p out.detail)),
        )
  ]

  pub free_state_GivesBack : GivesBack env m (free_state_call i)
  free_state_GivesBack = let (m', e, keeps, empty) = free_state_empties in (m', e, keeps)

  pub free_event_empties :
      (m' : Memory) × (perform env m (free_event_call i) ≡ some m')
      × Keeps m m'
      × IsEmptyAt event_refers m'.events i
  unfolding perform free_event
  free_event_empties = elim (Option-cases (get_elem? m.events i)) [
    | inl n ↦ (m, rw (n, perform) refl, λ p. omega arith, λ out h p. cc (n, h))
    | inr (out, n) ↦
        let (h, done, counts) = free_string_found m.heap out.payload (event_live out n) in
        (
          record m { heap = h; events = set m.events i (freed_event out) },
          rw (n, perform, done) refl,
          events-Keeps m i h out (freed_event out) n
              (λ p. omega (arith, counts p, refers-freed p out.payload)),
          IsEmptyAt-set event_refers m.events i out (freed_event out) n
              (λ p. refers-freed p out.payload),
        )
  ]

  pub free_event_GivesBack : GivesBack env m (free_event_call i)
  free_event_GivesBack = let (m', e, keeps, empty) = free_event_empties in (m', e, keeps)

  pub free_room_code_GivesBack : GivesBack env m (free_room_code_call i)
  unfolding perform
  free_room_code_GivesBack = elim (Option-cases (get_elem? m.states i)) [
    | inl n ↦ (m, rw (n, perform) refl, λ p. omega arith)
    | inr (out, n) ↦
        let (h, done, counts) =
          free_string_found m.heap out.room_code (λ p. omega (arith, state_live out n p)) in
        let out' : OutState = record out { room_code = freed out.room_code } in
        (
          record m { heap = h; states = set m.states i out' },
          rw (n, perform, done) refl,
          states-Keeps m i h out out' n
              (λ p. omega (arith, counts p, refers-freed p out.room_code)),
        )
  ]

  pub free_detail_GivesBack : GivesBack env m (free_detail_call i)
  unfolding perform
  free_detail_GivesBack = elim (Option-cases (get_elem? m.states i)) [
    | inl n ↦ (m, rw (n, perform) refl, λ p. omega arith)
    | inr (out, n) ↦
        let (h, done, counts) =
          free_string_found m.heap out.detail (λ p. omega (arith, state_live out n p)) in
        let out' : OutState = record out { detail = freed out.detail } in
        (
          record m { heap = h; states = set m.states i out' },
          rw (n, perform, done) refl,
          states-Keeps m i h out out' n (λ p. omega (arith, counts p, refers-freed p out.detail)),
        )
  ]

  pub free_payload_GivesBack : GivesBack env m (free_payload_call i)
  unfolding perform
  free_payload_GivesBack = elim (Option-cases (get_elem? m.events i)) [
    | inl n ↦ (m, rw (n, perform) refl, λ p. omega arith)
    | inr (out, n) ↦
        let (h, done, counts) = free_string_found m.heap out.payload (event_live out n) in
        (
          record m { heap = h; events = set m.events i (freed_event out) },
          rw (n, perform, done) refl,
          events-Keeps m i h out (freed_event out) n
              (λ p. omega (arith, counts p, refers-freed p out.payload)),
        )
  ]
