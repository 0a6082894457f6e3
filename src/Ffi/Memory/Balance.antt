-- ===== src/Ffi/Memory/Balance.antt =====
-- What the calls that hand out strings do to the count of live strings and to the pointers of a caller.
use terracotta_ffi.Base.{ℕ, ◌+◌, ◌≤◌, ◌≡◌, inl, inr, Option, none, some, get_elem?, set, arith}
use terracotta_ffi.Event.{Event, payload_json}
use terracotta_ffi.Context.{Context, session_snapshot, poll_event}
use terracotta_ffi.Ffi.{Handle, Env, context_of}
use terracotta_ffi.Ffi.Calls.{Result-cases}
use terracotta_ffi.Ffi.Memory.{
  Heap, OutState, OutEvent, Memory, allocate_string, write_state, write_event, get_state_into,
  poll_event_into,
}
use terracotta_ffi.Ffi.Memory.Counts.{
  live, state_refers, event_refers, owned, total-set, allocate_string_counts,
}

module _ (env : Env) (h : Heap) where
  pub write_state_counts :
      (c : Context) (out : OutState) (p : ℕ)
      → let (h', out', code) = write_state env c h out in
        state_refers p out' + live p h.blocks ≤ live p h'.blocks + state_refers p out
  unfolding write_state
  write_state_counts c out p =
      let first = allocate_string h (session_snapshot c).room_code in
      ground (
        arith,
        allocate_string_counts h (session_snapshot c).room_code p,
        allocate_string_counts first.0 (env.print (session_snapshot c).detail) p,
      )

  pub write_event_counts :
      (sequence : ℕ) (out : OutEvent) (got : Option Event) (p : ℕ)
      → let (h', out', code) = write_event env sequence h out got in
        event_refers p out' + live p h.blocks ≤ live p h'.blocks + event_refers p out
  unfolding write_event
  write_event_counts sequence out none p = omega arith
  write_event_counts sequence out (some event) p =
      ground (arith, allocate_string_counts h (env.print (payload_json event)) p)

  pub get_state_into_counts :
      (handle : Handle) (out : OutState) (p : ℕ)
      → let (h', out', code) = get_state_into env handle h out in
        state_refers p out' + live p h.blocks ≤ live p h'.blocks + state_refers p out
  unfolding get_state_into
  get_state_into_counts handle out p = elim (Result-cases (context_of handle)) [
    | inl (code, e) ↦ rw (e, get_state_into) (omega arith)
    | inr (c, e) ↦ rw (e, get_state_into) (write_state_counts c out p)
  ]

  pub poll_event_into_counts :
      (handle : Handle) (out : OutEvent) (p : ℕ)
      → let (h', out', code) = poll_event_into env handle h out in
        event_refers p out' + live p h.blocks ≤ live p h'.blocks + event_refers p out
  unfolding poll_event_into
  poll_event_into_counts handle out p = elim (Result-cases (context_of handle)) [
    | inl (code, e) ↦ rw (e, poll_event_into) (omega arith)
    | inr (c, e) ↦
        rw (e, poll_event_into)
          (write_event_counts (poll_event c).0.emitter.next_seq out (poll_event c).1 p)
  ]

-- Every string of a caller is live.
abbrev pub IsSound : Memory → Type 0
IsSound m = (p : ℕ) → owned p m ≤ live p m.heap.blocks

-- Every live string is one of a caller, once.
abbrev pub IsExact : Memory → Type 0
IsExact m = (p : ℕ) → owned p m ≡ live p m.heap.blocks

-- No string gets to a caller without a block, and none loses one.
abbrev pub Grows : Memory → Memory → Type 0
Grows m m' = (p : ℕ) → owned p m' + live p m.heap.blocks ≤ live p m'.heap.blocks + owned p m

abbrev pub Keeps : Memory → Memory → Type 0
Keeps m m' = (p : ℕ) → owned p m' + live p m.heap.blocks ≡ live p m'.heap.blocks + owned p m

module _ (m : Memory) (i : ℕ) (h' : Heap) where
  pub states-Grows :
      (out out' : OutState)
      → get_elem? m.states i ≡ some out
      → ((p : ℕ)
          → state_refers p out' + live p m.heap.blocks ≤ live p h'.blocks + state_refers p out)
      → Grows m (record m { heap = h'; states = set m.states i out' })
  states-Grows out out' at counts p =
      omega (arith, counts p, total-set (state_refers p) m.states i out out' at)

  pub states-Keeps :
      (out out' : OutState)
      → get_elem? m.states i ≡ some out
      → ((p : ℕ)
          → state_refers p out' + live p m.heap.blocks ≡ live p h'.blocks + state_refers p out)
      → Keeps m (record m { heap = h'; states = set m.states i out' })
  states-Keeps out out' at counts p =
      omega (arith, counts p, total-set (state_refers p) m.states i out out' at)

  pub events-Grows :
      (out out' : OutEvent)
      → get_elem? m.events i ≡ some out
      → ((p : ℕ)
          → event_refers p out' + live p m.heap.blocks ≤ live p h'.blocks + event_refers p out)
      → Grows m (record m { heap = h'; events = set m.events i out' })
  events-Grows out out' at counts p =
      omega (arith, counts p, total-set (event_refers p) m.events i out out' at)

  pub events-Keeps :
      (out out' : OutEvent)
      → get_elem? m.events i ≡ some out
      → ((p : ℕ)
          → event_refers p out' + live p m.heap.blocks ≡ live p h'.blocks + event_refers p out)
      → Keeps m (record m { heap = h'; events = set m.events i out' })
  events-Keeps out out' at counts p =
      omega (arith, counts p, total-set (event_refers p) m.events i out out' at)
