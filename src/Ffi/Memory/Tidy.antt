-- ===== src/Ffi/Memory/Tidy.antt =====
-- A caller that frees a struct before it is written again keeps no string alive without a pointer to it.
use terracotta_ffi.Base.{
  ℕ, ◌+◌, ◌≡◌, refl, inl, inr, false, List, [], ◌∷◌, Option, none, some, get_elem?, set, Text,
  arith, Option-cases,
}
use terracotta_ffi.Base.Utf8.{encode}
use terracotta_ffi.Json.{Json}
use terracotta_ffi.Event.{Event, payload_json}
use terracotta_ffi.Context.{Context, session_snapshot, poll_event}
use terracotta_ffi.Ffi.Values.{done, make_string, has_zero}
use terracotta_ffi.Ffi.{Handle, Env, context_of}
use terracotta_ffi.Ffi.Calls.{Result-cases}
use terracotta_ffi.Ffi.Memory.{
  Heap, OutState, OutEvent, Memory, allocate_string, write_state, write_event, get_state_into,
  poll_event_into, Call, get_state_call, poll_event_call, free_state_call, free_event_call, perform,
  perform_all,
}
use terracotta_ffi.Ffi.Memory.Counts.{live, state_refers, event_refers, allocate_string_counts}
use terracotta_ffi.Ffi.Memory.Balance.{IsSound, IsExact, Keeps, states-Keeps, events-Keeps}
use terracotta_ffi.Ffi.Memory.Freed.{IsEmptyAt, free_state_empties, free_event_empties}

make_string_plain :
    (value : Text)
    → has_zero (encode value) ≡ false
    → make_string value ≡ done (some (encode value))
unfolding make_string
make_string_plain value h = rw h refl

module _ (env : Env) (plain : (v : Json) → has_zero (encode (env.print v)) ≡ false) where
  write_state_keeps :
      (c : Context) (h : Heap) (out : OutState) (p : ℕ)
      → state_refers p out ≡ 0
      → let (h', out', code) = write_state env c h out in
        state_refers p out' + live p h.blocks ≡ live p h'.blocks + state_refers p out
  unfolding write_state
  write_state_keeps c h out p empty =
      let first = allocate_string h (session_snapshot c).room_code in
      ground (
        arith,
        allocate_string_counts h (session_snapshot c).room_code p,
        allocate_string_counts first.0 (env.print (session_snapshot c).detail) p,
        make_string_plain (env.print (session_snapshot c).detail)
            (plain (session_snapshot c).detail),
      )

  get_state_into_keeps :
      (handle : Handle) (h : Heap) (out : OutState) (p : ℕ)
      → state_refers p out ≡ 0
      → let (h', out', code) = get_state_into env handle h out in
        state_refers p out' + live p h.blocks ≡ live p h'.blocks + state_refers p out
  unfolding get_state_into
  get_state_into_keeps handle h out p empty = elim (Result-cases (context_of handle)) [
    | inl (code, e) ↦ rw (e, get_state_into) (omega arith)
    | inr (c, e) ↦ rw (e, get_state_into) (write_state_keeps c h out p empty)
  ]

  write_event_keeps :
      (sequence : ℕ) (h : Heap) (out : OutEvent) (got : Option Event) (p : ℕ)
      → event_refers p out ≡ 0
      → let (h', out', code) = write_event env sequence h out got in
        event_refers p out' + live p h.blocks ≡ live p h'.blocks + event_refers p out
  unfolding write_event
  write_event_keeps sequence h out none p empty = omega arith
  write_event_keeps sequence h out (some event) p empty =
      ground (arith, allocate_string_counts h (env.print (payload_json event)) p)

  poll_event_into_keeps :
      (handle : Handle) (h : Heap) (out : OutEvent) (p : ℕ)
      → event_refers p out ≡ 0
      → let (h', out', code) = poll_event_into env handle h out in
        event_refers p out' + live p h.blocks ≡ live p h'.blocks + event_refers p out
  unfolding poll_event_into
  poll_event_into_keeps handle h out p empty = elim (Result-cases (context_of handle)) [
    | inl (code, e) ↦ rw (e, poll_event_into) (omega arith)
    | inr (c, e) ↦
        rw (e, poll_event_into)
          (write_event_keeps (poll_event c).0.emitter.next_seq h out (poll_event c).1 p empty)
  ]

  get_state_empty :
      (m : Memory) (handle : Handle) (i : ℕ)
      → IsEmptyAt state_refers m.states i
      → (m' : Memory) × (perform env m (get_state_call handle i) ≡ some m') × Keeps m m'
  unfolding perform
  get_state_empty m handle i empty = elim (Option-cases (get_elem? m.states i)) [
    | inl n ↦ (m, rw (n, perform) refl, λ p. omega arith)
    | inr (out, n) ↦
        let (h, out', code) = get_state_into env handle m.heap out in
        (
          record m { heap = h; states = set m.states i out' },
          rw (n, perform) refl,
          states-Keeps m i h out out' n
              (λ p. get_state_into_keeps handle m.heap out p (empty out n p)),
        )
  ]

  poll_event_empty :
      (m : Memory) (handle : Handle) (i : ℕ)
      → IsEmptyAt event_refers m.events i
      → (m' : Memory) × (perform env m (poll_event_call handle i) ≡ some m') × Keeps m m'
  unfolding perform
  poll_event_empty m handle i empty = elim (Option-cases (get_elem? m.events i)) [
    | inl n ↦ (m, rw (n, perform) refl, λ p. omega arith)
    | inr (out, n) ↦
        let (h, out', code) = poll_event_into env handle m.heap out in
        (
          record m { heap = h; events = set m.events i out' },
          rw (n, perform) refl,
          events-Keeps m i h out out' n
              (λ p. poll_event_into_keeps handle m.heap out p (empty out n p)),
        )
  ]

-- What a tidy caller does with a struct: it frees it before it has it written, or frees it only.
pub data Use : Type 0 where
  read_state : Handle → ℕ → Use
  read_event : Handle → ℕ → Use
  drop_state : ℕ → Use
  drop_event : ℕ → Use

abbrev pub tidy : List Use → List Call
tidy [] = []
tidy (read_state handle i ∷ us) = free_state_call i ∷ get_state_call handle i ∷ tidy us
tidy (read_event handle i ∷ us) = free_event_call i ∷ poll_event_call handle i ∷ tidy us
tidy (drop_state i ∷ us) = free_state_call i ∷ tidy us
tidy (drop_event i ∷ us) = free_event_call i ∷ tidy us

exact_suffices : (m : Memory) → IsExact m → IsSound m
exact_suffices m exact p = omega (arith, exact p)

IsExact-Keeps : (m m' : Memory) → IsExact m → Keeps m m' → IsExact m'
IsExact-Keeps m m' exact keeps p = omega (arith, exact p, keeps p)

module _ (env : Env) (plain : (v : Json) → has_zero (encode (env.print v)) ≡ false) where
  -- A caller that frees each struct before it has it written, and starts with as many blocks as its
  -- structs point to, has at every point freed nothing twice and lost nothing: a block is live as
  -- often as the structs point to it. The printer writes no zero byte.
  pub perform_all-IsExact :
      (m : Memory) (uses : List Use)
      → IsExact m
      → (m' : Memory) × (perform_all env m (tidy uses) ≡ some m') × IsExact m'
  unfolding perform_all
  perform_all-IsExact m [] exact = (m, refl, exact)
  perform_all-IsExact m (read_state handle i ∷ us) exact =
      let (m1, e1, k1, empty) = free_state_empties env m (exact_suffices m exact) i in
      let (m2, e2, k2) = get_state_empty env plain m1 handle i empty in
      let (m3, e3, exact3) =
        perform_all-IsExact m2 us (IsExact-Keeps m1 m2 (IsExact-Keeps m m1 exact k1) k2) in
      (m3, rw (e1, perform_all, e2) e3, exact3)
  perform_all-IsExact m (read_event handle i ∷ us) exact =
      let (m1, e1, k1, empty) = free_event_empties env m (exact_suffices m exact) i in
      let (m2, e2, k2) = poll_event_empty env plain m1 handle i empty in
      let (m3, e3, exact3) =
        perform_all-IsExact m2 us (IsExact-Keeps m1 m2 (IsExact-Keeps m m1 exact k1) k2) in
      (m3, rw (e1, perform_all, e2) e3, exact3)
  perform_all-IsExact m (drop_state i ∷ us) exact =
      let (m1, e1, k1, empty) = free_state_empties env m (exact_suffices m exact) i in
      let (m3, e3, exact3) = perform_all-IsExact m1 us (IsExact-Keeps m m1 exact k1) in
      (m3, rw (e1, perform_all) e3, exact3)
  perform_all-IsExact m (drop_event i ∷ us) exact =
      let (m1, e1, k1, empty) = free_event_empties env m (exact_suffices m exact) i in
      let (m3, e3, exact3) = perform_all-IsExact m1 us (IsExact-Keeps m m1 exact k1) in
      (m3, rw (e1, perform_all) e3, exact3)
