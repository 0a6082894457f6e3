-- ===== src/Ffi/Memory/Owned.antt =====
-- The strings of a caller are freed at most once, whatever it calls.
use terracotta_ffi.Base.{
  ◌≡◌, refl, inl, inr, List, [], ◌∷◌, some, get_elem?, set, arith, Option-cases,
}
use terracotta_ffi.Ffi.{Env}
use terracotta_ffi.Ffi.Memory.{
  Memory, get_state_into, poll_event_into, Call, get_state_call, poll_event_call, free_state_call,
  free_event_call, free_room_code_call, free_detail_call, free_payload_call, perform, perform_all,
}
use terracotta_ffi.Ffi.Memory.Balance.{
  IsSound, states-Grows, events-Grows, get_state_into_counts, poll_event_into_counts,
}
use terracotta_ffi.Ffi.Memory.Freed.{
  free_state_GivesBack, free_event_GivesBack, free_room_code_GivesBack, free_detail_GivesBack,
  free_payload_GivesBack, GivesBack,
}

-- A call that does not fault and leaves every string of the caller live.
abbrev IsSafe : Env → Memory → Call → Type 0
IsSafe env m call = (m' : Memory) × (perform env m call ≡ some m') × IsSound m'

module _ (env : Env) where
  given_back_safely :
      (m : Memory) (call : Call) → IsSound m → GivesBack env m call → IsSafe env m call
  given_back_safely m call sound (m', e, keeps) = (m', e, λ p. omega (arith, sound p, keeps p))

  perform_sound : (m : Memory) → IsSound m → (call : Call) → IsSafe env m call
  unfolding perform
  perform_sound m sound (get_state_call handle i) = elim (Option-cases (get_elem? m.states i)) [
    | inl n ↦ (m, rw (n, perform) refl, sound)
    | inr (out, n) ↦
        let (h, out', code) = get_state_into env handle m.heap out in
        let grows = states-Grows m i h out out' n (get_state_into_counts env m.heap handle out) in
        (
          record m { heap = h; states = set m.states i out' },
          rw (n, perform) refl,
          λ p. omega (arith, sound p, grows p),
        )
  ]
  perform_sound m sound (poll_event_call handle i) = elim (Option-cases (get_elem? m.events i)) [
    | inl n ↦ (m, rw (n, perform) refl, sound)
    | inr (out, n) ↦
        let (h, out', code) = poll_event_into env handle m.heap out in
        let grows = events-Grows m i h out out' n (poll_event_into_counts env m.heap handle out) in
        (
          record m { heap = h; events = set m.events i out' },
          rw (n, perform) refl,
          λ p. omega (arith, sound p, grows p),
        )
  ]
  perform_sound m sound (free_state_call i) =
      given_back_safely m (free_state_call i) sound (free_state_GivesBack env m sound i)
  perform_sound m sound (free_event_call i) =
      given_back_safely m (free_event_call i) sound (free_event_GivesBack env m sound i)
  perform_sound m sound (free_room_code_call i) =
      given_back_safely m (free_room_code_call i) sound (free_room_code_GivesBack env m sound i)
  perform_sound m sound (free_detail_call i) =
      given_back_safely m (free_detail_call i) sound (free_detail_GivesBack env m sound i)
  perform_sound m sound (free_payload_call i) =
      given_back_safely m (free_payload_call i) sound (free_payload_GivesBack env m sound i)

  -- Whatever calls a caller makes on its structs, with whatever handles and in whatever order, no
  -- call frees what is not live, and every string in a struct stays live until it is freed. The
  -- caller's structs hold live strings or null pointers at first, and it makes no copies of them.
  pub perform_all-IsSound :
      (m : Memory) (calls : List Call)
      → IsSound m
      → (m' : Memory) × (perform_all env m calls ≡ some m') × IsSound m'
  unfolding perform_all
  perform_all-IsSound m [] sound = (m, refl, sound)
  perform_all-IsSound m (call ∷ calls) sound =
      let (m1, first, sound1) = perform_sound m sound call in
      let (m2, later, sound2) = perform_all-IsSound m1 calls sound1 in
      (m2, rw (first, perform_all) later, sound2)
