-- ===== src/Ffi/Memory/Exported.antt =====
-- The blocks of a struct hold the strings of Ffi.antt.
use terracotta_ffi.Base.{
  ℕ, ◌+◌, ◌≡◌, refl, inl, inr, true, false, List, [], ◌∷◌, Option, none, some, ◌==◌, if◌then◌else◌,
  Text, Bytes, arith, Option-cases, Bool-cases,
}
use terracotta_ffi.Base.Utf8.{encode}
use terracotta_ffi.Event.{payload_json}
use terracotta_ffi.Context.{session_snapshot, poll_event}
use terracotta_ffi.Ffi.Values.{
  Code, ok, internal, Result, done, failed, make_string, has_zero, TerracottaString,
  TerracottaState, TerracottaEvent,
}
use terracotta_ffi.Ffi.{
  Handle, Env, context_of, terracotta_get_state, terracotta_poll_event, export_event,
}
use terracotta_ffi.Ffi.Calls.{Result-cases}
use terracotta_ffi.Ffi.Memory.{
  Heap, OutString, OutState, OutEvent, into_raw, allocate_string, write_state, write_event,
  get_state_into, poll_event_into,
}

abbrev pub find_block : ℕ → List (ℕ × Bytes) → Option Bytes
find_block p [] = none
find_block p (b ∷ bs) = if b.0 == p then some b.1 else find_block p bs

-- The string that a caller finds in a struct.
abbrev pub contents : Heap → OutString → TerracottaString
contents h s = elim s.pointer [ none ↦ none | some p ↦ find_block p h.blocks ]

abbrev pub state_contents : Heap → OutState → TerracottaState
state_contents h s = record {
  version = s.version;
  state = s.state;
  room_code = contents h s.room_code;
  detail = contents h s.detail;
}

abbrev pub event_contents : Heap → OutEvent → TerracottaEvent
event_contents h e = record { sequence = e.sequence; type = e.type; payload = contents h e.payload }

-- A call that writes a struct gives the code and the values of the function on values; an error
-- leaves the struct.
abbrev pub Writes :
    {Out Value : Type 0} → (Heap → Out → Value) → Out → Heap × Out × Code → Result Value → Type 0
Writes contents out (h, out', code) (failed error) = (code ≡ error) × (out' ≡ out)
Writes contents out (h, out', code) (done value) = (code ≡ ok) × (contents h out' ≡ value)

fresh_block : (n : ℕ) → (n == n) ≡ true
fresh_block n = ground arith

older_block : (n : ℕ) → (n + 1 == n) ≡ false
older_block n = ground arith

-- A text without a zero byte gets a block of its own, and any other none.
allocated :
    (h : Heap) (value : Text)
    → has_zero (encode value) ≡ false
    → allocate_string h value ≡ (let (h', s) = into_raw h (encode value) in (h', done s))
unfolding allocate_string make_string
allocated h value z = rw (z, allocate_string) refl

refused :
    (h : Heap) (value : Text)
    → has_zero (encode value) ≡ true
    → allocate_string h value ≡ (h, failed internal)
unfolding allocate_string make_string
refused h value z = rw (z, allocate_string) refl

module _ (env : Env) where
  -- `terracotta_get_state` into a struct gives the code of the function on values; if that is a
  -- success, the struct and the blocks that it points to hold the values, and else the struct is as
  -- it was.
  pub get_state_into-Writes :
      (handle : Handle) (h : Heap) (out : OutState)
      → Writes state_contents out
          (get_state_into env handle h out)
          (terracotta_get_state env handle true)
  unfolding get_state_into terracotta_get_state make_string write_state into_raw
  get_state_into-Writes handle h out = elim (Result-cases (context_of handle)) [
    | inl (code, e) ↦ rw (e, get_state_into, terracotta_get_state) (refl, refl)
    | inr (c, e) ↦
        let code = (session_snapshot c).room_code in
        let detail = env.print (session_snapshot c).detail in
        let h1 : Heap = record { next = h.next + 1; blocks = (h.next, encode code) ∷ h.blocks } in
        elim (Bool-cases (has_zero (encode code))) [
          | inl z ↦
              rw (e, get_state_into, terracotta_get_state, write_state, refused h code z, z)
                (refl, refl)
          | inr z ↦ elim (Bool-cases (has_zero (encode detail))) [
            | inl y ↦
                rw
                  (
                    e,
                    get_state_into,
                    terracotta_get_state,
                    write_state,
                    allocated h code z,
                    refused h1 detail y,
                    z,
                    y,
                  )
                  (refl, refl)
            | inr y ↦
                rw
                  (
                    e,
                    get_state_into,
                    terracotta_get_state,
                    write_state,
                    allocated h code z,
                    allocated h1 detail y,
                    z,
                    y,
                    fresh_block (h.next + 1),
                    older_block h.next,
                    fresh_block h.next,
                  )
                  (refl, refl)
          ]
        ]
  ]

  -- The same for `terracotta_poll_event`.
  poll_event_into-Writes :
      (handle : Handle) (h : Heap) (out : OutEvent)
      → Writes event_contents out
          (poll_event_into env handle h out)
          (terracotta_poll_event env handle true).1
  unfolding poll_event_into terracotta_poll_event export_event make_string write_event into_raw
  poll_event_into-Writes handle h out = elim (Result-cases (context_of handle)) [
    | inl (code, e) ↦ rw (e, poll_event_into, terracotta_poll_event) (refl, refl)
    | inr (c, e) ↦ elim (Option-cases (poll_event c).1) [
      | inl n ↦ rw (e, poll_event_into, terracotta_poll_event, n) (refl, refl)
      | inr (event, n) ↦ elim (Bool-cases (has_zero (encode (env.print (payload_json event))))) [
        | inl z ↦
            rw
              (
                e,
                poll_event_into,
                terracotta_poll_event,
                n,
                write_event,
                refused h (env.print (payload_json event)) z,
                z,
              )
              (refl, refl)
        | inr z ↦
            rw
              (
                e,
                poll_event_into,
                terracotta_poll_event,
                n,
                write_event,
                allocated h (env.print (payload_json event)) z,
                allocated h (env.print (payload_json event)) z,
                z,
                fresh_block h.next,
              )
              (refl, refl)
      ]
    ]
  ]
