-- ===== src/Client/Drain.antt =====
-- The draining of an event queue to which no other thread sends.
use terracotta_ffi.Base.{
  ℕ, zero, suc, ◌<◌, ◌≡◌, refl, ap₂, false, List, [], ◌∷◌, some, map, length, replicate, Text,
  Bytes, arith,
}
use terracotta_ffi.Base.Utf8.{encode}
use terracotta_ffi.Event.{Event, payload_json, type_id}
use terracotta_ffi.Json.{Json}
use terracotta_ffi.Context.{Context, poll_event}
use terracotta_ffi.Emitter.{poll}
use terracotta_ffi.Ffi.Values.{make_string, has_zero, done}
use terracotta_ffi.Ffi.{Env, put, context_of, export_event, terracotta_poll_event}
use terracotta_ffi.Client.{event_line, after_poll, drain_events}

abbrev pub with_queue : Context → List Event → Context
with_queue c q = record c { emitter = record c.emitter { queue = q } }

-- The line of an event that is taken from the queue of a context.
abbrev pub line_of : (Bytes → Text) → Env → ℕ → Event → Text
line_of lossy env sequence ev = event_line lossy (record {
  sequence = sequence;
  type = type_id ev;
  payload = some (encode (env.print (payload_json ev)));
})

module _ (lossy : Bytes → Text) (env : Env)
    (plain : (v : Json) → has_zero (encode (env.print v)) ≡ false) where
  -- The printer writes no zero byte, so the event is exported.
  export_event-done :
      (sequence : ℕ) (ev : Event)
      → (export_event env sequence ev)
        ≡ done (record {
          sequence = sequence;
          type = type_id ev;
          payload = some (encode (env.print (payload_json ev)));
        })
  unfolding export_event make_string
  export_event-done sequence ev = rw (plain (payload_json ev)) refl

  drain_events_from :
      (n : ℕ) (c : Context) (q : List Event)
      → length q < n
      → drain_events lossy (replicate n (λ h. h)) env (put (with_queue c q))
        ≡ some (put (with_queue c []), map (line_of lossy env c.emitter.next_seq) q)
  unfolding drain_events terracotta_poll_event context_of poll_event poll
  drain_events_from zero c q h = absurd (omega (arith, h))
  drain_events_from (suc n) c [] h = refl
  drain_events_from (suc n) c (ev ∷ q) h =
      ap₂ (after_poll lossy (put (with_queue c q))) (export_event-done c.emitter.next_seq ev)
        (drain_events_from n c q (omega (arith, h)))

  -- If no other thread sends meanwhile: with more polls than there are events in the queue the draining
  -- ends. It empties the queue and prints every event in order, all of them with the number that the next
  -- event would get. The printer writes no zero byte.
  pub drain_events_lem :
      (n : ℕ) (c : Context)
      → length c.emitter.queue < n
      → drain_events lossy (replicate n (λ h. h)) env (put c)
        ≡ some (put (with_queue c []), map (line_of lossy env c.emitter.next_seq) c.emitter.queue)
  drain_events_lem n c h = drain_events_from n c c.emitter.queue h
