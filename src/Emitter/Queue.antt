-- ===== src/Emitter/Queue.antt =====
-- The event queue of an emitter: its bound, its order, and what is dropped.
use terracotta_ffi.Base.{
  ◌+◌, ◌≤◌, ◌<◌, ◌≡◌, refl, ap, ◌⊎◌, inl, inr, true, ◌&&◌, List, [], ◌∷◌, ◌++◌, Option, none, some,
  ltb, length, length-append, Bool-cases, arith, append_assoc, append-nil,
}
use terracotta_ffi.Event.{Event}
use terracotta_ffi.Session.{u64_mod}
use terracotta_ffi.Emitter.{Emitter, event_queue_capacity, emit, poll}

-- What a caller and the threads do with the queue.
pub data Op : Type 0 where
  send : Event → Op
  receive : Op

abbrev add_received : Option Event → List Event → List Event
add_received none evs = evs
add_received (some ev) evs = ev ∷ evs

-- The emitter after the operations, and what was received on the way.
unfoldable pub run_ops : Emitter → List Op → Emitter × List Event
run_ops e [] = (e, [])
run_ops e (send ev ∷ ops) = run_ops (emit e ev) ops
run_ops e (receive ∷ ops) =
    let (e', got) = poll e in let (e'', evs) = run_ops e' ops in (e'', add_received got evs)

abbrev pub sent : List Op → List Event
sent [] = []
sent (send ev ∷ ops) = ev ∷ sent ops
sent (receive ∷ ops) = sent ops

-- The queue of a live context holds 256 events at most.
abbrev pub IsBounded : Emitter → Type 0
IsBounded e = (e.connected ≡ true) × (length e.queue ≤ event_queue_capacity)

emit-IsBounded : (e : Emitter) (ev : Event) → IsBounded e → IsBounded (emit e ev)
unfolding emit
emit-IsBounded e ev (c, h) = ground (arith, length-append e.queue (ev ∷ []))

emit-dropped_le :
    (e : Emitter) (ev : Event)
    → e.dropped + 1 < u64_mod
    → (e.dropped ≤ (emit e ev).dropped) × ((emit e ev).dropped ≤ e.dropped + 1)
unfolding emit
emit-dropped_le e ev h = ground arith

-- A send adds to the queue or to the count of dropped events, and never to both.
emit-counts :
    (e : Emitter) (ev : Event)
    → e.connected ≡ true
    → e.dropped + 1 < u64_mod
    → length (emit e ev).queue + (emit e ev).dropped ≡ length e.queue + e.dropped + 1
unfolding emit
emit-counts e ev c h = ground (arith, length-append e.queue (ev ∷ []))

poll-cases :
    (e : Emitter)
    → ((e.queue ≡ []) × (poll e ≡ (e, none)))
      ⊎ ((ev : Event) × (rest : List Event) × (e.queue ≡ ev ∷ rest)
          × (poll e ≡ (record e { queue = rest }, some ev)))
unfolding poll
poll-cases e = go e.queue refl
  where
    go :
        (q : List Event)
        → e.queue ≡ q
        → ((e.queue ≡ []) × (poll e ≡ (e, none)))
          ⊎ ((ev : Event) × (rest : List Event) × (e.queue ≡ ev ∷ rest)
              × (poll e ≡ (record e { queue = rest }, some ev)))
    go [] h = inl (h, rw h)
    go (ev ∷ rest) h = inr (ev, rest, h, rw h)

-- The first list keeps the order of the second, and leaves some of it out.
abbrev pub IsKept : List Event → List Event → Type 0
IsKept [] ys = Unit {0}
IsKept (x ∷ xs) [] = ⊥
IsKept (x ∷ xs) (y ∷ ys) = ((x ≡ y) × IsKept xs ys) ⊎ IsKept (x ∷ xs) ys

IsKept-refl : (xs : List Event) → IsKept xs xs
IsKept-refl [] = tt
IsKept-refl (x ∷ xs) = inl (refl, IsKept-refl xs)

IsKept-skip : (xs ys zs : List Event) → IsKept xs ys → IsKept xs (ys ++ zs)
IsKept-skip [] ys zs k = tt
IsKept-skip (x ∷ xs) [] zs k = elim k [ ]
IsKept-skip (x ∷ xs) (y ∷ ys) zs (inl (e, k)) = inl (e, IsKept-skip xs ys zs k)
IsKept-skip (x ∷ xs) (y ∷ ys) zs (inr k) = inr (IsKept-skip (x ∷ xs) ys zs k)

IsKept-last :
    (xs ys : List Event) (ev : Event) → IsKept xs ys → IsKept (xs ++ ev ∷ []) (ys ++ ev ∷ [])
IsKept-last [] [] ev k = inl (refl, tt)
IsKept-last [] (y ∷ ys) ev k = inr (IsKept-last [] ys ev tt)
IsKept-last (x ∷ xs) [] ev k = elim k [ ]
IsKept-last (x ∷ xs) (y ∷ ys) ev (inl (e, k)) = inl (e, IsKept-last xs ys ev k)
IsKept-last (x ∷ xs) (y ∷ ys) ev (inr k) = inr (IsKept-last (x ∷ xs) ys ev k)

IsKept-shift :
    (ev : Event) (rest out base tail : List Event)
    → ((b : List Event) → IsKept rest b → IsKept out (b ++ tail))
    → IsKept (ev ∷ rest) base
    → IsKept (ev ∷ out) (base ++ tail)
IsKept-shift ev rest out [] tail f k = elim k [ ]
IsKept-shift ev rest out (y ∷ base) tail f (inl (e, k)) = inl (e, f base k)
IsKept-shift ev rest out (y ∷ base) tail f (inr k) = inr (IsKept-shift ev rest out base tail f k)

emit-IsKept :
    (e : Emitter) (ev : Event) (base : List Event)
    → IsKept e.queue base
    → IsKept (emit e ev).queue (base ++ ev ∷ [])
unfolding emit
emit-IsKept e ev base k =
    elim (Bool-cases (e.connected && ltb (length e.queue) event_queue_capacity)) [
      | inl w ↦ rw w (IsKept-last e.queue base ev k)
      | inr w ↦ rw w (IsKept-skip e.queue base (ev ∷ []) k)
    ]

-- The account of a run of operations on a live context, whose queue keeps the order of `base`.
record Account (e : Emitter) (ops : List Op) (base : List Event) : Type 0 where
  bounded : IsBounded (run_ops e ops).0
  counted :
      length (run_ops e ops).1 + length (run_ops e ops).0.queue + (run_ops e ops).0.dropped
      ≡ length e.queue + e.dropped + length (sent ops)
  ordered : IsKept ((run_ops e ops).1 ++ (run_ops e ops).0.queue) (base ++ sent ops)

run_ops-receive :
    (e e' : Emitter) (got : Option Event) (ops : List Op)
    → poll e ≡ (e', got)
    → run_ops e (receive ∷ ops) ≡ ((run_ops e' ops).0, add_received got (run_ops e' ops).1)
unfolding run_ops
run_ops-receive e e' got ops p = rw p

Account-receive_none :
    (e : Emitter) (ops : List Op) (base : List Event)
    → poll e ≡ (e, none)
    → Account e ops base
    → Account e (receive ∷ ops) base
Account-receive_none e ops base p a =
    let r = run_ops-receive e e none ops p in
    record { bounded = rw r a.bounded; counted = rw r a.counted; ordered = rw r a.ordered }

Account-receive_some :
    (e : Emitter) (ev : Event) (rest : List Event) (ops : List Op) (base : List Event)
    → e.queue ≡ ev ∷ rest
    → poll e ≡ (record e { queue = rest }, some ev)
    → IsKept e.queue base
    → ((b : List Event) → IsKept rest b → Account (record e { queue = rest }) ops b)
    → Account e (receive ∷ ops) base
Account-receive_some e ev rest ops base q p k a =
    let r = run_ops-receive e (record e { queue = rest }) (some ev) ops p in
    let here = a rest (IsKept-refl rest) in
    record {
      bounded = rw r here.bounded;
      counted = rw r (omega (arith, here.counted, ap length q));
      ordered = rw r (IsKept-shift ev rest _ base (sent ops) (λ b k. (a b k).ordered) (rw q at k));
    }

run_ops-Account :
    (e : Emitter) (ops : List Op) (base : List Event)
    → IsBounded e
    → e.dropped + length ops < u64_mod
    → IsKept e.queue base
    → Account e ops base
unfolding run_ops
run_ops-Account e [] base b h k = record {
  bounded = b;
  counted = omega arith;
  ordered = rw (append-nil base) k;
}
run_ops-Account e (send ev ∷ ops) base b h k =
    let d = emit-dropped_le e ev (omega arith) in
    let ih =
      run_ops-Account (emit e ev) ops (base ++ ev ∷ []) (emit-IsBounded e ev b) (omega arith)
        (emit-IsKept e ev base k) in
    record {
      bounded = ih.bounded;
      counted = omega (arith, ih.counted, emit-counts e ev b.0 (omega arith));
      ordered = rw (append_assoc base (ev ∷ []) (sent ops)) at ih.ordered;
    }
run_ops-Account e (receive ∷ ops) base b h k = elim (poll-cases e) [
  | inl (empty, p) ↦
      Account-receive_none e ops base p (run_ops-Account e ops base b (omega arith) k)
  | inr (ev, rest, q, p) ↦ Account-receive_some e ev rest ops base q p k (λ c l.
      run_ops-Account (record e { queue = rest }) ops c (b.0, omega (arith, b.1, ap length q))
        (omega arith) l)
]

-- Whatever is sent and received on a live context whose queue is within its bound and whose count
-- of dropped events does not reach its end: the queue never holds more than 256 events, every
-- event is received, queued or counted as dropped, and what is received and queued keeps the order
-- of sending.
pub run_ops_lem :
    (e : Emitter) (ops : List Op)
    → IsBounded e
    → e.dropped + length ops < u64_mod
    → let (e', received) = run_ops e ops in
      IsBounded e'
      × (length received + length e'.queue + e'.dropped
          ≡ length e.queue + e.dropped + length (sent ops))
      × IsKept (received ++ e'.queue) (e.queue ++ sent ops)
run_ops_lem e ops b h =
    let a = run_ops-Account e ops e.queue b h (IsKept-refl e.queue) in
    (a.bounded, a.counted, a.ordered)
