-- ===== src/Examples/Connections.antt =====
-- Connections to a scaffolding server.
use terracotta_ffi.Base.{◌≡◌, refl, true, false, [], ◌∷◌, List, some, codes, Bytes, arith}
use terracotta_ffi.Emitter.{Emitter}
use terracotta_ffi.Scaffolding.{Handler, find_handler}
use terracotta_ffi.Scaffolding.Serving.{serve, connection, timed_out, Round, accept_loop}
use terracotta_ffi.Scaffolding.Serving.Pipelined.{Request, sent, respond, serve-respond}
use terracotta_ffi.Scaffolding.Serving.Ending.{serve_ends, accept_loop-stopped}
use terracotta_ffi.Scaffolding.Session.{open_session, converse}
use terracotta_ffi.Scaffolding.Session.Conversation.{
  server_end, on_shared, shared, consult, converse-consult,
}
use terracotta_ffi.Protocols.{ping}
use terracotta_ffi.Protocols.Kinds.{ping-IsKind}
use terracotta_ffi.Examples.Wire.{ready}

abbrev handlers : List (Handler Emitter)
handlers = record { namespace = codes "c"; path = codes "ping"; handle = ping } ∷ []

abbrev ping_with : Bytes → Request
ping_with body = record { namespace = codes "c"; path = codes "ping"; body = body }

-- Two pings on one connection, written before the first is answered.
serve-respond_example :
    serve handlers
      ((λ e. e) ∷ (λ e. e) ∷ (λ e. e) ∷ [])
      ready
      (sent (ping_with (7 ∷ []) ∷ ping_with (8 ∷ 9 ∷ []) ∷ []))
    ≡ respond handlers
        ((λ e. e) ∷ (λ e. e) ∷ (λ e. e) ∷ [])
        ready
        (ping_with (7 ∷ []) ∷ ping_with (8 ∷ 9 ∷ []) ∷ [])
serve-respond_example =
    serve-respond handlers ((λ e. e) ∷ (λ e. e) ∷ (λ e. e) ∷ []) ready
      (ping_with (7 ∷ []) ∷ ping_with (8 ∷ 9 ∷ []) ∷ [])
      (
        record { kind = ping-IsKind; short = omega arith },
        (record { kind = ping-IsKind; short = omega arith }, tt),
      )

serve_ends_example :
    (serve handlers ((λ e. e) ∷ (λ e. e) ∷ (λ e. e) ∷ []) ready (3 ∷ 255 ∷ [])).2 ≡ true
serve_ends_example =
    serve_ends handlers ((λ e. e) ∷ (λ e. e) ∷ (λ e. e) ∷ []) ready (3 ∷ 255 ∷ []) (omega arith)

abbrev round : Bytes → Round
round stream = record {
  stopped_before = false;
  accepted = connection stream;
  stopped_after = false;
}

-- The connection that `shutdown` makes itself is the last one accepted, and gets no thread.
accept_loop-stopped_example :
    accept_loop (
      round (1 ∷ [])
      ∷ round (2 ∷ [])
      ∷ record { stopped_before = false; accepted = connection []; stopped_after = true }
      ∷ record { stopped_before = true; accepted = timed_out; stopped_after = true }
      ∷ [])
    ≡ ((1 ∷ []) ∷ (2 ∷ []) ∷ [], true)
accept_loop-stopped_example =
    accept_loop-stopped (round (1 ∷ []) ∷ round (2 ∷ []) ∷ [])
      (record { stopped_before = false; accepted = connection []; stopped_after = true })
      (record { stopped_before = true; accepted = timed_out; stopped_after = true }) []
      ((refl, refl), ((refl, refl), tt)) refl refl

abbrev two_pings : List ((Emitter → Emitter) × Request)
two_pings = ((λ e. e), ping_with (7 ∷ [])) ∷ ((λ e. e), ping_with (8 ∷ 9 ∷ [])) ∷ []

-- Two pings on one session.
converse-consult_example :
    shared (converse (server_end handlers) (ready, some []) open_session (on_shared two_pings))
    ≡ consult handlers ready two_pings
unfolding find_handler ping
converse-consult_example =
    converse-consult handlers ready two_pings
      (
        record { kind = ping-IsKind; short = omega arith },
        (record { kind = ping-IsKind; short = omega arith }, tt),
      )
      (
        record { answered = 7 ∷ []; behind_header = refl; short = omega arith },
        (record { answered = 8 ∷ 9 ∷ []; behind_header = refl; short = omega arith }, tt),
      )
