-- ===== src/Scaffolding/Serving/Pipelined.antt =====
-- The loop of a connection, on the requests that a client has written one behind the other.
use terracotta_ffi.Base.{
  ℕ, ◌^◌, ◌<◌, ◌≡◌, refl, ap, ◌∙◌, Bool, true, false, List, [], ◌∷◌, ◌++◌, Option, none, some,
  length, All, Text, Bytes,
}
use terracotta_ffi.Scaffolding.{
  Handler, header_room, find_handler, status_and_buffer, frame, read_exact, read_request,
  handle_connection, encode_request,
}
use terracotta_ffi.Scaffolding.Exchange.{IsKind, read_request-encode_request}
use terracotta_ffi.Scaffolding.Serving.{serve, after_request}

pub record Request : Type 0 where
  pub namespace : Text
  pub path : Text
  pub body : Bytes

-- A request that a client can send.
pub record IsSendable (r : Request) : Type 0 where
  pub kind : IsKind r.namespace r.path
  pub short : length r.body < 2 ^ 32

-- The bytes of requests that are written one behind the other.
abbrev pub sent : List Request → Bytes
sent [] = []
sent (r ∷ rs) = encode_request r.namespace r.path r.body ++ sent rs

module _ {S : Type 0} where
  -- What a call of a handler leaves, and the responses that follow it.
  abbrev pub reply : (S → S × List Bytes × Bool) → S × Option (ℕ × Bytes) → S × List Bytes × Bool
  reply next (s, none) = (s, [], true)
  reply next (s, some (status, buffer)) =
      let (t, responses, ended) = next s in (t, frame status buffer ∷ responses, ended)

  after_request-reply :
      (next : S → Bytes → S × List Bytes × Bool) (next' : S → S × List Bytes × Bool) (s : S)
      (rest : Bytes) (sent : Option (ℕ × Bytes))
      → next s rest ≡ next' s
      → after_request next
          (s, elim sent [ none ↦ none | some (status, buffer) ↦ some (frame status buffer, rest) ])
        ≡ reply next' (s, sent)
  after_request-reply next next' s rest none e = refl
  after_request-reply next next' s rest (some (status, buffer)) e = rw e refl

module _ {S : Type 0} (handlers : List (Handler S)) where
  -- What the requests should get: one call of a handler for each, in their order, until one panics
  -- or the requests are over.
  abbrev pub respond : List (S → S) → S → List Request → S × List Bytes × Bool
  respond [] s rs = (s, [], false)
  respond (others ∷ rounds) s [] = (others s, [], true)
  respond (others ∷ rounds) s (r ∷ rs) =
      let (s', result) = find_handler handlers r.namespace r.path (others s) r.body header_room in
      reply (λ t. respond rounds t rs) (s', status_and_buffer result)

  handle_connection-nil : (s : S) → handle_connection handlers s [] ≡ (s, none)
  unfolding handle_connection read_request read_exact
  handle_connection-nil s = refl

  module _ (s : S) (r : Request) (rest : Bytes) (h : IsSendable r) where
    -- One round of the loop, on a request that has been sent.
    pub handle_connection-encode_request :
        handle_connection handlers s (encode_request r.namespace r.path r.body ++ rest) ≡ (
          let (s', result) = find_handler handlers r.namespace r.path s r.body header_room in
          (
            s',
            elim (status_and_buffer result) [
              | none ↦ none
              | some (status, buffer) ↦ some (frame status buffer, rest)
            ],
          ))
    unfolding handle_connection
    handle_connection-encode_request =
        rw
          (
            read_request-encode_request r.namespace r.path r.body rest h.kind h.short,
            handle_connection,
          )
          refl

  -- A connection that carries the requests of a client, one behind the other and nothing else, is
  -- answered by one call of a handler for each request, in their order, whatever the other threads do
  -- to the shared state in between; the thread ends with the requests, or with a handler that panics.
  -- The requests are ones that a client can send.
  pub serve-respond :
      (rounds : List (S → S)) (s : S) (rs : List Request)
      → All IsSendable rs
      → serve handlers rounds s (sent rs) ≡ respond rounds s rs
  unfolding serve
  serve-respond [] s rs h = refl
  serve-respond (others ∷ rounds) s [] h =
      ap (after_request (λ t rest. serve handlers rounds t rest)) (handle_connection-nil (others s))
  serve-respond (others ∷ rounds) s (r ∷ rs) h =
      let found = find_handler handlers r.namespace r.path (others s) r.body header_room in
      ap (after_request (λ t rest. serve handlers rounds t rest))
        (handle_connection-encode_request (others s) r (sent rs) h.0)
      ∙ after_request-reply (λ t rest. serve handlers rounds t rest) (λ t. respond rounds t rs)
          found.0 (sent rs) (status_and_buffer found.1) (serve-respond rounds found.0 rs h.1)
