-- ===== src/Scaffolding/Session/Conversation.antt =====
-- A session whose peer is a connection of src/scaffolding/server.rs: the calls of a client come to calls
-- of the server's handlers.
use terracotta_ffi.Base.{
  ℕ, zero, suc, ◌<◌, ◌^◌, ◌≡◌, refl, ap, ◌∙◌, List, [], ◌∷◌, ◌++◌, Option, none, some, length, drop,
  All, Bytes, arith, append-nil,
}
use terracotta_ffi.Scaffolding.{
  Handler, header_room, find_handler, status_and_buffer, frame, accept_ok, handle_connection,
  read_response, read_exact, encode_request,
}
use terracotta_ffi.Scaffolding.Exchange.{read_response-frame, response_of}
use terracotta_ffi.Scaffolding.Serving.Pipelined.{
  Request, IsSendable, handle_connection-encode_request,
}
use terracotta_ffi.Scaffolding.Session.{
  ClientSession, Sent, got, unanswered, open_session, handle_packet, after_packet, take_answer,
  send_sync, go_on, converse,
}

-- What a handler leaves in the response buffer: the room for the header, and an answer that fits the
-- length field.
pub record IsFramed (buffer : Bytes) : Type 0 where
  pub answered : Bytes
  pub behind_header : buffer ≡ header_room ++ answered
  pub short : length answered < 2 ^ 32

abbrev pub Fits : Option (ℕ × Bytes) → Type 0
Fits none = Unit
Fits (some (status, buffer)) = IsFramed buffer

-- A claim that is wanted only where the client goes on: after a response with status 0.
abbrev pub GoesOn : Option (ℕ × Bytes) → Type 0 → Type 0
GoesOn (some (zero, buffer)) A = A
GoesOn _ A = Unit

GoesOn-map : {A B : Type 0} (sent : Option (ℕ × Bytes)) → (A → B) → GoesOn sent A → GoesOn sent B
GoesOn-map none f h = tt
GoesOn-map (some (zero, buffer)) f h = f h
GoesOn-map (some (suc status, buffer)) f h = tt

module _ {S : Type 0} where
  -- The server's end: the state that the handlers share, and what its thread has not read yet, or
  -- `none` when the thread has ended.
  abbrev pub answer_with : S × Option (Bytes × Bytes) → (S × Option Bytes) × Option Bytes
  answer_with (s, none) = ((s, none), some [])
  answer_with (s, some (response, rest)) = ((s, some rest), some response)

  unfoldable pub server_end :
      List (Handler S) → S × Option Bytes → Bytes → (S × Option Bytes) × Option Bytes
  server_end handlers (s, none) written = ((s, none), none)
  server_end handlers (s, some unread) written =
      answer_with (handle_connection handlers s (unread ++ written))

  -- The other threads of the server leave the connection alone.
  abbrev pub on_shared :
      List ((S → S) × Request) → List ((S × Option Bytes → S × Option Bytes) × Request)
  on_shared [] = []
  on_shared ((others, r) ∷ calls) = ((λ x. (others x.0, x.1)), r) ∷ on_shared calls

  -- The state of the handlers, and what the client has got.
  abbrev pub shared : (S × Option Bytes) × List Sent → S × List Sent
  shared x = (x.0.0, x.1)

  -- What a call should get from the handler's status and buffer.
  abbrev pub consulted : (S → S × List Sent) → S × Option (ℕ × Bytes) → S × List Sent
  consulted next (s, none) = (s, unanswered ∷ [])
  consulted next (s, some (zero, buffer)) =
      let (t, later) = next s in (t, got (drop 5 buffer) ∷ later)
  consulted next (s, some (suc status, buffer)) = (s, unanswered ∷ [])

module _ {S : Type 0} (handlers : List (Handler S)) where
  -- The handler's own answer to a request.
  abbrev pub handled : S → Request → S × Option (ℕ × Bytes)
  handled s r =
      let (s', result) = find_handler handlers r.namespace r.path s r.body header_room in
      (s', status_and_buffer result)

  -- What the calls should get: a call of a handler for each, in their order, up to the first whose
  -- handler panics or answers with a status other than 0.
  abbrev pub consult : S → List ((S → S) × Request) → S × List Sent
  consult s [] = (s, [])
  consult s ((others, r) ∷ calls) = consulted (λ t. consult t calls) (handled (others s) r)

  -- The answers of all handlers that the client comes to fit the wire.
  abbrev pub AllFit : S → List ((S → S) × Request) → Type 0
  AllFit s [] = Unit
  AllFit s ((others, r) ∷ calls) =
      Fits (handled (others s) r).1
      × GoesOn (handled (others s) r).1 (AllFit (handled (others s) r).0 calls)

  read-framed :
      (status : ℕ) (buffer : Bytes) (h : IsFramed buffer)
      → read_response (frame status buffer) ≡ some (response_of status (drop 5 buffer), [])
  unfolding frame
  read-framed status buffer h = rw h.behind_header (
      rw (append-nil (frame status (header_room ++ h.answered))) at
        (read_response-frame status h.answered [] h.short))

  read-nothing : read_response [] ≡ none
  unfolding read_response read_exact
  read-nothing = refl

  -- A call, from what the handler has given.
  settled :
      (next : S × Option Bytes → ClientSession → (S × Option Bytes) × List Sent)
      (next' : S → S × List Sent) (s : S) (sent : Option (ℕ × Bytes))
      → Fits sent
      → GoesOn sent (shared (next (s, some []) open_session) ≡ next' s)
      → shared (
          go_on next (
            take_answer open_session (
              answer_with (
                s,
                elim sent [ none ↦ none | some (status, buffer) ↦ some (frame status buffer, []) ],
              ))))
        ≡ consulted next' (s, sent)
  unfolding go_on take_answer open_session handle_packet after_packet
  settled next next' s none h e = rw read-nothing refl
  settled next next' s (some (zero, buffer)) h e =
      rw (read-framed zero buffer h)
        (ap (λ (x : S × List Sent). (x.0, got (drop 5 buffer) ∷ x.1)) e)
  settled next next' s (some (suc status, buffer)) h e =
      let failed : accept_ok (some (response_of (suc status) (drop 5 buffer))) ≡ none =
        ground arith in
      rw (read-framed (suc status) buffer h, failed) refl

  -- One call.
  send_sync-server_end :
      (s : S) (r : Request)
      → IsSendable r
      → send_sync (server_end handlers) (s, some []) open_session r
        ≡ take_answer open_session (
            answer_with (
              (handled s r).0,
              elim (handled s r).1 [
                | none ↦ none
                | some (status, buffer) ↦ some (frame status buffer, [])
              ],
            ))
  unfolding send_sync open_session server_end
  send_sync-server_end s r h =
      ap (λ x. take_answer open_session (answer_with x))
        (rw (append-nil (encode_request r.namespace r.path r.body)) at
          (handle_connection-encode_request handlers s r [] h))

  -- The calls that a client makes on a new session with a server get, one after the other, what the
  -- server's handlers answer to them, whatever the other threads do to the shared state in between, and
  -- leave the handlers' state as these calls of the handlers do; they end with the first handler that
  -- panics or fails. The requests are ones that a client can send, and the handlers' answers fit the wire.
  pub converse-consult :
      (s : S) (calls : List ((S → S) × Request))
      → All (λ c. IsSendable c.1) calls
      → AllFit s calls
      → shared (converse (server_end handlers) (s, some []) open_session (on_shared calls))
        ≡ consult s calls
  unfolding converse
  converse-consult s [] h f = refl
  converse-consult s ((others, r) ∷ calls) h f =
      let next = λ (t : S × Option Bytes) (c : ClientSession).
        converse (server_end handlers) t c (on_shared calls) in
      let x = handled (others s) r in
      ap (λ y. shared (go_on next y)) (send_sync-server_end (others s) r h.0)
      ∙ settled next (λ t. consult t calls) x.0 x.1 f.0
          (GoesOn-map x.1 (converse-consult x.0 calls h.1) f.1)
