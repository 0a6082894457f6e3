-- ===== src/Scaffolding/Exchange.antt =====
-- The two ends of the protocol read what the other end writes.
use terracotta_ffi.Base.{
  ℕ, ◌+◌, ◌-◌, ◌%◌, ◌^◌, ◌<◌, ◌≡◌, refl, ap, ◌∙◌, ◌≢◌, true, false, List, [], ◌∷◌, ◌++◌, Option,
  none, some, ◌==◌, ltb, if◌then◌else◌, length, length-append, take-append, drop-append, All,
  All-append, Text, Bytes, from_be_bytes, be32, arith, append_assoc, append-nil,
}
use terracotta_ffi.Base.Utf8.{encode, decode, is_scalar, decode-encode, encode-append, encode_char}
use terracotta_ffi.Scaffolding.{
  PacketResponse, ok, fail, HandlerResult, Handler, read_exact, split_once, splitn, header_room,
  find_handler, status_and_buffer, frame, read_request, handle_connection, encode_request,
  read_response, accept_ok, call,
}

from_be_bytes-be32 : (n : ℕ) → n < 2 ^ 32 → from_be_bytes 0 (be32 n) ≡ n
from_be_bytes-be32 n h = omega arith

read_exact-append :
    (n : ℕ) (xs ys : Bytes) → length xs ≡ n → read_exact n (xs ++ ys) ≡ some (xs, ys)
unfolding read_exact
read_exact-append n xs ys e = rw (← e) (
    let enough : ltb (length (xs ++ ys)) (length xs) ≡ false =
      ground (arith, length-append xs ys) in
    rw (enough, take-append xs ys, drop-append xs ys))

abbrev pub HasNoColon : Text → Type 0
HasNoColon = All (λ c. c ≢ b':')

split_once-colon : (s rest : Text) → HasNoColon s → split_once (s ++ b':' ∷ rest) ≡ (s, some rest)
unfolding split_once
split_once-colon [] rest h = refl
split_once-colon (c ∷ s) rest h =
    let t : (c == b':') ≡ false = ground arith in rw (t, split_once-colon s rest h.1)

split_once-none : (s : Text) → HasNoColon s → split_once s ≡ (s, none)
unfolding split_once
split_once-none [] h = refl
split_once-none (c ∷ s) h =
    let t : (c == b':') ≡ false = ground arith in rw (t, split_once-none s h.1)

splitn-kind : (a b : Text) → HasNoColon a → HasNoColon b → splitn 3 (a ++ b':' ∷ b) ≡ a ∷ b ∷ []
unfolding splitn
splitn-kind a b ha hb = rw (split_once-colon a b ha, split_once-none b hb)

-- A kind that a client can send: characters without a colon, and a length that fits its byte.
pub record IsKind (namespace path : Text) : Type 0 where
  pub namespace_scalar : All (λ c. is_scalar c ≡ true) namespace
  pub path_scalar : All (λ c. is_scalar c ≡ true) path
  pub namespace_plain : HasNoColon namespace
  pub path_plain : HasNoColon path
  pub short : length (encode namespace) + length (encode path) + 1 < 256

encode-kind : (a b : Text) → encode a ++ b':' ∷ encode b ≡ encode (a ++ b':' ∷ b)
unfolding encode encode_char
encode-kind a b = rw (encode-append a (b':' ∷ b))

decode-kind :
    (a b : Text) → IsKind a b → decode (encode a ++ b':' ∷ encode b) ≡ some (a ++ b':' ∷ b)
decode-kind a b k = rw (encode-kind a b) (
    decode-encode (a ++ b':' ∷ b)
      (All-append (λ c. is_scalar c ≡ true) a (b':' ∷ b) k.namespace_scalar (refl, k.path_scalar)))

-- A request in four pieces: the length byte, the kind, the size and the body.
read_request-pieces :
    (n : ℕ) (kind size body rest : Bytes) {t a b : Text}
    → length kind ≡ n
    → decode kind ≡ some t
    → splitn 3 t ≡ a ∷ b ∷ []
    → length size ≡ 4
    → from_be_bytes 0 size ≡ length body
    → read_request (n ∷ (kind ++ (size ++ (body ++ rest)))) ≡ some (a, b, body, rest)
unfolding read_request
read_request-pieces n kind size body rest ek d s es eb =
    let one : from_be_bytes 0 (n ∷ []) ≡ n = omega arith in
    rw (
      read_exact-append 1 (n ∷ []) (kind ++ (size ++ (body ++ rest))) refl,
      one,
      read_exact-append n kind (size ++ (body ++ rest)) ek,
      d,
      s,
      read_exact-append 4 size (body ++ rest) es,
      eb,
      read_exact-append (length body) body rest refl,
    )

request-pieces :
    (a b : Text) (body rest : Bytes)
    → encode_request a b body ++ rest
      ≡ ((length (encode a) + length (encode b) + 1) % 256)
        ∷ ((encode a ++ b':' ∷ encode b) ++ (be32 (length body % 2 ^ 32) ++ (body ++ rest)))
unfolding encode_request
request-pieces a b body rest = simp append_assoc

-- The server reads the request that the client sent, for a kind that can be sent and a body that
-- fits its length field, and leaves what follows it on the stream.
pub read_request-encode_request :
    (namespace path : Text) (body rest : Bytes)
    → IsKind namespace path
    → length body < 2 ^ 32
    → read_request (encode_request namespace path body ++ rest) ≡ some (namespace, path, body, rest)
read_request-encode_request a b body rest k h = rw (request-pieces a b body rest) (
    read_request-pieces _ (encode a ++ b':' ∷ encode b) (be32 (length body % 2 ^ 32)) body rest
      (omega (arith, k.short, length-append (encode a) (b':' ∷ encode b))) (decode-kind a b k)
      (splitn-kind a b k.namespace_plain k.path_plain) refl
      (from_be_bytes-be32 (length body % 2 ^ 32) (omega arith) ∙ omega arith))

abbrev pub response_of : ℕ → Bytes → PacketResponse
response_of status body = if status == 0 then ok body else fail status body

-- The client reads the response that the server sent, for a body that fits its length field: its
-- status, and what the handler put behind the header. It leaves what follows on the stream.
pub read_response-frame :
    (status : ℕ) (body rest : Bytes)
    → length body < 2 ^ 32
    → read_response (frame status (header_room ++ body) ++ rest)
      ≡ some (response_of status body, rest)
unfolding read_response frame
read_response-frame status body rest h =
    let size : Bytes = be32 ((length (header_room ++ body) - 5) % 2 ^ 32) in
    let eb : from_be_bytes 0 size ≡ length body =
      from_be_bytes-be32 _ (omega arith) ∙ omega arith in
    rw (
      read_exact-append 5 (status ∷ size) (body ++ rest) refl,
      eb,
      read_exact-append (length body) body rest refl,
    )

accept_response :
    (status : ℕ) (body : Bytes)
    → accept_ok (some (response_of status body)) ≡ (if status == 0 then some body else none)
accept_response status body = ground arith

-- For a kind that can be sent, a body that fits its length field, and an answer behind a header
-- that fits its own, a call over the wire is the handler's own answer: the kind and the body reach
-- the handler that is registered for the kind, and the client gets what it put behind the header,
-- unless the status is not 0.
pub call_lem :
    {S : Type 0} (handlers : List (Handler S)) (s s' : S) (namespace path : Text) (body : Bytes)
    (result : HandlerResult) (status : ℕ) (answered : Bytes)
    → IsKind namespace path
    → length body < 2 ^ 32
    → find_handler handlers namespace path s body header_room ≡ (s', result)
    → status_and_buffer result ≡ some (status, header_room ++ answered)
    → length answered < 2 ^ 32
    → call handlers s namespace path body ≡ (s', (if status == 0 then some answered else none))
unfolding call handle_connection
call_lem handlers s s' a b body result status answered k h f st la =
    rw (handled, response) (ap (λ (o : Option Bytes). (s', o)) (accept_response status answered))
  where
    request : read_request (encode_request a b body) ≡ some (a, b, body, [])
    request =
        rw (append-nil (encode_request a b body)) at (read_request-encode_request a b body [] k h)

    handled :
        handle_connection handlers s (encode_request a b body)
        ≡ (s', some (frame status (header_room ++ answered), []))
    handled = rw (request, f, st, handle_connection)

    response :
        read_response (frame status (header_room ++ answered))
        ≡ some (response_of status answered, [])
    response =
        rw (append-nil (frame status (header_room ++ answered))) at
          (read_response-frame status answered [] la)
