-- ===== src/Scaffolding.antt =====
-- The scaffolding protocol: src/scaffolding/mod.rs, server.rs and client.rs. A socket is the list of
-- the bytes that its peer has sent; writing to it succeeds.
pub mod Exchange
pub mod Serving
pub mod Session
use terracotta_ffi.Base.{
  ℕ, zero, suc, ◌+◌, ◌-◌, ◌%◌, ◌^◌, Bool, true, false, ◌&&◌, List, [], ◌∷◌, ◌++◌, Option, none,
  some, ◌==◌, ltb, if◌then◌else◌, length, take, drop, get_or, replicate, Text, Bytes, codes,
  text_eq, from_be_bytes, be32,
}
use mathlib.Core.Option
use terracotta_ffi.Base.Utf8.{encode, decode}

pub data PacketResponse : Type 0 where
  ok : Bytes → PacketResponse
  fail : ℕ → Bytes → PacketResponse

-- `io::Result<PacketResponse>`; an error is known by its `Debug` text. A panic ends the thread of the
-- connection, and in a release build the process.
pub data HandlerResult : Type 0 where
  answer : PacketResponse → HandlerResult
  error : Bytes → HandlerResult
  panicked : HandlerResult

-- A handler's closure, over the state that it shares.
pub record Handler (S : Type 0) : Type 0 where
  pub namespace : Text
  pub path : Text
  pub handle : S → Bytes → Bytes → S × HandlerResult

-- `read_exact`: `none` is an error, and the connection is closed.
unfoldable pub read_exact : ℕ → Bytes → Option (Bytes × Bytes)
read_exact n stream = if ltb (length stream) n then none else some (take n stream, drop n stream)

infixl 5 ◌>>=◌
abbrev ◌>>=◌ {ℓ κ} : {A : Type ℓ} {B : Type κ} → Option A → (A → Option B) → Option B
none >>= f = none
some a >>= f = f a

-- The text before the first colon, and the text after it.
unfoldable pub split_once : Text → Text × Option Text
split_once [] = ([], none)
split_once (c ∷ s) =
    let (front, back) = split_once s in if c == b':' then ([], some s) else (c ∷ front, back)

-- `splitn(n, ':')` for n > 0.
unfoldable pub splitn : ℕ → Text → List Text
unfolding split_once
splitn zero s = []
splitn (suc zero) s = s ∷ []
splitn (suc (suc n)) s =
    let (front, back) = split_once s in
    front ∷ elim back [ none ↦ [] | some rest ↦ splitn (suc n) rest ]

abbrev pub two_parts : List Text → Option (Text × Text)
two_parts (a ∷ b ∷ []) = some (a, b)
two_parts _ = none

-- The response buffer that `handle_connection` hands out: room for the header.
abbrev pub header_room : Bytes
header_room = replicate 5 0

unfoldable pub default_handle : {S : Type 0} → S → Bytes → Bytes → S × HandlerResult
default_handle s body response =
    (s, answer (fail 255 (response ++ codes "Requested protocol hasn't been implemented.")))

module _ {S : Type 0} where
  -- `handlers.iter().find(…)`, or the default.
  unfoldable pub find_handler :
      List (Handler S) → Text → Text → S → Bytes → Bytes → S × HandlerResult
  find_handler [] namespace path = default_handle
  find_handler (h ∷ hs) namespace path =
      if text_eq namespace h.namespace && text_eq path h.path
      then h.handle
      else find_handler hs namespace path

-- The status and the response buffer, from what the handler gave.
abbrev pub status_and_buffer : HandlerResult → Option (ℕ × Bytes)
status_and_buffer (answer (ok buffer)) = some (0, buffer)
status_and_buffer (answer (fail status buffer)) = some (status, buffer)
status_and_buffer (error message) = some (255, header_room ++ message)
status_and_buffer panicked = none

-- The header written over the first five bytes of a buffer that holds them.
unfoldable pub frame : ℕ → Bytes → Bytes
frame status buffer = status ∷ be32 ((length buffer - 5) % 2 ^ 32) ++ drop 5 buffer

-- One request: its kind and body are read off the stream, and the response is written. `none` closes
-- the connection before any handler runs.
unfoldable pub read_request : Bytes → Option (Text × Text × Bytes × Bytes)
read_request stream = do
  (size, stream) ← read_exact 1 stream
  (kind, stream) ← read_exact (from_be_bytes 0 size) stream
  kind ← decode kind
  (namespace, path) ← two_parts (splitn 3 kind)
  (size, stream) ← read_exact 4 stream
  (body, stream) ← read_exact (from_be_bytes 0 size) stream
  some (namespace, path, body, stream)

-- The response bytes and the rest of the stream.
unfoldable pub handle_connection :
    {S : Type 0} → List (Handler S) → S → Bytes → S × Option (Bytes × Bytes)
handle_connection handlers s stream = elim (read_request stream) [
  | none ↦ (s, none)
  | some (namespace, path, body, rest) ↦
      let (s', result) = find_handler handlers namespace path s body header_room in
      (
        s',
        elim (status_and_buffer result) [
          | none ↦ none
          | some (status, buffer) ↦ some (frame status buffer, rest)
        ],
      )
]

-- `send` of the client: what it puts on the wire, for an encoder that appends `body`.
unfoldable pub encode_request : Text → Text → Bytes → Bytes
encode_request namespace path body =
    let length_byte = (length (encode namespace) + length (encode path) + 1) % 256 in
    length_byte
    ∷ (encode namespace ++ b':' ∷ (encode path ++ (be32 (length body % 2 ^ 32) ++ body)))

-- The client's thread: a response read off the stream.
unfoldable pub read_response : Bytes → Option (PacketResponse × Bytes)
read_response stream = do
  (header, stream) ← read_exact 5 stream
  (body, stream) ← read_exact (from_be_bytes 0 (drop 1 header)) stream
  some (if get_or header 0 0 == 0 then ok body else fail (get_or header 0 0) body, stream)

-- What `send_sync` makes of it: a failure is no answer.
abbrev pub accept_ok : Option PacketResponse → Option Bytes
accept_ok none = none
accept_ok (some (ok body)) = some body
accept_ok (some (fail status body)) = none

-- `send_sync` against a server on the other end of the connection.
unfoldable pub call : {S : Type 0} → List (Handler S) → S → Text → Text → Bytes → S × Option Bytes
call handlers s namespace path body =
    let (s', sent) = handle_connection handlers s (encode_request namespace path body) in
    (
      s',
      elim sent [
        | none ↦ none
        | some (bytes, rest) ↦ accept_ok (Option.map (λ r. r.0) (read_response bytes))
      ],
    )
