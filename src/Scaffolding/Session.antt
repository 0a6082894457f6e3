-- ===== src/Scaffolding/Session.antt =====
-- `ClientSession` of src/scaffolding/client.rs: a connection that serves one request after the other.
-- Its thread waits for a packet on a channel, writes it, and reads the response. The peer is a function
-- of its own state and of the bytes that are written.
pub mod Conversation
pub mod Lasting
use terracotta_ffi.Base.{
  ℕ, Bool, true, false, List, [], ◌∷◌, ◌++◌, Option, none, some, if◌then◌else◌, Text, Bytes,
}
use terracotta_ffi.Scaffolding.{PacketResponse, encode_request, read_response, accept_ok}
use terracotta_ffi.Scaffolding.Serving.Pipelined.{Request}

-- The bytes that have come and are not read yet, the cell `alive` with its thread's report, and whether
-- the thread still holds the receiver of the channel.
pub record ClientSession : Type 0 where
  pub received : Bytes
  pub is_closed : Bool
  pub has_thread : Bool

unfoldable pub open_session : ClientSession
open_session = record { received = []; is_closed = false; has_thread = true }

-- What `send_sync` comes to: the data of a response, no answer, or the panic of `unwrap` on a channel
-- that has no receiver.
pub data Sent : Type 0 where
  got : Bytes → Sent
  unanswered : Sent
  send_panicked : Sent

abbrev pub sent_of : Option Bytes → Sent
sent_of none = unanswered
sent_of (some body) = got body

-- `handle_packet` after the write: what the peer has sent in time, or `none` when the write fails.
unfoldable pub handle_packet : ClientSession → Option Bytes → Option (PacketResponse × Bytes)
handle_packet c none = none
handle_packet c (some bytes) = read_response (c.received ++ bytes)

-- The thread's loop after a packet. An error sets the cell and ends the thread.
unfoldable pub after_packet :
    ClientSession → Option (PacketResponse × Bytes) → ClientSession × Option PacketResponse
after_packet c none = (record { received = c.received; is_closed = true; has_thread = false }, none)
after_packet c (some (response, rest)) =
    (record { received = rest; is_closed = c.is_closed; has_thread = c.has_thread }, some response)

module _ {T : Type 0} where
  unfoldable pub take_answer : ClientSession → T × Option Bytes → T × ClientSession × Sent
  take_answer c (t, answered) =
      let (c', response) = after_packet c (handle_packet c answered) in
      (t, c', sent_of (accept_ok response))

  unfoldable pub send_sync :
      (T → Bytes → T × Option Bytes) → T → ClientSession → Request → T × ClientSession × Sent
  send_sync peer t c r =
      if c.has_thread
      then take_answer c (peer t (encode_request r.namespace r.path r.body))
      else (t, c, send_panicked)

  -- A client that goes on after an answer and leaves the session at the first call without one, as
  -- both users of a session in `run_guest` do.
  unfoldable pub go_on :
      (T → ClientSession → T × List Sent) → T × ClientSession × Sent → T × List Sent
  go_on next (t, c, got body) = let (t', later) = next t c in (t', got body ∷ later)
  go_on next (t, c, unanswered) = (t, unanswered ∷ [])
  go_on next (t, c, send_panicked) = (t, send_panicked ∷ [])

  -- The calls of such a client, each after what other threads have done to the peer's state.
  unfoldable pub converse :
      (T → Bytes → T × Option Bytes) → T → ClientSession → List ((T → T) × Request) → T × List Sent
  converse peer t c [] = (t, [])
  converse peer t c ((others, r) ∷ calls) =
      go_on (λ t' c'. converse peer t' c' calls) (send_sync peer (others t) c r)
