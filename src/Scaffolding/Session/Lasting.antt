-- ===== src/Scaffolding/Session/Lasting.antt =====
-- A client that leaves a session at the first missing answer never sends on a session without a thread.
use terracotta_ffi.Base.{
  ◌≡◌, refl, if◌then◌else◌, Bool, true, false, List, [], ◌∷◌, Option, none, some, All, Bytes,
}
use terracotta_ffi.Scaffolding.{PacketResponse, ok, fail, accept_ok, encode_request}
use terracotta_ffi.Scaffolding.Serving.Pipelined.{Request}
use terracotta_ffi.Scaffolding.Session.{
  ClientSession, Sent, got, unanswered, send_panicked, sent_of, open_session, handle_packet,
  after_packet, take_answer, send_sync, go_on, converse,
}

-- The call has not panicked.
unfoldable pub is_sent : Sent → Bool
is_sent (got body) = true
is_sent unanswered = true
is_sent send_panicked = false

-- A call that has not panicked, and after an answer a session with its thread.
abbrev IsLasting : {T : Type 0} → T × ClientSession × Sent → Type 0
IsLasting (t, c, got body) = c.has_thread ≡ true
IsLasting (t, c, unanswered) = Unit
IsLasting (t, c, send_panicked) = ⊥

module _ {T : Type 0} where
  after_packet-IsLasting :
      (t : T) (c : ClientSession) (read : Option (PacketResponse × Bytes))
      → c.has_thread ≡ true
      → IsLasting (t, (after_packet c read).0, sent_of (accept_ok (after_packet c read).1))
  unfolding after_packet
  after_packet-IsLasting t c none h = tt
  after_packet-IsLasting t c (some (ok body, rest)) h = h
  after_packet-IsLasting t c (some (fail status body, rest)) h = tt

  go_on-is_sent :
      (next : T → ClientSession → T × List Sent) (x : T × ClientSession × Sent)
      → ((t : T) (c : ClientSession)
          → c.has_thread ≡ true
          → All (λ y. is_sent y ≡ true) (next t c).1)
      → IsLasting x
      → All (λ y. is_sent y ≡ true) (go_on next x).1
  unfolding go_on is_sent
  go_on-is_sent next (t, c, got body) later h = (refl, later t c h)
  go_on-is_sent next (t, c, unanswered) later h = (refl, tt)
  go_on-is_sent next (t, c, send_panicked) later h = elim h [ ]

  with_thread :
      (b : Bool)
      → b ≡ true
      → (x y : T × ClientSession × Sent) → IsLasting x
      → IsLasting (if b then x else y)
  with_thread b e x y h = rw e h

  send_sync-IsLasting :
      (peer : T → Bytes → T × Option Bytes) (t : T) (c : ClientSession) (r : Request)
      → c.has_thread ≡ true
      → IsLasting (send_sync peer t c r)
  unfolding send_sync take_answer
  send_sync-IsLasting peer t c r h =
      let answered = peer t (encode_request r.namespace r.path r.body) in
      with_thread c.has_thread h (take_answer c answered) (t, c, send_panicked)
        (after_packet-IsLasting answered.0 c (handle_packet c answered.1) h)

  converse_sends :
      (peer : T → Bytes → T × Option Bytes) (t : T) (c : ClientSession)
      (calls : List ((T → T) × Request))
      → c.has_thread ≡ true
      → All (λ x. is_sent x ≡ true) (converse peer t c calls).1
  unfolding converse
  converse_sends peer t c [] h = tt
  converse_sends peer t c ((others, r) ∷ calls) h =
      go_on-is_sent (λ t' c'. converse peer t' c' calls) (send_sync peer (others t) c r)
        (λ t' c' h'. converse_sends peer t' c' calls h') (send_sync-IsLasting peer (others t) c r h)

  -- Whatever the peer sends, or fails to send, a client that leaves a session at the first call without
  -- an answer never comes to the panic of a send on a session whose thread has ended.
  pub converse-open_session :
      (peer : T → Bytes → T × Option Bytes) (t : T) (calls : List ((T → T) × Request))
      → All (λ x. is_sent x ≡ true) (converse peer t open_session calls).1
  unfolding open_session
  converse-open_session peer t calls = converse_sends peer t open_session calls refl
