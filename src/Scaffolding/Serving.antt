-- ===== src/Scaffolding/Serving.antt =====
-- The threads of src/scaffolding/server.rs: the loop that accepts connections, and the loop of a
-- connection. Between two requests of a connection the other threads change the state that the handlers
-- share, so that each round has a function which is what they have done before it.
pub mod Pipelined
pub mod Ending
use terracotta_ffi.Base.{
  ℕ, Bool, true, false, List, [], ◌∷◌, ◌++◌, Option, none, some, if◌then◌else◌, Text, Bytes,
}
use terracotta_ffi.Scaffolding.{Handler, handle_connection}

module _ {S : Type 0} where
  -- After a request the thread ends, or writes the response and goes on with `next`.
  abbrev pub after_request :
      (S → Bytes → S × List Bytes × Bool) → S × Option (Bytes × Bytes) → S × List Bytes × Bool
  after_request next (s, none) = (s, [], true)
  after_request next (s, some (response, rest)) =
      let (t, responses, ended) = next s rest in (t, response ∷ responses, ended)

  -- The responses that the thread of a connection writes, in order, and whether the thread has ended.
  unfoldable pub serve : List (Handler S) → List (S → S) → S → Bytes → S × List Bytes × Bool
  serve handlers [] s stream = (s, [], false)
  serve handlers (others ∷ rounds) s stream =
      after_request (λ t rest. serve handlers rounds t rest)
        (handle_connection handlers (others s) stream)

-- What `start` returns: the flag that the accept loop reads, and the port.
pub record ServerHandle : Type 0 where
  pub shutdown : Bool
  pub port : ℕ

-- `start`: the socket is bound and listens, and the system says on which port, or there is an error.
unfoldable pub start_server : Option ℕ → Option (ℕ × ServerHandle)
start_server none = none
start_server (some port) = some (port, record { shutdown = false; port = port })

-- `ServerHandle::shutdown`; the connection that it makes only ends a call of `accept`.
unfoldable pub shutdown_server : ServerHandle → ServerHandle
shutdown_server h = record h { shutdown = true }

-- What `accept` gives: a connection, with the bytes that its peer sends, or an error.
pub data Accepted : Type 0 where
  connection : Bytes → Accepted
  timed_out : Accepted
  broken : Accepted

-- One round of the accept loop: the shutdown flag as it is read before and after the call of `accept`.
pub record Round : Type 0 where
  pub stopped_before : Bool
  pub accepted : Accepted
  pub stopped_after : Bool

-- The connections for which a thread is started, and whether the loop has ended.
unfoldable pub accept_loop : List Round → List Bytes × Bool
accept_loop [] = ([], false)
accept_loop (r ∷ rs) =
    let (started, ended) = accept_loop rs in
    if r.stopped_before then ([], true) else (elim r.accepted [
      | connection stream ↦ (if r.stopped_after then ([], true) else (stream ∷ started, ended))
      | timed_out ↦ (started, ended)
      | broken ↦ (started, ended)
    ])
