-- ===== src/Context/Destruction/Ending.antt =====
-- However `destroy` is interleaved with the other threads, the command thread ends.
use terracotta_ffi.Base.{◌≡◌, Bool, true, false, ◌||◌, List, [], ◌∷◌}
use terracotta_ffi.Emitter.{Emitter}
use terracotta_ffi.Context.{
  Command, create_room, join_room, set_waiting, shutdown, Task, Context, DestroyAction,
  reset_session, stop_server, raise_flag, send_shutdown,
}
use terracotta_ffi.Context.Destruction.{Threads, Progress}

abbrev owes_flag : List DestroyAction → Bool
owes_flag [] = false
owes_flag (reset_session ∷ actions) = owes_flag actions
owes_flag (stop_server ∷ actions) = owes_flag actions
owes_flag (raise_flag ∷ actions) = true
owes_flag (send_shutdown ∷ actions) = owes_flag actions

abbrev owes_shutdown : List DestroyAction → Bool
owes_shutdown [] = false
owes_shutdown (reset_session ∷ actions) = owes_shutdown actions
owes_shutdown (stop_server ∷ actions) = owes_shutdown actions
owes_shutdown (raise_flag ∷ actions) = owes_shutdown actions
owes_shutdown (send_shutdown ∷ actions) = true

abbrev has_shutdown : List Command → Bool
has_shutdown [] = false
has_shutdown (shutdown ∷ cs) = true
has_shutdown (set_waiting ∷ cs) = has_shutdown cs
has_shutdown (create_room name code nodes ∷ cs) = has_shutdown cs
has_shutdown (join_room code name nodes ∷ cs) = has_shutdown cs

-- The flag is up, or `destroy` has still to raise it; and the thread has ended, or a shutdown command
-- is in the channel, or `destroy` has still to send it.
record IsEnding (p : Progress) : Type 0 where
  flag : (owes_flag p.0 || p.1.context.emitter.shutdown) ≡ true
  sent : (owes_shutdown p.0 || (p.1.ended || has_shutdown p.1.context.commands)) ≡ true

abbrev threads : Context → List Command → Bool → Bool → List Task → Threads
threads context cs receiving ended started = record {
  context = record context { commands = cs };
  receiving = receiving;
  ended = ended;
  started = started;
}
