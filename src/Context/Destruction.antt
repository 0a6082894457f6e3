-- ===== src/Context/Destruction.antt =====
-- `destroy` of src/context.rs with the other threads: the command thread, other callers and the writers
-- of the session may act between any two of its actions.
pub mod Ending
use terracotta_ffi.Base.{
  ◌≡◌, refl, ap, inl, inr, Bool, true, false, ◌||◌, List, [], ◌∷◌, ◌++◌, if◌then◌else◌, arith,
  Bool-cases,
}
use terracotta_ffi.Emitter.{Emitter, is_waiting, reset_to_waiting_quietly}
use terracotta_ffi.Context.{
  Command, create_room, join_room, set_waiting, shutdown, Env, Task, Context, handle_command,
  submit, DestroyAction, reset_session, stop_server, raise_flag, send_shutdown, act,
  destroy_actions,
}

-- The context with its command thread: whether the thread is in the `recv` of its loop or before it,
-- whether it has ended, and the flows it has started.
pub record Threads : Type 0 where
  pub context : Context
  pub receiving : Bool
  pub ended : Bool
  pub started : List Task

-- The thread in `recv`: it waits on an empty channel, ends on the flag, and else handles the command.
unfoldable pub receive_command : Env → Threads → Threads
unfolding handle_command
receive_command env t = elim t.context.commands [
  | [] ↦ t
  | c ∷ cs ↦
      let context = record t.context { commands = cs } in
      let (e, started, stop) = handle_command env context.emitter c in
      if context.emitter.shutdown then record t { context = context; ended = true } else record {
        context = record context { emitter = e };
        receiving = false;
        ended = stop;
        started = t.started ++ started;
      }
]

-- The loop of `run_main`: the flag is read before `recv`, too.
unfoldable pub take_turn : Env → Threads → Threads
unfolding receive_command
take_turn env t =
    if t.ended
    then t
    else if t.receiving
    then receive_command env t
    else if t.context.emitter.shutdown
    then record t { ended = true }
    else record t { receiving = true }

-- Who acts next: `destroy` makes its next action, the command thread takes a turn, another caller sends
-- a command, or any other thread writes to the emitter, whose flag only `destroy` raises.
pub data Turn : Type 0 where
  destroyer : Turn
  command_thread : Env → Turn
  caller : Command → Turn
  writer : (f : Emitter → Emitter) → ((e : Emitter) → (f e).shutdown ≡ e.shutdown) → Turn

-- The actions that `destroy` has still to make, and the threads.
abbrev pub Progress : Type 0
Progress = List DestroyAction × Threads

abbrev pub take_action : Progress → Progress
take_action ([], t) = ([], t)
take_action (a ∷ actions, t) = (actions, record t { context = act a t.context })

unfoldable pub step : Turn → Progress → Progress
unfolding take_turn act submit
step destroyer p = take_action p
step (command_thread env) p = (p.0, take_turn env p.1)
step (caller c) p = (p.0, record p.1 { context = submit p.1.context c })
step (writer f keeps) p =
    (p.0, record p.1 { context = record p.1.context { emitter = f p.1.context.emitter } })

unfoldable pub interleave : List Turn → Progress → Progress
unfolding step
interleave [] p = p
interleave (turn ∷ turns) p = interleave turns (step turn p)
