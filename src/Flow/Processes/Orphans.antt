-- ===== src/Flow/Processes/Orphans.antt =====
-- No EasyTier outlives its owner: the books of the processes stay in order whatever the threads do.
use terracotta_ffi.Base.{ℕ, ◌≡◌, refl, ap, List, [], ◌∷◌, arith, if◌then◌else◌}
use terracotta_ffi.Session.{
  waiting, host_scanning, guest_connecting, new_session,
  reset_to_waiting as session_reset_to_waiting,
}
use terracotta_ffi.Emitter.{
  Emitter, ContextConfig, new_emitter, emit, is_waiting, reset_to_waiting, reset_to_waiting_quietly,
}
use terracotta_ffi.Context.{
  Env, Command, create_room, join_room, set_waiting, shutdown, Role, room_or_new, handle_command,
}
use terracotta_ffi.Flow.Host.{finish_host}
use terracotta_ffi.Flow.Guest.{start_guest}
use terracotta_ffi.Flow.Processes.{
  after_command, System, Step, launch, hosted, joined, handled, destroyed, exit, write, Reach, here,
  next,
}
use terracotta_ffi.Flow.Processes.Accounts.{times, owns, holds, IsAccounted-same, exit-IsAccounted}
use terracotta_ffi.Flow.Processes.Keeping.{
  owned, IsKept, create_process-IsAccounted, finish_host-Delivers, start_guest-Delivers,
  deliver-IsKept, open_room-Leaves, write-IsKept, reset-IsKept,
}

reset_to_waiting_session :
    (e : Emitter)
    → (reset_to_waiting e).0.session
      ≡ (if is_waiting e.session.state then e.session else session_reset_to_waiting e.session)
unfolding reset_to_waiting emit
reset_to_waiting_session e = ground arith

reset_quietly_session :
    (e : Emitter)
    → (reset_to_waiting_quietly e).0.session
      ≡ (if is_waiting e.session.state then e.session else session_reset_to_waiting e.session)
unfolding reset_to_waiting_quietly
reset_quietly_session e = ground arith

handle_command-IsKept :
    (env : Env) (y : System) (c : Command)
    → IsKept y
    → IsKept (record y {
      machine = after_command c y.emitter y.machine;
      emitter = (handle_command env y.emitter c).0;
    })
unfolding after_command handle_command
handle_command-IsKept env y shutdown k = k
handle_command-IsKept env y set_waiting k =
    reset-IsKept y (reset_to_waiting y.emitter).0 (reset_to_waiting_session y.emitter) k
handle_command-IsKept env y (create_room name code nodes) k =
    write-IsKept y _
      (open_room-Leaves y.emitter Role.host host_scanning (env.debug code) (room_or_new env code)
        name nodes (λ h. cc))
      k
handle_command-IsKept env y (join_room code name nodes) k =
    write-IsKept y _
      (open_room-Leaves y.emitter Role.guest guest_connecting code _ name nodes (λ h. cc)) k

Step-IsKept : (y z : System) → Step y z → IsKept y → IsKept z
Step-IsKept y z (launch l m t made e) k = rw e (record {
  accounts =
      IsAccounted-same m (create_process-IsAccounted l y.machine m t (owned y) made k.accounts)
        (λ p. omega arith);
  idle = k.idle;
})
Step-IsKept y z (hosted before after t token room port now profile l e) k = rw e (
    deliver-IsKept y before after t (finish_host y.emitter token room t port now profile)
      (finish_host-Delivers y.emitter token room t port now profile) l k)
Step-IsKept y z (joined before after t token l e) k = rw e (
    deliver-IsKept y before after t (start_guest y.emitter token t)
      (start_guest-Delivers y.emitter token t) l k)
Step-IsKept y z (handled env c e) k = rw e (handle_command-IsKept env y c k)
Step-IsKept y z (destroyed e) k =
    rw e (reset-IsKept y (reset_to_waiting_quietly y.emitter).0 (reset_quietly_session y.emitter) k)
Step-IsKept y z (exit p e) k =
    rw e (record { accounts = exit-IsAccounted y.machine p k.accounts; idle = k.idle })
Step-IsKept y z (write e same active eq) k = rw eq (write-IsKept y e (same, active) k)

-- A context that has just been created, when no EasyTier runs.
abbrev pub initial : ContextConfig → ℕ → System
initial config pid = record {
  machine = record { running = []; exited = []; next_pid = pid };
  emitter = new_emitter config;
  launched = [];
}

-- Whatever the flows, the command thread, `destroy` and the processes do, a process id is owned by one
-- EasyTier at most; each EasyTier process that runs is owned by the session or by a flow that has not
-- given it to the session yet; one that is owned runs, unless it has ended of itself; and a session that
-- waits owns none.
pub Reach-IsKept :
    (config : ContextConfig) (pid : ℕ) {z : System} → Reach (initial config pid) z → IsKept z
unfolding new_emitter new_session
Reach-IsKept config pid here = record {
  accounts = record {
    fresh = λ p h. refl;
    single = λ p. omega arith;
    run_owned = λ p. omega arith;
    owned_run = λ p. omega arith;
  };
  idle = λ h. refl;
}
Reach-IsKept config pid (next r s) = Step-IsKept _ _ s (Reach-IsKept config pid r)

times-zero : (qs : List ℕ) → ((p : ℕ) → times p qs ≡ 0) → qs ≡ []
times-zero [] h = refl
times-zero (q ∷ qs) h = absurd (ground (arith, h q))

-- When the session waits, after `destroy` or a `SetWaiting`, and no flow is on its way with an EasyTier
-- of its own, no EasyTier runs.
pub idle-running :
    (config : ContextConfig) (pid : ℕ) (z : System)
    → Reach (initial config pid) z
    → z.emitter.session.state ≡ waiting
    → z.launched ≡ []
    → z.machine.running ≡ []
idle-running config pid z r w l =
    let k = Reach-IsKept config pid r in
    times-zero z.machine.running
      (λ p. omega (arith, k.accounts.run_owned p, ap (holds p) (k.idle w), ap (owns p) l))
