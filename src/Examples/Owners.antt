-- ===== src/Examples/Owners.antt =====
-- The EasyTier processes of a context.
use terracotta_ffi.Base.{◌≡◌, refl, true, [], ◌∷◌, none, replicate}
use terracotta_ffi.Session.{
  EasyTier, new_session, commit, reset_to_waiting as session_reset_to_waiting, can_capture,
}
use terracotta_ffi.Emitter.{
  ContextConfig, new_emitter, emit, transition, reset_to_waiting, reset_to_waiting_quietly,
}
use terracotta_ffi.Context.{Env, create_room, set_waiting, handle_command, open_room, start_flow}
use terracotta_ffi.Flow.Guest.{start_guest}
use terracotta_ffi.Flow.Processes.{
  create_process, after_transition, after_reset, after_command, drop_held, System, Reach, launch,
  joined, handled, here, next,
}
use terracotta_ffi.Flow.Processes.Keeping.{IsKept}
use terracotta_ffi.Flow.Processes.Orphans.{initial, Reach-IsKept, idle-running}

abbrev config : ContextConfig
config = record { public_nodes = []; data_dir = []; motd = none }

abbrev env : Env
env = record { random = replicate 16 7; debug = λ s. [] }

abbrev easytier : EasyTier
easytier = record { process = 7; rpc = 30000 }

-- A room is opened, and its flow creates an EasyTier.
abbrev scanning : System
scanning = record (initial config 7) {
  emitter = (handle_command env (initial config 7).emitter (create_room none none [])).0;
}

abbrev launched : System
launched = record scanning {
  machine = record { running = 7 ∷ []; exited = []; next_pid = 8 };
  launched = easytier ∷ [];
}

-- The caller sets the session to wait, and only then the flow comes to its transition.
abbrev reset : System
reset = record launched { emitter = (handle_command env launched.emitter set_waiting).0 }

abbrev refused : System
refused =
    let (e, token) = start_guest reset.emitter 1 easytier in
    record {
      machine = after_transition token easytier reset.emitter.session.easytier reset.machine;
      emitter = e;
      launched = [];
    }

refused-Reach : Reach (initial config 7) refused
unfolding create_process after_command after_reset new_emitter new_session handle_command open_room
    start_flow emit commit reset_to_waiting reset_to_waiting_quietly drop_held
    session_reset_to_waiting
refused-Reach =
    next
      (next
        (next (next here (handled env (create_room none none []) refl)) (
          launch (record { is_ready = true; has_exe = true; spawns = true; rpc = 30000 }) _ easytier
            refl refl))
        (handled env set_waiting refl))
      (joined [] [] easytier 1 refl refl)

Reach-IsKept_example : IsKept refused
Reach-IsKept_example = Reach-IsKept config 7 refused-Reach

idle-running_example : refused.machine.running ≡ []
unfolding create_process after_command after_reset new_emitter new_session handle_command open_room
    start_flow emit commit reset_to_waiting reset_to_waiting_quietly session_reset_to_waiting
    start_guest transition can_capture
idle-running_example = idle-running config 7 refused refused-Reach refl refl
