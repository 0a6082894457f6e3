-- ===== src/Examples/Clients.antt =====
-- The example programs at work, the build for Linux, and the addresses of a machine.
use terracotta_ffi.Base.{
  ◌≡◌, refl, true, false, List, [], ◌∷◌, ◌++◌, Option, none, some, length, Text, Bytes, codes,
}
use terracotta_ffi.Base.Utf8.{decode, all_scalar_sound}
use terracotta_ffi.Emitter.{new_emitter, reset_to_waiting_quietly, emit}
use terracotta_ffi.Flow.{unwrap_or}
use terracotta_ffi.Room.{parse, create, from_value}
use terracotta_ffi.Session.{host_scanning, new_session, commit}
use terracotta_ffi.Context.{
  Context, create_room, join_room, set_waiting, destroy_actions, act, handle_command, open_room,
  start_flow, submit,
}
use terracotta_ffi.Context.{Env as CommandEnv}
use terracotta_ffi.Context.Destruction.{
  Threads, Turn, destroyer, command_thread, caller, step, interleave, receive_command, take_turn,
}
use terracotta_ffi.Ffi.{Env, put}
use terracotta_ffi.Client.Programs.{exited, running, guest_program}
use terracotta_ffi.Client.Programs.Ready.{ready, guest_program_lem}
use terracotta_ffi.Addresses.{IpAddr, v4, v6}

abbrev env : Env
env = record { default_dir = codes "/tmp"; unpacks = true; print = λ v. codes "{}"; port = 40000 }

abbrev lossy : Bytes → Text
lossy bytes = unwrap_or (decode bytes) []

abbrev fresh : Context
fresh = record {
  emitter = new_emitter (record { public_nodes = []; data_dir = codes "/tmp"; motd = none });
  commands = [];
  serving = true;
  joined = false;
  factory = some (codes "/tmp");
}

abbrev code : Text
code = codes "U/0000-0000-0000-0000"

guest_program_lem_example : guest_program env none (codes "/data") code ≡ elim (parse code) [
  | none ↦ exited (codes "error: invalid room code: " ++ code)
  | some _ ↦
      running
        (put (ready 40000 (codes "/data") (join_room code (some (codes "conic-example-guest")) [])))
        []
]
guest_program_lem_example =
    guest_program_lem (codes "/tmp") (λ v. codes "{}") 40000 none (codes "data") code b'/'
      (all_scalar_sound (codes "/data") refl) (all_scalar_sound code refl)

abbrev command_env : CommandEnv
command_env = record { random = []; debug = λ c. codes "None" }

-- A room command waits in the channel when `destroy` begins.
abbrev before : Threads
before = record {
  context = record fresh { commands = create_room none none [] ∷ [] };
  receiving = true;
  ended = false;
  started = [];
}

-- The command thread takes it between the reset of the session and the flag.
abbrev turns : List Turn
turns =
    destroyer
    ∷ command_thread command_env
    ∷ destroyer
    ∷ destroyer
    ∷ caller set_waiting
    ∷ destroyer
    ∷ []

abbrev after : Threads
after = (interleave turns (destroy_actions, before)).1

-- `destroy` has made its actions, and the session scans for a host flow that has started.
destroy_race_test :
    (after.context.emitter.session.state ≡ host_scanning) × (length after.started ≡ 1)
unfolding interleave step act take_turn receive_command handle_command open_room start_flow
    reset_to_waiting_quietly new_emitter new_session submit commit emit create from_value
destroy_race_test = (refl, refl)

abbrev networks : Option (List IpAddr)
networks = some (
    v4 (record { a = 10; b = 144; c = 144; d = 2 })
    ∷ v4 (record { a = 192; b = 168; c = 0; d = 2 })
    ∷ v6 1
    ∷ [])
