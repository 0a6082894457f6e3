-- ===== src/Examples/Commands.antt =====
-- Commands in the waiting state and outside it.
use terracotta_ffi.Base.{◌⊎◌, [], ◌∷◌, none, some, arith, codes, replicate}
use terracotta_ffi.Session.{host_scanning, new_session}
use terracotta_ffi.Emitter.{Emitter, new_emitter}
use terracotta_ffi.Context.{Env, create_room, set_waiting, Role, room_or_new, handle_command}
use terracotta_ffi.Context.Commands.{Answer, create_room-Answer}
use terracotta_ffi.Flow.Exclusive.Refines.{Stays, Moves, handle_command-Moves}

abbrev env : Env
env = record { random = replicate 16 7; debug = λ o. codes "None" }

abbrev fresh : Emitter
fresh = new_emitter (record { public_nodes = []; data_dir = codes "/tmp"; motd = none })

abbrev hosting : Emitter
hosting = record fresh { session = record new_session { state = host_scanning; index = 1 } }

create_room-Answer_example :
    Answer fresh Role.host host_scanning
      (room_or_new env none)
      (handle_command env fresh (create_room (some (codes "Alex")) none []))
unfolding new_emitter new_session
create_room-Answer_example =
    create_room-Answer env fresh (some (codes "Alex")) none [] (omega arith)

handle_command-Moves_example :
    Stays hosting (handle_command env hosting set_waiting)
    ⊎ Moves hosting (1 ∷ []) (handle_command env hosting set_waiting)
handle_command-Moves_example = handle_command-Moves env hosting (1 ∷ []) set_waiting
