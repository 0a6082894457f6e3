-- ===== src/Examples/Calls.antt =====
-- Calls of the C interface.
use terracotta_ffi.Base.{◌≡◌, ◌⊎◌, true, false, [], none, some, codes}
use terracotta_ffi.Emitter.{new_emitter}
use terracotta_ffi.Context.{Context}
use terracotta_ffi.Ffi.Values.{invalid_handle, failed}
use terracotta_ffi.Ffi.{
  Handle, Env, terracotta_destroy, terracotta_configure, terracotta_create_room,
  terracotta_join_room, terracotta_set_waiting, terracotta_get_state, terracotta_poll_event,
}
use terracotta_ffi.Ffi.Calls.{Fails, Queues, HasRoom, destroyed-calls, terracotta_create_room_lem}

abbrev pub env : Env
env = record { default_dir = codes "/tmp"; unpacks = true; print = λ v. codes "{}"; port = 40000 }

abbrev pub context : Context
context = record {
  emitter = new_emitter (record { public_nodes = []; data_dir = codes "/tmp"; motd = none });
  commands = [];
  serving = true;
  joined = false;
  factory = some (codes "/tmp");
}

abbrev pub handle : Handle
handle = some (record { destroyed = false; context = some context })

destroyed-calls_example :
    let h = (terracotta_destroy handle).0 in
    (terracotta_configure env h none ≡ (h, invalid_handle))
    × (terracotta_create_room h none none ≡ (h, invalid_handle))
    × (terracotta_join_room h none none ≡ (h, invalid_handle))
    × (terracotta_set_waiting h ≡ (h, invalid_handle))
    × (terracotta_get_state env h true ≡ failed invalid_handle)
    × (terracotta_poll_event env h true ≡ (h, failed invalid_handle))
    × (terracotta_destroy h ≡ (h, none))
destroyed-calls_example = destroyed-calls env handle none none none true

terracotta_create_room_lem_example :
    let r = terracotta_create_room handle (some (codes "Alex")) none in
    Fails handle r ⊎ Queues handle r HasRoom
terracotta_create_room_lem_example = terracotta_create_room_lem handle (some (codes "Alex")) none
