-- ===== src/Examples/Wire.antt =====
-- Requests and responses.
use terracotta_ffi.Base.{◌≡◌, refl, true, [], ◌∷◌, none, some, codes, arith}
use terracotta_ffi.Json.{Items, arr}
use terracotta_ffi.Emitter.{Emitter, new_emitter}
use terracotta_ffi.Session.{host_ok, new_session}
use terracotta_ffi.Scaffolding.{call}
use terracotta_ffi.Protocols.{Env, list_profiles, build_handlers}
use terracotta_ffi.Flow.Guest.Refresh.Exchange.{call-is_listed}
use terracotta_ffi.Protocols.Pinged.{ping_request}
use terracotta_ffi.Profile.{Profile, local}
use terracotta_ffi.Flow.Guest.Refresh.Entry.{is_listed}
use terracotta_ffi.Flow.Guest.Refresh.Reading.{read_profiles, sort}
use terracotta_ffi.Flow.Guest.Refresh.Accepted.{guest_view}
use terracotta_ffi.Examples.Players.{alex, steve, two_players, two_players-IsRoster}

abbrev pub env : Env
env = record {
  codec = record { to_writer = λ v. codes "[]"; from_slice = λ b. none; from_lossy = λ b. none };
  now = 1000;
  debug = λ e. codes "error";
}

abbrev pub ready : Emitter
ready = record (new_emitter (record { public_nodes = []; data_dir = []; motd = none })) {
  session = record new_session { state = host_ok; port = some 25565; profiles = two_players };
}

abbrev guest_profile : Profile
guest_profile = record {
  machine_id = codes "c3";
  name = codes "Cleo";
  vendor = codes "Conic";
  kind = local;
}

-- A codec that knows the guest's request.
abbrev pinged_env : Env
pinged_env = record env {
  codec = record {
    to_writer = λ v. codes "{}";
    from_slice = λ b. none;
    from_lossy = λ b. some (ping_request guest_profile);
  };
}

-- Cleo is the third player of the list, and the guest's view of it has all of them.
call-is_listed_example :
    let ps =
      (call
        (build_handlers pinged_env)
        ready
        (codes "c")
        (codes "player_ping")
        (codes "{}")).0.session.profiles in
    (is_listed (codes "c3") ps ≡ true)
    × ((items : Items) × (list_profiles ps ≡ some items)
        × (read_profiles guest_profile (arr items) ≡ some (sort (guest_view guest_profile ps))))
call-is_listed_example =
    call-is_listed pinged_env ready guest_profile 0 alex ((5000, steve) ∷ []) refl
      two_players-IsRoster refl refl (omega arith)
