-- ===== src/Examples/Flows.antt =====
-- A host flow and a guest flow that have the session to themselves.
use terracotta_ffi.Base.{ℕ, zero, suc, true, false, refl, List, [], ◌∷◌, none, some, codes, arith}
use terracotta_ffi.EasyTier.{full_cone}
use terracotta_ffi.EasyTier.Peers.{EasyTierMember}
use terracotta_ffi.Emitter.{Emitter, new_emitter}
use terracotta_ffi.Room.{create}
use terracotta_ffi.Session.{
  EasyTier, SessionStateId, host_scanning, guest_connecting, new_session, can_capture,
}
use terracotta_ffi.Flow.{default_motd}
use terracotta_ffi.Flow.Host.{host_profile}
use terracotta_ffi.Flow.Host.Run.{Hosts, run_host, run_host-Hosts}
use terracotta_ffi.Flow.Host.Run.{World as HostWorld}
use terracotta_ffi.Flow.Guest.{Round, first, fingerprint, local_profile, find_local, server_of}
use terracotta_ffi.Flow.Guest.Discovery.{advertised}
use terracotta_ffi.Flow.Guest.Run.Meets.{IsReachable, run_guest-IsConnected}
use terracotta_ffi.Protocols.{build_handlers}
use terracotta_ffi.Scaffolding.{call}
use terracotta_ffi.Examples.Wire.{env, ready}
use terracotta_ffi.Flow.Guest.Run.{World, run_guest}
use terracotta_ffi.Flow.Guest.Run.Phases.{Ends, Goes, IsRead}
use terracotta_ffi.Flow.Guest.Run.Ends.{IsHazard, IsConnected, run_guest-Ends}

abbrev process : EasyTier
process = record { process = 4711; rpc = 15888 }

-- The session after the first commit, which started a flow with the token 1.
abbrev started : SessionStateId → Emitter
started state = record (new_emitter (record { public_nodes = []; data_dir = []; motd = none })) {
  session = record new_session { state = state; index = 1 };
}

-- The scanner finds nothing at first, and then two worlds.
abbrev host_world : HostWorld
host_world = record {
  looks = [] ∷ (25565 ∷ 25566 ∷ []) ∷ [];
  easytier = process;
  machine_id = some (codes "a0");
  vendor = codes "Conic";
  now = 1000;
}

run_host-Hosts_example :
    Hosts process
      (some 25565)
      1000
      (host_profile (some (codes "a0")) none (codes "Conic"))
      (run_host host_world (create []) none (started host_scanning) 1)
unfolding new_session can_capture new_emitter
run_host-Hosts_example =
    run_host-Hosts host_world (create []) none (started host_scanning) 1 (omega arith) refl refl

abbrev here : EasyTierMember
here = record { hostname = codes "guest"; address = none; is_local = true; nat = full_cone }

abbrev there : EasyTierMember
there = record {
  hostname = codes "scaffolding-mc-server-40000";
  address = some (record { a = 10; b = 144; c = 144; d = 1 });
  is_local = false;
  nat = full_cone;
}

abbrev no_look : Round
no_look = record { alive = λ et. true; players = none; local_port = 0; forwarded = false }

-- The peer list is there from the second round on.
abbrev look : List EasyTierMember → ℕ → Round
look players zero = no_look
look players (suc i) = record {
  alive = λ et. true;
  players = some players;
  local_port = 30000;
  forwarded = true;
}

-- The host is found in the second round and answers in the first.
abbrev guest_world : World
guest_world = record {
  easytier = process;
  rounds = look (here ∷ there ∷ []);
  handshakes = λ i. record { alive = λ et. true; pong = some fingerprint };
  server_port = some (99 ∷ 221 ∷ []);
  specific = λ port. none;
  fallback = 35782;
  forwarded = λ forwards. true;
  machine_id = some (codes "b1");
  vendor = codes "Conic";
  now = 2000;
}

run_guest-Ends_example :
    Ends
      (IsHazard guest_world)
      (λ e t.
        (p : ℕ) × IsRead (some (99 ∷ 221 ∷ [])) p
        × IsConnected 35782 default_motd 2000
            (local_profile (some (codes "b1")) none (codes "Conic"))
            e
            t)
      (run_guest guest_world none none (started guest_connecting) 1)
unfolding new_session can_capture
run_guest-Ends_example =
    run_guest-Ends guest_world none none (started guest_connecting) 1
      (record { sharing_le = omega arith; index_lt = omega arith }) (omega arith) refl

-- The host of `ready` is found in the second round, and its handlers answer. Its Minecraft port is taken
-- on the guest's machine.
abbrev meeting_world : World
meeting_world = record guest_world {
  rounds =
      look (here ∷ advertised 40000 (record { a = 10; b = 144; c = 144; d = 1 }) full_cone ∷ []);
  handshakes = λ i. record {
    alive = λ et. true;
    pong = (call (build_handlers env) ready (codes "c") (codes "ping") fingerprint).1;
  };
  server_port = (call (build_handlers env) ready (codes "c") (codes "server_port") []).1;
}

meeting_world-IsReachable :
    IsReachable meeting_world env ready (record { a = 10; b = 144; c = 144; d = 1 }) 25565
unfolding find_local server_of first
meeting_world-IsReachable = record {
  early = no_look ∷ [];
  found = _;
  later = _;
  rounds_eq = refl;
  all_early = ((refl, refl), tt);
  is_found = record {
    before = here ∷ [];
    after = [];
    port = 40000;
    nat = full_cone;
    own_nat = full_cone;
    alive = refl;
    players = refl;
    known = refl;
    alone = (refl, tt);
    port_lt = omega arith;
    forwarded = refl;
  };
  ponged = refl;
  answered = refl;
  ready = refl;
  at_port = refl;
  p_lt = omega arith;
  forwards = refl;
}

run_guest-IsConnected_example :
    Goes
      (IsConnected 35782 default_motd 2000 (local_profile (some (codes "b1")) none (codes "Conic")))
      (run_guest meeting_world none none (started guest_connecting) 1)
unfolding new_session can_capture
run_guest-IsConnected_example =
    run_guest-IsConnected meeting_world env ready (record { a = 10; b = 144; c = 144; d = 1 }) 25565
      none none (started guest_connecting) 1 meeting_world-IsReachable
      (record { sharing_le = omega arith; index_lt = omega arith }) (omega arith) refl
