-- ===== src/Examples/Sessions.antt =====
-- Sessions, tokens and the event queue.
use terracotta_ffi.Base.{
  ◌+◌, ◌≡◌, ◌≤◌, refl, List, [], ◌∷◌, ◌++◌, none, some, length, arith, codes, if◌then◌else◌,
}
use terracotta_ffi.Event.{guest_ready, player_left}
use terracotta_ffi.Session.{
  Session, EasyTier, host_scanning, host_starting, host_ok, guest_starting, guest_ok, tough,
  ping_host_fail, new_session, commit, can_capture,
}
use terracotta_ffi.Session.Tokens.{
  IsValid, exclusive, shared, apply_all, all_shared, can_capture-apply_all,
}
use terracotta_ffi.Emitter.{
  Emitter, new_emitter, transition, set_exception, mutate_shared, is_waiting,
}
use terracotta_ffi.Emitter.Queue.{Op, send, receive, run_ops, IsBounded, IsKept, run_ops_lem}
use terracotta_ffi.Emitter.Writes.{KeepsCounters}
use terracotta_ffi.Flow.Exclusive.{System, Reach, here, next, start, initial, live}
use terracotta_ffi.Flow.Exclusive.Invariant.{live-bound}
use terracotta_ffi.Flow.Exclusive.Refines.{IsTransition, IsKeeping, flow_writes-Step}
use terracotta_ffi.Profile.{Profile, local}
use terracotta_ffi.Flow.Host.{to_starting, to_host_ok}
use terracotta_ffi.Flow.Guest.{to_guest_starting, to_guest_ok}

-- A session that scans, after two commits of which the second was shared.
abbrev scanning : Session
scanning = record new_session { state = host_scanning; index = 2; sharing = 1 }

scanning-IsValid : IsValid scanning
scanning-IsValid = record { sharing_le = omega arith; index_lt = omega arith }

can_capture-apply_all_example :
    can_capture (apply_all scanning (shared ∷ exclusive ∷ [])) 1
    ≡ all_shared (shared ∷ exclusive ∷ [])
unfolding can_capture
can_capture-apply_all_example =
    can_capture-apply_all scanning 1 (shared ∷ exclusive ∷ []) scanning-IsValid (omega arith)
      (omega arith) refl

abbrev emitter : Emitter
emitter = record (new_emitter (record { public_nodes = []; data_dir = []; motd = none })) {
  session = scanning;
}

abbrev events : List Op
events = send (guest_ready []) ∷ receive ∷ send (player_left []) ∷ []

run_ops_lem_example :
    let (e', received) = run_ops emitter events in
    IsBounded e'
    × (length received + length e'.queue + e'.dropped ≡ 2)
    × IsKept (received ++ e'.queue) (guest_ready [] ∷ player_left [] ∷ [])
unfolding new_emitter
run_ops_lem_example = run_ops_lem emitter events (refl, omega arith) (omega arith)

to_starting-KeepsCounters : KeepsCounters (to_starting 25565)
to_starting-KeepsCounters s = (refl, refl)

-- A room is opened: the flow of token 1 may write.
abbrev opened : System
opened = record { session = commit (record new_session { state = host_scanning }); tokens = 1 ∷ [] }

opened-Reach : Reach initial opened
unfolding new_session commit
opened-Reach =
    next here
      (start host_scanning (λ s. s)
        (record { index_eq = λ s. refl; sharing_eq = λ s. refl; state_eq = λ s. refl }) refl
        (λ h. cc) refl refl)
      (omega arith)

live-bound_example :
    live opened.session opened.tokens ≤ (if is_waiting opened.session.state then 0 else 1)
live-bound_example = live-bound opened opened-Reach

abbrev process : EasyTier
process = record { process = 4711; rpc = 15888 }

abbrev player : Profile
player = record {
  machine_id = codes "a0";
  name = codes "Steve";
  vendor = codes "Conic";
  kind = local;
}

flow_writes-Step_example :
    IsTransition emitter (1 ∷ []) 0 1 host_starting (transition emitter 1 (to_starting 25565))
    × IsTransition emitter
        (1 ∷ [])
        0
        1
        host_ok
        (transition emitter 1 (to_host_ok process 25565 1000 player))
    × IsTransition emitter
        (1 ∷ [])
        0
        1
        guest_starting
        (transition emitter 1 (to_guest_starting process))
    × IsTransition emitter
        (1 ∷ [])
        0
        1
        guest_ok
        (transition emitter 1 (to_guest_ok 25565 (codes "LAN") 1000 player))
    × IsKeeping emitter (1 ∷ []) 1 (set_exception emitter 1 ping_host_fail)
    × IsKeeping emitter
        (1 ∷ [])
        1
        (mutate_shared emitter 1 (λ s. record s { difficulty = some tough }))
flow_writes-Step_example =
    flow_writes-Step emitter (1 ∷ []) 0 1 25565 1000 process player (codes "LAN") ping_host_fail
      tough refl
