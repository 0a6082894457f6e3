-- ===== src/Examples/Suite/Contexts.antt =====
-- The unit tests of src/context.rs.
use terracotta_ffi.Base.{
  ℕ, zero, suc, ◌*◌, ◌≡◌, refl, Bool, true, false, ◌&&◌, not, [], Option, none, some, ltb, ◌==◌,
  length, replicate, Text, codes,
}
use terracotta_ffi.Event.{error_event, state_number}
use terracotta_ffi.Session.{
  waiting, host_scanning, host_starting, EasyTier, commit, reset_to_waiting, new_session, version,
}
use terracotta_ffi.Emitter.{
  Emitter, emit, event_queue_capacity, poll, new_emitter, reset_to_waiting_quietly,
  reset_to_waiting as emitter_reset_to_waiting,
}
use terracotta_ffi.Snapshot.{snapshot}
use terracotta_ffi.Room.{create, from_value, char_at}
use terracotta_ffi.Context.{
  Context, Env, default_config, create_room, set_waiting, new_context, submit, poll_event,
  session_snapshot, destroy, initialize, run_main, handle_command, open_room, start_flow,
}
use terracotta_ffi.Examples.Suite.{
  is_none, same_state, any_state_changed, is_state_changed, wait, drain,
}

-- `create` of the tests: the archive unpacks, and no context has been made before.
unfoldable create_test : Text → ℕ → Option Context
unfolding new_context
create_test dir port = new_context true none (default_config dir) port

unfoldable lifecycle_poll_events : Env → Context → Bool
lifecycle_poll_events env ctx =
    let (ctx, events) =
      drain event_queue_capacity (wait env (submit ctx (create_room none none []))) in
    let stopped = wait env (submit ctx set_waiting) in
    let ended = destroy (drain event_queue_capacity stopped).0 in
    any_state_changed events
    && same_state (session_snapshot ctx).state host_scanning
    && same_state (session_snapshot stopped).state waiting
    && is_none (poll_event ended).1

-- The events of the loop of a test.
unfoldable emit_errors : ℕ → Emitter → Emitter
emit_errors zero e = e
emit_errors (suc n) e = emit_errors n (emit e (error_event 0 (codes "x")))

unfoldable event_queue_bounded_and_droppable : Context → Bool
event_queue_bounded_and_droppable ctx =
    let full = record ctx { emitter = emit_errors (event_queue_capacity * 4) ctx.emitter } in
    let (ctx, events) = drain (event_queue_capacity * 4) full in
    ltb 0 full.emitter.dropped && (length events == event_queue_capacity)

unfoldable waiting_invalidates_running_flow : Env → Context → Bool
waiting_invalidates_running_flow env ctx =
    let ctx = wait env (submit ctx (create_room none none [])) in
    let ctx = wait env (submit ctx set_waiting) in same_state (session_snapshot ctx).state waiting

unfoldable destroy_stops_scaffolding_server : Context → Bool
destroy_stops_scaffolding_server ctx =
    not (ctx.emitter.scaffolding_port == 0) && ctx.serving && not (destroy ctx).serving

-- The child of the test, in the session of a host that is starting.
unfoldable destroy_kills_easytier_child : EasyTier → Context → Bool
destroy_kills_easytier_child easytier ctx =
    let session =
      commit (record ctx.emitter.session { easytier = some easytier; state = host_starting }) in
    let ended =
      (destroy
        (record ctx { emitter = record ctx.emitter { session = session } })).emitter.session in
    not (is_none session.easytier) && is_none ended.easytier && same_state ended.state waiting

-- A test on the context that `create` gives, which fails when there is none.
unfoldable on_context : (Context → Bool) → Option Context → Bool
on_context test none = false
on_context test (some ctx) = test ctx

abbrev env : Env
env = record { random = replicate 16 7; debug = λ s. [] }

lifecycle_poll_events_test :
    on_context (lifecycle_poll_events env) (create_test (codes "/tmp") 40000) ≡ true
unfolding on_context create_test initialize lifecycle_poll_events same_state session_snapshot
    snapshot wait submit new_emitter handle_command open_room start_flow new_session emit
    emitter_reset_to_waiting commit new_context run_main reset_to_waiting_quietly state_number
    reset_to_waiting version drain poll poll_event destroy is_none any_state_changed
    is_state_changed create from_value char_at
lifecycle_poll_events_test = refl

event_queue_bounded_and_droppable_test :
    on_context event_queue_bounded_and_droppable (create_test (codes "/tmp") 40000) ≡ true
unfolding on_context create_test initialize event_queue_bounded_and_droppable emit_errors emit
    new_emitter drain poll poll_event new_context
event_queue_bounded_and_droppable_test = refl

waiting_invalidates_running_flow_test :
    on_context (waiting_invalidates_running_flow env) (create_test (codes "/tmp") 40000) ≡ true
unfolding on_context create_test initialize waiting_invalidates_running_flow same_state
    session_snapshot snapshot wait submit new_emitter handle_command open_room start_flow
    new_session emit emitter_reset_to_waiting commit new_context run_main reset_to_waiting_quietly
    state_number reset_to_waiting version
waiting_invalidates_running_flow_test = refl

destroy_stops_scaffolding_server_test :
    on_context destroy_stops_scaffolding_server (create_test (codes "/tmp") 40000) ≡ true
unfolding on_context create_test initialize destroy_stops_scaffolding_server destroy
destroy_stops_scaffolding_server_test = refl

destroy_kills_easytier_child_test :
    on_context
      (destroy_kills_easytier_child (record { process = 1; rpc = 2 }))
      (create_test (codes "/tmp") 40000)
    ≡ true
unfolding on_context create_test initialize destroy_kills_easytier_child is_none commit destroy
    reset_to_waiting same_state
destroy_kills_easytier_child_test = refl
