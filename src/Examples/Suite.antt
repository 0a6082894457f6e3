-- ===== src/Examples/Suite.antt =====
-- The unit tests of src/context.rs, src/session.rs and src/ffi.rs, as Boolean functions of what they
-- find outside the program. A wait of a test lets the command thread take all commands that are there;
-- the flow of a started task has not looked at anything by then.
mod Contexts
mod Exports
mod Units
use terracotta_ffi.Base.{
  ℕ, zero, suc, Bool, true, false, List, [], ◌∷◌, Option, none, some, map, ◌==◌, if◌then◌else◌,
  Text,
}
use terracotta_ffi.Event.{Event, state_changed, state_number}
use terracotta_ffi.Session.{SessionStateId}
use terracotta_ffi.Context.{Context, Env, Command, run_main, poll_event}

unfoldable is_none : {A : Type 0} → Option A → Bool
is_none none = true
is_none (some a) = false

unfoldable same_state : SessionStateId → SessionStateId → Bool
unfolding state_number
same_state a b = state_number a == state_number b

unfoldable is_state_changed : Event → Bool
is_state_changed (state_changed state version) = true
is_state_changed _ = false

unfoldable any_state_changed : List Event → Bool
any_state_changed [] = false
any_state_changed (ev ∷ evs) =
    let rest = any_state_changed evs in if is_state_changed ev then true else rest

unfoldable wait : Env → Context → Context
unfolding run_main
wait env c = record c {
  emitter = (run_main c.emitter (map (λ command. (env, command)) c.commands)).0;
  commands = [];
}

-- `while let Some(event) = ctx.poll_event()`, for at most so many events.
unfoldable drain : ℕ → Context → Context × List Event
unfolding poll_event
drain zero c = (c, [])
drain (suc n) c =
    let (c', got) = poll_event c in
    let (c'', events) = drain n c' in elim got [ none ↦ (c', []) | some ev ↦ (c'', ev ∷ events) ]
