-- ===== src/Context/Loop.antt =====
-- When the command thread stops.
use terracotta_ffi.Base.{◌≡◌, refl, inl, inr, List, [], ◌∷◌, ◌++◌, Bool-cases}
use terracotta_ffi.Emitter.{Emitter}
use terracotta_ffi.Context.{Command, shutdown, Env, handle_command, run_main}

-- What is behind a shutdown command in the channel is not handled.
pub run_main-shutdown :
    (e : Emitter) (cs ds : List (Env × Command)) (env : Env)
    → run_main e (cs ++ (env, shutdown) ∷ ds) ≡ run_main e cs
unfolding run_main handle_command
run_main-shutdown e [] ds env = elim (Bool-cases e.shutdown) [
  | inl s ↦ rw s refl
  | inr s ↦ rw s refl
]
run_main-shutdown e ((found, c) ∷ cs) ds env =
    rw (run_main-shutdown (handle_command found e c).0 cs ds env) refl
