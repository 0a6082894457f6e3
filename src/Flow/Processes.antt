-- ===== src/Flow/Processes.antt =====
-- The EasyTier processes of a context: `create` and the `Drop` of `EasyTier` in src/easytier/process.rs,
-- and where the values of src/flow.rs, src/session.rs and src/context.rs end that own a process. A value
-- that a statement overwrites or leaves behind is dropped there. The calls of the operating system
-- succeed or not as an argument says; a panic of `create` ends a release build, and is no step.
pub mod Accounts
pub mod Keeping
pub mod Orphans
pub mod Writes
use terracotta_ffi.Base.{
  ℕ, ◌+◌, ◌≡◌, Bool, true, false, ◌&&◌, List, [], ◌∷◌, ◌++◌, Option, none, some, ◌==◌,
  if◌then◌else◌, Text,
}
use terracotta_ffi.Profile.{Profile}
use terracotta_ffi.Room.{Room}
use terracotta_ffi.Session.{Session, SessionStateId, waiting, EasyTier}
use terracotta_ffi.Emitter.{Emitter, is_waiting, reset_to_waiting_quietly}
use terracotta_ffi.Context.{
  Env, Command, create_room, join_room, set_waiting, shutdown, handle_command,
}
use terracotta_ffi.Flow.Host.{finish_host}
use terracotta_ffi.Flow.Guest.{start_guest}

-- The processes that run, those that have ended of themselves, and the next process id.
pub record Machine : Type 0 where
  pub running : List ℕ
  pub exited : List ℕ
  pub next_pid : ℕ

-- What `create` finds: whether the factory is ready, its program is there and can be started, and the port
-- for its RPC.
pub record Launch : Type 0 where
  pub is_ready : Bool
  pub has_exe : Bool
  pub spawns : Bool
  pub rpc : ℕ

-- `create`, or `none` for its panic.
unfoldable pub create_process : Launch → Machine → Option (Machine × EasyTier)
create_process l m =
    if l.is_ready && l.has_exe && l.spawns
    then some (
      record m { running = m.next_pid ∷ m.running; next_pid = m.next_pid + 1 },
      record { process = m.next_pid; rpc = l.rpc },
    )
    else none

unfoldable pub without : ℕ → List ℕ → List ℕ
without p [] = []
without p (q ∷ qs) = if q == p then without p qs else q ∷ without p qs

-- `Drop`: the process is killed. A process that has ended already is not there, which is ignored.
unfoldable pub drop_easytier : EasyTier → Machine → Machine
drop_easytier t m = record m { running = without t.process m.running }

unfoldable pub drop_held : Option EasyTier → Machine → Machine
drop_held none m = m
drop_held (some t) m = drop_easytier t m

-- The end of a transition whose closure owns an EasyTier and writes it to the session. A transition that
-- is refused drops the closure, and one that is made drops what the session has held.
unfoldable pub after_transition : Option ℕ → EasyTier → Option EasyTier → Machine → Machine
after_transition none new held m = drop_easytier new m
after_transition (some token) new held m = drop_held held m

-- A reset writes `none` to the session, unless it waits already.
unfoldable pub after_reset : Emitter → Machine → Machine
after_reset e m = if is_waiting e.session.state then m else drop_held e.session.easytier m

unfoldable pub after_command : Command → Emitter → Machine → Machine
after_command set_waiting e m = after_reset e m
after_command (create_room name code nodes) e m = m
after_command (join_room code name nodes) e m = m
after_command shutdown e m = m

-- The processes, the session with its emitter, and the EasyTiers that flows have created and not given to
-- the session yet.
pub record System : Type 0 where
  pub machine : Machine
  pub emitter : Emitter
  pub launched : List EasyTier

-- One step of some thread, or of a process.
--   launch: a flow has called `create`;
--   hosted: a host flow makes its last transition; joined: a guest flow makes its first;
--   handled: the command thread handles a command;
--   destroyed: `destroy` resets the session;
--   exit: a process ends of itself;
--   write: any other write, which neither touches the EasyTier of the session nor makes it wait.
pub data Step (y z : System) : Type 0 where
  launch :
      (l : Launch) (m : Machine) (t : EasyTier)
      → create_process l y.machine ≡ some (m, t)
      → z ≡ record y { machine = m; launched = t ∷ y.launched }
      → Step y z
  hosted :
      (before after : List EasyTier) (t : EasyTier) (token : ℕ) (room : Room) (port now : ℕ)
      (profile : Profile)
      → y.launched ≡ before ++ t ∷ after
      → z ≡ (
          let (e, next) = finish_host y.emitter token room t port now profile in
          record {
            machine = after_transition next t y.emitter.session.easytier y.machine;
            emitter = e;
            launched = before ++ after;
          })
      → Step y z
  joined :
      (before after : List EasyTier) (t : EasyTier) (token : ℕ)
      → y.launched ≡ before ++ t ∷ after
      → z ≡ (
          let (e, next) = start_guest y.emitter token t in
          record {
            machine = after_transition next t y.emitter.session.easytier y.machine;
            emitter = e;
            launched = before ++ after;
          })
      → Step y z
  handled :
      (env : Env) (c : Command)
      → z ≡ record y {
        machine = after_command c y.emitter y.machine;
        emitter = (handle_command env y.emitter c).0;
      }
      → Step y z
  destroyed :
      z ≡ record y {
        machine = after_reset y.emitter y.machine;
        emitter = (reset_to_waiting_quietly y.emitter).0;
      }
      → Step y z
  exit :
      (p : ℕ)
      → z ≡ record y {
        machine = record y.machine {
          running = without p y.machine.running;
          exited = p ∷ y.machine.exited;
        };
      }
      → Step y z
  write :
      (e : Emitter)
      → e.session.easytier ≡ y.emitter.session.easytier
      → (e.session.state ≡ waiting → y.emitter.session.state ≡ waiting)
      → z ≡ record y { emitter = e }
      → Step y z

pub data Reach (y : System) : System → Type 0 where
  here : Reach y y
  next : {z w : System} → Reach y z → Step z w → Reach y w
