-- ===== src/EasyTier/Forwarding.antt =====
-- `EasyTier::add_port_forward` of src/easytier/process.rs. What the command line tool does is outside the
-- program: a parameter says how the attempt for a forward ends in each round.
mod Removal
pub mod Rounds
use terracotta_ffi.Base.{
  ℕ, zero, suc, Bool, true, false, List, [], ◌∷◌, ◌++◌, Option, none, some, length, get_elem?,
  if◌then◌else◌, Text, codes,
}
use terracotta_ffi.Base.Decimal.{u16_to_string}
use terracotta_ffi.EasyTier.{PortForward, proto_name, show_address}

-- The tool cannot be started, ends with a failure, or ends with success.
pub data Attempt : Type 0 where
  not_spawned unsuccessful successful : Attempt

abbrev pub is_spawned : Attempt → Bool
is_spawned not_spawned = false
is_spawned _ = true

abbrev pub is_successful : Attempt → Bool
is_successful successful = true
is_successful _ = false

-- The arguments of the tool for one forward.
abbrev pub cli_arguments : ℕ → PortForward → List Text
cli_arguments rpc f =
    codes "-p"
    ∷ (codes "127.0.0.1:" ++ u16_to_string rpc)
    ∷ codes "port-forward"
    ∷ codes "add"
    ∷ proto_name f.proto
    ∷ show_address f.local
    ∷ show_address f.remote
    ∷ []

-- `Vec::swap_remove`: the last entry takes the place of the removed one.
abbrev pub behind_first : PortForward → List PortForward → List PortForward
behind_first f [] = f ∷ []
behind_first f (g ∷ gs) = g ∷ f ∷ gs

unfoldable pub bring_last : List PortForward → List PortForward
bring_last [] = []
bring_last (f ∷ fs) = behind_first f (bring_last fs)

unfoldable pub swap_remove : ℕ → List PortForward → List PortForward
unfolding bring_last
swap_remove i [] = []
swap_remove zero (f ∷ fs) = bring_last fs
swap_remove (suc i) (f ∷ fs) = f ∷ swap_remove i fs

abbrev pub is_empty : List PortForward → Bool
is_empty [] = true
is_empty (f ∷ fs) = false

module _ (rpc : ℕ) (cli : ℕ → PortForward → Attempt) where
  -- The tools of one round, up to the first that cannot be started, and whether all were.
  unfoldable pub spawn_all : ℕ → List PortForward → Bool × List (List Text)
  spawn_all time [] = (true, [])
  spawn_all time (f ∷ fs) =
      let rest = spawn_all time fs in
      if is_spawned (cli time f) then (rest.0, cli_arguments rpc f ∷ rest.1) else (false, [])

  -- One look at an entry: a successful one is removed.
  unfoldable pub remove_if_done : ℕ → ℕ → List PortForward → List PortForward
  unfolding swap_remove
  remove_if_done time i fs = elim (get_elem? fs i) [
    | none ↦ fs
    | some f ↦ (if is_successful (cli time f) then swap_remove i fs else fs)
  ]

  -- The same for the entries before an index, from the back.
  unfoldable pub remove_done : ℕ → ℕ → List PortForward → List PortForward
  unfolding remove_if_done
  remove_done time zero fs = fs
  remove_done time (suc i) fs = remove_done time i (remove_if_done time i fs)

  -- The rounds that are left, from this one on: the answer, and the tools that were started.
  unfoldable pub rounds : ℕ → ℕ → List PortForward → Bool × List (List Text)
  unfolding spawn_all remove_done
  rounds zero time fs = (is_empty fs, [])
  rounds (suc n) time fs =
      let (spawned, started) = spawn_all time fs in
      let left = remove_done time (length fs) fs in
      let later = rounds n (suc time) left in
      if spawned
      then (if is_empty left then (true, started) else (later.0, started ++ later.1))
      else (false, started)

  unfoldable pub add_port_forward : List PortForward → Bool × List (List Text)
  unfolding rounds
  add_port_forward forwards = rounds 3 0 forwards
