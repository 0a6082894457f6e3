-- ===== src/Flow/Probe.antt =====
-- `check_mc_conn` of src/flow.rs, and the loop of `run_guest` that waits for the Minecraft server. Times
-- are in milliseconds.
pub mod Waits
use terracotta_ffi.Base.{
  ℕ, zero, suc, ◌+◌, ◌-◌, Bool, true, false, ◌&&◌, List, [], ◌∷◌, Option, none, some, ◌==◌,
  if◌then◌else◌, Bytes,
}

-- What one probe finds: whether the socket connects and sends, the byte that it receives within its
-- buffer of one, and the times of its start and its end.
pub record Probe : Type 0 where
  pub connects : Bool
  pub sends : Bool
  pub received : Option Bytes
  pub start : ℕ
  pub finish : ℕ

abbrev pub is_kick : Option Bytes → Bool
is_kick none = false
is_kick (some []) = false
is_kick (some (b ∷ bs)) = b == 0xFF

-- The answer, and how long the thread sleeps before it gives it: until five seconds after the start, and
-- not at all if they are over.
unfoldable pub check_mc_conn : Probe → Bool × ℕ
check_mc_conn p =
    if p.connects && p.sends && is_kick p.received
    then (true, 0)
    else (false, p.start + 5000 - p.finish)

-- The loop, over the probes that it may make: whether one of them succeeded, and how many were made.
unfoldable pub await_mc : List Probe → Bool × ℕ
unfolding check_mc_conn
await_mc [] = (false, 0)
await_mc (p ∷ ps) =
    let (found, made) = await_mc ps in if (check_mc_conn p).0 then (true, 1) else (found, suc made)
