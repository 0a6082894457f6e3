-- ===== src/EasyTier/Difficulty.antt =====
-- The connection difficulty is that of the easier end.
use Prim.Native.Nat.{min}
use terracotta_ffi.Base.{ℕ, ◌≡◌, arith}
use terracotta_ffi.Event.{difficulty_number}
use terracotta_ffi.EasyTier.{
  NatType, open_internet, no_pat, full_cone, restricted, port_restricted, calc_conn_difficulty,
}

-- How hard one end makes the connection, from 1 to 4.
abbrev pub hardness : NatType → ℕ
hardness open_internet = 1
hardness no_pat = 2
hardness full_cone = 2
hardness restricted = 3
hardness port_restricted = 3
hardness _ = 4

-- The difficulty of a connection is the hardness of the easier end, whichever side that is.
pub calc_conn_difficulty-min :
    (left right : NatType)
    → difficulty_number (calc_conn_difficulty left right) ≡ min (hardness left) (hardness right)
unfolding calc_conn_difficulty difficulty_number
calc_conn_difficulty-min open_internet right = ground arith
calc_conn_difficulty-min left right = ground arith
