-- ===== src/EasyTier/Output.antt =====
-- The thread of `create` in src/easytier/process.rs that keeps the last lines that EasyTier prints, and
-- what it logs of them when EasyTier has exited.
mod Rotation
mod Lines
mod Reads
pub mod Shown
use terracotta_ffi.Base.{
  ℕ, zero, suc, ◌+◌, ◌%◌, Bool, true, false, List, [], ◌∷◌, ◌++◌, Option, none, some, get_or, set,
  replicate, Text, codes,
}
use terracotta_ffi.Base.Decimal.{decimal}

-- `LINES`.
abbrev pub log_lines : ℕ
log_lines = 500

pub record Ring : Type 0 where
  pub buffer : List (Option Text)
  pub index : ℕ

abbrev pub new_ring : Ring
new_ring = record { buffer = replicate log_lines none; index = 0 }

-- What `recv_timeout` returns.
pub data Received : Type 0 where
  value : Text → Received
  timeout : Received
  disconnected : Received

unfoldable pub keep : Text → Ring → Ring
keep line r = record {
  buffer = set r.buffer r.index (some line);
  index = (r.index + 1) % log_lines;
}

-- The loop, up to the disconnection.
unfoldable pub collect : List Received → Ring → Ring
unfolding keep
collect [] r = r
collect (value line ∷ rs) r = collect rs (keep line r)
collect (timeout ∷ rs) r = collect rs r
collect (disconnected ∷ rs) r = r

-- The lines that the log gets, for some number of steps from one on.
unfoldable pub shown_from : ℕ → ℕ → Ring → List Text
shown_from zero i r = []
shown_from (suc n) i r = elim (get_or r.buffer ((r.index + 1 + i) % log_lines) none) [
  | none ↦ shown_from n (suc i) r
  | some line ↦ line ∷ shown_from n (suc i) r
]

unfoldable pub shown : Ring → List Text
unfolding shown_from
shown r = shown_from log_lines 0 r

abbrev pub indented : List Text → Text
indented [] = []
indented (line ∷ lines) = codes "\n    " ++ (line ++ indented lines)

-- The code of a process that ended by itself, zero or more, or below zero by so much.
pub data ExitCode : Type 0 where
  positive negative : ℕ → ExitCode

pub record ExitStatus : Type 0 where
  pub code : Option ExitCode
  pub success : Bool

-- What `try_wait` finds.
pub data TryWait : Type 0 where
  has_exited : ExitStatus → TryWait
  still_runs : TryWait
  wait_failed : TryWait

unfoldable pub is_alive : TryWait → Bool
is_alive still_runs = true
is_alive _ = false

-- The status that is logged once the output has ended.
unfoldable pub final_status : TryWait → Option ExitStatus
final_status (has_exited status) = some status
final_status _ = none

abbrev pub show_code : ExitCode → Text
show_code (positive n) = decimal 10 n
show_code (negative n) = b'-' ∷ decimal 10 n

abbrev pub show_bool : Bool → Text
show_bool true = codes "true"
show_bool false = codes "false"

abbrev pub shown_code : Option ExitCode → Text
shown_code none = codes "[unknown]"
shown_code (some code) = show_code code

unfoldable pub status_text : Option ExitStatus → Text
status_text none = codes "[unknown]"
status_text (some status) =
    codes "code=" ++ (shown_code status.code ++ (codes ", success=" ++ show_bool status.success))

-- What is logged when the process has exited.
unfoldable pub exit_log : Option ExitStatus → Ring → Text
unfolding shown status_text
exit_log status r =
    codes "Easytier has exited. with status "
    ++ (status_text status
        ++ (codes ". Here's the logs:\n############################################################"
            ++ (indented (shown r)
                ++ codes "\n############################################################")))
