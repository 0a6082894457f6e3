-- ===== src/Logging.antt =====
-- src/logging.rs: the ring of the last log lines.
pub mod Ring
use terracotta_ffi.Base.{ℕ, List, [], ◌∷◌, ◌++◌, leb, if◌then◌else◌, length, take, drop, Text}
use mathlib.Core.List.{reverse}

abbrev pub capacity : ℕ
capacity = 512

-- `log`: a full ring loses its first line.
unfoldable pub log : List Text → Text → List Text
log ring line = (if leb capacity (length ring) then drop 1 ring else ring) ++ line ∷ []

-- `iter().rev().take(limit).rev()`
unfoldable pub recent : List Text → ℕ → List Text
recent ring limit = reverse (take limit (reverse ring))
