-- ===== src/EasyTier/Factory.antt =====
-- `create_factory` of src/easytier/process.rs: the programs are released into a folder of the data
-- directory and are made executable. The archive format is a parameter, and a released file is its name
-- with its mode.
pub mod Released
pub mod Shipped
use terracotta_ffi.Base.{
  ℕ, ◌+◌, ◌/◌, ◌%◌, Bool, true, false, List, [], ◌∷◌, Option, none, some, ◌==◌, if◌then◌else◌, Text,
  codes, text_eq,
}
use mathlib.Core.Option

abbrev pub Files : Type 0
Files = List (Text × ℕ)

-- `EasytierFactory`.
pub record EasytierFactory : Type 0 where
  pub exe : Text
  pub cli : Text
  pub data_dir : Text

-- What the operating system says: how paths are joined, whether the archive unpacks and into which
-- files, whether this is a Unix, and whether a mode can be set.
pub record Disk : Type 0 where
  pub join : Text → Text → Text
  pub decompress : Option Files
  pub unix : Bool
  pub set_permissions : Text → Bool

-- `mode | 0o100`.
unfoldable pub with_owner_execute : ℕ → ℕ
with_owner_execute mode = if mode / 64 % 2 == 1 then mode else mode + 64

-- Metadata of a file, and its new mode; `none` is an error of either.
unfoldable pub make_executable : (Text → Bool) → Text → Files → Option Files
unfolding with_owner_execute
make_executable set_permissions name [] = none
make_executable set_permissions name ((n, mode) ∷ files) =
    let later = Option.map (◌∷◌ (n, mode)) (make_executable set_permissions name files) in
    if text_eq n name
    then (if set_permissions name then some ((n, with_owner_execute mode) ∷ files) else none)
    else later

infixl 5 ◌>>=◌
abbrev ◌>>=◌ {ℓ κ} : {A : Type ℓ} {B : Type κ} → Option A → (A → Option B) → Option B
none >>= f = none
some a >>= f = f a

abbrev prepare_programs : Disk → Text → Text → Files → Option Files
prepare_programs disk entry cli files =
    if disk.unix
    then (do
      files ← make_executable disk.set_permissions entry files
      make_executable disk.set_permissions cli files)
    else some files

-- The factory, and the released files with their modes; `entry` and `cli` are the names that the build
-- has left.
unfoldable pub create_factory : Disk → Text → Text → Text → Option (EasytierFactory × Files)
unfolding make_executable
create_factory disk entry cli data_dir =
    let dir = disk.join data_dir (codes "embedded-easytier") in
    do
      files ← disk.decompress
      files ← prepare_programs disk entry cli files
      some (
        record { exe = disk.join dir entry; cli = disk.join dir cli; data_dir = data_dir },
        files,
      )
