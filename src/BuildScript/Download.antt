-- ===== src/BuildScript/Download.antt =====
-- What `download_easytier` of build.rs does to the folder of a version and a target under .easytier, one
-- effect after the other. A build that panics or is killed stops between two effects. `fs::write` first
-- makes an empty file and then fills it. The archive format and the downloaded zip are parameters.
pub mod Stopped
use terracotta_ffi.Base.{
  ℕ, zero, suc, Bool, true, false, not, List, [], ◌∷◌, ◌++◌, Option, none, some, if◌then◌else◌,
  Text, Bytes,
}
use mathlib.Core.Option
use terracotta_ffi.BuildScript.{EasytierFiles, EncoderMethod, code_filter, file_name}

-- The files of the folder.
pub record Folder : Type 0 where
  pub entry_conf : Option Text
  pub cli_conf : Option Text
  pub entry_archive : Option Bytes
  pub target : Option Bytes

abbrev pub empty_folder : Folder
empty_folder = record { entry_conf = none; cli_conf = none; entry_archive = none; target = none }

pub data Effect : Type 0 where
  remove_dir_all : Effect
  create_dir_all : Effect
  create_target : Effect
  finish_target : Bytes → Effect
  rename_target : Effect
  create_entry_conf : Effect
  fill_entry_conf : Text → Effect
  create_cli_conf : Effect
  fill_cli_conf : Text → Effect

abbrev on_folder : Effect → Folder → Option Folder
on_folder remove_dir_all f = none
on_folder create_dir_all f = some f
on_folder create_target f = some (record f { target = some [] })
on_folder (finish_target bytes) f = some (record f { target = some bytes })
on_folder rename_target f = some (record f { entry_archive = f.target; target = none })
on_folder create_entry_conf f = some (record f { entry_conf = some [] })
on_folder (fill_entry_conf t) f = some (record f { entry_conf = some t })
on_folder create_cli_conf f = some (record f { cli_conf = some [] })
on_folder (fill_cli_conf t) f = some (record f { cli_conf = some t })

-- Only the folder's creation does something where there is none.
unfoldable pub apply : Effect → Option Folder → Option Folder
apply create_dir_all none = some empty_folder
apply e none = none
apply e (some f) = on_folder e f

abbrev pub is_there : {A : Type 0} → Option A → Bool
is_there none = false
is_there (some a) = true

abbrev pub has_entry_conf : Option Folder → Bool
has_entry_conf none = false
has_entry_conf (some f) = is_there f.entry_conf

-- The entries of the archive, out of the downloaded zip; a file that it lacks stops the build.
unfoldable pub archive_entries : (Text → Option Bytes) → List Text → Option (List (Text × Bytes))
archive_entries by_name [] = some []
archive_entries by_name (file ∷ files) =
    let rest = archive_entries by_name files in
    elim (by_name file) [ none ↦ none | some bytes ↦ Option.map (◌∷◌ (file_name file, bytes)) rest ]

-- The archive that is packed.
unfoldable pub pack :
    (EncoderMethod → List (Text × Bytes) → Bytes)
    → Text
    → (Text → Option Bytes)
    → EasytierFiles
    → Option Bytes
unfolding archive_entries
pack sevenz target_arch by_name conf =
    Option.map (sevenz (code_filter target_arch)) (archive_entries by_name conf.files)

-- The effects up to the archive, and then the two configuration files.
abbrev pub prepare : Bytes → Option Folder → List Effect
prepare archive base =
    (if is_there base then remove_dir_all ∷ [] else [])
    ++ create_dir_all ∷ create_target ∷ finish_target archive ∷ rename_target ∷ []

abbrev pub confirm : EasytierFiles → List Effect
confirm conf =
    create_entry_conf ∷ fill_entry_conf conf.entry ∷ create_cli_conf ∷ fill_cli_conf conf.cli ∷ []

-- `download_easytier`, for an archive that could be packed.
unfoldable pub download_easytier : EasytierFiles → Bytes → Option Folder → List Effect
download_easytier conf archive base =
    if has_entry_conf base then [] else prepare archive base ++ confirm conf

-- The folder after a number of effects, or all of them.
unfoldable pub stop_after : ℕ → List Effect → Option Folder → Option Folder
unfolding apply
stop_after zero es base = base
stop_after (suc n) [] base = base
stop_after (suc n) (e ∷ es) base = stop_after n es (apply e base)

unfoldable pub run_all : List Effect → Option Folder → Option Folder
unfolding apply
run_all [] base = base
run_all (e ∷ es) base = run_all es (apply e base)

unfoldable pub build : EasytierFiles → Bytes → Option Folder → Option Folder
unfolding download_easytier run_all
build conf archive base = run_all (download_easytier conf archive base) base
