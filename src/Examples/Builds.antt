-- ===== src/Examples/Builds.antt =====
-- The build for Linux and the release of its programs, and the wait for a Minecraft server.
use terracotta_ffi.Base.{
  ℕ, ◌+◌, ◌≡◌, ◌≢◌, refl, true, false, [], ◌∷◌, Option, none, some, Text, Bytes, codes, arith,
}
use terracotta_ffi.BuildScript.{linux_x86_64, easytier_files, file_name}
use terracotta_ffi.BuildScript.Download.{
  Folder, empty_folder, archive_entries, download_easytier, stop_after, build,
}
use terracotta_ffi.BuildScript.Download.Stopped.{finished, build-stopped_late}
use terracotta_ffi.EasyTier.Factory.{Disk, Files, create_factory}
use terracotta_ffi.EasyTier.Factory.Shipped.{create_factory-archive_entries}
use terracotta_ffi.Flow.Probe.{Probe}

abbrev old_folder : Option Folder
old_folder = some (record empty_folder { cli_conf = some (codes "easytier-cli") })

abbrev archive : Bytes
archive = 1 ∷ 2 ∷ 3 ∷ []

-- The build is killed between the two configuration files.
build-stopped_late_example :
    let stopped = stop_after 7 (download_easytier linux_x86_64 archive old_folder) old_folder in
    (stopped ≢ finished linux_x86_64 archive) × (build linux_x86_64 archive stopped ≡ stopped)
unfolding download_easytier
build-stopped_late_example =
    build-stopped_late linux_x86_64 archive old_folder 7 refl (λ e. cc e) (omega arith)
      (omega arith)

abbrev core : Text
core = codes "easytier-core"

abbrev cli : Text
cli = codes "easytier-cli"

abbrev disk : Disk
disk = record {
  join = λ a b. b;
  decompress = some ((core, 420) ∷ (cli, 420) ∷ []);
  unix = true;
  set_permissions = λ name. true;
}

create_factory-archive_entries_example :
    (files : Files) × (create_factory disk core cli (codes "data")
      ≡ some (record { exe = core; cli = cli; data_dir = codes "data" }, files))
unfolding easytier_files archive_entries file_name
create_factory-archive_entries_example =
    create_factory-archive_entries (codes "linux") (codes "x86_64") linux_x86_64
      (λ name. some (7 ∷ [])) ((core, 7 ∷ []) ∷ (cli, 7 ∷ []) ∷ []) disk
      ((core, 420) ∷ (cli, 420) ∷ []) (codes "data") refl refl refl refl (λ name. refl)

abbrev refused : ℕ → Probe
refused start = record {
  connects = false;
  sends = false;
  received = none;
  start = start;
  finish = start + 10;
}
