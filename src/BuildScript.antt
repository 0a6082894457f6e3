-- ===== src/BuildScript.antt =====
-- build.rs: which EasyTier is packed for a target, and under which names. BuildScript/Download is the
-- sequence of effects that fetches and packs it.
pub mod Download
pub mod Environment
pub mod Packed
pub mod Version
use terracotta_ffi.Base.{
  ℕ, zero, suc, Bool, true, false, ◌&&◌, ◌||◌, List, [], ◌∷◌, ◌++◌, Option, none, some, map, ◌==◌,
  if◌then◌else◌, length, drop, Text, codes, text_eq,
}
use terracotta_ffi.Mc.{starts_with}

-- `EasytierFiles`.
pub record EasytierFiles : Type 0 where
  pub url : Text
  pub files : List Text
  pub entry : Text
  pub cli : Text
  pub desc : Text

abbrev pub is_target : Text → Text → Text → Text → Bool
is_target os arch target_os target_arch = text_eq target_os os && text_eq target_arch arch

abbrev pub windows_x86_64 : EasytierFiles
windows_x86_64 = record {
  url =
      codes
        "https://github.com/Easytier/EasyTier/releases/download/{V}/easytier-windows-x86_64-{V}.zip";
  files =
      codes "easytier-windows-x86_64/easytier-core.exe"
      ∷ codes "easytier-windows-x86_64/easytier-cli.exe"
      ∷ codes "easytier-windows-x86_64/Packet.dll"
      ∷ [];
  entry = codes "easytier-core.exe";
  cli = codes "easytier-cli.exe";
  desc = codes "windows-x86_64";
}

abbrev pub windows_aarch64 : EasytierFiles
windows_aarch64 = record {
  url =
      codes
        "https://github.com/Easytier/EasyTier/releases/download/{V}/easytier-windows-arm64-{V}.zip";
  files =
      codes "easytier-windows-arm64/easytier-core.exe"
      ∷ codes "easytier-windows-arm64/easytier-cli.exe"
      ∷ codes "easytier-windows-arm64/Packet.dll"
      ∷ [];
  entry = codes "easytier-core.exe";
  cli = codes "easytier-cli.exe";
  desc = codes "windows-arm64";
}

abbrev pub linux_x86_64 : EasytierFiles
linux_x86_64 = record {
  url =
      codes
        "https://github.com/Easytier/EasyTier/releases/download/{V}/easytier-linux-x86_64-{V}.zip";
  files =
      codes "easytier-linux-x86_64/easytier-core" ∷ codes "easytier-linux-x86_64/easytier-cli" ∷ [];
  entry = codes "easytier-core";
  cli = codes "easytier-cli";
  desc = codes "linux-x86_64";
}

abbrev pub linux_aarch64 : EasytierFiles
linux_aarch64 = record {
  url =
      codes
        "https://github.com/Easytier/EasyTier/releases/download/{V}/easytier-linux-aarch64-{V}.zip";
  files =
      codes "easytier-linux-aarch64/easytier-core"
      ∷ codes "easytier-linux-aarch64/easytier-cli"
      ∷ [];
  entry = codes "easytier-core";
  cli = codes "easytier-cli";
  desc = codes "linux-arm64";
}

abbrev pub linux_riscv64 : EasytierFiles
linux_riscv64 = record {
  url =
      codes
        "https://github.com/Easytier/EasyTier/releases/download/{V}/easytier-linux-riscv64-{V}.zip";
  files =
      codes "easytier-linux-riscv64/easytier-core"
      ∷ codes "easytier-linux-riscv64/easytier-cli"
      ∷ [];
  entry = codes "easytier-core";
  cli = codes "easytier-cli";
  desc = codes "linux-riscv64";
}

abbrev pub linux_loongarch64 : EasytierFiles
linux_loongarch64 = record {
  url =
      codes
        "https://github.com/Easytier/EasyTier/releases/download/{V}/easytier-linux-loongarch64-{V}.zip";
  files =
      codes "easytier-linux-loongarch64/easytier-core"
      ∷ codes "easytier-linux-loongarch64/easytier-cli"
      ∷ [];
  entry = codes "easytier-core";
  cli = codes "easytier-cli";
  desc = codes "linux-loongarch64";
}

abbrev pub macos_x86_64 : EasytierFiles
macos_x86_64 = record {
  url =
      codes
        "https://github.com/Easytier/EasyTier/releases/download/{V}/easytier-macos-x86_64-{V}.zip";
  files =
      codes "easytier-macos-x86_64/easytier-core" ∷ codes "easytier-macos-x86_64/easytier-cli" ∷ [];
  entry = codes "easytier-core";
  cli = codes "easytier-cli";
  desc = codes "macos-x86_64";
}

abbrev pub macos_aarch64 : EasytierFiles
macos_aarch64 = record {
  url =
      codes
        "https://github.com/Easytier/EasyTier/releases/download/{V}/easytier-macos-aarch64-{V}.zip";
  files =
      codes "easytier-macos-aarch64/easytier-core"
      ∷ codes "easytier-macos-aarch64/easytier-cli"
      ∷ [];
  entry = codes "easytier-core";
  cli = codes "easytier-cli";
  desc = codes "macos-arm64";
}

abbrev pub freebsd_x86_64 : EasytierFiles
freebsd_x86_64 = record {
  url =
      codes
        "https://github.com/Easytier/EasyTier/releases/download/{V}/easytier-freebsd-13.2-x86_64-{V}.zip";
  files =
      codes "easytier-freebsd-13.2-x86_64/easytier-core"
      ∷ codes "easytier-freebsd-13.2-x86_64/easytier-cli"
      ∷ [];
  entry = codes "easytier-core";
  cli = codes "easytier-cli";
  desc = codes "freebsd-x86_64";
}

-- The files of a target; on any other the build stops.
unfoldable pub easytier_files : Text → Text → Option EasytierFiles
easytier_files target_os target_arch =
    if is_target (codes "windows") (codes "x86_64") target_os target_arch
    then some windows_x86_64
    else if is_target (codes "windows") (codes "aarch64") target_os target_arch
    then some windows_aarch64
    else if is_target (codes "linux") (codes "x86_64") target_os target_arch
    then some linux_x86_64
    else if is_target (codes "linux") (codes "aarch64") target_os target_arch
    then some linux_aarch64
    else if is_target (codes "linux") (codes "riscv64") target_os target_arch
    then some linux_riscv64
    else if is_target (codes "linux") (codes "loongarch64") target_os target_arch
    then some linux_loongarch64
    else if is_target (codes "macos") (codes "x86_64") target_os target_arch
    then some macos_x86_64
    else if is_target (codes "macos") (codes "aarch64") target_os target_arch
    then some macos_aarch64
    else if is_target (codes "freebsd") (codes "x86_64") target_os target_arch
    then some freebsd_x86_64
    else none

-- `str::replace` of "{V}".
unfoldable pub replace_version : ℕ → Text → Text → Text
replace_version zero version s = s
replace_version (suc n) version [] = []
replace_version (suc n) version (c ∷ s) =
    let rest = replace_version n version s in
    let behind = replace_version n version (drop 2 s) in
    if starts_with (codes "{V}") (c ∷ s) then version ++ behind else c ∷ rest

-- Where the archive of a version is.
unfoldable pub archive_url : EasytierFiles → Text → Text
unfolding replace_version
archive_url conf version = replace_version (length conf.url) version conf.url

-- `Path::file_name` of a path in the archive: what follows the last slash.
abbrev pub name_from : Text → Text → Text
name_from name [] = name
name_from name (c ∷ path) = if c == b'/' then name_from [] path else name_from (name ++ c ∷ []) path

unfoldable pub file_name : Text → Text
file_name path = name_from [] path

-- The names of the entries that are packed.
unfoldable pub packed_names : EasytierFiles → List Text
unfolding file_name
packed_names conf = map file_name conf.files

-- The second method of compression, for the code of the target.
pub data EncoderMethod : Type 0 where
  bcj_x86_filter bcj_arm64_filter bcj_riscv_filter copy : EncoderMethod

unfoldable pub code_filter : Text → EncoderMethod
code_filter target_arch =
    if text_eq target_arch (codes "x86_64")
    then bcj_x86_filter
    else if text_eq target_arch (codes "aarch64")
    then bcj_arm64_filter
    else if text_eq target_arch (codes "riscv64")
    then bcj_riscv_filter
    else copy
