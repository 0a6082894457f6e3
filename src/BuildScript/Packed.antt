-- ===== src/BuildScript/Packed.antt =====
-- What a build packs is what the library starts.
use terracotta_ffi.Base.{
  ◌≡◌, refl, Bool, true, false, ◌||◌, List, [], ◌∷◌, Option, none, some, Text, text_eq, subst,
  if◌then◌else◌,
}
use terracotta_ffi.BuildScript.{
  EasytierFiles, easytier_files, packed_names, file_name, windows_x86_64, windows_aarch64,
  linux_x86_64, linux_aarch64, linux_riscv64, linux_loongarch64, macos_x86_64, macos_aarch64,
  freebsd_x86_64,
}

abbrev pub has_text : Text → List Text → Bool
has_text t [] = false
has_text t (u ∷ us) = text_eq u t || has_text t us

abbrev IsPacked : EasytierFiles → Type 0
IsPacked conf =
    (has_text conf.entry (packed_names conf) ≡ true)
    × (has_text conf.cli (packed_names conf) ≡ true)

-- One row of the table.
row :
    (test : Bool) (conf found : EasytierFiles) (others : Option EasytierFiles)
    → IsPacked conf
    → (others ≡ some found → IsPacked found)
    → (if test then some conf else others) ≡ some found
    → IsPacked found
row true conf found others p rest h = let e : conf ≡ found = cc h in subst IsPacked e p
row false conf found others p rest h = rest h

no_row : (found : EasytierFiles) → none ≡ some found → IsPacked found
no_row found h = cc h

-- On every target that builds, the names under which the library looks for the program and for its
-- command line tool are names of packed entries.
pub easytier_files-packed_names :
    (target_os target_arch : Text) {conf : EasytierFiles}
    → easytier_files target_os target_arch ≡ some conf
    → (has_text conf.entry (packed_names conf) ≡ true)
      × (has_text conf.cli (packed_names conf) ≡ true)
unfolding easytier_files packed_names file_name
easytier_files-packed_names target_os target_arch {conf} h =
    row _ windows_x86_64 conf _ (refl, refl)
      (row _ windows_aarch64 conf _ (refl, refl)
        (row _ linux_x86_64 conf _ (refl, refl)
          (row _ linux_aarch64 conf _ (refl, refl)
            (row _ linux_riscv64 conf _ (refl, refl)
              (row _ linux_loongarch64 conf _ (refl, refl)
                (row _ macos_x86_64 conf _ (refl, refl)
                  (row _ macos_aarch64 conf _ (refl, refl)
                    (row _ freebsd_x86_64 conf _ (refl, refl) (no_row conf)))))))))
      h
