-- ===== src/EasyTier/Factory/Shipped.antt =====
-- What build.rs packs for a target is what the factory releases and starts.
use terracotta_ffi.Base.{
  ℕ, ◌≡◌, refl, sym, ap, ◌∙◌, inl, inr, true, List, [], ◌∷◌, Option, some, map, Text, Bytes, codes,
  text_eq, Bool-cases, Option-cases,
}
use terracotta_ffi.BuildScript.{EasytierFiles, easytier_files, packed_names, file_name}
use terracotta_ffi.BuildScript.Packed.{has_text, easytier_files-packed_names}
use terracotta_ffi.BuildScript.Download.{archive_entries}
use terracotta_ffi.EasyTier.Factory.{Files, Disk, create_factory}
use terracotta_ffi.EasyTier.Factory.Released.{mode_of, create_factory_lem}

archive_entries-names :
    (by_name : Text → Option Bytes) (files : List Text) (entries : List (Text × Bytes))
    → archive_entries by_name files ≡ some entries
    → map (λ e. e.0) entries ≡ map file_name files
unfolding archive_entries
archive_entries-names by_name [] entries h =
    let same : [] ≡ entries = cc h in ap (map (λ e. e.0)) (sym same)
archive_entries-names by_name (file ∷ files) entries h = elim (Option-cases (by_name file)) [
  | inl n ↦ cc (rw (n, archive_entries) at h)
  | inr (bytes, n) ↦ elim (Option-cases (archive_entries by_name files)) [
    | inl m ↦ cc (rw (n, archive_entries, m) at h)
    | inr (rest, m) ↦
        let same : (file_name file, bytes) ∷ rest ≡ entries =
          cc (rw (n, archive_entries, m) at h) in
        rw (← same) (ap (◌∷◌ (file_name file)) (archive_entries-names by_name files rest m))
  ]
]

mode_of-has_text :
    (name : Text) (files : Files)
    → has_text name (map (λ f. f.0) files) ≡ true
    → (mode : ℕ) × (mode_of name files ≡ some mode)
mode_of-has_text name [] h = cc h
mode_of-has_text name ((n, mode) ∷ files) h = elim (Bool-cases (text_eq n name)) [
  | inl e ↦ (mode, rw e refl)
  | inr e ↦ rw e (mode_of-has_text name files (rw e at h))
]

-- On every target that builds, if the downloaded zip has the files of the target, the library's
-- archive unpacks into files of the names that were packed, and modes can be set, then the factory is
-- made, with the paths of the two programs of the target in the folder of the data directory.
pub create_factory-archive_entries :
    (target_os target_arch : Text) (conf : EasytierFiles) (by_name : Text → Option Bytes)
    (entries : List (Text × Bytes)) (disk : Disk) (files : Files) (data_dir : Text)
    → easytier_files target_os target_arch ≡ some conf
    → archive_entries by_name conf.files ≡ some entries
    → disk.decompress ≡ some files
    → map (λ f. f.0) files ≡ map (λ e. e.0) entries
    → ((name : Text) → disk.set_permissions name ≡ true)
    → let dir = disk.join data_dir (codes "embedded-easytier") in
      (files' : Files) × (create_factory disk conf.entry conf.cli data_dir
        ≡ some (
          record {
            exe = disk.join dir conf.entry;
            cli = disk.join dir conf.cli;
            data_dir = data_dir;
          },
          files',
        ))
unfolding packed_names
create_factory-archive_entries os arch conf by_name entries disk files data_dir found packed
      unpacked names sets =
    let same : map (λ f. f.0) files ≡ packed_names conf =
      names ∙ archive_entries-names by_name conf.files entries packed in
    let (has1, has2) = easytier_files-packed_names os arch found in
    let (m1, at1) = mode_of-has_text conf.entry files (rw same has1) in
    let (m2, at2) = mode_of-has_text conf.cli files (rw same has2) in
    let (files', made, modes) =
      create_factory_lem disk conf.entry conf.cli data_dir files m1 m2 unpacked at1 at2
        (sets conf.entry) (sets conf.cli) in
    (files', made)
