-- ===== src/EasyTier/Factory/Released.antt =====
-- The programs are released, and can be started.
use terracotta_ffi.Base.{
  ℕ, ◌/◌, ◌%◌, ◌≡◌, refl, ap, ◌∙◌, inl, inr, Bool, true, false, [], ◌∷◌, Option, none, some,
  if◌then◌else◌, Text, codes, text_eq, text_eq_refl, eq_of_text_eq, Bool-cases, arith,
}
use mathlib.Core.Option
use terracotta_ffi.EasyTier.Factory.{
  Files, Disk, with_owner_execute, make_executable, create_factory,
}

abbrev pub mode_of : Text → Files → Option ℕ
mode_of name [] = none
mode_of name ((n, mode) ∷ files) = if text_eq n name then some mode else mode_of name files

with_owner_execute_bit : (mode : ℕ) → with_owner_execute mode / 64 % 2 ≡ 1
unfolding with_owner_execute
with_owner_execute_bit mode = ground arith

-- The mode of a file after that of `name` has been changed.
abbrev pub changed : Text → Text → Option ℕ → Option ℕ
changed name other mode = if text_eq name other then Option.map with_owner_execute mode else mode

changed_here :
    (name other : Text) (m : ℕ) (files : Files)
    → mode_of other ((name, with_owner_execute m) ∷ files)
      ≡ changed name other (mode_of other ((name, m) ∷ files))
changed_here name other m files = elim (Bool-cases (text_eq name other)) [
  | inl e ↦ rw (e, changed) refl
  | inr e ↦ rw (e, changed) refl
]

changed_later :
    (name other n : Text) (m : ℕ) (files rest : Files)
    → mode_of other rest ≡ changed name other (mode_of other files)
    → text_eq n name ≡ false
    → mode_of other ((n, m) ∷ rest) ≡ changed name other (mode_of other ((n, m) ∷ files))
changed_later name other n m files rest r e = elim (Bool-cases (text_eq n other)) [
  | inl a ↦ elim (Bool-cases (text_eq name other)) [
    | inl b ↦ cc (eq_of_text_eq n other a, eq_of_text_eq name other b, e, text_eq_refl name)
    | inr b ↦ rw (a, b) refl
  ]
  | inr a ↦ rw a r
]

make_executable_lem :
    (sets : Text → Bool) (name : Text) (files : Files) (mode : ℕ)
    → sets name ≡ true
    → mode_of name files ≡ some mode
    → (files' : Files) × (make_executable sets name files ≡ some files')
      × ((other : Text) → mode_of other files' ≡ changed name other (mode_of other files))
unfolding make_executable
make_executable_lem sets name [] mode ok h = cc h
make_executable_lem sets name ((n, m) ∷ files) mode ok h = elim (Bool-cases (text_eq n name)) [
  | inl e ↦ (
    (n, with_owner_execute m) ∷ files,
    rw (e, ok) refl,
    λ other. rw (eq_of_text_eq n name e) (changed_here name other m files),
  )
  | inr e ↦
      let (rest, made, modes) = make_executable_lem sets name files mode ok (rw e at h) in
      (
        (n, m) ∷ rest,
        rw (e, make_executable, made) refl,
        λ other. changed_later name other n m files rest (modes other) e,
      )
]

changed-some : (name other : Text) (mode : ℕ) → (v : ℕ) × (changed name other (some mode) ≡ some v)
changed-some name other mode = elim (Bool-cases (text_eq name other)) [
  | inl e ↦ (with_owner_execute mode, rw (e, changed) refl)
  | inr e ↦ (mode, rw (e, changed) refl)
]

-- The mode of a released file in the end: the two programs are made executable on a Unix.
abbrev pub final_mode : Disk → Text → Text → Text → Option ℕ → Option ℕ
final_mode disk entry cli other mode =
    if disk.unix then changed cli other (changed entry other mode) else mode

-- If the archive unpacks, has both programs and their modes can be set, the factory is made: its paths
-- are those of the two programs in the folder of the data directory, and on a Unix the bit by which
-- the owner may execute is added to the modes of both programs, and to no other.
pub create_factory_lem :
    (disk : Disk) (entry cli data_dir : Text) (files : Files) (m1 m2 : ℕ)
    → disk.decompress ≡ some files
    → mode_of entry files ≡ some m1
    → mode_of cli files ≡ some m2
    → disk.set_permissions entry ≡ true
    → disk.set_permissions cli ≡ true
    → let dir = disk.join data_dir (codes "embedded-easytier") in
      (files' : Files) × (create_factory disk entry cli data_dir
        ≡ some (
          record { exe = disk.join dir entry; cli = disk.join dir cli; data_dir = data_dir },
          files',
        ))
      × ((other : Text)
          → mode_of other files' ≡ final_mode disk entry cli other (mode_of other files))
unfolding create_factory
create_factory_lem disk entry cli data_dir files m1 m2 unpacked has1 has2 sets1 sets2 =
    elim (Bool-cases disk.unix) [
      | inl u ↦
          let (first, made, modes) =
            make_executable_lem disk.set_permissions entry files m1 sets1 has1 in
          let (v, still) = changed-some entry cli m2 in
          let there : mode_of cli first ≡ some v =
            modes cli ∙ ap (changed entry cli) has2 ∙ still in
          let (second, made2, modes2) =
            make_executable_lem disk.set_permissions cli first v sets2 there in
          (
            second,
            rw (unpacked, u, made, made2) refl,
            λ other. rw u (modes2 other ∙ ap (changed cli other) (modes other)),
          )
      | inr u ↦ (files, rw (unpacked, u) refl, λ other. rw u refl)
    ]
