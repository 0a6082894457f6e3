-- ===== src/BuildScript/Download/Stopped.antt =====
-- A build after one that was stopped.
use terracotta_ffi.Base.{
  ℕ, zero, suc, ◌+◌, ◌-◌, ◌≤◌, ◌<◌, ◌≡◌, ◌≢◌, refl, ap, ◌∙◌, true, false, List, [], ◌∷◌, ◌++◌,
  Option, none, some, length, All, Text, length-append, Bytes, arith,
}
use terracotta_ffi.BuildScript.{EasytierFiles}
use terracotta_ffi.BuildScript.Download.{
  Folder, empty_folder, Effect, remove_dir_all, create_dir_all, create_target, finish_target,
  rename_target, apply, is_there, has_entry_conf, prepare, confirm, download_easytier, stop_after,
  run_all, build,
}

-- The folder that a build is to leave.
abbrev pub finished : EasytierFiles → Bytes → Option Folder
finished conf archive = some (record {
  entry_conf = some conf.entry;
  cli_conf = some conf.cli;
  entry_archive = some archive;
  target = none;
})

-- Without an entry configuration a build starts over and leaves the finished folder.
build-fresh :
    (conf : EasytierFiles) (archive : Bytes) (base : Option Folder)
    → has_entry_conf base ≡ false
    → build conf archive base ≡ finished conf archive
unfolding build
build-fresh conf archive none h = refl
build-fresh conf archive (some f) h = rw (h, build) refl

-- With one it does nothing.
build-confirmed :
    (conf : EasytierFiles) (archive : Bytes) (base : Option Folder)
    → has_entry_conf base ≡ true
    → build conf archive base ≡ base
unfolding build
build-confirmed conf archive none h = cc h
build-confirmed conf archive (some f) h = rw (h, build) refl

abbrev LeavesOut : Effect → Type 0
LeavesOut e =
    (base : Option Folder) → has_entry_conf base ≡ false → has_entry_conf (apply e base) ≡ false

stop_after-LeavesOut :
    (n : ℕ) (es later : List Effect) (base : Option Folder)
    → All LeavesOut es
    → n ≤ length es
    → has_entry_conf base ≡ false
    → has_entry_conf (stop_after n (es ++ later) base) ≡ false
unfolding stop_after
stop_after-LeavesOut zero es later base all short h = h
stop_after-LeavesOut (suc n) [] later base all short h = absurd (omega arith)
stop_after-LeavesOut (suc n) (e ∷ es) later base all short h =
    stop_after-LeavesOut n es later (apply e base) all.1 (omega arith) (all.0 base h)

stop_after-past :
    (k n : ℕ) (es later : List Effect) (base : Option Folder)
    → k ≡ length es + n
    → stop_after k (es ++ later) base ≡ stop_after n later (run_all es base)
unfolding stop_after run_all
stop_after-past k n [] later base e = let same : k ≡ n = omega arith in rw same refl
stop_after-past zero n (x ∷ es) later base e = absurd (omega arith)
stop_after-past (suc k) n (x ∷ es) later base e =
    stop_after-past k n es later (apply x base) (omega arith)

still_missing :
    (e : Effect)
    → ((f : Folder) → is_there f.entry_conf ≡ false → has_entry_conf (apply e (some f)) ≡ false)
    → has_entry_conf (apply e none) ≡ false
    → LeavesOut e
still_missing e there absent none h = absent
still_missing e there absent (some f) h = there f h

prepare-LeavesOut : (archive : Bytes) (base : Option Folder) → All LeavesOut (prepare archive base)
unfolding apply
prepare-LeavesOut archive base =
    let create = still_missing create_dir_all (λ f h. h) refl in
    let target = still_missing create_target (λ f h. h) refl in
    let finish = still_missing (finish_target archive) (λ f h. h) refl in
    let rename = still_missing rename_target (λ f h. h) refl in
    elim base as (λ b. All LeavesOut (prepare archive b)) [
      | none ↦ (create, (target, (finish, (rename, tt))))
      | some f ↦ (
        still_missing remove_dir_all (λ g h. refl) refl,
        (create, (target, (finish, (rename, tt)))),
      )
    ]

abbrev cli_of : Option Folder → Option Text
cli_of none = none
cli_of (some f) = f.cli_conf

prepared :
    (archive : Bytes) (base : Option Folder)
    → run_all (prepare archive base) base
      ≡ some (record empty_folder { entry_archive = some archive })
unfolding run_all
prepared archive none = refl
prepared archive (some f) = refl

confirming :
    (conf : EasytierFiles) (archive : Bytes) (n : ℕ)
    → conf.cli ≢ []
    → 0 < n
    → n < 4
    → let base =
        stop_after n (confirm conf) (some (record empty_folder { entry_archive = some archive })) in
      (has_entry_conf base ≡ true) × (base ≢ finished conf archive)
unfolding stop_after
confirming conf archive zero named low high = absurd (omega arith)
confirming conf archive (suc zero) named low high = (refl, λ e. let f = ap cli_of e in cc)
confirming conf archive (suc (suc zero)) named low high = (refl, λ e. let f = ap cli_of e in cc)
confirming conf archive (suc (suc (suc zero))) named low high =
    (refl, λ e. let f : some [] ≡ some conf.cli = ap cli_of e in named (cc f))
confirming conf archive (suc (suc (suc (suc n)))) named low high = absurd (omega arith)

-- A build that stops before it makes the entry configuration is made up for by the next one, which
-- leaves the finished folder.
build-stopped_early :
    (conf : EasytierFiles) (archive : Bytes) (base : Option Folder) (n : ℕ)
    → has_entry_conf base ≡ false
    → n ≤ length (prepare archive base)
    → build conf archive (stop_after n (download_easytier conf archive base) base)
      ≡ finished conf archive
unfolding download_easytier
build-stopped_early conf archive base n fresh early = build-fresh conf archive _ (
    rw fresh (
      stop_after-LeavesOut n (prepare archive base) (confirm conf) base
        (prepare-LeavesOut archive base) early fresh))

-- A build that stops after it has made the entry configuration and before its end leaves a folder
-- that is not finished, and every later build leaves it so. The command line tool has a name.
pub build-stopped_late :
    (conf : EasytierFiles) (archive : Bytes) (base : Option Folder) (n : ℕ)
    → has_entry_conf base ≡ false
    → conf.cli ≢ []
    → length (prepare archive base) < n
    → n < length (download_easytier conf archive base)
    → let stopped = stop_after n (download_easytier conf archive base) base in
      (stopped ≢ finished conf archive) × (build conf archive stopped ≡ stopped)
unfolding download_easytier
build-stopped_late conf archive base n fresh named late short =
    let j = n - length (prepare archive base) in
    let steps : download_easytier conf archive base ≡ prepare archive base ++ confirm conf =
      rw (fresh, download_easytier) refl in
    let bound = ap length steps ∙ length-append (prepare archive base) (confirm conf) in
    let same : stop_after n (download_easytier conf archive base) base
        ≡ stop_after j (confirm conf)
            (some (record empty_folder { entry_archive = some archive })) =
      rw steps (
        stop_after-past n j (prepare archive base) (confirm conf) base (omega arith)
        ∙ ap (stop_after j (confirm conf)) (prepared archive base)) in
    let (there, unlike) = confirming conf archive j named (omega arith) (omega arith) in
    rw same (unlike, build-confirmed conf archive _ there)
