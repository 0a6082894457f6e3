-- ===== src/EasyTier/Forwarding/Rounds.antt =====
-- What three rounds of attempts come to.
use terracotta_ffi.Base.{
  ℕ, zero, suc, ◌*◌, ◌≤◌, ◌≡◌, ◌↔◌, refl, inl, inr, Bool, true, false, ◌||◌, List, [], ◌∷◌, length,
  length-append, All, Text, arith, Bool-cases,
}
use terracotta_ffi.EasyTier.{PortForward}
use terracotta_ffi.EasyTier.Forwarding.{
  Attempt, is_spawned, is_successful, spawn_all, remove_done, is_empty, rounds, add_port_forward,
}
use terracotta_ffi.EasyTier.Forwarding.Removal.{
  drop-All_all, remove_done-All, remove_done-IsFailed, remove_done-covers, remove_done-length,
}

All_zip :
    (P Q : PortForward → Type 0) (fs : List PortForward)
    → All P fs
    → All Q fs
    → All (λ f. P f × Q f) fs
All_zip P Q [] a b = tt
All_zip P Q (f ∷ fs) a b = ((a.0, b.0), All_zip P Q fs a.1 b.1)

All_map :
    (P Q : PortForward → Type 0) (fs : List PortForward)
    → ((f : PortForward) → P f → Q f)
    → All P fs
    → All Q fs
All_map P Q [] h a = tt
All_map P Q (f ∷ fs) h a = (h f a.0, All_map P Q fs h a.1)

empty-All : (P : PortForward → Type 0) (fs : List PortForward) → is_empty fs ≡ true → All P fs
empty-All P [] h = tt
empty-All P (f ∷ fs) h = cc h

or_true : (b : Bool) → (b || true) ≡ true
or_true true = refl
or_true false = refl

module _ (rpc : ℕ) (cli : ℕ → PortForward → Attempt) where
  -- The tool succeeds for a forward in one of the next n rounds.
  unfoldable pub succeeds_within : ℕ → ℕ → PortForward → Bool
  succeeds_within zero time f = false
  succeeds_within (suc n) time f = is_successful (cli time f) || succeeds_within n (suc time) f

  spawn_all-IsSpawned :
      (time : ℕ) (fs : List PortForward)
      → ((t : ℕ) (f : PortForward) → is_spawned (cli t f) ≡ true)
      → (spawn_all rpc cli time fs).0 ≡ true
  unfolding spawn_all
  spawn_all-IsSpawned time [] h = refl
  spawn_all-IsSpawned time (f ∷ fs) h = rw (h time f) (spawn_all-IsSpawned time fs h)

  rounds_sound :
      (n time : ℕ) (fs : List PortForward)
      → (rounds rpc cli n time fs).0 ≡ true
      → All (λ f. succeeds_within n time f ≡ true) fs
  unfolding rounds
  rounds_sound zero time fs h = empty-All _ fs h
  rounds_sound (suc n) time fs h =
      let left : List PortForward = remove_done rpc cli time (length fs) fs in
      let P : PortForward → Type 0 = λ f. succeeds_within (suc n) time f ≡ true in
      let now : (f : PortForward) → is_successful (cli time f) ≡ true → P f =
        λ f s. unfold succeeds_within in rw s refl in
      let later : (f : PortForward) → succeeds_within n (suc time) f ≡ true → P f =
        λ f s. unfold succeeds_within in rw s (or_true (is_successful (cli time f))) in
      remove_done-covers rpc cli P time (length fs) fs now
        (elim (Bool-cases (spawn_all rpc cli time fs).0) [
          | inl s ↦ elim (Bool-cases (is_empty left)) [
            | inl e ↦ empty-All P left e
            | inr e ↦ All_map _ P left later (rounds_sound n (suc time) left (rw (s, e) at h))
          ]
          | inr s ↦ cc (rw s at h)
        ])

  rounds_complete :
      (n time : ℕ) (fs : List PortForward)
      → ((t : ℕ) (f : PortForward) → is_spawned (cli t f) ≡ true)
      → All (λ f. succeeds_within n time f ≡ true) fs
      → (rounds rpc cli n time fs).0 ≡ true
  unfolding rounds
  rounds_complete zero time [] h a = refl
  rounds_complete zero time (f ∷ fs) h a =
      let absurd_test : false ≡ true = unfold succeeds_within in a.0 in cc absurd_test
  rounds_complete (suc n) time fs h a =
      let left : List PortForward = remove_done rpc cli time (length fs) fs in
      let P : PortForward → Type 0 = λ f. succeeds_within (suc n) time f ≡ true in
      let failed =
        remove_done-IsFailed rpc cli P time (length fs) fs
          (drop-All_all _ (length fs) fs (omega arith)) in
      let F : PortForward → Type 0 = λ f. is_successful (cli time f) ≡ false in
      let Q : PortForward → Type 0 = λ f. succeeds_within n (suc time) f ≡ true in
      let later : (f : PortForward) → F f × P f → Q f =
        λ f b. unfold succeeds_within in (rw b.0 at b.1) in
      let both = All_zip F P left failed (remove_done-All rpc cli P time (length fs) fs a) in
      let rest : All Q left = All_map (λ f. F f × P f) Q left later both in
      elim (Bool-cases (is_empty left)) [
        | inl e ↦ rw (spawn_all-IsSpawned time fs h, e) refl
        | inr e ↦ rw (spawn_all-IsSpawned time fs h, e) (rounds_complete n (suc time) left h rest)
      ]

  -- The answer is true only if the tool succeeded for every forward in one of three rounds.
  pub add_port_forward_sound :
      (fs : List PortForward)
      → (add_port_forward rpc cli fs).0 ≡ true
      → All (λ f. succeeds_within 3 0 f ≡ true) fs
  unfolding add_port_forward
  add_port_forward_sound fs = rounds_sound 3 0 fs

  -- If every tool can be started, the answer is true exactly when the tool succeeds for every forward in
  -- one of three rounds.
  pub add_port_forward_lem :
      (fs : List PortForward)
      → ((t : ℕ) (f : PortForward) → is_spawned (cli t f) ≡ true)
      → ((add_port_forward rpc cli fs).0 ≡ true) ↔ All (λ f. succeeds_within 3 0 f ≡ true) fs
  unfolding add_port_forward
  add_port_forward_lem fs h = (rounds_sound 3 0 fs, rounds_complete 3 0 fs h)

  spawn_all-length :
      (time : ℕ) (fs : List PortForward) → length (spawn_all rpc cli time fs).1 ≤ length fs
  unfolding spawn_all
  spawn_all-length time [] = omega arith
  spawn_all-length time (f ∷ fs) = ground (arith, spawn_all-length time fs)

  rounds-length :
      (n time k : ℕ) (fs : List PortForward)
      → length fs ≤ k
      → length (rounds rpc cli n time fs).1 ≤ n * k
  unfolding rounds
  rounds-length zero time k fs h = omega arith
  rounds-length (suc n) time k fs h =
      let left : List PortForward = remove_done rpc cli time (length fs) fs in
      let started : List (List Text) = (spawn_all rpc cli time fs).1 in
      let later = (rounds rpc cli n (suc time) left).1 in
      let fewer : length left ≤ k =
        omega (arith, h, remove_done-length rpc cli time (length fs) fs) in
      let rest : length later ≤ n * k = rounds-length n (suc time) k left fewer in
      let now : length started ≤ k = omega (arith, spawn_all-length time fs, h) in
      ground (arith, rest, now, length-append started later)

  -- No more than three tools are started for each forward.
  pub add_port_forward-length :
      (fs : List PortForward) → length (add_port_forward rpc cli fs).1 ≤ 3 * length fs
  unfolding add_port_forward
  add_port_forward-length fs = rounds-length 3 0 (length fs) fs (omega arith)
