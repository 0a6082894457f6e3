-- ===== src/Session/Tokens.antt =====
-- The meaning of a token: it stays good for as long as every commit after it is a shared one.
use terracotta_ffi.Base.{
  ℕ, ◌+◌, ◌-◌, ◌≤◌, ◌<◌, ◌≡◌, refl, Bool, true, false, ◌&&◌, List, [], ◌∷◌, leb, length, arith, suc,
}
use terracotta_ffi.Session.{
  Session, u64_mod, can_capture, commit, commit_shared, reset_to_waiting, new_session,
}

-- Before the u64 counter wraps.
pub record IsValid (s : Session) : Type 0 where
  pub sharing_le : s.sharing ≤ s.index
  pub index_lt : s.index < u64_mod

pub new_session-IsValid : IsValid new_session
unfolding new_session
new_session-IsValid = ground arith

pub commit-IsValid : (s : Session) → IsValid s → IsValid (commit s)
unfolding commit
commit-IsValid s v = ground arith

pub commit_shared-IsValid :
    (s : Session) → IsValid s → s.index + 1 < u64_mod → IsValid (commit_shared s)
unfolding commit_shared
commit_shared-IsValid s v h = ground arith

-- The commits that a session may see, and what a history of them does.
pub data Commit : Type 0 where
  exclusive shared reset : Commit

unfoldable pub apply : Session → Commit → Session
apply s exclusive = commit s
apply s shared = commit_shared s
apply s reset = reset_to_waiting s

unfoldable pub apply_all : Session → List Commit → Session
unfolding apply
apply_all s [] = s
apply_all s (k ∷ ks) = apply_all (apply s k) ks

abbrev pub is_shared : Commit → Bool
is_shared shared = true
is_shared _ = false

abbrev pub all_shared : List Commit → Bool
all_shared [] = true
all_shared (k ∷ ks) = is_shared k && all_shared ks

-- The oldest token that is still good.
abbrev floor : Session → ℕ
floor s = s.index - s.sharing

apply-IsValid : (s : Session) (k : Commit) → IsValid s → s.index + 1 < u64_mod → IsValid (apply s k)
unfolding apply commit commit_shared reset_to_waiting
apply-IsValid s exclusive v h = ground arith
apply-IsValid s shared v h = ground arith
apply-IsValid s reset v h = ground arith

apply-index : (s : Session) (k : Commit) → s.index + 1 < u64_mod → (apply s k).index ≡ s.index + 1
unfolding apply commit commit_shared reset_to_waiting
apply-index s exclusive h = ground arith
apply-index s shared h = ground arith
apply-index s reset h = ground arith

pub can_capture_iff_floor :
    (s : Session) (t : ℕ) → IsValid s → can_capture s t ≡ leb (s.index - s.sharing) t
unfolding can_capture
can_capture_iff_floor s t v = ground arith

floor-shared : (s : Session) → IsValid s → s.index + 1 < u64_mod → floor (apply s shared) ≡ floor s
unfolding apply commit_shared
floor-shared s v h = ground arith

floor-unshared :
    (s : Session) (k : Commit)
    → is_shared k ≡ false
    → s.index + 1 < u64_mod
    → floor (apply s k) ≡ s.index + 1
unfolding apply commit reset_to_waiting
floor-unshared s exclusive e h = ground arith
floor-unshared s shared e h = cc
floor-unshared s reset e h = ground arith

floor-le :
    (s : Session) (k : Commit) → IsValid s → s.index + 1 < u64_mod → floor s ≤ floor (apply s k)
floor-le s exclusive v h = omega (arith, floor-unshared s exclusive refl h)
floor-le s shared v h = omega (arith, floor-shared s v h)
floor-le s reset v h = omega (arith, floor-unshared s reset refl h)

-- In a valid session, and below the end of the counter, a token older than the oldest good one
-- stays bad whatever commits follow.
pub stale-apply_all :
    (s : Session) (t : ℕ) (ks : List Commit)
    → IsValid s
    → s.index + length ks < u64_mod
    → t < s.index - s.sharing
    → can_capture (apply_all s ks) t ≡ false
unfolding apply_all
stale-apply_all s t [] v h lt = ground (arith, can_capture_iff_floor s t)
stale-apply_all s t (k ∷ ks) v h lt =
    stale-apply_all (apply s k) t ks (apply-IsValid s k v (omega arith))
      (omega (arith, apply-index s k)) (omega (arith, floor-le s k v (omega arith)))

revoked :
    (s : Session) (t : ℕ) (k : Commit) (ks : List Commit)
    → IsValid s
    → s.index + suc (length ks) < u64_mod
    → t ≤ s.index
    → is_shared k ≡ false
    → can_capture (apply_all (apply s k) ks) t ≡ false
revoked s t k ks v h le e =
    stale-apply_all (apply s k) t ks (apply-IsValid s k v (omega arith))
      (omega (arith, apply-index s k)) (omega (arith, floor-unshared s k e (omega arith)))

-- In a valid session, and below the end of the counter, a token that was handed out and is good
-- now is good after a history exactly when every commit in it is shared.
pub can_capture-apply_all :
    (s : Session) (t : ℕ) (ks : List Commit)
    → IsValid s
    → s.index + length ks < u64_mod
    → t ≤ s.index
    → can_capture s t ≡ true
    → can_capture (apply_all s ks) t ≡ all_shared ks
unfolding apply_all
can_capture-apply_all s t [] v h le g = g
can_capture-apply_all s t (shared ∷ ks) v h le g =
    can_capture-apply_all (apply s shared) t ks (apply-IsValid s shared v (omega arith))
      (omega (arith, apply-index s shared)) (omega (arith, apply-index s shared))
      (ground (
        arith,
        can_capture_iff_floor s t v,
        can_capture_iff_floor (apply s shared) t (apply-IsValid s shared v (omega arith)),
        floor-shared s v (omega arith),
      ))
can_capture-apply_all s t (exclusive ∷ ks) v h le g = revoked s t exclusive ks v h le refl
can_capture-apply_all s t (reset ∷ ks) v h le g = revoked s t reset ks v h le refl

-- A commit revokes every token but the one that it hands out.
pub can_capture-commit :
    (s : Session) (u : ℕ) → s.index + 1 < u64_mod → can_capture (commit s) u ≡ leb (s.index + 1) u
unfolding can_capture commit
can_capture-commit s u h = ground arith

pub can_capture-reset :
    (s : Session) (u : ℕ)
    → s.index + 1 < u64_mod
    → can_capture (reset_to_waiting s) u ≡ leb (s.index + 1) u
unfolding can_capture reset_to_waiting
can_capture-reset s u h = ground arith

-- A shared commit revokes none and adds the new index.
pub can_capture-commit_shared :
    (s : Session) (u : ℕ)
    → IsValid s
    → s.index + 1 < u64_mod
    → can_capture (commit_shared s) u ≡ can_capture s u
unfolding can_capture commit_shared
can_capture-commit_shared s u v h = ground arith

pub commit-index : (s : Session) → s.index + 1 < u64_mod → (commit s).index ≡ s.index + 1
unfolding commit
commit-index s h = omega arith

pub commit-state : (s : Session) → (commit s).state ≡ s.state
unfolding commit
commit-state s = refl

-- A commit leaves what is not a counter.
pub commit_keeps :
    (s : Session)
    → ((commit s).easytier ≡ s.easytier)
      × ((commit s).server ≡ s.server)
      × ((commit s).port ≡ s.port)
      × ((commit s).profiles ≡ s.profiles)
unfolding commit
commit_keeps s = (refl, refl, refl, refl)

-- The token of a commit is good after it.
pub can_capture-commit_self :
    (s : Session) → s.index + 1 < u64_mod → can_capture (commit s) (commit s).index ≡ true
unfolding can_capture commit
can_capture-commit_self s h = ground arith
