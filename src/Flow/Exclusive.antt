-- ===== src/Flow/Exclusive.antt =====
-- The session, the command thread, the flows and the handlers of the scaffolding server as one
-- transition system: any of them may take the next step.
pub mod Invariant
pub mod Refines
use terracotta_ffi.Base.{
  ℕ, zero, suc, ◌+◌, ◌-◌, ◌%◌, ◌≤◌, ◌<◌, ◌≡◌, refl, sym, ap, ◌∙◌, ◌⊎◌, inl, inr, ◌≢◌, Bool, true,
  false, not, List, [], ◌∷◌, ◌++◌, Option, none, some, leb, if◌then◌else◌, length, set, get_elem?,
  All, arith, Bool-cases, Option-cases,
}
use terracotta_ffi.Session.{
  Session, SessionStateId, waiting, exception, SessionError, u64_mod, can_capture, commit,
  commit_shared as session_commit_shared, reset_to_waiting as session_reset_to_waiting, new_session,
}
use terracotta_ffi.Session.Tokens.{
  IsValid, commit-IsValid, commit_shared-IsValid, can_capture-commit, can_capture-commit_shared,
  can_capture-reset, commit-index, commit-state,
}

-- The session, and the token that each flow started so far holds now.
pub record System : Type 0 where
  pub session : Session
  pub tokens : List ℕ

-- A write under a token or a lock that touches neither the counters nor the state.
pub record IsQuiet (f : Session → Session) : Type 0 where
  pub index_eq : (s : Session) → (f s).index ≡ s.index
  pub sharing_eq : (s : Session) → (f s).sharing ≡ s.sharing
  pub state_eq : (s : Session) → (f s).state ≡ s.state

-- One step of some thread, while the counter has not reached its end.
--   start: the command thread opens a room in the waiting state, and a flow begins with the new token;
--   reset: `SetWaiting` or `destroy` outside the waiting state;
--   advance: a flow makes a transition to an active state with its token, and holds the token it gets;
--   fail: a flow raises an exception with its token;
--   share: a shared commit, of a flow, of a monitor or of c:player_ping;
--   quiet: a change of the session without a commit.
pub data Step (y z : System) : Type 0 where
  start :
      (state : SessionStateId) (f : Session → Session)
      → IsQuiet f
      → y.session.state ≡ waiting
      → state ≢ waiting
      → z.session ≡ commit (record (f y.session) { state = state })
      → z.tokens ≡ z.session.index ∷ y.tokens
      → Step y z
  reset :
      y.session.state ≢ waiting
      → z.session ≡ session_reset_to_waiting y.session
      → z.tokens ≡ y.tokens
      → Step y z
  advance :
      (i t : ℕ) (state : SessionStateId) (f : Session → Session)
      → IsQuiet f
      → get_elem? y.tokens i ≡ some t
      → can_capture y.session t ≡ true
      → state ≢ waiting
      → z.session ≡ commit (record (f y.session) { state = state })
      → z.tokens ≡ set y.tokens i z.session.index
      → Step y z
  fail :
      (i t : ℕ) (error : SessionError)
      → get_elem? y.tokens i ≡ some t
      → can_capture y.session t ≡ true
      → z.session ≡ commit (record y.session { state = exception; error = some error })
      → z.tokens ≡ y.tokens
      → Step y z
  share :
      (f : Session → Session)
      → IsQuiet f
      → z.session ≡ session_commit_shared (f y.session)
      → z.tokens ≡ y.tokens
      → Step y z
  quiet :
      (f : Session → Session) → IsQuiet f → z.session ≡ f y.session → z.tokens ≡ y.tokens → Step y z

-- Runs that stay below the end of the counter.
pub data Reach (y : System) : System → Type 0 where
  here : Reach y y
  next : {z w : System} → Reach y z → Step z w → z.session.index + 1 < u64_mod → Reach y w

abbrev pub initial : System
initial = record { session = new_session; tokens = [] }

-- How many flows may still write.
abbrev pub live : Session → List ℕ → ℕ
live s [] = 0
live s (t ∷ ts) = (if can_capture s t then 1 else 0) + live s ts

pub record IsExclusive (s : Session) (ts : List ℕ) : Type 0 where
  pub valid : IsValid s
  pub issued : All (λ t. t ≤ s.index) ts
  pub idle : s.state ≡ waiting → live s ts ≡ 0
  pub single : live s ts ≤ 1
