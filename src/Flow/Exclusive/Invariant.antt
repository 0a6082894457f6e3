-- ===== src/Flow/Exclusive/Invariant.antt =====
-- One flow at most may write: the invariant of the transition system.
use terracotta_ffi.Base.{
  ℕ, zero, suc, ◌+◌, ◌≤◌, ◌<◌, ◌≡◌, refl, sym, ap, ◌∙◌, inl, inr, ◌≢◌, false, List, [], ◌∷◌,
  if◌then◌else◌, set, All, arith, Bool-cases,
}
use terracotta_ffi.Session.{
  Session, waiting, u64_mod, can_capture, commit, commit_shared as session_commit_shared,
  reset_to_waiting as session_reset_to_waiting, new_session,
}
use terracotta_ffi.Session.Tokens.{
  IsValid, commit_shared-IsValid, can_capture-commit, can_capture-commit_shared, commit-index,
  commit-state,
}
use terracotta_ffi.Emitter.{is_waiting}
use terracotta_ffi.Emitter.Writes.{waiting_of_is_waiting}
use terracotta_ffi.Flow.Exclusive.{
  System, Step, start, reset, advance, fail, share, quiet, Reach, here, next, initial, live,
  IsExclusive,
}

-- A commit, after which every token issued before is stale.
live-stale :
    (s z : Session) (ts : List ℕ)
    → ((u : ℕ) → u ≤ s.index → can_capture z u ≡ false)
    → All (λ t. t ≤ s.index) ts
    → live z ts ≡ 0
live-stale s z [] h a = refl
live-stale s z (t ∷ ts) h a = rw (h t a.0) (omega (arith, live-stale s z ts h a.1))

live-same :
    (s z : Session) (ts : List ℕ)
    → ((u : ℕ) → can_capture z u ≡ can_capture s u)
    → live z ts ≡ live s ts
live-same s z [] h = refl
live-same s z (t ∷ ts) h = rw (h t, live-same s z ts h)

-- One flow gets the new token.
live-set :
    (s z : Session) (ts : List ℕ) (i v : ℕ)
    → ((u : ℕ) → u ≤ s.index → can_capture z u ≡ false)
    → All (λ t. t ≤ s.index) ts
    → live z (set ts i v) ≤ 1
live-set s z [] i v h a = omega arith
live-set s z (t ∷ ts) zero v h a = elim (Bool-cases (can_capture z v)) [
  | inl e ↦ rw e (omega (arith, live-stale s z ts h a.1))
  | inr e ↦ rw e (omega (arith, live-stale s z ts h a.1))
]
live-set s z (t ∷ ts) (suc i) v h a = rw (h t a.0) (omega (arith, live-set s z ts i v h a.1))

All-le_mono : (n m : ℕ) (ts : List ℕ) → n ≤ m → All (λ t. t ≤ n) ts → All (λ t. t ≤ m) ts
All-le_mono n m [] h a = tt
All-le_mono n m (t ∷ ts) h a = (omega (arith, a.0), All-le_mono n m ts h a.1)

All-le-set :
    (m : ℕ) (ts : List ℕ) (i v : ℕ) → v ≤ m → All (λ t. t ≤ m) ts → All (λ t. t ≤ m) (set ts i v)
All-le-set m [] i v h a = tt
All-le-set m (t ∷ ts) zero v h a = (h, a.1)
All-le-set m (t ∷ ts) (suc i) v h a = (a.0, All-le-set m ts i v h a.1)

-- A commit of a session with the same counters.
module _ (s p : Session) (index_eq : p.index ≡ s.index) (room : s.index + 1 < u64_mod) where
  committed-index : (commit p).index ≡ s.index + 1
  committed-index = commit-index p (omega arith) ∙ ap (λ n. n + 1) index_eq

  committed-stale : (u : ℕ) → u ≤ s.index → can_capture (commit p) u ≡ false
  committed-stale u le = can_capture-commit p u (omega arith) ∙ ground arith

  committed-IsValid : IsValid (commit p)
  committed-IsValid = record {
    sharing_le = unfold commit in omega arith;
    index_lt = omega (arith, committed-index);
  }

-- A commit into an active state, with the flow's new token in place of its old one or in front.
start-IsExclusive :
    (s p : Session) (ts : List ℕ)
    → p.index ≡ s.index
    → s.index + 1 < u64_mod
    → p.state ≢ waiting
    → IsExclusive s ts
    → IsExclusive (commit p) ((commit p).index ∷ ts)
start-IsExclusive s p ts e room active x =
    let stale = live-stale s (commit p) ts (committed-stale s p e room) x.issued in
    record {
      valid = committed-IsValid s p e room;
      issued = (
        omega arith,
        All-le_mono s.index (commit p).index ts (omega (arith, committed-index s p e room))
            x.issued,
      );
      idle = λ w. absurd (active (sym (commit-state p) ∙ w));
      single = elim (Bool-cases (can_capture (commit p) (commit p).index)) [
        | inl c ↦ rw c (omega (arith, stale))
        | inr c ↦ rw c (omega (arith, stale))
      ];
    }

advance-IsExclusive :
    (s p : Session) (ts : List ℕ) (i : ℕ)
    → p.index ≡ s.index
    → s.index + 1 < u64_mod
    → p.state ≢ waiting
    → IsExclusive s ts
    → IsExclusive (commit p) (set ts i (commit p).index)
advance-IsExclusive s p ts i e room active x = record {
  valid = committed-IsValid s p e room;
  issued = All-le-set (commit p).index ts i (commit p).index (omega arith) (
      All-le_mono s.index (commit p).index ts (omega (arith, committed-index s p e room)) x.issued);
  idle = λ w. absurd (active (sym (commit-state p) ∙ w));
  single = live-set s (commit p) ts i (commit p).index (committed-stale s p e room) x.issued;
}

fail-IsExclusive :
    (s p : Session) (ts : List ℕ)
    → p.index ≡ s.index
    → s.index + 1 < u64_mod
    → IsExclusive s ts
    → IsExclusive (commit p) ts
fail-IsExclusive s p ts e room x =
    let stale = live-stale s (commit p) ts (committed-stale s p e room) x.issued in
    record {
      valid = committed-IsValid s p e room;
      issued =
          All-le_mono s.index (commit p).index ts (omega (arith, committed-index s p e room))
            x.issued;
      idle = λ w. stale;
      single = omega (arith, stale);
    }

reset-IsExclusive :
    (s : Session) (ts : List ℕ)
    → s.index + 1 < u64_mod
    → IsExclusive s ts
    → IsExclusive (session_reset_to_waiting s) ts
unfolding session_reset_to_waiting new_session
reset-IsExclusive s ts room x =
    fail-IsExclusive s (record new_session { index = s.index }) ts refl room x

quiet-IsExclusive :
    (s p : Session) (ts : List ℕ)
    → p.index ≡ s.index
    → p.sharing ≡ s.sharing
    → p.state ≡ s.state
    → IsExclusive s ts
    → IsExclusive p ts
unfolding can_capture
quiet-IsExclusive s p ts e f g x =
    let same = live-same s p ts (λ u. rw (e, f)) in
    record {
      valid = record { sharing_le = omega (arith, x.valid); index_lt = omega (arith, x.valid) };
      issued = rw e x.issued;
      idle = λ w. same ∙ x.idle (sym g ∙ w);
      single = omega (arith, same, x.single);
    }

share-IsExclusive :
    (s : Session) (ts : List ℕ)
    → s.index + 1 < u64_mod
    → IsExclusive s ts
    → IsExclusive (session_commit_shared s) ts
share-IsExclusive s ts room x =
    let same =
      live-same s (session_commit_shared s) ts (λ u. can_capture-commit_shared s u x.valid room) in
    record {
      valid = commit_shared-IsValid s x.valid room;
      issued =
          All-le_mono s.index (session_commit_shared s).index ts
            (unfold session_commit_shared in omega arith) x.issued;
      idle = λ w. same ∙ x.idle (unfold session_commit_shared in w);
      single = omega (arith, same, x.single);
    }

-- Every step keeps the invariant.
Step-IsExclusive :
    {y z : System}
    → Step y z
    → y.session.index + 1 < u64_mod
    → IsExclusive y.session y.tokens
    → IsExclusive z.session z.tokens
Step-IsExclusive {y} {z} (start state f q w active e t) room x =
    rw (t, e)
      (start-IsExclusive y.session (record (f y.session) { state = state }) y.tokens
        (q.index_eq y.session) room active x)
Step-IsExclusive {y} {z} (reset w e t) room x =
    rw (t, e) (reset-IsExclusive y.session y.tokens room x)
Step-IsExclusive {y} {z} (advance i u state f q at good active e t) room x =
    rw (t, e)
      (advance-IsExclusive y.session (record (f y.session) { state = state }) y.tokens i
        (q.index_eq y.session) room active x)
Step-IsExclusive {y} {z} (fail i u error at good e t) room x =
    rw (t, e) (fail-IsExclusive y.session _ y.tokens refl room x)
Step-IsExclusive {y} {z} (share f q e t) room x =
    rw (t, e)
      (share-IsExclusive (f y.session) y.tokens (omega (arith, q.index_eq y.session)) (
        quiet-IsExclusive y.session (f y.session) y.tokens (q.index_eq y.session)
          (q.sharing_eq y.session) (q.state_eq y.session) x))
Step-IsExclusive {y} {z} (quiet f q e t) room x =
    rw (t, e)
      (quiet-IsExclusive y.session (f y.session) y.tokens (q.index_eq y.session)
        (q.sharing_eq y.session) (q.state_eq y.session) x)

initial-IsExclusive : IsExclusive new_session []
unfolding new_session
initial-IsExclusive = record {
  valid = record { sharing_le = omega arith; index_lt = omega arith };
  issued = tt;
  idle = λ w. refl;
  single = omega arith;
}

Reach-IsExclusive : {z : System} → Reach initial z → IsExclusive z.session z.tokens
Reach-IsExclusive here = initial-IsExclusive
Reach-IsExclusive (next r st room) = Step-IsExclusive st room (Reach-IsExclusive r)

-- In every run from the initial session that stays below the end of the 64 bit counter, whatever
-- the order of steps of the command thread, the flows, their monitors and the handlers, one flow
-- at most may write to the session, and none may in the waiting state.
pub live-bound :
    (z : System)
    → Reach initial z
    → live z.session z.tokens ≤ (if is_waiting z.session.state then 0 else 1)
live-bound z r =
    let x = Reach-IsExclusive r in
    elim (Bool-cases (is_waiting z.session.state)) [
      | inl w ↦ rw w (omega (arith, x.idle (waiting_of_is_waiting z.session.state w)))
      | inr w ↦ rw w x.single
    ]
