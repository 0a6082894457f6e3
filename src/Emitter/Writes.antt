-- ===== src/Emitter/Writes.antt =====
-- What the guarded writes of an emitter do, with a good token and with a stale one.
use terracotta_ffi.Base.{
  ℕ, ◌+◌, ◌%◌, ◌<◌, ◌≡◌, refl, ap, ◌∙◌, ◌⊎◌, inl, inr, Bool-cases, true, false, none, some, leb,
  arith,
}
use terracotta_ffi.Session.{
  Session, SessionStateId, waiting, SessionError, u64_mod, version, can_capture, commit,
  reset_to_waiting as session_reset_to_waiting, new_session,
}
use terracotta_ffi.Session.Tokens.{
  IsValid, can_capture-commit, can_capture-reset, commit-index, commit-state,
}
use terracotta_ffi.Emitter.{
  Emitter, emit, transition, mutate, mutate_shared, set_exception, reset_to_waiting, is_waiting,
}

-- With a stale token no write changes anything, and each reports that.
pub stale_writes :
    (e : Emitter) (t : ℕ) (f : Session → Session × SessionStateId) (g : Session → Session)
    (x : SessionError)
    → can_capture e.session t ≡ false
    → (transition e t f ≡ (e, none))
      × (mutate e t g ≡ (e, false))
      × (mutate_shared e t g ≡ (e, false))
      × (set_exception e t x ≡ (e, false))
unfolding transition mutate mutate_shared set_exception
stale_writes e t f g x h = (rw h, rw h, rw h, rw h)

-- A write of a flow leaves the counters to `commit`.
abbrev pub KeepsCounters : (Session → Session × SessionStateId) → Type 0
KeepsCounters f = (s : Session) → ((f s).0.index ≡ s.index) × ((f s).0.sharing ≡ s.sharing)

-- In a valid session below the end of the counter, a transition with a good token, by a function
-- that leaves the counters alone, enters the state that the function names and hands out the next
-- token, which is good while every one before it is not.
pub transition_lem :
    (e : Emitter) (t : ℕ) (f : Session → Session × SessionStateId)
    → KeepsCounters f
    → IsValid e.session
    → e.session.index + 1 < u64_mod
    → can_capture e.session t ≡ true
    → let r = transition e t f in
      let v = e.session.index + 1 in
      (r.1 ≡ some v)
      × (r.0.session.state ≡ (f e.session).1)
      × ((u : ℕ) → can_capture r.0.session u ≡ leb v u)
unfolding transition emit version
transition_lem e t f k v h c =
    let s' : Session = record (f e.session).0 { state = (f e.session).1 } in
    let fresh : s'.index + 1 < u64_mod = omega (arith, k e.session) in
    let next : (commit s').index ≡ e.session.index + 1 =
      commit-index s' fresh ∙ ap (λ n. n + 1) (k e.session).0 in
    rw c
      (ap some next, commit-state s', λ u. can_capture-commit s' u fresh ∙ rw (k e.session).0 refl)

pub waiting_of_is_waiting : (s : SessionStateId) → is_waiting s ≡ true → s ≡ waiting
waiting_of_is_waiting s h = ground arith

reset_session :
    (s : Session)
    → s.index + 1 < u64_mod
    → session_reset_to_waiting s ≡ record new_session { index = s.index + 1 }
unfolding session_reset_to_waiting new_session
reset_session s h = let e : (s.index + 1) % u64_mod ≡ s.index + 1 = omega arith in rw e

-- In a valid session below the end of the counter, a reset does nothing in the waiting state. In
-- any other it leaves an empty session one commit further on, sends one event, and revokes every
-- token handed out before.
pub reset_to_waiting_lem :
    (e : Emitter)
    → IsValid e.session
    → e.session.index + 1 < u64_mod
    → let r = reset_to_waiting e in
      ((e.session.state ≡ waiting) × (r ≡ (e, false)))
      ⊎ ((r.1 ≡ true)
          × (r.0.session ≡ record new_session { index = e.session.index + 1 })
          × (r.0.next_seq ≡ (e.next_seq + 1) % u64_mod)
          × ((u : ℕ) → can_capture r.0.session u ≡ leb (e.session.index + 1) u))
unfolding reset_to_waiting emit version
reset_to_waiting_lem e v h = elim (Bool-cases (is_waiting e.session.state)) [
  | inl w ↦ inl (waiting_of_is_waiting e.session.state w, rw w)
  | inr w ↦ rw w (inr (refl, reset_session e.session h, refl, λ u. can_capture-reset e.session u h))
]
