-- ===== src/Flow/Guest/Run/Phases.antt =====
-- The steps of a guest flow between its first transition and its last.
use terracotta_ffi.Base.{
  ℕ, ◌+◌, ◌*◌, ◌<◌, ◌≡◌, refl, ap, ◌∙◌, ◌⊎◌, inl, inr, Bool, true, false, List, [], ◌∷◌, Option,
  none, some, ◌==◌, length, Bytes, arith, Bool-cases,
}
use terracotta_ffi.EasyTier.{NatType, calc_conn_difficulty}
use terracotta_ffi.Emitter.{Emitter, emit, mutate, mutate_shared, set_exception}
use terracotta_ffi.Session.{
  Session, guest_starting, exception, EasyTier, SessionError, ping_host_fail, guest_easytier_crash,
  u64_mod, can_capture, commit, commit_shared,
}
use terracotta_ffi.Session.Tokens.{IsValid, commit_shared-IsValid, can_capture-commit_shared}
use terracotta_ffi.Flow.{unwrap_or, runs}
use terracotta_ffi.Flow.Guest.{
  Outcome, proceed, again, stopped, blocked, fail_with, first, verify_rounds, report, Handshake,
  is_fingerprint, verify_server, read_port, forward_minecraft,
}
use terracotta_ffi.Flow.Guest.Run.{◌>>=◌}

-- A flow between its first transition and its last, with the EasyTier that it started, a good token
-- and room for that many commits.
pub record IsStarting (easytier : EasyTier) (room : ℕ) (e : Emitter) (t : ℕ) : Type 0 where
  pub valid : IsValid e.session
  pub below : e.session.index + room < u64_mod
  pub good : can_capture e.session t ≡ true
  pub starting : e.session.state ≡ guest_starting
  pub started : e.session.easytier ≡ some easytier

-- The flow has raised one of its two exceptions.
abbrev pub IsFailed : Emitter → Type 0
IsFailed e =
    (e.session.state ≡ exception)
    × ((e.session.error ≡ some ping_host_fail) ⊎ (e.session.error ≡ some guest_easytier_crash))

-- A step goes on as `P` says, or has failed; it blocks only in a `Hazard`.
abbrev pub Ends : {A : Type 0} → Type 0 → (Emitter → A → Type 0) → Outcome A → Type 0
Ends Hazard P (proceed e a) = P e a
Ends Hazard P (again e) = ⊥
Ends Hazard P (stopped e) = IsFailed e
Ends Hazard P blocked = Hazard

-- The answer has two bytes, and the port is their number with the high byte first.
abbrev pub IsRead : Option Bytes → ℕ → Type 0
IsRead answer port = (hi : ℕ) × (lo : ℕ) × (answer ≡ some (hi ∷ lo ∷ [])) × (port ≡ hi * 256 + lo)

pub Ends->>= :
    {A B : Type 0} (Hazard : Type 0) (P : Emitter → A → Type 0) (Q : Emitter → B → Type 0)
    (m : Outcome A) (f : Emitter → A → Outcome B)
    → Ends Hazard P m
    → ((e : Emitter) (a : A) → P e a → Ends Hazard Q (f e a))
    → Ends Hazard Q (m >>= f)
Ends->>= Hazard P Q (proceed e a) f h k = k e a h
Ends->>= Hazard P Q (again e) f h k = h
Ends->>= Hazard P Q (stopped e) f h k = h
Ends->>= Hazard P Q blocked f h k = h

-- A step goes on as `P` says.
abbrev pub Goes : {A : Type 0} → (Emitter → A → Type 0) → Outcome A → Type 0
Goes P (proceed e a) = P e a
Goes P (again e) = ⊥
Goes P (stopped e) = ⊥
Goes P blocked = ⊥

pub Goes->>= :
    {A B : Type 0} (P : Emitter → A → Type 0) (Q : Emitter → B → Type 0) (m : Outcome A)
    (f : Emitter → A → Outcome B)
    → Goes P m
    → ((e : Emitter) (a : A) → P e a → Goes Q (f e a))
    → Goes Q (m >>= f)
Goes->>= P Q (proceed e a) f h k = k e a h
Goes->>= P Q (again e) f h k = h
Goes->>= P Q (stopped e) f h k = absurd h
Goes->>= P Q blocked f h k = h

pub Ends-Goes :
    {A : Type 0} (Hazard : Type 0) (P Q : Emitter → A → Type 0) (m : Outcome A)
    → Goes P m
    → ((e : Emitter) (a : A) → P e a → Q e a)
    → Ends Hazard Q m
Ends-Goes Hazard P Q (proceed e a) h k = k e a h
Ends-Goes Hazard P Q (again e) h k = h
Ends-Goes Hazard P Q (stopped e) h k = absurd h
Ends-Goes Hazard P Q blocked h k = absurd h

set_exception-state :
    (e : Emitter) (t : ℕ) (x : SessionError)
    → can_capture e.session t ≡ true
    → let s = (set_exception e t x).0.session in (s.state ≡ exception) × (s.error ≡ some x)
unfolding set_exception mutate emit commit
set_exception-state e t x good = rw good (refl, refl)

module _ (easytier : EasyTier) (t : ℕ) where
  pub crash-IsFailed :
      (n : ℕ) (e : Emitter)
      → IsStarting easytier n e t
      → IsFailed (set_exception e t guest_easytier_crash).0
  crash-IsFailed n e h =
      let (state, error) = set_exception-state e t guest_easytier_crash h.good in (state, inr error)

  pub lost-IsFailed :
      (n : ℕ) (e : Emitter)
      → IsStarting easytier n e t
      → IsFailed (set_exception e t ping_host_fail).0
  lost-IsFailed n e h =
      let (state, error) = set_exception-state e t ping_host_fail h.good in (state, inl error)

  -- The report of the difficulty is a shared commit.
  pub report_starts :
      (e : Emitter) (a b : NatType)
      → IsStarting easytier 2 e t
      → IsStarting easytier 1 (report e t a b) t
  unfolding mutate_shared emit commit_shared can_capture
  report_starts e a b h =
      let s : Session = record e.session { difficulty = some (calc_conn_difficulty a b) } in
      let v : IsValid s = record { sharing_le = h.valid.sharing_le; index_lt = h.valid.index_lt } in
      let room : s.index + 1 < u64_mod = omega (arith, h.below) in
      rw h.good (record {
        valid = commit_shared-IsValid s v room;
        below = omega (arith, h.below);
        good = can_capture-commit_shared s t v room ∙ h.good;
        starting = h.starting;
        started = h.started;
      })

  handshakes-Ends :
      (Hazard : Type 0) (hs : List Handshake) (e : Emitter)
      → IsStarting easytier 1 e t
      → Ends Hazard (λ e _. IsStarting easytier 1 e t) (verify_rounds hs t e)
  unfolding verify_rounds fail_with
  handshakes-Ends Hazard [] e h = lost-IsFailed 1 e h
  handshakes-Ends Hazard (x ∷ xs) e h = elim (Bool-cases (is_fingerprint x.pong)) [
    | inl f ↦ rw (f, verify_rounds) h
    | inr f ↦ elim (Bool-cases (x.alive easytier)) [
      | inl a ↦
          rw (f, verify_rounds, ap (runs x.alive) h.started ∙ a) (handshakes-Ends Hazard xs e h)
      | inr a ↦ rw (f, verify_rounds, ap (runs x.alive) h.started ∙ a) (crash-IsFailed 1 e h)
    ]
  ]

  pub verify-Ends :
      (Hazard : Type 0) (hs : ℕ → Handshake) (e : Emitter)
      → IsStarting easytier 1 e t
      → Ends Hazard (λ e _. IsStarting easytier 1 e t) (verify_server hs t e)
  unfolding verify_server
  verify-Ends Hazard hs e h = handshakes-Ends Hazard (first 60 hs) e h

  pub port-Ends :
      (Hazard : Type 0) (answer : Option Bytes) (e : Emitter)
      → IsStarting easytier 1 e t
      → Ends Hazard
          (λ e port. IsStarting easytier 1 e t × IsRead answer port)
          (read_port answer t e)
  unfolding read_port fail_with
  port-Ends Hazard none e h = lost-IsFailed 1 e h
  port-Ends Hazard (some []) e h = lost-IsFailed 1 e h
  port-Ends Hazard (some (hi ∷ [])) e h = lost-IsFailed 1 e h
  port-Ends Hazard (some (hi ∷ lo ∷ [])) e h = (h, (hi, lo, refl, omega arith))
  port-Ends Hazard (some (a ∷ b ∷ c ∷ bs)) e h =
      let long : (length (a ∷ b ∷ c ∷ bs) == 2) ≡ false = ground arith in
      rw (long, read_port) (lost-IsFailed 1 e h)

  pub forward-Ends :
      (Hazard : Type 0) (specific : Option ℕ) (fallback : ℕ) (forwarded : Bool) (e : Emitter)
      → (forwarded ≡ false → Hazard)
      → IsStarting easytier 1 e t
      → Ends Hazard
          (λ e port. IsStarting easytier 1 e t × (port ≡ unwrap_or specific fallback))
          (forward_minecraft specific fallback forwarded t e)
  unfolding forward_minecraft fail_with
  forward-Ends Hazard specific fallback true e lost h = rw (h.started, forward_minecraft) (h, refl)
  forward-Ends Hazard specific fallback false e lost h =
      rw (h.started, forward_minecraft) (lost refl)
