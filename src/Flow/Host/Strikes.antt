-- ===== src/Flow/Host/Strikes.antt =====
-- When the host's monitor gives up.
use terracotta_ffi.Base.{
  ℕ, ◌+◌, ◌≤◌, ◌<◌, ◌≡◌, refl, ◌⊎◌, inl, inr, true, false, ◌&&◌, none, some, leb, arith, Bool-cases,
}
use terracotta_ffi.Emitter.{Emitter, set_exception, emit}
use terracotta_ffi.Session.{exception, ping_server_rst, host_easytier_crash, can_capture, commit}
use terracotta_ffi.Flow.{runs}
use terracotta_ffi.Flow.Host.{Tick, watch, monitor}

watch-counter :
    (tick : Tick) (token counter : ℕ) (e : Emitter) {c : ℕ}
    → (watch tick token counter e).1 ≡ some c
    → c ≡ counter
unfolding watch
watch-counter tick token counter e h = ground arith

-- The monitor goes on only with a counter below three: none after an answer, one more after a failure.
pub monitor-counter :
    (tick : Tick) (token counter : ℕ) (e : Emitter) {c : ℕ}
    → (monitor tick token counter e).1 ≡ some c
    → ((tick.answers ≡ true) × (c ≡ 0)) ⊎ ((tick.answers ≡ false) × (c ≡ counter + 1) × (c < 3))
unfolding monitor watch
monitor-counter tick token counter e h = elim (Bool-cases tick.answers) [
  | inl a ↦ inl (a, watch-counter tick token 0 e (rw a at h))
  | inr a ↦ elim (Bool-cases (leb 3 (counter + 1))) [
    | inl t ↦ cc (rw (a, t) at h)
    | inr t ↦
        let next = watch-counter tick token (counter + 1) e (rw (a, t) at h) in
        inr (a, next, ground (arith, next))
  ]
]

-- A round without an answer after two others ends the thread. With a good token it ends the
-- session with `PingServerRst`, and with a stale one the session stays as it is.
pub monitor-third_strike :
    (tick : Tick) (token counter : ℕ) (e : Emitter)
    → tick.answers ≡ false
    → 2 ≤ counter
    → let r = monitor tick token counter e in
      (r.1 ≡ none)
      × (((can_capture e.session token ≡ true)
            × (r.0.session.state ≡ exception)
            × (r.0.session.error ≡ some ping_server_rst))
          ⊎ ((can_capture e.session token ≡ false) × (r.0 ≡ e)))
unfolding monitor set_exception commit emit
monitor-third_strike tick token counter e a h =
    let t : leb 3 (counter + 1) ≡ true = ground arith in
    elim (Bool-cases (can_capture e.session token)) [
      | inl c ↦ rw (a, t, c) (refl, inl (refl, refl, refl))
      | inr c ↦ rw (a, t, c) (refl, inr (refl, refl))
    ]

-- A round with an answering server and a stale token or a dead EasyTier ends the thread. With a
-- stale token the session stays as it is, and with a good one the session ends with
-- `HostEasytierCrash`.
pub monitor-watches :
    (tick : Tick) (token counter : ℕ) (e : Emitter)
    → tick.answers ≡ true
    → can_capture e.session token && runs tick.alive e.session.easytier ≡ false
    → let r = monitor tick token counter e in
      (r.1 ≡ none)
      × (((can_capture e.session token ≡ false) × (r.0 ≡ e))
          ⊎ ((can_capture e.session token ≡ true)
              × (r.0.session.state ≡ exception)
              × (r.0.session.error ≡ some host_easytier_crash)))
unfolding monitor watch commit emit
monitor-watches tick token counter e a h = elim (Bool-cases (can_capture e.session token)) [
  | inl c ↦
      let d : runs tick.alive e.session.easytier ≡ false = rw c at h in
      rw (a, c, d) (refl, inr (refl, refl, refl))
  | inr c ↦ rw (a, c) (refl, inl (refl, refl))
]
