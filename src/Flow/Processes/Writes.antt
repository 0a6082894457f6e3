-- ===== src/Flow/Processes/Writes.antt =====
-- The other writes of the flows and of their monitors are steps that leave the EasyTier of the session.
use terracotta_ffi.Base.{
  ℕ, ◌+◌, ◌≡◌, refl, sym, ap, ◌∙◌, map, Text, inl, inr, List, [], ◌∷◌, leb, Bool-cases,
}
use terracotta_ffi.Session.{
  Session, SessionError, can_capture, commit, commit_shared, ping_server_rst,
}
use terracotta_ffi.Emitter.{
  Emitter, emit, transition, mutate, set_exception, commit_shared as emitter_commit_shared,
}
use terracotta_ffi.Event.{Event, player_left}
use terracotta_ffi.Flow.{runs, emit_all}
use terracotta_ffi.Flow.Host.{Tick, start_host, watch, monitor, evict}
use terracotta_ffi.Flow.Processes.Keeping.{Leaves}

pub set_exception-Leaves :
    (e : Emitter) (token : ℕ) (error : SessionError) → Leaves e (set_exception e token error).0
unfolding set_exception mutate emit commit
set_exception-Leaves e token error = elim (Bool-cases (can_capture e.session token)) [
  | inl c ↦ rw c (refl, (λ h. cc))
  | inr c ↦ rw c (refl, (λ h. h))
]

pub start_host-Leaves : (e : Emitter) (token port : ℕ) → Leaves e (start_host e token port).0
unfolding start_host transition emit commit
start_host-Leaves e token port = elim (Bool-cases (can_capture e.session token)) [
  | inl c ↦ rw c (refl, (λ h. cc))
  | inr c ↦ rw c (refl, (λ h. h))
]

emit_all_session : (e : Emitter) (evs : List Event) → (emit_all e evs).session ≡ e.session
unfolding emit_all emit
emit_all_session e [] = refl
emit_all_session e (ev ∷ evs) = emit_all_session (emit e ev) evs

-- The announcements of the guests that leave.
farewell-Leaves :
    (e e' : Emitter) (left : List Text)
    → Leaves e e'
    → Leaves e (elim left [
      | [] ↦ e'
      | m ∷ ms ↦ emit_all (emitter_commit_shared e' (λ s. s)) (map player_left (m ∷ ms))
    ])
unfolding emitter_commit_shared emit commit_shared
farewell-Leaves e e' [] l = l
farewell-Leaves e e' (m ∷ ms) l =
    let same = emit_all_session (emitter_commit_shared e' (λ s. s)) (map player_left (m ∷ ms)) in
    (
      ap (λ (x : Session). x.easytier) same ∙ l.0,
      (λ h. l.1 (sym (ap (λ (x : Session). x.state) same) ∙ h)),
    )

watch-Leaves :
    (tick : Tick) (token counter : ℕ) (e : Emitter) → Leaves e (watch tick token counter e).0
unfolding watch emit commit
watch-Leaves tick token counter e = elim (Bool-cases (can_capture e.session token)) [
  | inr c ↦ rw c (refl, (λ h. h))
  | inl c ↦ elim (Bool-cases (runs tick.alive e.session.easytier)) [
    | inr r ↦ rw (c, r) (refl, (λ h. cc))
    | inl r ↦
        rw (c, r)
          (farewell-Leaves e
            (record e {
              session = record e.session { profiles = (evict tick.now e.session.profiles).0 };
            })
            (evict tick.now e.session.profiles).1 (refl, (λ h. h)))
  ]
]

-- A round of a host's monitor.
pub monitor-Leaves :
    (tick : Tick) (token counter : ℕ) (e : Emitter) → Leaves e (monitor tick token counter e).0
unfolding monitor watch
monitor-Leaves tick token counter e = elim (Bool-cases tick.answers) [
  | inl a ↦ rw (monitor, a) (watch-Leaves tick token 0 e)
  | inr a ↦ elim (Bool-cases (leb 3 (counter + 1))) [
    | inl s ↦ rw (monitor, a, s) (set_exception-Leaves e token ping_server_rst)
    | inr s ↦ rw (monitor, a, s) (watch-Leaves tick token (counter + 1) e)
  ]
]
