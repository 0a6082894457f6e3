-- ===== src/Flow/Probe/Waits.antt =====
-- How long the wait for the Minecraft server takes.
use terracotta_ffi.Base.{
  ℕ, ◌+◌, ◌*◌, ◌≤◌, ◌≡◌, refl, ◌∙◌, inl, inr, Bool, true, false, ◌&&◌, List, [], ◌∷◌, if◌then◌else◌,
  length, All, arith, Bool-cases,
}
use terracotta_ffi.Flow.Probe.{Probe, is_kick, check_mc_conn, await_mc}

abbrev pub has_kick : Probe → Bool
has_kick p = p.connects && p.sends && is_kick p.received

-- When the answer is given.
abbrev pub answered_at : Probe → ℕ
answered_at p = p.finish + (check_mc_conn p).1

-- A probe succeeds exactly when a byte 0xFF comes back; it is answered at once then, and else at
-- least five seconds after its start, and no later than that or its own end.
check_mc_conn_lem :
    (p : Probe)
    → ((check_mc_conn p).0 ≡ has_kick p)
      × ((check_mc_conn p).0 ≡ true → answered_at p ≡ p.finish)
      × ((check_mc_conn p).0 ≡ false → p.start + 5000 ≤ answered_at p)
unfolding check_mc_conn
check_mc_conn_lem p = elim (Bool-cases (has_kick p)) [
  | inl k ↦ rw k (refl, λ h. omega arith, λ h. cc h)
  | inr k ↦ rw k (refl, λ h. cc h, λ h. omega arith)
]

abbrev any_kick : List Probe → Bool
any_kick [] = false
any_kick (p ∷ ps) = if has_kick p then true else any_kick ps

-- The probes of a thread, one after the other: each starts when the one before it is answered.
abbrev pub IsSequence : ℕ → List Probe → Type 0
IsSequence now [] = Unit
IsSequence now (p ∷ ps) = (now ≤ p.start) × (p.start ≤ p.finish) × IsSequence (answered_at p) ps

abbrev pub last_answer : ℕ → List Probe → ℕ
last_answer now [] = now
last_answer now (p ∷ ps) = last_answer (answered_at p) ps

-- If none of the probes of a thread gets the byte 0xFF, all of them are made, the wait reports no
-- success, and it ends no earlier than five seconds after it began for each probe.
pub await_mc_failed :
    (now : ℕ) (ps : List Probe)
    → IsSequence now ps
    → All (λ p. has_kick p ≡ false) ps
    → (await_mc ps ≡ (false, length ps)) × (now + 5000 * length ps ≤ last_answer now ps)
unfolding await_mc
await_mc_failed now [] order none_kicks = (refl, omega arith)
await_mc_failed now (p ∷ ps) order none_kicks =
    let (result, late) = await_mc_failed (answered_at p) ps order.2 none_kicks.1 in
    let (answer, kicked, waited) = check_mc_conn_lem p in
    let no : (check_mc_conn p).0 ≡ false = answer ∙ none_kicks.0 in
    let pause = waited no in (rw (no, result) refl, omega (arith, pause, late, order.0))
