-- ===== src/Flow/Host/Eviction.antt =====
-- Who leaves a host's list.
use terracotta_ffi.Base.{
  ℕ, ◌≡◌, refl, sym, ap, Bool, false, not, List, [], ◌∷◌, map, All, Text, if◌then◌else◌, arith,
  text_eq, Bool-cases, inl, inr,
}
use terracotta_ffi.Profile.{Profile, guest}
use terracotta_ffi.Protocols.Players.{Players, IsRoster, HasDistinctIds}
use terracotta_ffi.Flow.Host.{has_expired, evict_guests, evict}
use mathlib.Core.List.{reverse, reverse-cons}

-- The plain filter that the loop amounts to.
abbrev pub keep_if : (ℕ × Profile → Bool) → Players → Players
keep_if f [] = []
keep_if f (x ∷ xs) = if f x then x ∷ keep_if f xs else keep_if f xs

abbrev pub ids : Players → List Text
ids = map (λ x. x.1.machine_id)

-- The host stays; of the others exactly those stay whose last ping is less than ten seconds old, in
-- their order, and the machine ids of the rest are reported from the last to the first.
pub evict_lem :
    (now t : ℕ) (p : Profile) (ps : Players)
    → evict now ((t, p) ∷ ps) ≡ (
      (t, p) ∷ keep_if (λ x. not (has_expired now x)) ps,
      reverse (ids (keep_if (has_expired now) ps)),
    )
unfolding evict
evict_lem now t p ps = ap (λ (r : Players × List Text). ((t, p) ∷ r.0, r.1)) (guests ps)
  where
    guests :
        (ps : Players)
        → evict_guests now ps ≡ (
          keep_if (λ x. not (has_expired now x)) ps,
          reverse (ids (keep_if (has_expired now) ps)),
        )
    guests [] = refl
    guests (x ∷ ps) = elim (Bool-cases (has_expired now x)) [
      | inl e ↦
          rw (e, guests ps)
            (ap (λ (l : List Text). (keep_if (λ x. not (has_expired now x)) ps, l))
              (sym (reverse-cons x.1.machine_id (ids (keep_if (has_expired now) ps)))))
      | inr e ↦ rw (e, guests ps)
    ]

keep_if-All :
    (P : ℕ × Profile → Type 0) (f : ℕ × Profile → Bool) (ps : Players)
    → All P ps
    → All P (keep_if f ps)
keep_if-All P f [] a = tt
keep_if-All P f (x ∷ ps) a = ground (arith, keep_if-All P f ps a.1)

keep_if-distinct :
    (f : ℕ × Profile → Bool) (ps : Players) → HasDistinctIds ps → HasDistinctIds (keep_if f ps)
keep_if-distinct f [] d = tt
keep_if-distinct f ((t, p) ∷ ps) d = ground (
  arith,
  keep_if-distinct f ps d.1,
  keep_if-All (λ x. text_eq x.1.machine_id p.machine_id ≡ false) f ps d.0,
)

-- Eviction of a list with the host first, guests behind it and distinct machine ids leaves such a
-- list.
pub evict-IsRoster : (now : ℕ) (ps : Players) → IsRoster ps → IsRoster (evict now ps).0
evict-IsRoster now [] r = absurd r.host_first
evict-IsRoster now ((t, p) ∷ ps) r = rw (evict_lem now t p ps) (record {
  host_first = (r.host_first.0, keep_if-All (λ x. x.1.kind ≡ guest) _ ps r.host_first.1);
  distinct = (
    keep_if-All (λ x. text_eq x.1.machine_id p.machine_id ≡ false) _ ps r.distinct.0,
    keep_if-distinct _ ps r.distinct.1,
  );
})
