-- ===== src/EasyTier/Output/Shown.antt =====
-- Which lines are logged, and in which order.
use terracotta_ffi.Base.{
  ℕ, zero, suc, ◌+◌, ◌-◌, ◌%◌, ◌≤◌, ◌<◌, ◌≡◌, refl, sym, ap, ap₂, ◌∙◌, inl, inr, List, [], ◌∷◌,
  ◌++◌, Option, none, some, map, length, take, drop, set, get_or, replicate, ltb, Text, append-nil,
  arith, Bool-cases, Option-cases, length-map, if◌then◌else◌,
}
use terracotta_ffi.EasyTier.Output.{
  Ring, new_ring, Received, value, disconnected, keep, collect, shown_from, shown,
}
use terracotta_ffi.EasyTier.Output.Lines.{
  somes, somes-some, somes-append, somes-replicate, drop-replicate, drop-behind, drop-map, take-map,
}
use terracotta_ffi.EasyTier.Output.Reads.{reads, reads-rotated}
use terracotta_ffi.Logging.Ring.{last}
use terracotta_ffi.EasyTier.Output.Rotation.{
  rotated, rotated-set, rotated-suc, rotated-length, length-set, push_all, push_all-drop,
}

-- A buffer of 500 places, and an index into it.
record IsRing (r : Ring) : Type 0 where
  size : length r.buffer ≡ 500
  bound : r.index < 500

-- The places from the next to be written on: the oldest line first.
view : Ring → List (Option Text)
view r = rotated r.index r.buffer

keep-IsRing : (line : Text) (r : Ring) → IsRing r → IsRing (keep line r)
unfolding keep
keep-IsRing line r w = record {
  size = length-set r.index r.buffer (some line) ∙ w.size;
  bound = omega arith;
}

keep-view :
    (line : Text) (r : Ring) → IsRing r → view (keep line r) ≡ drop 1 (view r) ++ some line ∷ []
unfolding keep view
keep-view line r w =
    let step = rotated-set r.index r.buffer (some line) (omega (arith, w.size, w.bound)) in
    elim (Bool-cases (ltb (r.index + 1) 500)) [
      | inl e ↦ let n : (r.index + 1) % 500 ≡ suc r.index = ground arith in rw n step
      | inr e ↦
          let last : suc r.index ≡ length (set r.buffer r.index (some line)) =
            ground (arith, w.bound, length-set r.index r.buffer (some line), w.size) in
          let n : (r.index + 1) % 500 ≡ 0 = ground (arith, w.bound) in
          let buffer = set r.buffer r.index (some line) in
          rw n (sym (rotated-length buffer) ∙ ap (λ i. rotated i buffer) (sym last) ∙ step)
    ]

-- A run of the process that prints these lines.
abbrev pub printed : List Text → List Received
printed [] = disconnected ∷ []
printed (line ∷ lines) = value line ∷ printed lines

collect-view :
    (lines : List Text) (r : Ring)
    → IsRing r
    → (view (collect (printed lines) r) ≡ push_all (view r) (map some lines))
      × IsRing (collect (printed lines) r)
unfolding collect
collect-view [] r w = (refl, w)
collect-view (line ∷ lines) r w =
    let rest = collect-view lines (keep line r) (keep-IsRing line r w) in
    (rest.0 ∙ ap (λ v. push_all v (map some lines)) (keep-view line r w), rest.1)

shown_from-reads :
    (n i : ℕ) (r : Ring) → shown_from n i r ≡ somes (reads n (r.index + 1 + i) r.buffer)
unfolding shown_from reads
shown_from-reads zero i r = refl
shown_from-reads (suc n) i r =
    let s : r.index + 1 + suc i ≡ suc (r.index + 1 + i) = omega arith in
    let rest : shown_from n (suc i) r ≡ somes (reads n (suc (r.index + 1 + i)) r.buffer) =
      shown_from-reads n (suc i) r ∙ ap (λ k. somes (reads n k r.buffer)) s in
    elim (Option-cases (get_or r.buffer ((r.index + 1 + i) % 500) none)) [
      | inl e ↦ rw (shown_from, e) rest
      | inr (line, e) ↦ rw (shown_from, e) (ap (◌∷◌ line) rest)
    ]

shown-view : (r : Ring) → IsRing r → shown r ≡ somes (drop 1 (view r) ++ take 1 (view r))
unfolding view
shown-view r w =
    let k : r.index + 1 + 0 ≡ suc r.index = omega arith in
    let read : shown r ≡ somes (reads 500 (r.index + 1 + 0) r.buffer) =
      unfold shown in shown_from-reads 500 0 r in
    read
    ∙ ap (λ i. somes (reads 500 i r.buffer)) k
    ∙ ap somes (reads-rotated (suc r.index) r.buffer (omega (arith, w.bound)) w.size)
    ∙ ap somes (rotated-suc r.index r.buffer none (omega (arith, w.size, w.bound)))

-- What the buffer holds after these lines, the oldest first.
after : List Text → List (Option Text)
after lines = drop (length lines) (replicate 500 none ++ map some lines)

new_ring-IsRing : IsRing new_ring
new_ring-IsRing = record { size = refl; bound = omega arith }

collect-after :
    (lines : List Text)
    → (view (collect (printed lines) new_ring) ≡ after lines)
      × IsRing (collect (printed lines) new_ring)
unfolding view after
collect-after lines =
    let run = collect-view lines new_ring new_ring-IsRing in
    let empty : view new_ring ≡ replicate 500 none = append-nil (replicate 500 none) in
    (
      run.0
          ∙ ap (λ v. push_all v (map some lines)) empty
          ∙ push_all-drop (replicate 500 none) (map some lines) (omega arith)
          ∙ ap (λ n. drop n (replicate 500 none ++ map some lines)) (length-map lines some),
      run.1,
    )

rotate_after : List (Option Text) → List Text
rotate_after v = somes (drop 1 v ++ take 1 v)

rotate_few : (lines : List Text) → length lines < 500 → rotate_after (after lines) ≡ lines
unfolding rotate_after after
rotate_few lines h =
    let m : ℕ = 499 - length lines in
    let e : 500 - length lines ≡ suc m = omega (arith, h) in
    let v : drop (length lines) (replicate 500 none ++ map some lines)
        ≡ none ∷ (replicate m none ++ map some lines) =
      drop-replicate (length lines) 500 (map some lines) (omega (arith, h))
      ∙ ap (λ k. replicate k none ++ map some lines) e in
    rw (v, somes-append, somes-append, somes-replicate, somes-some) (append-nil lines)

rotate_many :
    (lines : List Text)
    → 500 ≤ length lines
    → rotate_after (after lines) ≡ drop 1 (last 500 lines) ++ take 1 (last 500 lines)
unfolding rotate_after after
rotate_many lines h =
    let kept = last 500 lines in
    let v : drop (length lines) (replicate 500 none ++ map some lines) ≡ map some kept =
      drop-behind 500 (length lines) (map some lines) h ∙ drop-map (length lines - 500) lines in
    rw (v, drop-map 1 kept, take-map 1 kept, somes-append)
      (ap₂ (◌++◌) (somes-some (drop 1 kept)) (somes-some (take 1 kept)))

-- Fewer than 500 lines are all logged in order. Of 500 lines or more the last 500 are logged, with the
-- oldest of them behind the others.
pub shown-printed :
    (lines : List Text)
    → shown (collect (printed lines) new_ring) ≡ (
        if ltb (length lines) 500
        then lines
        else drop 1 (last 500 lines) ++ take 1 (last 500 lines))
unfolding rotate_after
shown-printed lines =
    let run = collect-after lines in
    let e : shown (collect (printed lines) new_ring) ≡ rotate_after (after lines) =
      shown-view (collect (printed lines) new_ring) run.1 ∙ ap rotate_after run.0 in
    elim (Bool-cases (ltb (length lines) 500)) [
      | inl t ↦ rw t (e ∙ rotate_few lines (ground (arith, t)))
      | inr t ↦ rw t (e ∙ rotate_many lines (ground (arith, t)))
    ]
