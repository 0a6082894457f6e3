-- ===== src/Flow/Guest/Refresh/Covering.antt =====
-- No player of the host's list is missing from the session after a merge.
use terracotta_ffi.Base.{
  ℕ, ◌≡◌, refl, subst, sym, ap, ◌∙◌, inl, inr, ◌⊎◌, true, false, not, ◌&&◌, List, [], ◌∷◌, ◌++◌,
  append_assoc, map, All, Bool-cases, arith,
}
use terracotta_ffi.Profile.{Profile, local}
use terracotta_ffi.Flow.Guest.Refresh.{Entries, same_kind, merge, newcomers}
use terracotta_ffi.Flow.Guest.Refresh.Served.{IsUnder, IsServed, IsCovering, step-IsCovering}
use terracotta_ffi.Flow.Guest.Refresh.Merging.{listed, merge-listed, same_kind-eq}

-- The entries at the start of a merge.
abbrev pub unused : List Profile → Entries
unused server = map (λ p. (false, p)) server

unused-IsServed : (server : List Profile) → All (IsServed []) (unused server)
unfolding IsServed
unused-IsServed [] = tt
unused-IsServed (p ∷ ps) = (inl refl, unused-IsServed ps)

merge-IsCovering :
    (server : List Profile) (xs : List (ℕ × Profile)) → IsCovering (merge (unused server) xs)
unfolding merge IsCovering
merge-IsCovering server [] = unused-IsServed server
merge-IsCovering server (x ∷ xs) =
    step-IsCovering (merge (unused server) xs).invalid x.1.kind x (merge (unused server) xs) refl
      (merge-IsCovering server xs)

left-IsUnder : (p : Profile) (xs ys : List (ℕ × Profile)) → IsUnder p xs → IsUnder p (xs ++ ys)
left-IsUnder p [] ys h = elim h [ ]
left-IsUnder p (x ∷ xs) ys (inl e) = inl e
left-IsUnder p (x ∷ xs) ys (inr h) = inr (left-IsUnder p xs ys h)

right-IsUnder : (p : Profile) (xs ys : List (ℕ × Profile)) → IsUnder p ys → IsUnder p (xs ++ ys)
right-IsUnder p [] ys h = h
right-IsUnder p (x ∷ xs) ys h = inr (right-IsUnder p xs ys h)

abbrev arrive : ℕ → Profile → ℕ × Profile
arrive now p = (now, p)

-- The profiles that a merge adds at the end.
abbrev pub arrivals : ℕ → Entries → List (ℕ × Profile)
arrivals now es = map (arrive now) (newcomers es)

-- The guest itself, or a profile that the session has.
abbrev pub IsPresent : List (ℕ × Profile) → Profile → Type 0
IsPresent xs p = (p.kind ≡ local) ⊎ IsUnder p xs

more-IsPresent :
    (xs ys : List (ℕ × Profile)) (ps : List Profile)
    → All (IsPresent xs) ps
    → All (IsPresent (xs ++ ys)) ps
more-IsPresent xs ys [] a = tt
more-IsPresent xs ys (p ∷ ps) (inl k, a) = (inl k, more-IsPresent xs ys ps a)
more-IsPresent xs ys (p ∷ ps) (inr h, a) = (inr (left-IsUnder p xs ys h), more-IsPresent xs ys ps a)

map-last :
    (now : ℕ) (p : Profile) (rest : List Profile)
    → map (arrive now) (rest ++ p ∷ []) ≡ map (arrive now) rest ++ (now, p) ∷ []
map-last now p [] = refl
map-last now p (q ∷ rest) = ap (λ l. (now, q) ∷ l) (map-last now p rest)

arrivals-last :
    (now : ℕ) (p : Profile) (xs : List (ℕ × Profile)) (rest : List Profile)
    → xs ++ map (arrive now) (rest ++ p ∷ []) ≡ (xs ++ map (arrive now) rest) ++ (now, p) ∷ []
arrivals-last now p xs rest =
    ap (λ (l : List (ℕ × Profile)). xs ++ l) (map-last now p rest)
    ∙ sym (append_assoc xs (map (arrive now) rest) ((now, p) ∷ []))

listed-unused : (server : List Profile) → listed (unused server) ≡ server
listed-unused [] = refl
listed-unused (p ∷ ps) = ap (λ l. p ∷ l) (listed-unused ps)

arrivals-IsPresent :
    (now : ℕ) (xs : List (ℕ × Profile)) (es : Entries)
    → All (IsServed xs) es
    → All (IsPresent (xs ++ arrivals now es)) (listed es)
unfolding newcomers IsServed
arrivals-IsPresent now xs [] a = tt
arrivals-IsPresent now xs ((u, p) ∷ es) (s, a) =
    elim (Bool-cases (not u && not (same_kind p.kind local))) [
      | inl w ↦
          let zs : List (ℕ × Profile) = xs ++ arrivals now es in
          let same : xs ++ arrivals now ((u, p) ∷ es) ≡ zs ++ (now, p) ∷ [] =
            rw (w, newcomers) (arrivals-last now p xs (newcomers es)) in
          subst (λ l. All (IsPresent l) (p ∷ listed es)) (sym same)
            (
              inr (right-IsUnder p zs ((now, p) ∷ []) (inl (refl, refl, refl))),
              more-IsPresent zs ((now, p) ∷ []) (listed es) (arrivals-IsPresent now xs es a),
            )
      | inr w ↦
          let here : IsPresent (xs ++ arrivals now es) p = elim s [
            | inl v ↦
                let l : same_kind p.kind local ≡ true = ground arith in
                inl (same_kind-eq p.kind local l)
            | inr h ↦ inr (left-IsUnder p xs (arrivals now es) h)
          ] in
          let same : arrivals now ((u, p) ∷ es) ≡ arrivals now es = rw (w, newcomers) refl in
          subst (λ l. All (IsPresent (xs ++ l)) (p ∷ listed es)) (sym same)
            (here, arrivals-IsPresent now xs es a)
    ]

-- After a merge, whether it broke off or not, every player of the server's list but the guest itself is
-- in the session or among the newcomers, under the name and the kind that the server gives it.
pub merge-IsPresent :
    (server : List Profile) (xs : List (ℕ × Profile)) (now : ℕ)
    → let m = merge (unused server) xs in
      All (IsPresent (m.profiles ++ arrivals now m.entries)) server
unfolding merge IsCovering
merge-IsPresent server xs now =
    let m = merge (unused server) xs in
    subst (All (IsPresent (m.profiles ++ arrivals now m.entries)))
      (merge-listed (unused server) xs ∙ listed-unused server)
      (arrivals-IsPresent now m.profiles m.entries (merge-IsCovering server xs))
