-- ===== src/Flow/Guest/Refresh/Accepted.antt =====
-- A guest accepts every list of players that a ready host sends.
use terracotta_ffi.Base.{
  ℕ, ◌≡◌, refl, sym, ap, ap₂, subst, ◌∙◌, inl, inr, true, false, List, [], ◌∷◌, ◌++◌, some, map,
  if◌then◌else◌, Text, codes, text_eq, arith, Bool-cases,
}
use mathlib.Core.Option.{some-injective}
use terracotta_ffi.Flow.Guest.Refresh.Distinct.{
  IsNew, IsDistinct, sort-no_conflict, append-IsDistinct,
}
use terracotta_ffi.Json.{Items, cons, arr}
use terracotta_ffi.Profile.{Profile}
use terracotta_ffi.Protocols.{profile_entry, list_profiles}
use terracotta_ffi.Protocols.Players.{Players, IsAbsent, HasDistinctIds, IsHostList, IsRoster}
use terracotta_ffi.Flow.Guest.Refresh.Reading.{
  read_items, sort, has_no_conflict, finish_listing, read_profiles,
}
use terracotta_ffi.Flow.Guest.Refresh.Entry.{
  seen, is_listed, entries_of, listed, list_profiles-guests, read_items-cons, read_items-guests,
  read_item-host,
}

-- The host's list in the eyes of a guest, who adds itself if it is not listed.
unfoldable pub guest_view : Profile → Players → List Profile
guest_view own ps =
    let others = map (seen own.machine_id) ps in
    if is_listed own.machine_id ps then others else others ++ own ∷ []

seen-machine_id : (own : Text) (x : ℕ × Profile) → (seen own x).machine_id ≡ x.1.machine_id
seen-machine_id own x = elim (Bool-cases (text_eq x.1.machine_id own)) [
  | inl e ↦ rw e refl
  | inr e ↦ rw e refl
]

seen-IsNew : (own m : Text) (ps : Players) → IsAbsent m ps → IsNew m (map (seen own) ps)
seen-IsNew own m [] a = tt
seen-IsNew own m (x ∷ ps) a =
    (ap (λ i. text_eq i m) (seen-machine_id own x) ∙ a.0, seen-IsNew own m ps a.1)

seen-IsDistinct : (own : Text) (ps : Players) → HasDistinctIds ps → IsDistinct (map (seen own) ps)
seen-IsDistinct own [] d = tt
seen-IsDistinct own (x ∷ ps) d = (
  subst (λ m. IsNew m (map (seen own) ps)) (sym (seen-machine_id own x))
      (seen-IsNew own x.1.machine_id ps d.0),
  seen-IsDistinct own ps d.1,
)

listed-IsAbsent : (own : Text) (ps : Players) → is_listed own ps ≡ false → IsAbsent own ps
listed-IsAbsent own [] h = tt
listed-IsAbsent own (x ∷ ps) h = (ground (arith, h), listed-IsAbsent own ps (ground (arith, h)))

guest_view-IsDistinct :
    (own : Profile) (ps : Players) → HasDistinctIds ps → IsDistinct (guest_view own ps)
unfolding guest_view
guest_view-IsDistinct own ps d =
    let others = seen-IsDistinct own.machine_id ps d in
    elim (Bool-cases (is_listed own.machine_id ps)) [
      | inl e ↦ rw e others
      | inr e ↦ rw e (
          append-IsDistinct (map (seen own.machine_id) ps) own
            (seen-IsNew own.machine_id own.machine_id ps (listed-IsAbsent own.machine_id ps e))
            others)
    ]

finish_listing-view :
    (own : Profile) (ps : Players)
    → HasDistinctIds ps
    → finish_listing own (listed (map (seen own.machine_id) ps) (is_listed own.machine_id ps))
      ≡ some (sort (guest_view own ps))
unfolding finish_listing guest_view
finish_listing-view own ps d =
    let fine : has_no_conflict (sort (guest_view own ps)) ≡ true =
      sort-no_conflict (guest_view own ps) (guest_view-IsDistinct own ps d) in
    rw fine refl

list_profiles-host :
    (p : Profile) (t : ℕ) (gs : Players)
    → IsHostList ((t, p) ∷ gs)
    → list_profiles ((t, p) ∷ gs)
      ≡ some (cons (profile_entry (codes "HOST") p) (entries_of (codes "GUEST") gs))
unfolding list_profiles
list_profiles-host p t gs w = rw (w.0, list_profiles-guests gs w.1) refl

-- What the loop has read at the end of a host's list.
read_items-host :
    (own p : Profile) (t : ℕ) (gs : Players)
    → IsRoster ((t, p) ∷ gs)
    → text_eq p.machine_id own.machine_id ≡ false
    → let ps : Players = (t, p) ∷ gs in
      read_items own.machine_id
        (record { profiles = []; host_seen = false; local_seen = false })
        (cons (profile_entry (codes "HOST") p) (entries_of (codes "GUEST") gs))
      ≡ some (listed (map (seen own.machine_id) ps) (is_listed own.machine_id ps))
read_items-host own p t gs r other =
    let id : Text = own.machine_id in
    let first =
      read_items-cons id (record { profiles = []; host_seen = false; local_seen = false })
        (profile_entry (codes "HOST") p) (entries_of (codes "GUEST") gs)
        (read_item-host id p other r.host_first.0) in
    let same : p ≡ seen id (t, p) = rw other refl in
    first
    ∙ read_items-guests id (p ∷ []) false gs r.host_first.1 r.distinct.1 refl
    ∙ ap₂ (λ q b. some (listed (q ∷ map (seen id) gs) b)) same (ground (arith, other))

-- A guest accepts the list that a host makes of its players, and reads from it every one of them
-- in the order of the machine ids: itself as the local player, and the others as they are. The host's
-- list is well formed, and the host is another player than the guest.
pub read_profiles-list_profiles :
    (own p : Profile) (t : ℕ) (gs : Players) (items : Items)
    → IsRoster ((t, p) ∷ gs)
    → text_eq p.machine_id own.machine_id ≡ false
    → list_profiles ((t, p) ∷ gs) ≡ some items
    → read_profiles own (arr items) ≡ some (sort (guest_view own ((t, p) ∷ gs)))
unfolding read_profiles
read_profiles-list_profiles own p t gs items r other h =
    let ps : Players = (t, p) ∷ gs in
    let same : cons (profile_entry (codes "HOST") p) (entries_of (codes "GUEST") gs) ≡ items =
      some-injective _ _ (sym (list_profiles-host p t gs r.host_first) ∙ h) in
    let read = read_items-host own p t gs r other in
    rw (sym same, read) (finish_listing-view own ps r.distinct)
