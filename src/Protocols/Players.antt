-- ===== src/Protocols/Players.antt =====
-- The list of players that a host keeps: its shape, and what c:player_ping does to it.
use terracotta_ffi.Base.{
  ℕ, zero, suc, ◌≡◌, refl, inl, inr, false, List, [], ◌∷◌, ◌++◌, codes, Option, none, some, All,
  All-append, Text, text_eq, text_eq_sym, Bool-cases, Option-cases, map,
}
use terracotta_ffi.Json.{Items, nil, cons}
use terracotta_ffi.Profile.{Profile, host, guest}
use terracotta_ffi.Protocols.{position, touch, player_action, list_profiles, profile_entry}

abbrev pub Players : Type 0
Players = List (ℕ × Profile)

-- The host's own profile first, guests behind it.
abbrev pub IsHostList : Players → Type 0
IsHostList [] = ⊥
IsHostList ((t, p) ∷ ps) = (p.kind ≡ host) × All (λ x. x.1.kind ≡ guest) ps

-- No two profiles share a machine id.
abbrev pub IsAbsent : Text → Players → Type 0
IsAbsent m ps = All (λ x. text_eq x.1.machine_id m ≡ false) ps

abbrev pub HasDistinctIds : Players → Type 0
HasDistinctIds [] = Unit {0}
HasDistinctIds ((t, p) ∷ ps) = IsAbsent p.machine_id ps × HasDistinctIds ps

pub record IsRoster (ps : Players) : Type 0 where
  pub host_first : IsHostList ps
  pub distinct : HasDistinctIds ps

position-none : (m : Text) (ps : Players) → position m ps ≡ none → IsAbsent m ps
unfolding position
position-none m [] h = tt
position-none m ((t, p) ∷ ps) h = elim (Bool-cases (text_eq p.machine_id m)) [
  | inl e ↦ cc (rw e at h)
  | inr e ↦ elim (Option-cases (position m ps)) [
    | inl n ↦ (e, position-none m ps n)
    | inr (i, n) ↦ cc (rw (e, n) at h)
  ]
]

-- Appending a profile with a new machine id.
append-distinct :
    (ps : Players) (t : ℕ) (p : Profile)
    → IsAbsent p.machine_id ps
    → HasDistinctIds ps
    → HasDistinctIds (ps ++ (t, p) ∷ [])
append-distinct [] t p a d = (tt, tt)
append-distinct ((u, q) ∷ ps) t p a d = (
  All-append (λ x. text_eq x.1.machine_id q.machine_id ≡ false) ps ((t, p) ∷ []) d.0
      (text_eq_sym q.machine_id p.machine_id a.0, tt),
  append-distinct ps t p a.1 d.1,
)

append-IsHostList :
    (ps : Players) (t : ℕ) (p : Profile)
    → p.kind ≡ guest
    → IsHostList ps
    → IsHostList (ps ++ (t, p) ∷ [])
append-IsHostList [] t p g h = elim h [ ]
append-IsHostList ((u, q) ∷ ps) t p g h =
    (h.0, All-append (λ x. x.1.kind ≡ guest) ps ((t, p) ∷ []) h.1 (g, tt))

-- Renaming keeps every machine id and every kind.
ids : Players → List Text
ids = map (λ x. x.1.machine_id)

touch-All :
    (P : Text → Type 0) (now : ℕ) (name : Text) (i : ℕ) (ps : Players)
    → All (λ x. P x.1.machine_id) ps
    → All (λ x. P x.1.machine_id) (touch now name i ps)
unfolding touch
touch-All P now name i [] a = tt
touch-All P now name zero ((t, p) ∷ ps) a = a
touch-All P now name (suc i) (x ∷ ps) a = (a.0, touch-All P now name i ps a.1)

touch-All_kind :
    (now : ℕ) (name : Text) (i : ℕ) (ps : Players)
    → All (λ x. x.1.kind ≡ guest) ps
    → All (λ x. x.1.kind ≡ guest) (touch now name i ps)
unfolding touch
touch-All_kind now name i [] a = tt
touch-All_kind now name zero ((t, p) ∷ ps) a = a
touch-All_kind now name (suc i) (x ∷ ps) a = (a.0, touch-All_kind now name i ps a.1)

touch-distinct :
    (now : ℕ) (name : Text) (i : ℕ) (ps : Players)
    → HasDistinctIds ps
    → HasDistinctIds (touch now name i ps)
unfolding touch
touch-distinct now name i [] d = tt
touch-distinct now name zero ((t, p) ∷ ps) d = d
touch-distinct now name (suc i) ((t, p) ∷ ps) d = (
  touch-All (λ m. text_eq m p.machine_id ≡ false) now name i ps d.0,
  touch-distinct now name i ps d.1,
)

touch-IsHostList :
    (now : ℕ) (name : Text) (i : ℕ) (ps : Players)
    → IsHostList ps
    → IsHostList (touch now name (suc i) ps)
unfolding touch
touch-IsHostList now name i [] h = h
touch-IsHostList now name i ((t, p) ∷ ps) h = (h.0, touch-All_kind now name i ps h.1)

-- A ping of a player on a list with the host first, guests behind it and distinct machine ids
-- leaves such a list.
pub player_action-IsRoster :
    (now : ℕ) (name machine_id vendor : Text) (ps : Players)
    → IsRoster ps
    → IsRoster (player_action now name machine_id vendor ps).0
unfolding player_action
player_action-IsRoster now name m vendor ps r = go (position m ps) refl
  where
    go : (o : Option ℕ) → position m ps ≡ o → IsRoster (player_action now name m vendor ps).0
    go none e =
        rw (e, player_action)
          (record {
            host_first = append-IsHostList ps now _ refl r.host_first;
            distinct = append-distinct ps now _ (position-none m ps e) r.distinct;
          })
    go (some zero) e = rw (e, player_action) r
    go (some (suc i)) e =
        rw (e, player_action)
          (record {
            host_first = touch-IsHostList now name i ps r.host_first;
            distinct = touch-distinct now name (suc i) ps r.distinct;
          })

-- A roster is listed without meeting a local profile.
list_guests :
    (ps : Players)
    → All (λ x. x.1.kind ≡ guest) ps
    → (items : Items) × (list_profiles ps ≡ some items)
unfolding list_profiles
list_guests [] h = (nil, refl)
list_guests ((t, p) ∷ ps) h =
    let (items, e) = list_guests ps h.1 in
    (cons (profile_entry (codes "GUEST") p) items, rw (h.0, e))

-- A list with the host first and guests behind it is listed without reaching the `unreachable!()`
-- of c:player_profiles_list.
pub list_profiles-total :
    (ps : Players) → IsRoster ps → (items : Items) × (list_profiles ps ≡ some items)
unfolding list_profiles
list_profiles-total [] r = absurd r.host_first
list_profiles-total ((t, p) ∷ ps) r =
    let (items, e) = list_guests ps r.host_first.1 in
    (cons (profile_entry (codes "HOST") p) items, rw (r.host_first.0, e))
