-- ===== src/Flow/Guest/Refresh/Entry.antt =====
-- What a guest reads from the entries of a host's list, one by one.
use terracotta_ffi.Base.{
  ℕ, ◌≡◌, refl, sym, ap, ap₂, subst, ◌∙◌, inl, inr, Bool, true, false, ◌&&◌, ◌||◌, List, [], ◌∷◌,
  ◌++◌, some, map, if◌then◌else◌, Text, codes, text_eq, eq_of_text_eq, All, append_assoc,
  append-nil, arith, Bool-cases,
}
use terracotta_ffi.Json.{Json, Items, nil, cons}
use terracotta_ffi.Profile.{Profile, host, guest, local}
use terracotta_ffi.Protocols.{profile_entry, list_profiles}
use terracotta_ffi.Protocols.Players.{Players, IsAbsent, HasDistinctIds}
use terracotta_ffi.Flow.Guest.Refresh.Reading.{
  Listed, other_kind, add_local, add_other, read_item, read_items,
}

-- A player of the host's list in the eyes of the guest with a machine id.
abbrev pub seen : Text → ℕ × Profile → Profile
seen own x = if text_eq x.1.machine_id own then record x.1 { kind = local } else x.1

abbrev pub is_listed : Text → Players → Bool
is_listed own [] = false
is_listed own (x ∷ xs) = text_eq x.1.machine_id own || is_listed own xs

abbrev pub entries_of : Text → Players → Items
entries_of kind [] = nil
entries_of kind (x ∷ xs) = cons (profile_entry kind x.1) (entries_of kind xs)

pub list_profiles-guests :
    (gs : Players)
    → All (λ x. x.1.kind ≡ guest) gs
    → list_profiles gs ≡ some (entries_of (codes "GUEST") gs)
unfolding list_profiles
list_profiles-guests [] a = refl
list_profiles-guests ((t, p) ∷ gs) a = rw (a.0, list_profiles-guests gs a.1) refl

pub absent-listed : (own : Text) (gs : Players) → IsAbsent own gs → is_listed own gs ≡ false
absent-listed own [] a = refl
absent-listed own (x ∷ gs) a = rw (a.0, absent-listed own gs a.1) refl

abbrev pub listed : List Profile → Bool → Listed
listed ps s = record { profiles = ps; host_seen = true; local_seen = s }

read_item-local :
    (own : Text) (before : List Profile) (p : Profile)
    → text_eq p.machine_id own ≡ true
    → read_item own (listed before false) (profile_entry (codes "GUEST") p)
      ≡ some (listed (before ++ record p { kind = local } ∷ []) true)
unfolding read_item add_local
read_item-local own before p e = rw e refl

read_item-guest :
    (own : Text) (before : List Profile) (s : Bool) (p : Profile)
    → text_eq p.machine_id own ≡ false
    → p.kind ≡ guest
    → read_item own (listed before s) (profile_entry (codes "GUEST") p)
      ≡ some (listed (before ++ p ∷ []) s)
unfolding read_item other_kind add_other
read_item-guest own before s p e k =
    rw e (ap (λ kind. some (listed (before ++ record p { kind = kind } ∷ []) s)) (sym k))

pub read_items-cons :
    (own : Text) (l : Listed) (item : Json) (items : Items) {next : Listed}
    → read_item own l item ≡ some next
    → read_items own l (cons item items) ≡ read_items own next items
unfolding read_items
read_items-cons own l item items e = rw (read_items, e) refl

-- One more guest, once the rest is read.
one_more :
    (before rest : List Profile) (q r : Profile) (b c : Bool)
    → q ≡ r
    → b ≡ c
    → some (listed ((before ++ q ∷ []) ++ rest) b) ≡ some (listed (before ++ r ∷ rest) c)
one_more before rest q r b c e f = rw (e, f, append_assoc before (r ∷ []) rest) refl

pub read_items-guests :
    (own : Text) (before : List Profile) (s : Bool) (gs : Players)
    → All (λ x. x.1.kind ≡ guest) gs
    → HasDistinctIds gs
    → s && is_listed own gs ≡ false
    → read_items own (listed before s) (entries_of (codes "GUEST") gs)
      ≡ some (listed (before ++ map (seen own) gs) (s || is_listed own gs))
read_items-guests own before s [] a d h =
    let same : s ≡ (s || false) = ground arith in
    unfold read_items in ap₂ (λ ps b. some (listed ps b)) (sym (append-nil before)) same
read_items-guests own before s ((t, p) ∷ gs) a d h = elim (Bool-cases (text_eq p.machine_id own)) [
  | inl e ↦
      let q : Profile = record p { kind = local } in
      let unseen : s ≡ false = ground (arith, h, e) in
      let gone : is_listed own gs ≡ false =
        absent-listed own gs (subst (λ m. IsAbsent m gs) (eq_of_text_eq p.machine_id own e) d.0) in
      let step =
        read_items-cons own (listed before false) (profile_entry (codes "GUEST") p)
          (entries_of (codes "GUEST") gs) (read_item-local own before p e) in
      let rest = read_items-guests own (before ++ q ∷ []) true gs a.1 d.1 gone in
      ap (λ b. read_items own (listed before b) (entries_of (codes "GUEST") ((t, p) ∷ gs))) unseen
      ∙ step
      ∙ rest
      ∙ one_more before (map (seen own) gs) q (seen own (t, p)) true
          (s || is_listed own ((t, p) ∷ gs)) (rw e refl) (ground (arith, e))
  | inr e ↦
      let step =
        read_items-cons own (listed before s) (profile_entry (codes "GUEST") p)
          (entries_of (codes "GUEST") gs) (read_item-guest own before s p e a.0) in
      let rest = read_items-guests own (before ++ p ∷ []) s gs a.1 d.1 (ground (arith, h, e)) in
      step
      ∙ rest
      ∙ one_more before (map (seen own) gs) p (seen own (t, p)) (s || is_listed own gs)
          (s || is_listed own ((t, p) ∷ gs)) (rw e refl) (ground (arith, e))
]

pub read_item-host :
    (own : Text) (p : Profile)
    → text_eq p.machine_id own ≡ false
    → p.kind ≡ host
    → read_item own
        (record { profiles = []; host_seen = false; local_seen = false })
        (profile_entry (codes "HOST") p)
      ≡ some (listed (p ∷ []) false)
unfolding read_item other_kind add_other
read_item-host own p e k =
    rw e (ap (λ kind. some (listed (record p { kind = kind } ∷ []) false)) (sym k))
