-- ===== src/Flow/Guest/Refresh/Listing.antt =====
-- What a guest accepts as the host's list of players.
use terracotta_ffi.Base.{
  ◌+◌, ◌≡◌, refl, subst, ◌∙◌, inl, inr, ◌⊎◌, Bool, true, false, ◌||◌, List, [], ◌∷◌, ◌++◌, none,
  some, if◌then◌else◌, Text, codes, text_eq, arith, Bool-cases, Option-cases,
}
use mathlib.Core.Option.{some-injective}
use terracotta_ffi.Json.{Json, Items, nil, cons, as_array, str_field}
use terracotta_ffi.Profile.{Profile, ProfileKind, host, guest, local}
use terracotta_ffi.Flow.Guest.Refresh.Order.{
  IsAscending, IsOrdered-strict, sort-IsOrdered, count, count-append, count-sort,
}
use terracotta_ffi.Flow.Guest.Refresh.Reading.{
  Listed, other_kind, add_local, add_other, read_item, read_items, sort, has_no_conflict,
  finish_listing, read_profiles,
}
use terracotta_ffi.Flow.Guest.Refresh.{same_kind}

-- The flags of the loop say how many hosts and local profiles it has read.
record IsCounted (l : Listed) : Type 0 where
  hosts : count host l.profiles ≡ (if l.host_seen then 1 else 0)
  locals : count local l.profiles ≡ (if l.local_seen then 1 else 0)

other_kind-cases :
    (seen : Bool) (text : Text) {kind : ProfileKind}
    → other_kind seen text ≡ some kind
    → ((kind ≡ host) × (seen ≡ false) × (text_eq text (codes "HOST") ≡ true))
      ⊎ ((kind ≡ guest) × (seen || text_eq text (codes "HOST") ≡ seen))
unfolding other_kind
other_kind-cases seen text h = ground arith

added :
    (kind : ProfileKind) (ps : List Profile) (p : Profile)
    → count kind (ps ++ p ∷ []) ≡ count kind ps + (if same_kind p.kind kind then 1 else 0)
unfolding count
added kind ps p = omega (arith, count-append kind ps (p ∷ []))

add_local-IsCounted :
    (l l' : Listed) (p : Profile)
    → p.kind ≡ local
    → add_local l p ≡ some l'
    → IsCounted l
    → IsCounted l'
unfolding add_local
add_local-IsCounted l l' p k e c = elim (Bool-cases l.local_seen) [
  | inl s ↦ cc (rw (s, add_local) at e)
  | inr s ↦
      let q : record l { profiles = l.profiles ++ p ∷ []; local_seen = true } ≡ l' =
        some-injective _ _ (rw (s, add_local) at e) in
      subst IsCounted q (record {
        hosts = added host l.profiles p ∙ rw k (omega (arith, c.hosts));
        locals = added local l.profiles p ∙ rw (k, c.locals, s) refl;
      })
]

add_other-IsCounted :
    (l : Listed) (text : Text) (p : Profile)
    → other_kind l.host_seen text ≡ some p.kind
    → IsCounted l
    → IsCounted (add_other l text p)
unfolding add_other
add_other-IsCounted l text p e c = elim (other_kind-cases l.host_seen text e) [
  | inl (k, s, t) ↦ record {
    hosts = added host l.profiles p ∙ rw (k, c.hosts, s, t) refl;
    locals = added local l.profiles p ∙ rw k (omega (arith, c.locals));
  }
  | inr (k, s) ↦ record {
    hosts = added host l.profiles p ∙ rw (k, s) (omega (arith, c.hosts));
    locals = added local l.profiles p ∙ rw k (omega (arith, c.locals));
  }
]

read_item-IsCounted :
    (local_id : Text) (l l' : Listed) (item : Json)
    → read_item local_id l item ≡ some l'
    → IsCounted l
    → IsCounted l'
unfolding read_item
read_item-IsCounted local_id l l' item e c = elim (Option-cases (str_field (codes "name") item)) [
  | inl n ↦ cc (rw (n, read_item) at e)
  | inr (name, n) ↦ elim (Option-cases (str_field (codes "machine_id") item)) [
    | inl m ↦ cc (rw (n, m, read_item) at e)
    | inr (machine_id, m) ↦ elim (Option-cases (str_field (codes "vendor") item)) [
      | inl v ↦ cc (rw (n, m, v, read_item) at e)
      | inr (vendor, v) ↦ elim (Bool-cases (text_eq machine_id local_id)) [
        | inl o ↦ add_local-IsCounted l l' _ refl (rw (n, m, v, o, read_item) at e) c
        | inr o ↦ elim (Option-cases (str_field (codes "kind") item)) [
          | inl t ↦ cc (rw (n, m, v, o, t, read_item) at e)
          | inr (text, t) ↦ elim (Option-cases (other_kind l.host_seen text)) [
            | inl k ↦ cc (rw (n, m, v, o, t, k, read_item) at e)
            | inr (kind, k) ↦
                subst IsCounted (some-injective _ _ (rw (n, m, v, o, t, k, read_item) at e))
                  (add_other-IsCounted l text _ k c)
          ]
        ]
      ]
    ]
  ]
]

read_items-IsCounted :
    (local_id : Text) (l l' : Listed) (items : Items)
    → read_items local_id l items ≡ some l'
    → IsCounted l
    → IsCounted l'
unfolding read_items
read_items-IsCounted local_id l l' nil e c = subst IsCounted (some-injective l l' e) c
read_items-IsCounted local_id l l' (cons item items) e c =
    elim (Option-cases (read_item local_id l item)) [
      | inl n ↦ cc (rw (n, read_items) at e)
      | inr (next, n) ↦
          read_items-IsCounted local_id next l' items (rw (n, read_items) at e)
            (read_item-IsCounted local_id l next item n c)
    ]

-- A list that a guest accepts.
abbrev pub IsAccepted : List Profile → Type 0
IsAccepted ps = IsAscending ps × (count host ps ≡ 1) × (count local ps ≡ 1)

checked-IsAccepted :
    (all : List Profile) {ps : List Profile}
    → count host all ≡ 1
    → count local all ≡ 1
    → (if has_no_conflict (sort all) then some (sort all) else none) ≡ some ps
    → IsAccepted ps
checked-IsAccepted all h l e = elim (Bool-cases (has_no_conflict (sort all))) [
  | inl n ↦ subst IsAccepted (some-injective _ _ (rw n at e)) (
    IsOrdered-strict (sort all) (sort-IsOrdered all) n,
    count-sort host all ∙ h,
    count-sort local all ∙ l,
  )
  | inr n ↦ cc (rw n at e)
]

finish_listing-IsAccepted :
    (own : Profile) (l : Listed) {ps : List Profile}
    → own.kind ≡ local
    → finish_listing own l ≡ some ps
    → IsCounted l
    → IsAccepted ps
unfolding finish_listing
finish_listing-IsAccepted own l o e c = elim (Bool-cases l.host_seen) [
  | inr h ↦ cc (rw (h, finish_listing) at e)
  | inl h ↦ elim (Bool-cases l.local_seen) [
    | inl s ↦
        checked-IsAccepted l.profiles (c.hosts ∙ rw h refl) (c.locals ∙ rw s refl)
          (rw (h, s, finish_listing) at e)
    | inr s ↦
        checked-IsAccepted (l.profiles ++ own ∷ [])
          (added host l.profiles own ∙ rw (o, c.hosts, h) refl)
          (added local l.profiles own ∙ rw (o, c.locals, s) refl) (rw (h, s, finish_listing) at e)
  ]
]

-- A list that a guest with a local profile of its own accepts, whatever JSON the host answered
-- with, has one host and one local player, and its machine ids are in strictly ascending order.
pub read_profiles-IsAccepted :
    (own : Profile) (value : Json) {ps : List Profile}
    → own.kind ≡ local
    → read_profiles own value ≡ some ps
    → IsAccepted ps
unfolding read_profiles count
read_profiles-IsAccepted own value o e = elim (Option-cases (as_array value)) [
  | inl a ↦ cc (rw (a, read_profiles) at e)
  | inr (items, a) ↦
      let start : Listed = record { profiles = []; host_seen = false; local_seen = false } in
      elim (Option-cases (read_items own.machine_id start items)) [
        | inl r ↦ cc (rw (a, r, read_profiles) at e)
        | inr (l, r) ↦ finish_listing-IsAccepted own l o (rw (a, r, read_profiles) at e) (
            read_items-IsCounted own.machine_id start l items r
              (record { hosts = refl; locals = refl }))
      ]
]
