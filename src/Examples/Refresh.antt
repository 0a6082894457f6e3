-- ===== src/Examples/Refresh.antt =====
-- A host's list as a guest reads and merges it.
use terracotta_ffi.Base.{ℕ, ◌≡◌, refl, some, List, [], ◌∷◌, ◌++◌, All, Text, codes}
use terracotta_ffi.Json.{Json, Items, str, arr, obj, nil, cons, end, field}
use terracotta_ffi.Profile.{Profile, guest, local}
use terracotta_ffi.Flow.Guest.Refresh.Reading.{
  read_profiles, read_items, read_item, other_kind, add_local, add_other, finish_listing, insert,
  sort, has_no_conflict,
}
use terracotta_ffi.Flow.Guest.Refresh.{
  merge, merge_by, merge_host, merge_guest, keep, rename, mark, search,
}
use terracotta_ffi.Flow.Guest.Refresh.Listing.{IsAccepted, read_profiles-IsAccepted}
use terracotta_ffi.Flow.Guest.Refresh.Merging.{IsShown, merge-IsShown}
use terracotta_ffi.Flow.Guest.Refresh.Covering.{unused, arrivals, IsPresent, merge-IsPresent}
use terracotta_ffi.Flow.Guest.Refresh.Accepted.{guest_view, read_profiles-list_profiles}
use terracotta_ffi.Protocols.{profile_entry, list_profiles}
use terracotta_ffi.Protocols.Players.{IsRoster}
use terracotta_ffi.Examples.Players.{alex}

abbrev own : Profile
own = record { machine_id = codes "b1"; name = codes "Steve"; vendor = codes "Conic"; kind = local }

abbrev item : Text → Text → Text → Json
item kind machine_id name = obj (
    field (codes "kind") (str kind) (
      field (codes "machine_id") (str machine_id)
        (field (codes "name") (str name) (field (codes "vendor") (str (codes "Conic")) end))))

-- The host alone: the guest adds itself behind it.
abbrev answered : Json
answered = arr (cons (item (codes "HOST") (codes "a0") (codes "Alex")) nil)

read_profiles-IsAccepted_example : IsAccepted (alex ∷ own ∷ [])
unfolding read_profiles read_items read_item other_kind add_local add_other finish_listing insert
    sort has_no_conflict
read_profiles-IsAccepted_example = read_profiles-IsAccepted own answered refl refl

-- The host under an old name, in the session of the guest.
abbrev session_profiles : List (ℕ × Profile)
session_profiles = (0, own) ∷ (0, record alex { name = codes "Alexander" }) ∷ []

merge-IsShown_example :
    All (IsShown (alex ∷ own ∷ [])) (merge (unused (alex ∷ own ∷ [])) session_profiles).profiles
unfolding merge merge_by merge_host merge_guest keep rename mark search
merge-IsShown_example = merge-IsShown (unused (alex ∷ own ∷ [])) session_profiles refl

merge-IsPresent_example :
    let m = merge (unused (alex ∷ own ∷ [])) session_profiles in
    All (IsPresent (m.profiles ++ arrivals 1000 m.entries)) (alex ∷ own ∷ [])
merge-IsPresent_example = merge-IsPresent (alex ∷ own ∷ []) session_profiles 1000

-- The host's players once the guest has pinged it.
abbrev players : List (ℕ × Profile)
players = (0, alex) ∷ (5, record own { kind = guest }) ∷ []

players-IsRoster : IsRoster players
players-IsRoster = record { host_first = (refl, (refl, tt)); distinct = ((refl, tt), (tt, tt)) }

abbrev sent : Items
sent = cons (profile_entry (codes "HOST") alex) (cons (profile_entry (codes "GUEST") own) nil)

read_profiles-list_profiles_example :
    read_profiles own (arr sent) ≡ some (sort (guest_view own players))
unfolding list_profiles
read_profiles-list_profiles_example =
    read_profiles-list_profiles own alex 0 ((5, record own { kind = guest }) ∷ []) sent
      players-IsRoster refl refl
