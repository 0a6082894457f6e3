-- ===== src/Flow/Guest/Refresh/Reading.antt =====
-- How the monitor of a guest reads the host's list of players: the closure behind c:player_profiles_list
-- in `run_guest` of src/flow.rs.
use terracotta_ffi.Base.{
  Bool, true, false, not, ◌&&◌, ◌||◌, List, [], ◌∷◌, ◌++◌, Option, none, some, if◌then◌else◌, Text,
  codes, text_eq, text_ltb,
}
use terracotta_ffi.Json.{Json, Items, nil, cons, as_array, str_field}
use terracotta_ffi.Profile.{Profile, ProfileKind, host, guest, local}

infixl 5 ◌>>=◌
abbrev ◌>>=◌ : {A B : Type 0} → Option A → (A → Option B) → Option B
none >>= f = none
some a >>= f = f a

-- What the loop over the server's list has read: the profiles, and whether it saw the host and the
-- guest itself.
pub record Listed : Type 0 where
  pub profiles : List Profile
  pub host_seen : Bool
  pub local_seen : Bool

-- The kind of an item that is not the guest itself.
unfoldable pub other_kind : Bool → Text → Option ProfileKind
other_kind host_seen kind =
    if text_eq kind (codes "HOST") && not host_seen
    then some host
    else if text_eq kind (codes "GUEST")
    then some guest
    else none

-- The guest itself, which may be listed once.
unfoldable pub add_local : Listed → Profile → Option Listed
add_local l p =
    if l.local_seen
    then none
    else some (record l { profiles = l.profiles ++ p ∷ []; local_seen = true })

-- Another player, under the text of its kind.
unfoldable pub add_other : Listed → Text → Profile → Listed
add_other l text p = record l {
  profiles = l.profiles ++ p ∷ [];
  host_seen = l.host_seen || text_eq text (codes "HOST");
}

-- One item, behind those that were read before.
unfoldable pub read_item : Text → Listed → Json → Option Listed
read_item local_id l item = do
  name ← str_field (codes "name") item
  machine_id ← str_field (codes "machine_id") item
  vendor ← str_field (codes "vendor") item
  if text_eq machine_id local_id
      then add_local l
          (record { machine_id = machine_id; name = name; vendor = vendor; kind = local })
      else (do
        text ← str_field (codes "kind") item
        kind ← other_kind l.host_seen text
        some (
            add_other l text
              (record { machine_id = machine_id; name = name; vendor = vendor; kind = kind })))

unfoldable pub read_items : Text → Listed → Items → Option Listed
read_items local_id l nil = some l
read_items local_id l (cons item items) = do
  next ← read_item local_id l item
  read_items local_id next items

-- `sort_by_cached_key`, the stable sort of the standard library: equal keys keep their order.
unfoldable pub insert : Profile → List Profile → List Profile
insert p [] = p ∷ []
insert p (q ∷ ps) = if text_ltb q.machine_id p.machine_id then q ∷ insert p ps else p ∷ q ∷ ps

unfoldable pub sort : List Profile → List Profile
sort [] = []
sort (p ∷ ps) = insert p (sort ps)

-- No two neighbours share a machine id.
unfoldable pub has_no_conflict : List Profile → Bool
has_no_conflict [] = true
has_no_conflict (p ∷ []) = true
has_no_conflict (p ∷ q ∷ ps) = not (text_eq p.machine_id q.machine_id) && has_no_conflict (q ∷ ps)

-- The checks that follow the loop.
unfoldable pub finish_listing : Profile → Listed → Option (List Profile)
finish_listing own l =
    let sorted = sort (if l.local_seen then l.profiles else l.profiles ++ own ∷ []) in
    if not l.host_seen then none else if has_no_conflict sorted then some sorted else none

-- The closure that reads the answer of c:player_profiles_list, from the JSON value that it parses to.
unfoldable pub read_profiles : Profile → Json → Option (List Profile)
read_profiles own value = do
  items ← as_array value
  l ←
      read_items own.machine_id (record { profiles = []; host_seen = false; local_seen = false })
        items
  finish_listing own l
