-- ===== src/Flow/Guest/Refresh.antt =====
-- The monitor thread of `run_guest` in src/flow.rs: it asks the host for its list of players every five
-- seconds, checks the list and merges it into the session.
pub mod Covering
mod Distinct
pub mod Entry
pub mod Exchange
pub mod Accepted
pub mod Listing
pub mod Merging
pub mod Order
pub mod Reading
pub mod Served
use terracotta_ffi.Base.{
  ℕ, zero, suc, ◌+◌, Bool, true, false, not, ◌&&◌, ◌||◌, List, [], ◌∷◌, ◌++◌, Option, none, some,
  if◌then◌else◌, Text, codes, text_eq, text_ltb, map,
}
use terracotta_ffi.Json.{Json, Items, nil, cons, as_array, str_field}
use terracotta_ffi.Profile.{Profile, ProfileKind, host, guest, local, set_name}
use terracotta_ffi.Event.{player_joined, player_left}
use terracotta_ffi.Session.{
  Session, EasyTier, SessionError, ping_host_fail, guest_easytier_crash,
  scaffolding_invalid_response, can_capture,
}
use terracotta_ffi.Flow.Guest.Refresh.Reading.{read_profiles}
use terracotta_ffi.Emitter.{Emitter, set_exception, commit_shared}
use terracotta_ffi.Flow.{runs, emit_all}
use mathlib.Core.Option

-- A profile of the server's list, and whether a profile of the session has used it.
abbrev pub Entries : Type 0
Entries = List (Bool × Profile)

-- `binary_search_by_key` on keys in strictly ascending order: the entry with the key, if there is one.
unfoldable pub search : Text → Entries → Option (Bool × Profile)
search m [] = none
search m ((used, p) ∷ es) =
    let rest = search m es in if text_eq p.machine_id m then some (used, p) else rest

-- `used[index] = true`.
unfoldable pub mark : Text → Entries → Entries
mark m [] = []
mark m ((used, p) ∷ es) =
    let rest = mark m es in if text_eq p.machine_id m then (true, p) ∷ es else (used, p) ∷ rest

-- The loop over the session's profiles, from the last to the first. `invalid` says that it has broken off.
pub record Merge : Type 0 where
  pub profiles : List (ℕ × Profile)
  pub entries : Entries
  pub changed : Bool
  pub left : List Text
  pub invalid : Bool

abbrev pub same_kind : ProfileKind → ProfileKind → Bool
same_kind host host = true
same_kind local local = true
same_kind guest guest = true
same_kind _ _ = false

unfoldable pub keep : ℕ × Profile → Merge → Merge
keep x m = record m { profiles = x ∷ m.profiles }

-- The profile stays under the name that the server gives it, and uses its entry.
unfoldable pub rename : ℕ × Profile → Profile → Merge → Merge
rename (t, p) q m = record m {
  profiles = (t, set_name q.name p) ∷ m.profiles;
  entries = mark p.machine_id m.entries;
  changed = m.changed || not (text_eq p.name q.name);
}

unfoldable pub drop_profile : ℕ × Profile → Merge → Merge
drop_profile (t, p) m = record m { left = m.left ++ p.machine_id ∷ []; changed = true }

unfoldable pub break_off : ℕ × Profile → Merge → Merge
break_off x m = record m { profiles = x ∷ m.profiles; invalid = true }

unfoldable pub merge_host : ℕ × Profile → Merge → Merge
merge_host (t, p) m = elim (search p.machine_id m.entries) [
  | none ↦ break_off (t, p) m
  | some (used, q) ↦
      if not used && same_kind q.kind host then rename (t, p) q m else break_off (t, p) m
]

unfoldable pub merge_guest : ℕ × Profile → Merge → Merge
merge_guest (t, p) m = elim (search p.machine_id m.entries) [
  | none ↦ drop_profile (t, p) m
  | some (used, q) ↦
      if not (same_kind q.kind guest)
      then break_off (t, p) m
      else if used
      then drop_profile (t, p) m
      else rename (t, p) q m
]

unfoldable pub merge_by : ProfileKind → ℕ × Profile → Merge → Merge
merge_by host x m = merge_host x m
merge_by local x m = keep x m
merge_by guest x m = merge_guest x m

unfoldable pub merge : Entries → List (ℕ × Profile) → Merge
merge es [] = record { profiles = []; entries = es; changed = false; left = []; invalid = false }
merge es (x ∷ xs) = let m = merge es xs in if m.invalid then keep x m else merge_by x.1.kind x m

-- The entries that nobody used, from the last to the first, but for the guest itself.
unfoldable pub newcomers : Entries → List Profile
newcomers [] = []
newcomers ((used, p) ∷ es) =
    let rest = newcomers es in
    if not used && not (same_kind p.kind local) then rest ++ p ∷ [] else rest

-- One round of the thread: whether c:player_ping was answered, the value that c:player_profiles_list
-- gave, what the system says is alive, and the time.
pub record Round : Type 0 where
  pub pinged : Bool
  pub listing : Option Json
  pub alive : EasyTier → Bool
  pub now : ℕ

abbrev put_profiles : List (ℕ × Profile) → Emitter → Emitter
put_profiles ps e = record e { session = record e.session { profiles = ps } }

-- What follows a merge, with the emitter that holds the merged profiles.
unfoldable pub publish : List Profile → List Text → Emitter → Emitter
publish joined left e =
    emit_all (commit_shared e (λ s. s)) (map player_joined joined ++ map player_left left)

-- The block under the lock, and what follows it: the emitter, and whether the thread goes on.
unfoldable pub apply_listing : Round → ℕ → List Profile → Emitter → Emitter × Bool
apply_listing r token server e =
    if not (can_capture e.session token)
    then (e, false)
    else if not (runs r.alive e.session.easytier)
    then ((set_exception e token guest_easytier_crash).0, false)
    else (let m = merge (map (λ p. (false, p)) server) e.session.profiles in
        if m.invalid
        then (
          (set_exception (put_profiles m.profiles e) token scaffolding_invalid_response).0,
          false,
        )
        else (
          let joined = newcomers m.entries in
              let e' = put_profiles (m.profiles ++ map (λ p. (r.now, p)) joined) e in
              elim joined [
                | [] ↦ (if m.changed then publish [] m.left e' else e')
                | p ∷ ps ↦ publish (p ∷ ps) m.left e'
              ],
          true,
        ))

unfoldable pub refresh : Profile → Round → ℕ → Emitter → Emitter × Bool
refresh own r token e =
    let ended : Emitter × Bool = ((set_exception e token ping_host_fail).0, false) in
    if not r.pinged then ended else (elim r.listing [
      | none ↦ ended
      | some value ↦ elim (read_profiles own value) [
        | none ↦ ended
        | some server ↦ apply_listing r token server e
      ]
    ])
