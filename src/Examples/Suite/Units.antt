-- ===== src/Examples/Suite/Units.antt =====
-- The unit tests of src/room.rs, src/session.rs, src/snapshot.rs and src/machine_id.rs.
use terracotta_ffi.Base.{
  ℕ, ◌+◌, ◌-◌, ◌≡◌, refl, Bool, true, false, ◌&&◌, not, List, [], ◌∷◌, ◌++◌, Option, none, some,
  ◌==◌, ltb, if◌then◌else◌, length, take, drop, map, replicate, Bytes, Text, codes, text_eq,
}
use terracotta_ffi.Base.Decimal.{u16_to_string, decimal}
use terracotta_ffi.Room.{
  Room, create, parse, parse_window, scan_digits, lookup_char, position, from_value,
  from_value_loop, char_at, format_len,
}
use terracotta_ffi.Session.{
  Session, waiting, new_session, token, version, can_capture, commit, commit_shared,
  reset_to_waiting,
}
use terracotta_ffi.Event.{state_number}
use terracotta_ffi.Snapshot.{snapshot, guest_url}
use terracotta_ffi.MachineId.{System, get_or_create, renew, read_buffer, write_at_start}
use terracotta_ffi.Examples.Suite.{is_none, same_state}

unfoldable same_room : Room → Option Room → Bool
same_room r none = false
same_room r (some s) =
    text_eq r.code s.code
    && text_eq r.network_name s.network_name
    && text_eq r.network_secret s.network_secret

-- One of the 256 rounds, on the room of some random bytes.
unfoldable round_trips : Bytes → Bool
round_trips random =
    let room = create random in
    (length room.code == format_len)
    && text_eq (take 2 room.code) (codes "U/")
    && same_room room (parse room.code)
    && text_eq room.network_name (codes "scaffolding-mc-" ++ take 9 (drop 2 room.code))
    && text_eq room.network_secret (take 4 (drop 12 room.code) ++ b'-' ∷ take 4 (drop 17 room.code))

unfoldable create_parse_round_trip : List Bytes → Bool
create_parse_round_trip [] = true
create_parse_round_trip (random ∷ rounds) = round_trips random && create_parse_round_trip rounds

unfoldable to_ascii_lowercase : ℕ → ℕ
to_ascii_lowercase c = if ltb c b'A' then c else if ltb b'Z' c then c else c + 32

unfoldable parse_tolerates_prefix_and_case : Bytes → Bool
parse_tolerates_prefix_and_case random =
    let room = create random in
    same_room room (parse (codes "[SCANNING] " ++ map to_ascii_lowercase room.code))

unfoldable parse_rejects_invalid : Bool
parse_rejects_invalid =
    is_none (parse [])
    && is_none (parse (codes "X/AAAA-AAAA-AAAA-AAAA"))
    && is_none (parse (codes "U/AAAA-AAAA-AAAA-AAA"))
    && is_none (parse (codes "U/AAAA AAAA AAAA AAAA"))
    && is_none (parse (codes "U/AAAA-AAAA+AAAA-AAAA"))

unfoldable version_token_semantics : Session → Bool
version_token_semantics s =
    let committed = commit s in
    let shared = commit_shared committed in
    can_capture s (token s)
    && not (can_capture committed (token committed - 1))
    && can_capture shared (token committed)
    && not (can_capture (reset_to_waiting shared) (token committed))

unfoldable reset_keeps_index_monotonic : Session → Bool
reset_keeps_index_monotonic s =
    let r = reset_to_waiting s in ltb (version s) (version r) && same_state r.state waiting

unfoldable waiting_snapshot : Session → Bool
waiting_snapshot session =
    same_state (snapshot session).state waiting && (length (snapshot session).room_code == 0)

unfoldable guest_ok_url : Bool
guest_ok_url =
    text_eq (guest_url (some 25565)) (codes "127.0.0.1")
    && text_eq (guest_url (some 54321)) (codes "127.0.0.1:54321")

unfoldable is_same_id : Option Text → Option Text → Bool
is_same_id (some first) (some second) = text_eq first second && (length first == 32)
is_same_id _ _ = false

-- The file is not there at first; a directory that earlier runs have left is outside the test.
unfoldable persists_across_calls : (Bytes → Text) → System → System → Bool
unfolding get_or_create
persists_across_calls hex system later =
    let (file, first) = get_or_create hex system none in
    is_same_id first (get_or_create hex later file).1

create_parse_round_trip_test :
    create_parse_round_trip (replicate 16 0 ∷ replicate 16 7 ∷ replicate 16 255 ∷ []) ≡ true
unfolding create_parse_round_trip round_trips same_room create parse parse_window scan_digits
    lookup_char position from_value from_value_loop char_at
create_parse_round_trip_test = refl

parse_tolerates_prefix_and_case_test : parse_tolerates_prefix_and_case (replicate 16 200) ≡ true
unfolding parse_tolerates_prefix_and_case to_ascii_lowercase same_room create parse parse_window
    scan_digits lookup_char position from_value from_value_loop char_at
parse_tolerates_prefix_and_case_test = refl

parse_rejects_invalid_test : parse_rejects_invalid ≡ true
unfolding parse_rejects_invalid parse parse_window scan_digits lookup_char position is_none
parse_rejects_invalid_test = refl

version_token_semantics_test : version_token_semantics new_session ≡ true
unfolding version_token_semantics new_session token can_capture commit commit_shared
    reset_to_waiting
version_token_semantics_test = refl

reset_keeps_index_monotonic_test : reset_keeps_index_monotonic new_session ≡ true
unfolding reset_keeps_index_monotonic new_session version commit reset_to_waiting same_state
    state_number
reset_keeps_index_monotonic_test = refl

waiting_snapshot_test : waiting_snapshot new_session ≡ true
unfolding waiting_snapshot new_session snapshot same_state state_number
waiting_snapshot_test = refl

guest_ok_url_test : guest_ok_url ≡ true
unfolding guest_ok_url guest_url u16_to_string decimal
guest_ok_url_test = refl

abbrev answering : Bytes → System
answering random = record {
  opens = true;
  reads = true;
  seeks = true;
  writes = some 16;
  random = some random;
}

-- In place of the hex printer, one that writes each byte twice.
persists_across_calls_test :
    persists_across_calls
      (λ bytes. bytes ++ bytes)
      (answering (replicate 16 1))
      (answering (replicate 16 2))
    ≡ true
unfolding persists_across_calls get_or_create renew read_buffer write_at_start is_same_id
persists_across_calls_test = refl
