-- ===== src/Ffi/Memory.antt =====
-- The strings that src/ffi.rs hands out, as blocks of its allocator: who owns them, and how they are
-- given back. A caller has structs for the functions to write to, and names one by its position; any
-- other position is a null pointer.
pub mod Counts
pub mod Balance
pub mod Freed
pub mod Owned
pub mod Tidy
pub mod Exported
use terracotta_ffi.Base.{
  ℕ, zero, suc, ◌+◌, List, [], ◌∷◌, Option, none, some, ◌==◌, if◌then◌else◌, length, get_elem?, set,
  Text, Bytes,
}
use mathlib.Core.Option
use terracotta_ffi.Event.{Event, payload_json, type_id, state_number}
use terracotta_ffi.Context.{Context, session_snapshot, poll_event}
use terracotta_ffi.Ffi.Values.{
  Code, ok, invalid_argument, no_event, Result, done, failed, make_string,
}
use terracotta_ffi.Ffi.{Handle, Env, context_of}

-- The allocator: its live blocks, and the next address. A block holds the bytes before the final zero.
pub record Heap : Type 0 where
  pub next : ℕ
  pub blocks : List (ℕ × Bytes)

-- `TerracottaString`; a null pointer is `none`.
pub record OutString : Type 0 where
  pub pointer : Option ℕ
  pub len : ℕ

pub record OutState : Type 0 where
  pub version : ℕ
  pub state : ℕ
  pub room_code : OutString
  pub detail : OutString

pub record OutEvent : Type 0 where
  pub sequence : ℕ
  pub type : ℕ
  pub payload : OutString

abbrev pub null_string : OutString
null_string = record { pointer = none; len = 0 }

-- `CString::into_raw`.
unfoldable pub into_raw : Heap → Bytes → Heap × OutString
into_raw h bytes = (
  record { next = h.next + 1; blocks = (h.next, bytes) ∷ h.blocks },
  record { pointer = some h.next; len = length bytes },
)

-- `CString::from_raw` and its drop; `none` is a free of what is not live.
unfoldable pub release : ℕ → List (ℕ × Bytes) → Option (List (ℕ × Bytes))
release p [] = none
release p (b ∷ bs) = if b.0 == p then some bs else Option.map (◌∷◌ b) (release p bs)

-- `make_string` with its block; a panic leaves the heap as it was.
unfoldable pub allocate_string : Heap → Text → Heap × Result OutString
unfolding into_raw
allocate_string h value = elim (make_string value) [
  | failed code ↦ (h, failed code)
  | done none ↦ (h, done null_string)
  | done (some bytes) ↦ let (h', s) = into_raw h bytes in (h', done s)
]

infixl 5 ◌>>=◌
abbrev pub ◌>>=◌ {ℓ κ} : {A : Type ℓ} {B : Type κ} → Option A → (A → Option B) → Option B
none >>= f = none
some a >>= f = f a

-- `free_string`; `none` is a fault.
unfoldable pub free_string : Heap → OutString → Option (Heap × OutString)
unfolding release
free_string h s = elim s.pointer [
  | none ↦ some (h, s)
  | some p ↦ (do blocks ← release p h.blocks; some (record h { blocks = blocks }, null_string))
]

unfoldable pub free_state : Heap → OutState → Option (Heap × OutState)
unfolding free_string
free_state h s = do
  (h, room_code) ← free_string h s.room_code
  (h, detail) ← free_string h s.detail
  some (h, record s { room_code = room_code; detail = detail })

unfoldable pub free_event : Heap → OutEvent → Option (Heap × OutEvent)
unfolding free_string
free_event h e = do (h, payload) ← free_string h e.payload; some (h, record e { payload = payload })

-- The memory of the library's strings and of the caller's structs.
pub record Memory : Type 0 where
  pub heap : Heap
  pub states : List OutState
  pub events : List OutEvent

abbrev pub finish_state :
    Context → OutString → OutState → Heap × Result OutString → Heap × OutState × Code
finish_state c room_code out (h, failed code) = (h, out, code)
finish_state c room_code out (h, done detail) = (
  h,
  record {
    version = (session_snapshot c).version;
    state = state_number (session_snapshot c).state;
    room_code = room_code;
    detail = detail;
  },
  ok,
)

abbrev pub write_detail :
    Env → Context → OutState → Heap × Result OutString → Heap × OutState × Code
write_detail env c out (h, failed code) = (h, out, code)
write_detail env c out (h, done room_code) =
    finish_state c room_code out (allocate_string h (env.print (session_snapshot c).detail))

-- The body of `terracotta_get_state`, on a struct. A panic over the detail loses the block of the
-- room code.
unfoldable pub write_state : Env → Context → Heap → OutState → Heap × OutState × Code
unfolding allocate_string
write_state env c h out = write_detail env c out (allocate_string h (session_snapshot c).room_code)

unfoldable pub get_state_into : Env → Handle → Heap → OutState → Heap × OutState × Code
unfolding write_state
get_state_into env handle h out = elim (context_of handle) [
  | failed code ↦ (h, out, code)
  | done c ↦ write_state env c h out
]

-- An event in the struct of `terracotta_poll_event`.
unfoldable pub write_event : Env → ℕ → Heap → OutEvent → Option Event → Heap × OutEvent × Code
unfolding allocate_string
write_event env sequence h out none = (h, out, no_event)
write_event env sequence h out (some event) =
    let (h', payload) = allocate_string h (env.print (payload_json event)) in
    elim payload [
      | failed code ↦ (h', out, code)
      | done payload ↦
          (h', record { sequence = sequence; type = type_id event; payload = payload }, ok)
    ]

unfoldable pub poll_event_into : Env → Handle → Heap → OutEvent → Heap × OutEvent × Code
unfolding write_event
poll_event_into env handle h out = elim (context_of handle) [
  | failed code ↦ (h, out, code)
  | done c ↦ let (c', got) = poll_event c in write_event env c'.emitter.next_seq h out got
]

-- The calls of a caller that have to do with strings, each with the handle as it is then. The last
-- three are `terracotta_free_string` on a string in a struct.
pub data Call : Type 0 where
  get_state_call : Handle → ℕ → Call
  poll_event_call : Handle → ℕ → Call
  free_state_call : ℕ → Call
  free_event_call : ℕ → Call
  free_room_code_call : ℕ → Call
  free_detail_call : ℕ → Call
  free_payload_call : ℕ → Call

-- One call: the code, or 0 for a function without one, is not kept.
unfoldable pub perform : Env → Memory → Call → Option Memory
unfolding get_state_into poll_event_into free_string free_state free_event
perform env m (get_state_call handle i) = elim (get_elem? m.states i) [
  | none ↦ some m
  | some out ↦
      let (h, out, code) = get_state_into env handle m.heap out in
      some (record m { heap = h; states = set m.states i out })
]
perform env m (poll_event_call handle i) = elim (get_elem? m.events i) [
  | none ↦ some m
  | some out ↦
      let (h, out, code) = poll_event_into env handle m.heap out in
      some (record m { heap = h; events = set m.events i out })
]
perform env m (free_state_call i) = elim (get_elem? m.states i) [
  | none ↦ some m
  | some out ↦ (do
    (h, out) ← free_state m.heap out
    some (record m { heap = h; states = set m.states i out }))
]
perform env m (free_event_call i) = elim (get_elem? m.events i) [
  | none ↦ some m
  | some out ↦ (do
    (h, out) ← free_event m.heap out
    some (record m { heap = h; events = set m.events i out }))
]
perform env m (free_room_code_call i) = elim (get_elem? m.states i) [
  | none ↦ some m
  | some out ↦ (do
    (h, room_code) ← free_string m.heap out.room_code
    some (record m { heap = h; states = set m.states i (record out { room_code = room_code }) }))
]
perform env m (free_detail_call i) = elim (get_elem? m.states i) [
  | none ↦ some m
  | some out ↦ (do
    (h, detail) ← free_string m.heap out.detail
    some (record m { heap = h; states = set m.states i (record out { detail = detail }) }))
]
perform env m (free_payload_call i) = elim (get_elem? m.events i) [
  | none ↦ some m
  | some out ↦ (do
    (h, payload) ← free_string m.heap out.payload
    some (record m { heap = h; events = set m.events i (record out { payload = payload }) }))
]

unfoldable pub perform_all : Env → Memory → List Call → Option Memory
perform_all env m [] = some m
perform_all env m (call ∷ calls) = do m' ← perform env m call; perform_all env m' calls
