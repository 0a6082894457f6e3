-- ===== src/Mc.antt =====
-- src/mc: what a fake server announces (fakeserver.rs), and the reading of an announcement by the
-- scanner (scanner.rs). Mc/Sockets is what the two threads do with their sockets. Positions are counted in characters, and in the source in bytes: the tags are
-- ASCII, so the comparisons and the slices come out the same.
pub mod Scanner
pub mod Sockets
pub mod Announcement
pub mod Current
pub mod Heard
use terracotta_ffi.Base.{
  ℕ, zero, suc, ◌+◌, ◌-◌, ◌%◌, ◌^◌, Bool, true, false, ◌&&◌, List, [], ◌∷◌, ◌++◌, Option, none,
  some, ◌==◌, ltb, leb, length, take, drop, if◌then◌else◌, Text, codes,
}
use terracotta_ffi.Base.Decimal.{u16_to_string, parse_u16}

-- `message` of `run` in fakeserver.rs.
unfoldable pub message : Text → ℕ → Text
message motd port =
    codes "[MOTD]" ++ (motd ++ (codes "[/MOTD][AD]" ++ (u16_to_string port ++ codes "[/AD]")))

-- `str::starts_with`.
abbrev pub starts_with : Text → Text → Bool
starts_with [] s = true
starts_with (c ∷ cs) [] = false
starts_with (c ∷ cs) (d ∷ s) = (c == d) && starts_with cs s

abbrev pub next : Option ℕ → Option ℕ
next none = none
next (some i) = some (suc i)

-- `str::find` of a pattern that is not empty: where it first occurs.
unfoldable pub find : Text → Text → Option ℕ
find pattern_ [] = none
find pattern_ (c ∷ s) =
    let later = next (find pattern_ s) in if starts_with pattern_ (c ∷ s) then some 0 else later

-- `str::get` of a range.
unfoldable pub get : ℕ → ℕ → Text → Option Text
get from to s =
    if leb from to && leb to (length s) then some (take (to - from) (drop from s)) else none

-- `usize` subtraction, as a release build has it.
abbrev pub wrapping_sub : ℕ → ℕ → ℕ
wrapping_sub a b = (a + 2 ^ 64 - b) % 2 ^ 64

-- The text between two tags of this length and these positions, unless it is empty.
abbrev pub slice : ℕ → Option ℕ → Option ℕ → Text → Option Text
slice tag (some from) (some to) buf =
    if ltb tag (wrapping_sub to from) then get (from + tag) to buf else none
slice tag _ _ buf = none

-- The text between the first opening tag and the first closing one.
unfoldable pub between : Text → Text → Text → Option Text
unfolding find get
between open_tag close_tag buf =
    slice (length open_tag) (find open_tag buf) (find close_tag buf) buf

abbrev pub accepted : (Text → Bool) → Text → Bool
accepted filter buf = elim (between (codes "[MOTD]") (codes "[/MOTD]") buf) [
  | none ↦ false
  | some motd ↦ filter motd
]

abbrev pub advertised : Text → Option ℕ
advertised buf = elim (between (codes "[AD]") (codes "[/AD]") buf) [
  | none ↦ none
  | some port ↦ parse_u16 port
]

-- The port that a packet makes the scanner keep.
unfoldable pub heard : (Text → Bool) → Text → Option ℕ
unfolding between
heard filter buf = if accepted filter buf then advertised buf else none
