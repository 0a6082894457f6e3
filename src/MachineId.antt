-- ===== src/MachineId.antt =====
-- src/machine_id.rs: the machine id and the file that keeps it. Files, the random source and the hex
-- printer are outside the program; `hex` is a parameter.
pub mod Persistent
use terracotta_ffi.Base.{
  ℕ, ◌-◌, Bool, true, false, List, [], ◌∷◌, ◌++◌, Option, none, some, ◌==◌, length, take, drop,
  replicate, if◌then◌else◌, Text, Bytes,
}

-- The bytes of the file, if there is one.
abbrev pub File : Type 0
File = Option Bytes

-- How the calls of the operating system end: whether the file opens, is read and is rewound, how many
-- bytes a write takes, and the bytes of the random source.
pub record System : Type 0 where
  pub opens : Bool
  pub reads : Bool
  pub seeks : Bool
  pub writes : Option ℕ
  pub random : Option Bytes

-- Opening creates the file and does not truncate it.
abbrev pub content : File → Bytes
content none = []
content (some bytes) = bytes

-- A write at the start that takes n bytes.
unfoldable pub write_at_start : Option ℕ → Bytes → Bytes → Bytes
write_at_start none bytes old = old
write_at_start (some n) bytes old = take n bytes ++ drop (length (take n bytes)) old

-- The buffer of 17 bytes after a read of the file.
unfoldable pub read_buffer : Bytes → Bytes
read_buffer old = take 17 old ++ replicate (17 - length (take 17 old)) 0

module _ (hex : Bytes → Text) where
  -- What follows a read of some number of bytes other than 16.
  unfoldable pub renew : System → Bytes → Bytes × Option Text
  unfolding write_at_start
  renew system old = elim system.random [
    | none ↦ (old, none)
    | some bytes ↦
        (if system.seeks then write_at_start system.writes bytes old else old, some (hex bytes))
  ]

  unfoldable pub get_or_create : System → File → File × Option Text
  unfolding renew read_buffer
  get_or_create system file =
      let old = content file in
      let renewed = renew system old in
      if system.opens
      then (if system.reads
          then (if length (take 17 old) == 16
              then (some old, some (hex (take 16 (read_buffer old))))
              else (some renewed.0, renewed.1))
          else (some old, some (hex (replicate 16 0))))
      else (file, elim system.random [ none ↦ none | some bytes ↦ some (hex bytes) ])
