-- ===== src/Mc/Heard.antt =====
-- Which ports the scanner keeps after a round, and that it publishes what it hears.
use terracotta_ffi.Base.{
  ℕ, ◌+◌, ◌≤◌, ◌<◌, length, ◌≡◌, refl, ◌∙◌, ◌⊎◌, inl, inr, Bool, true, false, List, [], ◌∷◌, some,
  ◌==◌, ==_refl, All, All-append, Text, Bytes, arith, Bool-cases, Option-cases,
}
use terracotta_ffi.Base.Utf8.{encode, is_scalar}
use terracotta_ffi.Mc.{message}
use terracotta_ffi.Mc.Scanner.{
  Port, Packet, Round, Scanner, has_expired, expire, remove_port, port_in, read_sockets, scan_round,
  get_ports,
}
use terracotta_ffi.Mc.Announcement.{IsMotd, port_in-message}
use terracotta_ffi.Mc.Current.Ports.{has, numbers, has-append}
use terracotta_ffi.Mc.Current.{
  IsCurrent, read_sockets-none, read_sockets-some, scan_round-IsCurrent,
}

-- The port and its time are among some that are kept.
abbrev pub IsKept : Port → List Port → Type 0
IsKept p [] = ⊥
IsKept p (q ∷ qs) = (p ≡ q) ⊎ IsKept p qs

expire-All :
    (P : Port → Type 0) (now : ℕ) (ps : List Port)
    → ((p : Port) → IsKept p ps → has_expired now p ≡ false → P p)
    → All P (expire now ps).0
unfolding expire
expire-All P now [] h = tt
expire-All P now (p ∷ ps) h = elim (Bool-cases (has_expired now p)) [
  | inl e ↦ rw e (expire-All P now ps (λ q m. h q (inr m)))
  | inr e ↦ rw e (h p (inl refl) e, expire-All P now ps (λ q m. h q (inr m)))
]

remove_port-All :
    (P : Port → Type 0) (port : ℕ) (ps : List Port) → All P ps → All P (remove_port port ps).0
unfolding remove_port
remove_port-All P port [] a = tt
remove_port-All P port (p ∷ ps) a = elim (Bool-cases (p.0 == port)) [
  | inl e ↦ rw e a.1
  | inr e ↦ rw e (a.0, remove_port-All P port ps a.1)
]

-- Heard less than five seconds before the time, which is in nanoseconds, or after it.
abbrev pub IsFresh : ℕ → Port → Type 0
IsFresh now p = now < p.1 + 5000000000

has_expired-IsFresh : (now : ℕ) (p : Port) → has_expired now p ≡ false → IsFresh now p
has_expired-IsFresh now p h = ground (arith, h)

module _ (lossy : Bytes → Text) (filter : Text → Bool) where
  -- One of the packets gives the port, and was read at the time.
  abbrev pub IsHeard : List Packet → Port → Type 0
  IsHeard [] p = ⊥
  IsHeard (k ∷ ks) p = ((port_in lossy filter k ≡ some p.0) × (p.1 ≡ k.time)) ⊎ IsHeard ks p

  read_sockets-All :
      (P : Port → Type 0) (ks : List Packet) (ps : List Port)
      → ((p : Port) → IsHeard ks p → P p)
      → All P ps
      → All P (read_sockets lossy filter ks ps).0
  read_sockets-All P [] ps h a = unfold read_sockets in a
  read_sockets-All P (k ∷ ks) ps h a = elim (Option-cases (port_in lossy filter k)) [
    | inl e ↦
        rw (read_sockets-none lossy filter k ks ps e)
          (read_sockets-All P ks ps (λ p heard. h p (inr heard)) a)
    | inr (port, e) ↦ rw (read_sockets-some lossy filter k ks ps e) (
        All-append P (remove_port port ps).0 ((port, k.time) ∷ []) (remove_port-All P port ps a)
          (h (port, k.time) (inl (e, refl)), tt))
  ]

  -- Every port that is kept after a round was heard in it, or it was kept before the round, with the same
  -- time, and had been heard less than five seconds before the round began, or later by a clock that has
  -- been set back.
  pub scan_round-IsHeard :
      (round : Round) (s : Scanner)
      → All
          (λ p. (IsKept p s.ports × IsFresh round.now p) ⊎ IsHeard round.packets p)
          (scan_round lossy filter round s).ports
  unfolding scan_round
  scan_round-IsHeard round s =
      let P : Port → Type 0 =
        λ p. (IsKept p s.ports × IsFresh round.now p) ⊎ IsHeard round.packets p in
      read_sockets-All P round.packets (expire round.now s.ports).0 (λ p heard. inr heard)
        (expire-All P round.now s.ports (λ p m e. inl (m, has_expired-IsFresh round.now p e)))

  read_sockets-has :
      (k : Packet) (ks : List Packet) (ps : List Port) {port : ℕ}
      → port_in lossy filter k ≡ some port
      → has port (numbers (read_sockets lossy filter (k ∷ ks) ps).0) ≡ true
  read_sockets-has k ks ps {port} e =
      rw (read_sockets-some lossy filter k ks ps e)
        (has-append port (remove_port port ps).0 (port, k.time) ∙ ground (arith, ==_refl port))

  -- What a current scanner hears first in a round, it publishes.
  pub get_ports-first :
      (k : Packet) (ks : List Packet) (disconnected : Bool) (now : ℕ) (s : Scanner) {port : ℕ}
      → IsCurrent s
      → port_in lossy filter k ≡ some port
      → let round : Round = record { disconnected = disconnected; now = now; packets = k ∷ ks } in
        has port (get_ports (scan_round lossy filter round s)) ≡ true
  unfolding get_ports
  get_ports-first k ks disconnected now s {port} c e =
      let round : Round = record { disconnected = disconnected; now = now; packets = k ∷ ks } in
      (scan_round-IsCurrent lossy filter round s c).published port
      ∙ (unfold scan_round in read_sockets-has k ks (expire now s.ports).0 e)

-- A scanner that is current and hears a fake server first in a round publishes its port, if it wants the
-- MOTD. The MOTD is one that an announcement can carry, the decoding of bytes keeps what is UTF-8, and the
-- packet fits into the 8192 bytes of the scanner's buffer.
pub get_ports-message :
    (lossy : Bytes → Text) (filter : Text → Bool) (motd : Text) (port time now : ℕ)
    (ks : List Packet) (s : Scanner)
    → ((t : Text) → All (λ c. is_scalar c ≡ true) t → lossy (encode t) ≡ t)
    → IsMotd motd
    → port < 65536
    → length (encode (message motd port)) ≤ 8192
    → filter motd ≡ true
    → IsCurrent s
    → let k : Packet = record { bytes = some (encode (message motd port)); time = time } in
      let round : Round = record { disconnected = false; now = now; packets = k ∷ ks } in
      has port (get_ports (scan_round lossy filter round s)) ≡ true
get_ports-message lossy filter motd port time now ks s keeps m p fits wanted c =
    get_ports-first lossy filter _ ks false now s c
      (port_in-message lossy filter motd port time keeps m p fits ∙ rw wanted refl)
