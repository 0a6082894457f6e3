-- ===== src/Examples/Scanner.antt =====
-- A host that announces its server, and a scanner that hears it.
use terracotta_ffi.Base.{
  ◌≡◌, refl, ◌⊎◌, Bool, true, false, not, [], ◌∷◌, some, All, Text, Bytes, codes, text_eq, arith,
}
use terracotta_ffi.Base.Utf8.{
  encode, encode_char, decode, decode-encode, is_scalar, all_scalar_sound,
}
use terracotta_ffi.Base.Decimal.{u16_to_string}
use terracotta_ffi.Flow.{default_motd, unwrap_or}
use terracotta_ffi.Mc.{message, find}
use terracotta_ffi.Mc.Scanner.{Packet, Round, Scanner, new_scanner, scan_round, run, get_ports}
use terracotta_ffi.Mc.Announcement.{IsMotd}
use terracotta_ffi.Mc.Current.Ports.{has}
use terracotta_ffi.Mc.Current.{IsCurrent, run-IsCurrent}
use terracotta_ffi.Mc.Heard.{IsKept, IsHeard, IsFresh, scan_round-IsHeard, get_ports-message}

abbrev lossy : Bytes → Text
lossy bytes = unwrap_or (decode bytes) []

lossy-encode : (s : Text) → All (λ c. is_scalar c ≡ true) s → lossy (encode s) ≡ s
lossy-encode s h = rw (decode-encode s h) refl

-- What the host flow asks the scanner for: any MOTD but its own.
abbrev others : Text → Bool
others motd = not (text_eq motd default_motd)

abbrev motd : Text
motd = codes "[My] World"

motd-IsMotd : IsMotd motd
unfolding find
motd-IsMotd = record {
  scalar = all_scalar_sound motd refl;
  some_motd = omega arith;
  short = omega arith;
  no_end = refl;
  no_port = refl;
  no_port_end = refl;
}

abbrev packet : Packet
packet = record { bytes = some (encode (message motd 25565)); time = 7000000 }

abbrev round : Round
round = record { disconnected = false; now = 6000000; packets = packet ∷ [] }

run-IsCurrent_example : IsCurrent (run lossy others (round ∷ round ∷ []) new_scanner)
run-IsCurrent_example = run-IsCurrent lossy others (round ∷ round ∷ [])

abbrev earlier : Scanner
earlier = run lossy others (round ∷ []) new_scanner

scan_round-IsHeard_example :
    All
      (λ p. (IsKept p earlier.ports × IsFresh round.now p) ⊎ IsHeard lossy others round.packets p)
      (scan_round lossy others round earlier).ports
scan_round-IsHeard_example = scan_round-IsHeard lossy others round earlier

get_ports-message_example : has 25565 (get_ports (scan_round lossy others round earlier)) ≡ true
unfolding encode message encode_char u16_to_string
get_ports-message_example =
    get_ports-message lossy others motd 25565 7000000 6000000 [] earlier lossy-encode motd-IsMotd
      (omega arith) (omega arith) refl (run-IsCurrent lossy others (round ∷ []))
