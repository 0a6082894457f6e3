-- ===== src/Mc/Scanner.antt =====
-- `MinecraftScanner` of src/mc/scanner.rs: the loop of `run`. Times are in nanoseconds.
use terracotta_ffi.Base.{
  ℕ, ◌-◌, ◌/◌, Bool, true, false, not, ◌&&◌, ◌||◌, List, [], ◌∷◌, ◌++◌, Option, none, some, map,
  ◌==◌, leb, if◌then◌else◌, take, Text, Bytes,
}
use terracotta_ffi.Mc.{heard}

-- A port and when it was last heard of.
abbrev pub Port : Type 0
Port = ℕ × ℕ

abbrev pub port_of : Port → ℕ
port_of p = p.0

-- The datagram that one socket has before its timeout, if it has one, and the time after that.
pub record Packet : Type 0 where
  pub bytes : Option Bytes
  pub time : ℕ

-- One round of the loop: whether the scanner has been dropped, the time, and the packets of the sockets
-- in their order.
pub record Round : Type 0 where
  pub disconnected : Bool
  pub now : ℕ
  pub packets : List Packet

-- `ports` is the thread's own list, and `output` the one that `get_ports` reads.
pub record Scanner : Type 0 where
  pub ports : List Port
  pub output : List ℕ

abbrev pub new_scanner : Scanner
new_scanner = record { ports = []; output = [] }

-- A clock set back expires nothing.
abbrev pub has_expired : ℕ → Port → Bool
has_expired now p = leb p.1 now && leb 5000 ((now - p.1) / 1000000)

-- The removal of the expired ports, from the back, and whether there were any.
unfoldable pub expire : ℕ → List Port → List Port × Bool
expire now [] = ([], false)
expire now (p ∷ ps) =
    let rest = expire now ps in if has_expired now p then (rest.0, true) else (p ∷ rest.0, rest.1)

-- The removal of the first entry of a port, and whether it existed.
unfoldable pub remove_port : ℕ → List Port → List Port × Bool
remove_port port [] = ([], false)
remove_port port (p ∷ ps) =
    let rest = remove_port port ps in if p.0 == port then (ps, true) else (p ∷ rest.0, rest.1)

-- The size of the buffer that a packet is received in.
abbrev pub receive_buffer : ℕ
receive_buffer = 8192

module _ (lossy : Bytes → Text) (filter : Text → Bool) where
  -- The port that a packet makes the scanner keep; `recv_from` cuts it off at the end of the buffer.
  unfoldable pub port_in : Packet → Option ℕ
  port_in packet = elim packet.bytes [
    | none ↦ none
    | some buf ↦ heard filter (lossy (take receive_buffer buf))
  ]

  -- The sockets are read up to the first that gives a port.
  unfoldable pub read_sockets : List Packet → List Port → List Port × Bool
  unfolding port_in remove_port
  read_sockets [] ports = (ports, false)
  read_sockets (packet ∷ packets) ports = elim (port_in packet) [
    | none ↦ read_sockets packets ports
    | some port ↦
        let removed = remove_port port ports in
        (removed.0 ++ (port, packet.time) ∷ [], not removed.1)
  ]

  -- One round of the loop.
  unfoldable pub scan_round : Round → Scanner → Scanner
  unfolding expire read_sockets
  scan_round round s =
      let (kept, lost) = expire round.now s.ports in
      let (ports, found) = read_sockets round.packets kept in
      record { ports = ports; output = if lost || found then map port_of ports else s.output }

  -- The loop, over the rounds that it goes through.
  unfoldable pub run : List Round → Scanner → Scanner
  unfolding scan_round
  run [] s = s
  run (round ∷ rounds) s =
      let later = run rounds (scan_round round s) in if round.disconnected then s else later

unfoldable pub get_ports : Scanner → List ℕ
get_ports s = s.output
