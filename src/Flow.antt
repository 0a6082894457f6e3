-- ===== src/Flow.antt =====
-- What the two flows of src/flow.rs share.
pub mod Probe
pub mod Host
pub mod Guest
pub mod Exclusive
pub mod Processes
use terracotta_ffi.Base.{
  ℕ, Bool, true, false, List, [], ◌∷◌, ◌++◌, Option, none, some, map, Text, codes,
}
use terracotta_ffi.EasyTier.{
  Argument, no_tun, compression, multi_thread, latency_first, enable_kcp_proxy, listener, p2p_only,
  network_name, network_secret, public_server, v4, ipv4_unspecified, udp, tcp, fetch_public_nodes,
}
use terracotta_ffi.Event.{Event}
use terracotta_ffi.Emitter.{Emitter, emit}
use terracotta_ffi.Room.{Room}
use terracotta_ffi.Session.{EasyTier}

-- `MOTD` of lib.rs.
abbrev pub default_motd : Text
default_motd = codes "§w§lConic Connect"

abbrev pub unwrap_or {ℓ} : {A : Type ℓ} → Option A → A → A
unwrap_or none a = a
unwrap_or (some b) a = b

abbrev pub no_machine_id : Text
no_machine_id = codes "00000000000000000000000000000000"

-- The requested nodes, the configured ones and the built-in ones.
unfoldable pub all_nodes : List Text → List Text → List Text
all_nodes requested configured = fetch_public_nodes (requested ++ configured)

abbrev pub default_arguments : List Argument
default_arguments =
    no_tun
    ∷ compression (codes "zstd")
    ∷ multi_thread
    ∷ latency_first
    ∷ enable_kcp_proxy
    ∷ listener (v4 ipv4_unspecified 0) udp
    ∷ listener (v4 ipv4_unspecified 0) tcp
    ∷ p2p_only
    ∷ []

unfoldable pub compute_arguments : Room → List Text → List Argument
compute_arguments room servers =
    network_name room.network_name
    ∷ network_secret room.network_secret
    ∷ (map public_server servers ++ default_arguments)

-- `s.easytier.as_ref().map(|e| e.is_alive()).unwrap_or(false)`, where the system says what is alive.
abbrev pub runs : (EasyTier → Bool) → Option EasyTier → Bool
runs alive none = false
runs alive (some et) = alive et

-- Events sent one after the other.
unfoldable pub emit_all : Emitter → List Event → Emitter
emit_all e [] = e
emit_all e (ev ∷ evs) = emit_all (emit e ev) evs
