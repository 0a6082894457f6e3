-- ===== src/Examples/Processes.antt =====
-- Port forwards that need a second attempt, and machine id files.
use terracotta_ffi.Base.{
  ℕ, zero, suc, ◌≡◌, ◌↔◌, refl, true, false, [], ◌∷◌, none, some, All, length, replicate, Text,
  Bytes, codes, arith,
}
use terracotta_ffi.EasyTier.{PortForward, tcp, udp, v4, ipv4_unspecified}
use terracotta_ffi.EasyTier.Forwarding.{
  Attempt, successful, unsuccessful, is_spawned, add_port_forward,
}
use terracotta_ffi.EasyTier.Forwarding.Rounds.{succeeds_within, add_port_forward_lem}
use terracotta_ffi.EasyTier.Output.{new_ring, collect, shown}
use terracotta_ffi.EasyTier.Output.Shown.{printed, shown-printed}
use terracotta_ffi.MachineId.{System, content, get_or_create}
use terracotta_ffi.MachineId.Persistent.{get_or_create-persists, get_or_create-long}

abbrev over_tcp : PortForward
over_tcp = record {
  local = v4 ipv4_unspecified 25565;
  remote = v4 ipv4_unspecified 25566;
  proto = tcp;
}

abbrev over_udp : PortForward
over_udp = record {
  local = v4 ipv4_unspecified 25565;
  remote = v4 ipv4_unspecified 25566;
  proto = udp;
}

-- UDP works at once, and TCP from the second round on.
abbrev cli : ℕ → PortForward → Attempt
cli zero f = elim f.proto [ tcp ↦ unsuccessful | udp ↦ successful ]
cli (suc t) f = successful

cli-is_spawned : (t : ℕ) (f : PortForward) → is_spawned (cli t f) ≡ true
cli-is_spawned zero f =
    elim f.proto as (λ p. is_spawned (elim p [ tcp ↦ unsuccessful | udp ↦ successful ]) ≡ true) [
      | tcp ↦ refl
      | udp ↦ refl
    ]
cli-is_spawned (suc t) f = refl

add_port_forward_lem_example :
    ((add_port_forward 40000 cli (over_tcp ∷ over_udp ∷ [])).0 ≡ true)
    ↔ All (λ f. succeeds_within 40000 cli 3 0 f ≡ true) (over_tcp ∷ over_udp ∷ [])
add_port_forward_lem_example =
    add_port_forward_lem 40000 cli (over_tcp ∷ over_udp ∷ []) cli-is_spawned

abbrev id : Bytes
id = 0 ∷ 1 ∷ 2 ∷ 3 ∷ 4 ∷ 5 ∷ 6 ∷ 7 ∷ 8 ∷ 9 ∷ 10 ∷ 11 ∷ 12 ∷ 13 ∷ 14 ∷ 15 ∷ []

-- A printer that shows the bytes as characters.
abbrev as_text : Bytes → Text
as_text bytes = bytes

abbrev works : System
works = record { opens = true; reads = true; seeks = true; writes = some 16; random = some id }

abbrev read_only : System
read_only = record { opens = true; reads = true; seeks = false; writes = none; random = none }

get_or_create-persists_example :
    (get_or_create as_text works none ≡ (some id, some id))
    × (get_or_create as_text read_only (get_or_create as_text works none).0
        ≡ get_or_create as_text works none)
get_or_create-persists_example =
    get_or_create-persists as_text works read_only none id (omega arith) refl refl refl refl refl
      refl refl refl

get_or_create-long_example :
    let r = get_or_create as_text works (some (replicate 20 7)) in
    (r.1 ≡ some id) × (length (content r.0) ≡ 20)
get_or_create-long_example =
    get_or_create-long as_text works (replicate 20 7) id (omega arith) refl refl refl refl

shown-printed_example :
    shown (collect (printed (codes "one" ∷ codes "two" ∷ [])) new_ring)
    ≡ codes "one" ∷ codes "two" ∷ []
shown-printed_example = shown-printed (codes "one" ∷ codes "two" ∷ [])
