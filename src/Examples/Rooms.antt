-- ===== src/Examples/Rooms.antt =====
-- Room codes.
use terracotta_ffi.Base.{◌≡◌, refl, some, codes, replicate, arith}
use terracotta_ffi.Room.{from_value, parse, char_at, create}
use terracotta_ffi.Room.RoundTrip.{parse-embedded, parse-create}
use terracotta_ffi.Room.Networks.{networks_differ}

parse-create_example : parse (create (replicate 16 200)).code ≡ some (create (replicate 16 200))
parse-create_example = parse-create (replicate 16 200)

-- A code in lower case, with text on both sides.
parse-embedded_example : parse (codes "room: u/7000-0000-0000-0000!") ≡ some (from_value 7)
unfolding from_value char_at
parse-embedded_example =
    parse-embedded 7 (codes "room: u/7000-0000-0000-0000!") (codes "ROOM: ") (codes "!")
      (omega arith, refl) refl
      (
        (λ e. omega (arith, e)),
        (
          (λ e. omega (arith, e)),
          (
            (λ e. omega (arith, e)),
            ((λ e. omega (arith, e)), ((λ e. omega (arith, e)), ((λ e. omega (arith, e)), tt))),
          ),
        ),
      )

networks_differ_example : ¬ (
    ((from_value 7).network_name ≡ (from_value 14).network_name)
    × ((from_value 7).network_secret ≡ (from_value 14).network_secret))
networks_differ_example =
    networks_differ 7 14 (omega arith, refl) (omega arith, refl) (λ h. absurd (omega (arith, h)))
