-- ===== src/Room/Networks.antt =====
-- A room's EasyTier network belongs to that room alone.
use terracotta_ffi.Base.{ℕ, ◌≡◌, ◌≢◌, refl, sym, ap, ◌∙◌, ◌∷◌, ◌++◌, drop, codes}
use mathlib.Core.Option.{some-injective}
use terracotta_ffi.Room.{from_value, parse_window}
use terracotta_ffi.Room.RoundTrip.{IsValue, parse_window-from_value}

-- The code, from the name and the secret of the network.
code-network :
    (v : ℕ)
    → (from_value v).code
      ≡ codes "U/" ++ (drop 15 (from_value v).network_name ++ b'-' ∷ (from_value v).network_secret)
unfolding from_value
code-network v = refl

network_injective :
    (v w : ℕ)
    → IsValue v
    → IsValue w
    → (from_value v).network_name ≡ (from_value w).network_name
    → (from_value v).network_secret ≡ (from_value w).network_secret
    → v ≡ w
network_injective v w hv hw n s =
    let same : (from_value v).code ≡ (from_value w).code =
      code-network v
      ∙ ap (λ x. codes "U/" ++ (drop 15 x ++ b'-' ∷ (from_value v).network_secret)) n
      ∙ ap (λ x. codes "U/" ++ (drop 15 (from_value w).network_name ++ b'-' ∷ x)) s
      ∙ sym (code-network w) in
    some-injective v w
      (sym (parse_window-from_value v hv) ∙ ap parse_window same ∙ parse_window-from_value w hw)

-- The rooms of different values never share a network: the name or the secret differs. The values are
-- multiples of seven below 34^16.
pub networks_differ :
    (v w : ℕ)
    → IsValue v
    → IsValue w
    → v ≢ w
    → ¬ (
        ((from_value v).network_name ≡ (from_value w).network_name)
        × ((from_value v).network_secret ≡ (from_value w).network_secret))
networks_differ v w hv hw d same = d (network_injective v w hv hw same.0 same.1)
