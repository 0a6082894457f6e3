-- ===== src/Examples/Players.antt =====
-- A host's list of players.
use terracotta_ffi.Base.{◌≡◌, refl, [], ◌∷◌, codes}
use terracotta_ffi.Profile.{Profile, host, guest}
use terracotta_ffi.Protocols.Players.{Players, IsRoster}
use terracotta_ffi.Flow.Host.{evict}
use terracotta_ffi.Flow.Host.Eviction.{evict_lem}

abbrev pub alex : Profile
alex = record { machine_id = codes "a0"; name = codes "Alex"; vendor = codes "Conic"; kind = host }

abbrev pub steve : Profile
steve = record {
  machine_id = codes "b1";
  name = codes "Steve";
  vendor = codes "Conic";
  kind = guest;
}

abbrev pub two_players : Players
two_players = (0, alex) ∷ (5000, steve) ∷ []

pub two_players-IsRoster : IsRoster two_players
two_players-IsRoster = record { host_first = (refl, (refl, tt)); distinct = ((refl, tt), (tt, tt)) }

-- Steve's last ping is more than ten seconds old.
evict_lem_example : evict 20000 two_players ≡ ((0, alex) ∷ [], codes "b1" ∷ [])
evict_lem_example = evict_lem 20000 0 alex ((5000, steve) ∷ [])
