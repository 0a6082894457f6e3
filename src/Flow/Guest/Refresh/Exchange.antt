-- ===== src/Flow/Guest/Refresh/Exchange.antt =====
-- One round of a guest's monitor against a ready host: the ping, and the list that the host makes then.
use terracotta_ffi.Base.{
  ℕ, zero, suc, ◌^◌, ◌<◌, ◌≡◌, ◌≢◌, refl, ap, subst, sym, ◌∙◌, inl, inr, true, false, ◌||◌, [], ◌∷◌,
  ◌++◌, none, some, length, Text, codes, text_eq, text_eq_refl, arith, Bool-cases, Option-cases,
}
use mathlib.Core.Option
use terracotta_ffi.Json.{Items, arr}
use terracotta_ffi.Profile.{Profile, guest}
use terracotta_ffi.Emitter.{Emitter}
use terracotta_ffi.Scaffolding.{call}
use terracotta_ffi.Protocols.{Env, position, touch, player_action, list_profiles, build_handlers}
use terracotta_ffi.Protocols.Players.{Players, IsRoster, list_profiles-total}
use terracotta_ffi.Protocols.Pinged.{ping_request, call-player_ping}
use terracotta_ffi.Flow.Guest.Refresh.Reading.{read_profiles, sort}
use terracotta_ffi.Flow.Guest.Refresh.Entry.{is_listed}
use terracotta_ffi.Flow.Guest.Refresh.Accepted.{guest_view, read_profiles-list_profiles}

append-is_listed :
    (m : Text) (ps : Players) (x : ℕ × Profile)
    → x.1.machine_id ≡ m
    → is_listed m (ps ++ x ∷ []) ≡ true
append-is_listed m [] x e = rw (e, text_eq_refl m) refl
append-is_listed m (y ∷ ps) x e = ground (arith, append-is_listed m ps x e)

position-is_listed :
    (m : Text) (ps : Players) (i : ℕ) → position m ps ≡ some i → is_listed m ps ≡ true
unfolding position
position-is_listed m [] i h = cc h
position-is_listed m ((t, p) ∷ ps) i h = elim (Bool-cases (text_eq p.machine_id m)) [
  | inl e ↦ rw e refl
  | inr e ↦ elim (Option-cases (position m ps)) [
    | inl n ↦ cc (rw (e, n) at h)
    | inr (j, n) ↦ rw (e, position-is_listed m ps j n) refl
  ]
]

touch-is_listed :
    (m : Text) (now : ℕ) (name : Text) (i : ℕ) (ps : Players)
    → is_listed m (touch now name i ps) ≡ is_listed m ps
unfolding touch
touch-is_listed m now name i [] = refl
touch-is_listed m now name zero ((t, p) ∷ ps) = refl
touch-is_listed m now name (suc i) (x ∷ ps) =
    ap (λ b. text_eq x.1.machine_id m || b) (touch-is_listed m now name i ps)

position-behind :
    (m : Text) (t : ℕ) (q : Profile) (gs : Players)
    → text_eq q.machine_id m ≡ false
    → position m ((t, q) ∷ gs) ≡ Option.map suc (position m gs)
unfolding position
position-behind m t q gs e = rw e refl

position-first :
    (m : Text) (t : ℕ) (q : Profile) (gs : Players)
    → text_eq q.machine_id m ≡ false
    → position m ((t, q) ∷ gs) ≢ some 0
position-first m t q gs e h = elim (Option-cases (position m gs)) [
  | inl n ↦ cc (position-behind m t q gs e ∙ ap (Option.map suc) n, h)
  | inr (i, n) ↦ cc (position-behind m t q gs e ∙ ap (Option.map suc) n, h)
]

-- A ping leaves the host in front, and lists the guest behind it.
player_action-behind :
    (now : ℕ) (name m vendor : Text) (t : ℕ) (q : Profile) (gs : Players)
    → text_eq q.machine_id m ≡ false
    → (hs : Players) × ((player_action now name m vendor ((t, q) ∷ gs)).0 ≡ (t, q) ∷ hs)
      × (is_listed m ((t, q) ∷ hs) ≡ true)
unfolding player_action touch
player_action-behind now name m vendor t q gs e = elim (Option-cases (position m gs)) [
  | inl n ↦
      let at : position m ((t, q) ∷ gs) ≡ none = position-behind m t q gs e ∙ rw n refl in
      let p : Profile = record { machine_id = m; name = name; vendor = vendor; kind = guest } in
      (
        gs ++ (now, p) ∷ [],
        rw (at, player_action) refl,
        append-is_listed m ((t, q) ∷ gs) (now, p) refl,
      )
  | inr (i, n) ↦
      let at : position m ((t, q) ∷ gs) ≡ some (suc i) = position-behind m t q gs e ∙ rw n refl in
      let there : is_listed m (touch now name i gs) ≡ true =
        touch-is_listed m now name i gs ∙ position-is_listed m gs i n in
      (touch now name i gs, rw (at, player_action) refl, rw (there, e) refl)
]

-- A guest that pings a host with a well-formed list, and then gets the list that the host makes,
-- accepts it, and is listed in it. The host comes first, and its machine id is another than the
-- guest's; the request fits its length field, and the host's parser reads back what the guest has printed.
pub call-is_listed :
    (env : Env) (e : Emitter) (own : Profile) (t : ℕ) (q : Profile) (gs : Players)
    → e.session.profiles ≡ (t, q) ∷ gs
    → IsRoster ((t, q) ∷ gs)
    → text_eq q.machine_id own.machine_id ≡ false
    → let body = env.codec.to_writer (ping_request own) in
      env.codec.from_lossy body ≡ some (ping_request own)
      → length body < 2 ^ 32
      → let ps =
          (call (build_handlers env) e (codes "c") (codes "player_ping") body).0.session.profiles in
        (is_listed own.machine_id ps ≡ true)
        × ((items : Items) × (list_profiles ps ≡ some items)
            × (read_profiles own (arr items) ≡ some (sort (guest_view own ps))))
call-is_listed env e own t q gs same roster other reads short =
    let there : IsRoster e.session.profiles = subst IsRoster (sym same) roster in
    let away : position own.machine_id e.session.profiles ≢ some 0 =
      subst (λ ps. position own.machine_id ps ≢ some 0) (sym same)
        (position-first own.machine_id t q gs other) in
    let (empty, made, well) = call-player_ping env e own reads short there away in
    let (hs, front, listed) =
      player_action-behind env.now own.name own.machine_id own.vendor t q gs other in
    let all =
      made
      ∙ ap (λ ps. (player_action env.now own.name own.machine_id own.vendor ps).0) same
      ∙ front in
    let well2 : IsRoster ((t, q) ∷ hs) = subst IsRoster all well in
    let (items, e2) = list_profiles-total ((t, q) ∷ hs) well2 in
    rw all (listed, (items, e2, read_profiles-list_profiles own q t hs items well2 other e2))
