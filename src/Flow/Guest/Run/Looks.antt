-- ===== src/Flow/Guest/Run/Looks.antt =====
-- The looks of a guest flow at its peers: how the search for the host ends.
use terracotta_ffi.Base.{
  ℕ, ◌≡◌, refl, ◌⊎◌, inl, inr, true, false, List, [], ◌∷◌, Option, none, some, Bool-cases,
  Option-cases,
}
use terracotta_ffi.EasyTier.{Ipv4Addr}
use terracotta_ffi.EasyTier.Peers.{EasyTierMember}
use terracotta_ffi.Emitter.{Emitter}
use terracotta_ffi.Session.{EasyTier}
use terracotta_ffi.Flow.Guest.{
  Outcome, proceed, again, stopped, blocked, fail_with, Round, connect, discover_round, discover,
  discover_rounds, first, find_local, find_server,
}
use terracotta_ffi.Flow.Guest.Run.Phases.{
  IsStarting, IsFailed, Ends, crash-IsFailed, lost-IsFailed, report_starts,
}

-- The address of the host in a look that has both the guest and a server in its list.
unfoldable pub host_of : Round → Option Ipv4Addr
host_of r = elim r.players [
  | none ↦ none
  | some players ↦ elim (find_local players) [
    | none ↦ none
    | some _ ↦ elim (find_server players) [ none ↦ none | some (address, port, nat) ↦ some address ]
  ]
]

-- EasyTier lives through some looks without a host, and is dead at the next.
abbrev pub IsDead : EasyTier → List Round → Type 0
IsDead easytier [] = ⊥
IsDead easytier (r ∷ rs) =
    (r.alive easytier ≡ false)
    ⊎ ((r.alive easytier ≡ true) × (host_of r ≡ none) × IsDead easytier rs)

-- The first look with a host has it at the address, EasyTier lives till then, and the forward to its
-- server is set up.
abbrev pub IsSeen : EasyTier → Ipv4Addr → List Round → Type 0
IsSeen easytier ip [] = ⊥
IsSeen easytier ip (r ∷ rs) =
    (r.alive easytier ≡ true)
    × (((r.forwarded ≡ true) × (host_of r ≡ some ip))
        ⊎ ((host_of r ≡ none) × IsSeen easytier ip rs))

module _ (easytier : EasyTier) (t : ℕ) where
  -- A round that goes on has seen the host, one that tries again has not, and one that blocks has seen
  -- that EasyTier is dead.
  RoundEnds : Round → Outcome (ℕ × Ipv4Addr) → Type 0
  RoundEnds r (proceed e found) =
      IsStarting easytier 1 e t
      × (r.alive easytier ≡ true)
      × (r.forwarded ≡ true)
      × (host_of r ≡ some found.1)
  RoundEnds r (again e) = IsStarting easytier 2 e t × (r.alive easytier ≡ true) × (host_of r ≡ none)
  RoundEnds r (stopped e) = IsFailed e
  RoundEnds r blocked = r.alive easytier ≡ false

  connect-RoundEnds :
      (r : Round) (e : Emitter) (players : List EasyTierMember)
      → r.alive easytier ≡ true
      → r.players ≡ some players
      → IsStarting easytier 2 e t
      → RoundEnds r (connect r t e players)
  unfolding connect RoundEnds fail_with host_of
  connect-RoundEnds r e players a p h = elim (Option-cases (find_local players)) [
    | inl n ↦ rw (n, connect) (h, a, rw (p, host_of, n) refl)
    | inr (nat, n) ↦ elim (Option-cases (find_server players)) [
      | inl m ↦ rw (n, connect, m) (h, a, rw (p, host_of, n, host_of, m) refl)
      | inr ((address, port, server_nat), m) ↦ elim (Bool-cases r.forwarded) [
        | inl f ↦
            rw (n, connect, m, h.started, f)
              (
                report_starts easytier t e nat server_nat h,
                a,
                refl,
                rw (p, host_of, n, host_of, m) refl,
              )
        | inr f ↦ rw (n, connect, m, h.started, f) (crash-IsFailed easytier t 2 e h)
      ]
    ]
  ]

  round-RoundEnds :
      (r : Round) (e : Emitter) → IsStarting easytier 2 e t → RoundEnds r (discover_round r t e)
  unfolding discover_round RoundEnds fail_with host_of
  round-RoundEnds r e h = elim (Bool-cases (r.alive easytier)) [
    | inr a ↦ rw (h.good, h.started, discover_round, a) a
    | inl a ↦ elim (Option-cases r.players) [
      | inl n ↦ rw (h.good, h.started, discover_round, a, n) (h, a, refl)
      | inr (players, n) ↦
          simp (h.good, h.started, discover_round, a, n) (connect-RoundEnds r e players a n h)
    ]
  ]

  after_round :
      (Hazard : Type 0) (P : Ipv4Addr → Type 0) (r : Round)
      (rest : Emitter → Outcome (ℕ × Ipv4Addr)) (o : Outcome (ℕ × Ipv4Addr))
      → RoundEnds r o
      → (r.alive easytier ≡ false → Hazard)
      → ((ip : Ipv4Addr)
          → r.alive easytier ≡ true
          → r.forwarded ≡ true
          → host_of r ≡ some ip
          → P ip)
      → ((e : Emitter)
          → IsStarting easytier 2 e t
          → r.alive easytier ≡ true
          → host_of r ≡ none
          → Ends Hazard (λ e found. IsStarting easytier 1 e t × P found.1) (rest e))
      → Ends Hazard
          (λ e found. IsStarting easytier 1 e t × P found.1)
          (elim o [
            | proceed e' found ↦ proceed e' found
            | again e' ↦ rest e'
            | stopped e' ↦ stopped e'
            | blocked ↦ blocked
          ])
  unfolding RoundEnds
  after_round Hazard P r rest (proceed e (port, ip)) (h, a, f, seen) dead found k =
      (h, found ip a f seen)
  after_round Hazard P r rest (again e) (h, a, n) dead found k = k e h a n
  after_round Hazard P r rest (stopped e) h dead found k = h
  after_round Hazard P r rest blocked h dead found k = dead h

  rounds-Ends :
      (Hazard : Type 0) (P : Ipv4Addr → Type 0) (rs : List Round) (e : Emitter)
      → (IsDead easytier rs → Hazard)
      → ((ip : Ipv4Addr) → IsSeen easytier ip rs → P ip)
      → IsStarting easytier 2 e t
      → Ends Hazard (λ e found. IsStarting easytier 1 e t × P found.1) (discover_rounds rs t e)
  unfolding discover_rounds fail_with
  rounds-Ends Hazard P [] e dead found h = lost-IsFailed easytier t 2 e h
  rounds-Ends Hazard P (r ∷ rs) e dead found h =
      after_round Hazard P r (λ e'. discover_rounds rs t e') (discover_round r t e)
        (round-RoundEnds r e h) (λ d. dead (inl d)) (λ ip a f s. found ip (a, inl (f, s)))
        (λ e' h' a n.
          rounds-Ends Hazard P rs e' (λ d. dead (inr (a, n, d))) (λ ip s. found ip (a, inr (n, s)))
            h')

  pub discover-Ends :
      (Hazard : Type 0) (looks : ℕ → Round) (e : Emitter)
      → (IsDead easytier (first 5 looks) → Hazard)
      → IsStarting easytier 2 e t
      → Ends Hazard
          (λ e found. IsStarting easytier 1 e t × IsSeen easytier found.1 (first 5 looks))
          (discover looks t e)
  unfolding discover
  discover-Ends Hazard looks e dead h =
      rounds-Ends Hazard (λ ip. IsSeen easytier ip (first 5 looks)) (first 5 looks) e dead
        (λ ip s. s) h
