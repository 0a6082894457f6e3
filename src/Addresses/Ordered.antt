-- ===== src/Addresses/Ordered.antt =====
-- Which addresses there are, and in which order.
use terracotta_ffi.Base.{
  ℕ, ◌≤◌, ◌≡◌, ◌⊎◌, ◌==◌, refl, inl, inr, Bool, true, not, ◌&&◌, List, [], ◌∷◌, ◌++◌, Option, ltb,
  All, All-append, arith, Bool-cases,
}
use terracotta_ffi.EasyTier.{ipv4_unspecified}
use terracotta_ffi.Addresses.{
  IpAddr, v4, v6, rank, is_virtual, is_kept, same_ipv4, ipv4_localhost, keep_addresses,
  insert_address, sort_addresses, listed, addresses,
}

-- No address is greater than one before it.
abbrev pub IsDescending : List IpAddr → Type 0
IsDescending [] = Unit {0}
IsDescending (p ∷ ps) = All (λ q. rank q ≤ rank p) ps × IsDescending ps

-- No loopback address, and none of the network that EasyTier makes.
abbrev pub is_outer : IpAddr → Bool
is_outer (v4 ip) = not (is_virtual ip) && not (same_ipv4 ip ipv4_localhost)
is_outer (v6 n) = not (n == 1)

abbrev pub IsMember : IpAddr → List IpAddr → Type 0
IsMember p [] = ⊥
IsMember p (q ∷ qs) = (p ≡ q) ⊎ IsMember p qs

insert_address-All :
    (P : IpAddr → Type 0) (p : IpAddr) (qs : List IpAddr)
    → P p
    → All P qs
    → All P (insert_address p qs)
unfolding insert_address
insert_address-All P p [] h a = (h, tt)
insert_address-All P p (q ∷ qs) h a = elim (Bool-cases (ltb (rank p) (rank q))) [
  | inl e ↦ rw e (a.0, insert_address-All P p qs h a.1)
  | inr e ↦ rw e (h, a)
]

below-All :
    (m n : ℕ) (qs : List IpAddr) → m ≤ n → All (λ q. rank q ≤ m) qs → All (λ q. rank q ≤ n) qs
below-All m n [] h a = tt
below-All m n (q ∷ qs) h a = (omega (arith, h, a.0), below-All m n qs h a.1)

insert_address-IsDescending :
    (p : IpAddr) (qs : List IpAddr) → IsDescending qs → IsDescending (insert_address p qs)
unfolding insert_address
insert_address-IsDescending p [] d = (tt, tt)
insert_address-IsDescending p (q ∷ qs) d = elim (Bool-cases (ltb (rank p) (rank q))) [
  | inl e ↦
      let under : rank p ≤ rank q = ground (arith, e) in
      rw e (
        insert_address-All (λ x. rank x ≤ rank q) p qs under d.0,
        insert_address-IsDescending p qs d.1,
      )
  | inr e ↦
      let under : rank q ≤ rank p = ground (arith, e) in
      rw e ((under, below-All (rank q) (rank p) qs under d.0), d)
]

insert_address-IsMember :
    (p q : IpAddr) (qs : List IpAddr) → (p ≡ q) ⊎ IsMember p qs → IsMember p (insert_address q qs)
unfolding insert_address
insert_address-IsMember p q [] h = h
insert_address-IsMember p q (r ∷ qs) h = elim (Bool-cases (ltb (rank q) (rank r))) [
  | inl e ↦ rw e (elim h [
    | inl i ↦ inr (insert_address-IsMember p q qs (inl i))
    | inr m ↦ elim m [ inl i ↦ inl i | inr m ↦ inr (insert_address-IsMember p q qs (inr m)) ]
  ])
  | inr e ↦ rw e h
]

sort_addresses-All : (P : IpAddr → Type 0) (ps : List IpAddr) → All P ps → All P (sort_addresses ps)
unfolding sort_addresses
sort_addresses-All P [] a = tt
sort_addresses-All P (p ∷ ps) a =
    insert_address-All P p (sort_addresses ps) a.0 (sort_addresses-All P ps a.1)

sort_addresses-IsDescending : (ps : List IpAddr) → IsDescending (sort_addresses ps)
unfolding sort_addresses
sort_addresses-IsDescending [] = tt
sort_addresses-IsDescending (p ∷ ps) =
    insert_address-IsDescending p (sort_addresses ps) (sort_addresses-IsDescending ps)

sort_addresses-IsMember :
    (p : IpAddr) (ps : List IpAddr) → IsMember p ps → IsMember p (sort_addresses ps)
unfolding sort_addresses
sort_addresses-IsMember p [] m = m
sort_addresses-IsMember p (q ∷ ps) m =
    insert_address-IsMember p q (sort_addresses ps)
      (elim m [ inl i ↦ inl i | inr m ↦ inr (sort_addresses-IsMember p ps m) ])

kept-outer : (p : IpAddr) → is_kept p ≡ true → is_outer p ≡ true
unfolding is_kept
kept-outer (v4 ip) h = ground (arith, h)
kept-outer (v6 n) h = ground (arith, h)

keep_addresses-All : (ps : List IpAddr) → All (λ p. is_outer p ≡ true) (keep_addresses ps)
unfolding keep_addresses
keep_addresses-All [] = tt
keep_addresses-All (p ∷ ps) = elim (Bool-cases (is_kept p)) [
  | inl e ↦ rw e (kept-outer p e, keep_addresses-All ps)
  | inr e ↦ rw e (keep_addresses-All ps)
]

append-IsMember : (p : IpAddr) (ps qs : List IpAddr) → IsMember p qs → IsMember p (ps ++ qs)
append-IsMember p [] qs m = m
append-IsMember p (q ∷ ps) qs m = inr (append-IsMember p ps qs m)

-- Whatever interfaces there are, the addresses are in descending order, none of them is a loopback
-- address or one of the network that EasyTier makes, and both unspecified addresses are among them.
pub addresses_lem :
    (networks : Option (List IpAddr))
    → IsDescending (addresses networks)
      × All (λ p. is_outer p ≡ true) (addresses networks)
      × IsMember (v4 ipv4_unspecified) (addresses networks)
      × IsMember (v6 0) (addresses networks)
unfolding addresses
addresses_lem networks =
    let kept : List IpAddr = keep_addresses (listed networks) in
    let both : List IpAddr = v4 ipv4_unspecified ∷ v6 0 ∷ [] in
    (
      sort_addresses-IsDescending (kept ++ both),
      sort_addresses-All (λ p. is_outer p ≡ true) (kept ++ both)
          (All-append (λ p. is_outer p ≡ true) kept both (keep_addresses-All (listed networks))
            (refl, (refl, tt))),
      sort_addresses-IsMember (v4 ipv4_unspecified) (kept ++ both)
          (append-IsMember _ kept both (inl refl)),
      sort_addresses-IsMember (v6 0) (kept ++ both) (append-IsMember _ kept both (inr (inl refl))),
    )
