-- ===== src/Mc/Current.antt =====
-- The ports that the scanner keeps and publishes.
pub mod Ports
use terracotta_ffi.Base.{
  ℕ, ◌<◌, ◌≡◌, refl, sym, ap, ◌∙◌, ◌⊎◌, inl, inr, Bool, true, false, not, ◌||◌, List, [], ◌∷◌, ◌++◌,
  Option, none, some, All, All-append, Text, Bytes, arith, Bool-cases, Option-cases,
}
use terracotta_ffi.Mc.Scanner.{
  Port, Packet, Round, Scanner, new_scanner, has_expired, expire, remove_port, port_in,
  read_sockets, scan_round, run, get_ports,
}
use terracotta_ffi.Mc.Current.Ports.{
  has, HasDistinct, numbers, expire-kept, expire-HasDistinct, remove_port-absent, remove_port-has,
  remove_port-HasDistinct, has-append, append-HasDistinct,
}

-- No port is kept or published twice, and what is published is what is kept, in some order.
pub record IsCurrent (s : Scanner) : Type 0 where
  pub distinct : HasDistinct (numbers s.ports)
  pub distinct_output : HasDistinct s.output
  pub published : (x : ℕ) → has x s.output ≡ has x (numbers s.ports)

-- One packet that gives a port.
abbrev push_port : ℕ → ℕ → List Port → List Port
push_port port time ps = (remove_port port ps).0 ++ (port, time) ∷ []

push_port-HasDistinct :
    (port time : ℕ) (ps : List Port)
    → HasDistinct (numbers ps)
    → HasDistinct (numbers (push_port port time ps))
push_port-HasDistinct port time ps d =
    let r = remove_port-HasDistinct port ps d in
    append-HasDistinct (remove_port port ps).0 (port, time) r.1 r.0

push_port-same :
    (port time x : ℕ) (ps : List Port)
    → (remove_port port ps).1 ≡ true
    → has x (numbers (push_port port time ps)) ≡ has x (numbers ps)
push_port-same port time x ps h =
    has-append x (remove_port port ps).0 (port, time) ∙ remove_port-has port x ps h

module _ (lossy : Bytes → Text) (filter : Text → Bool) where
  pub read_sockets-none :
      (k : Packet) (ks : List Packet) (ps : List Port)
      → port_in lossy filter k ≡ none
      → read_sockets lossy filter (k ∷ ks) ps ≡ read_sockets lossy filter ks ps
  unfolding read_sockets
  read_sockets-none k ks ps e = rw (read_sockets, e) refl

  pub read_sockets-some :
      (k : Packet) (ks : List Packet) (ps : List Port) {port : ℕ}
      → port_in lossy filter k ≡ some port
      → read_sockets lossy filter (k ∷ ks) ps
        ≡ (push_port port k.time ps, not (remove_port port ps).1)
  unfolding read_sockets
  read_sockets-some k ks ps e = rw (read_sockets, e) refl

  read_sockets-HasDistinct :
      (packets : List Packet) (ps : List Port)
      → HasDistinct (numbers ps)
      → HasDistinct (numbers (read_sockets lossy filter packets ps).0)
  read_sockets-HasDistinct [] ps d = unfold read_sockets in d
  read_sockets-HasDistinct (k ∷ ks) ps d = elim (Option-cases (port_in lossy filter k)) [
    | inl e ↦ rw (read_sockets-none k ks ps e) (read_sockets-HasDistinct ks ps d)
    | inr (port, e) ↦ rw (read_sockets-some k ks ps e) (push_port-HasDistinct port k.time ps d)
  ]

  -- Packets that find no new port leave the same ports.
  read_sockets-same :
      (packets : List Packet) (ps : List Port) (x : ℕ)
      → (read_sockets lossy filter packets ps).1 ≡ false
      → has x (numbers (read_sockets lossy filter packets ps).0) ≡ has x (numbers ps)
  read_sockets-same [] ps x h = unfold read_sockets in refl
  read_sockets-same (k ∷ ks) ps x h = elim (Option-cases (port_in lossy filter k)) [
    | inl e ↦
        rw (read_sockets-none k ks ps e)
          (read_sockets-same ks ps x (rw (read_sockets-none k ks ps e) at h))
    | inr (port, e) ↦
        let known : not (remove_port port ps).1 ≡ false = rw (read_sockets-some k ks ps e) at h in
        rw (read_sockets-some k ks ps e) (push_port-same port k.time x ps (ground (arith, known)))
  ]

  -- A round keeps the lists current.
  pub scan_round-IsCurrent :
      (round : Round) (s : Scanner) → IsCurrent s → IsCurrent (scan_round lossy filter round s)
  unfolding scan_round
  scan_round-IsCurrent round s c =
      let kept : List Port = (expire round.now s.ports).0 in
      let ports : List Port = (read_sockets lossy filter round.packets kept).0 in
      let d : HasDistinct (numbers ports) =
        read_sockets-HasDistinct round.packets kept
          (expire-HasDistinct round.now s.ports c.distinct) in
      elim (Bool-cases (expire round.now s.ports).1) [
        | inl lost ↦ rw lost (record { distinct = d; distinct_output = d; published = λ x. refl })
        | inr same ↦ elim (Bool-cases (read_sockets lossy filter round.packets kept).1) [
          | inl found ↦
              rw (same, found) (record { distinct = d; distinct_output = d; published = λ x. refl })
          | inr old ↦
              rw (same, old)
                (record {
                  distinct = d;
                  distinct_output = c.distinct_output;
                  published = λ x.
                      c.published x
                      ∙ ap (λ ps. has x (numbers ps)) (sym (expire-kept round.now s.ports same))
                      ∙ sym (read_sockets-same round.packets kept x old);
                })
        ]
      ]

  run-IsCurrent_from :
      (rounds : List Round) (s : Scanner) → IsCurrent s → IsCurrent (run lossy filter rounds s)
  unfolding run
  run-IsCurrent_from [] s c = c
  run-IsCurrent_from (r ∷ rs) s c = elim (Bool-cases r.disconnected) [
    | inl e ↦ rw e c
    | inr e ↦
        rw e (run-IsCurrent_from rs (scan_round lossy filter r s) (scan_round-IsCurrent r s c))
  ]

  -- After any rounds the scanner keeps and publishes the same ports, each of them once.
  pub run-IsCurrent : (rounds : List Round) → IsCurrent (run lossy filter rounds new_scanner)
  run-IsCurrent rounds =
      run-IsCurrent_from rounds new_scanner
        (record { distinct = tt; distinct_output = tt; published = λ x. refl })
