-- ===== src/Flow/Guest/Run/Meets.antt =====
-- A guest flow that finds a ready host: its peer list has the host, and its requests are answered by the
-- host's handlers over the wire.
use terracotta_ffi.Base.{
  ℕ, ◌+◌, ◌<◌, ◌≡◌, refl, sym, subst, ap, ◌∙◌, Bool, true, false, List, [], ◌∷◌, ◌++◌, Option, none,
  some, All, Text, Bytes, codes, be16, arith,
}
use terracotta_ffi.EasyTier.{Ipv4Addr, NatType}
use terracotta_ffi.EasyTier.Peers.{EasyTierMember}
use terracotta_ffi.Emitter.{Emitter}
use terracotta_ffi.Protocols.{Env, build_handlers}
use terracotta_ffi.Protocols.Handlers.{call-ping, call-server_port, port_answer, from_be_bytes-be16}
use terracotta_ffi.Scaffolding.{call}
use terracotta_ffi.Session.{EasyTier, host_ok, can_capture, u64_mod}
use terracotta_ffi.Session.Tokens.{IsValid}
use terracotta_ffi.Flow.{unwrap_or, default_motd}
use terracotta_ffi.Flow.Guest.{
  start_guest, Round, find_local, server_of, connect, discover_round, discover, discover_rounds,
  first, verify_rounds, Handshake, fingerprint, verify_server, read_port, minecraft_forwards,
  forward_minecraft, local_profile, finish_guest,
}
use terracotta_ffi.Flow.Guest.Discovery.{advertised, find_server-advertised}
use terracotta_ffi.Flow.Guest.Run.{World, or_stop, run_guest}
use terracotta_ffi.Flow.Guest.Run.Phases.{IsStarting, Goes, Goes->>=, report_starts}
use terracotta_ffi.Flow.Guest.Run.Ends.{IsConnected, start-Goes, finish-Goes}

-- A round in which the host is among the peers, and the forward to its server is set up.
pub record IsFound (easytier : EasyTier) (ip : Ipv4Addr) (r : Round) : Type 0 where
  pub before : List EasyTierMember
  pub after : List EasyTierMember
  pub port : ℕ
  pub nat : NatType
  pub own_nat : NatType
  pub alive : r.alive easytier ≡ true
  pub players : r.players ≡ some (before ++ advertised port ip nat ∷ after)
  pub known : find_local (before ++ advertised port ip nat ∷ after) ≡ some own_nat
  pub alone : All (λ m. server_of m ≡ none) before
  pub port_lt : port < 65536
  pub forwarded : r.forwarded ≡ true

-- A round in which EasyTier lives and has no peer list yet.
abbrev pub IsEarly : EasyTier → Round → Type 0
IsEarly easytier r = (r.alive easytier ≡ true) × (r.players ≡ none)

-- What the guest finds when a host is ready at an address: the host is seen in one of the five rounds,
-- after early ones, its handlers answer to the first c:ping and to c:server_port, and the forwards to its
-- Minecraft port can be set up.
pub record IsReachable (w : World) (env : Env) (host : Emitter) (ip : Ipv4Addr) (p : ℕ)
    : Type 0 where
  pub early : List Round
  pub found : Round
  pub later : List Round
  pub rounds_eq : first 5 w.rounds ≡ early ++ found ∷ later
  pub all_early : All (IsEarly w.easytier) early
  pub is_found : IsFound w.easytier ip found
  pub ponged :
      (w.handshakes 0).pong
      ≡ (call (build_handlers env) host (codes "c") (codes "ping") fingerprint).1
  pub answered :
      w.server_port ≡ (call (build_handlers env) host (codes "c") (codes "server_port") []).1
  pub ready : host.session.state ≡ host_ok
  pub at_port : host.session.port ≡ some p
  pub p_lt : p < 65536
  pub forwards : w.forwarded (minecraft_forwards ip p (unwrap_or (w.specific p) w.fallback)) ≡ true

module _ (easytier : EasyTier) (ip : Ipv4Addr) (t : ℕ) where
  found-Goes :
      (r : Round) (rs : List Round) (e : Emitter)
      → IsFound easytier ip r
      → IsStarting easytier 2 e t
      → Goes (λ e found. IsStarting easytier 1 e t × (found.1 ≡ ip)) (discover_rounds (r ∷ rs) t e)
  unfolding discover_rounds discover_round connect
  found-Goes r rs e f h =
      rw
        (
          h.good,
          h.started,
          discover_rounds,
          discover_round,
          f.alive,
          f.players,
          connect,
          f.known,
          find_server-advertised f.port ip f.nat f.before f.after f.port_lt f.alone,
          h.started,
          f.forwarded,
        )
        (report_starts easytier t e f.own_nat f.nat h, refl)

  discover-Goes :
      (early : List Round) (r : Round) (rs : List Round) (e : Emitter)
      → All (IsEarly easytier) early
      → IsFound easytier ip r
      → IsStarting easytier 2 e t
      → Goes
          (λ e found. IsStarting easytier 1 e t × (found.1 ≡ ip))
          (discover_rounds (early ++ r ∷ rs) t e)
  unfolding discover_rounds discover_round
  discover-Goes [] r rs e a f h = found-Goes r rs e f h
  discover-Goes (x ∷ xs) r rs e a f h =
      rw (h.good, h.started, discover_rounds, discover_round, a.0.0, a.0.1)
        (discover-Goes xs r rs e a.1 f h)

  verify-Goes :
      (hs : ℕ → Handshake) (e : Emitter)
      → (hs 0).pong ≡ some fingerprint
      → IsStarting easytier 1 e t
      → Goes (λ e _. IsStarting easytier 1 e t) (verify_server hs t e)
  unfolding verify_server verify_rounds first
  verify-Goes hs e s h = rw s h

  port-Goes :
      (p : ℕ) (answer : Option Bytes) (e : Emitter)
      → p < 65536
      → answer ≡ some (be16 p)
      → IsStarting easytier 1 e t
      → Goes (λ e port. IsStarting easytier 1 e t × (port ≡ p)) (read_port answer t e)
  unfolding read_port
  port-Goes p answer e l s h = rw s (h, from_be_bytes-be16 p l)

  forward-Goes :
      (specific : Option ℕ) (fallback : ℕ) (forwarded : Bool) (e : Emitter)
      → forwarded ≡ true
      → IsStarting easytier 1 e t
      → Goes
          (λ e port. IsStarting easytier 1 e t × (port ≡ unwrap_or specific fallback))
          (forward_minecraft specific fallback forwarded t e)
  unfolding forward_minecraft
  forward-Goes specific fallback true e s h = rw (h.started, forward_minecraft) (h, refl)
  forward-Goes specific fallback false e s h = cc s

module _ (w : World) (env : Env) (host : Emitter) (ip : Ipv4Addr) (p : ℕ)
    (k : IsReachable w env host ip p) where
  server_port-answer : w.server_port ≡ some (be16 p)
  server_port-answer =
      k.answered
      ∙ ap (λ r. r.1) (call-server_port env host)
      ∙ ap (λ s. port_answer s host.session.port) k.ready
      ∙ ap (port_answer host_ok) k.at_port

  forwards-eq :
      (address : Ipv4Addr) (remote : ℕ)
      → address ≡ ip
      → remote ≡ p
      → w.forwarded (minecraft_forwards address remote (unwrap_or (w.specific remote) w.fallback))
        ≡ true
  forwards-eq address remote a r =
      subst
        (λ x.
          w.forwarded (minecraft_forwards x remote (unwrap_or (w.specific remote) w.fallback))
          ≡ true)
        (sym a)
        (subst
          (λ q. w.forwarded (minecraft_forwards ip q (unwrap_or (w.specific q) w.fallback)) ≡ true)
          (sym r) k.forwards)

  rounds-Goes :
      (t : ℕ) (e : Emitter)
      → IsStarting w.easytier 2 e t
      → Goes (λ e found. IsStarting w.easytier 1 e t × (found.1 ≡ ip)) (discover w.rounds t e)
  unfolding discover
  rounds-Goes t e h =
      subst
        (λ rs.
          Goes (λ e found. IsStarting w.easytier 1 e t × (found.1 ≡ ip)) (discover_rounds rs t e))
        (sym k.rounds_eq)
        (discover-Goes w.easytier ip t k.early k.found k.later e k.all_early k.is_found h)

  handshakes-Goes :
      (t : ℕ) (e : Emitter)
      → IsStarting w.easytier 1 e t
      → Goes (λ e _. IsStarting w.easytier 1 e t) (verify_server w.handshakes t e)
  handshakes-Goes t e h =
      verify-Goes w.easytier ip t w.handshakes e
        (k.ponged ∙ ap (λ r. r.1) (call-ping env host fingerprint (omega arith))) h

-- A guest whose token is good, in a valid session three commits below the end of the counter and with
-- the session to itself, comes to a ready host: the flow ends in GuestOk with a good token, and its fake
-- server stands on the Minecraft port of the host if that can be had on this machine, and else on the
-- port that stands in for it. The host is in the peer list at one of the guest's five looks, with no
-- other server before it, the earlier looks find EasyTier alive and no list, and the forward to its
-- server can be set up. Its handlers answer the guest over the wire, at the first handshake, and the
-- Minecraft forwards that must be set up are those to the host's own address and port.
pub run_guest-IsConnected :
    (w : World) (env : Env) (host : Emitter) (ip : Ipv4Addr) (p : ℕ)
    (player_name motd : Option Text) (e : Emitter) (t : ℕ)
    → IsReachable w env host ip p
    → IsValid e.session
    → e.session.index + 3 < u64_mod
    → can_capture e.session t ≡ true
    → Goes
        (IsConnected
          (unwrap_or (w.specific p) w.fallback)
          (unwrap_or motd default_motd)
          w.now
          (local_profile w.machine_id player_name w.vendor))
        (run_guest w player_name motd e t)
unfolding run_guest
run_guest-IsConnected w env host ip p player_name motd e t k v room good =
    let own = local_profile w.machine_id player_name w.vendor in
    let port = unwrap_or (w.specific p) w.fallback in
    let Done = IsConnected port (unwrap_or motd default_motd) w.now own in
    Goes->>= (IsStarting w.easytier 2) Done (or_stop (start_guest e t w.easytier)) _
      (start-Goes w.easytier e t v room good)
      λ e t h.
        Goes->>= (λ e found. IsStarting w.easytier 1 e t × (found.1 ≡ ip)) Done
          (discover w.rounds t e) _ (rounds-Goes w env host ip p k t e h)
          λ e found h.
            Goes->>= (λ e _. IsStarting w.easytier 1 e t) Done (verify_server w.handshakes t e) _
              (handshakes-Goes w env host ip p k t e h.0)
              λ e _ h'.
                Goes->>= (λ e remote. IsStarting w.easytier 1 e t × (remote ≡ p)) Done
                  (read_port w.server_port t e) _
                  (port-Goes w.easytier ip t p w.server_port e k.p_lt
                    (server_port-answer w env host ip p k) h')
                  λ e remote h''.
                    Goes->>=
                      (λ e q.
                        IsStarting w.easytier 1 e t
                        × (q ≡ unwrap_or (w.specific remote) w.fallback))
                      Done (forward_minecraft (w.specific remote) w.fallback _ t e) _
                      (forward-Goes w.easytier ip t (w.specific remote) w.fallback _ e
                        (forwards-eq w env host ip p k found.1 remote h.1 h''.1) h''.0)
                      λ e q h3.
                        subst
                          (λ x.
                            Goes (IsConnected x (unwrap_or motd default_motd) w.now own)
                              (or_stop (finish_guest e t q motd w.now own)))
                          (h3.1 ∙ ap (λ x. unwrap_or (w.specific x) w.fallback) h''.1)
                          (finish-Goes w.easytier e t q motd w.now own h3.0)
