-- ===== src/Flow/Guest/Run/Ends.antt =====
-- How a guest flow ends.
use terracotta_ffi.Base.{
  ℕ, ◌+◌, ◌<◌, ◌≡◌, subst, ◌⊎◌, inl, inr, true, false, [], ◌∷◌, Option, some, Text, arith,
}
use terracotta_ffi.EasyTier.{Ipv4Addr}
use terracotta_ffi.Emitter.{Emitter, emit, transition}
use terracotta_ffi.Profile.{Profile}
use terracotta_ffi.Session.{Session, guest_ok, EasyTier, u64_mod, version, can_capture}
use terracotta_ffi.Session.Tokens.{
  IsValid, commit-IsValid, commit-index, commit-state, commit_keeps, can_capture-commit_self,
}
use terracotta_ffi.Flow.{unwrap_or, default_motd}
use terracotta_ffi.Flow.Guest.{
  start_guest, discover, first, verify_server, read_port, minecraft_forwards, forward_minecraft,
  local_profile, finish_guest, to_guest_ok, to_guest_starting,
}
use terracotta_ffi.Flow.Guest.Run.{World, or_stop, run_guest}
use terracotta_ffi.Flow.Guest.Run.Looks.{IsDead, IsSeen, discover-Ends}
use terracotta_ffi.Flow.Guest.Run.Phases.{
  IsStarting, Ends, Ends->>=, Goes, Ends-Goes, IsRead, verify-Ends, port-Ends, forward-Ends,
}

-- A flow that has come to its end: the session is in GuestOk with a fake server on the local port, its
-- list has the guest alone, and its token is good.
pub record IsConnected (port : ℕ) (motd : Text) (now : ℕ) (own : Profile) (e : Emitter) (t : ℕ)
    : Type 0 where
  pub good : can_capture e.session t ≡ true
  pub connected : e.session.state ≡ guest_ok
  pub served : e.session.server ≡ some (record { port = port; motd = motd })
  pub at_port : e.session.port ≡ some port
  pub alone : e.session.profiles ≡ (now, own) ∷ []

pub start-Goes :
    (easytier : EasyTier) (e : Emitter) (t : ℕ)
    → IsValid e.session
    → e.session.index + 3 < u64_mod
    → can_capture e.session t ≡ true
    → Goes (λ e t. IsStarting easytier 2 e t) (or_stop (start_guest e t easytier))
unfolding start_guest transition emit version
start-Goes easytier e t v room good =
    let (s, state) = to_guest_starting easytier e.session in
    let s' : Session = record s { state = state } in
    let fresh : s'.index + 1 < u64_mod = omega arith in
    let valid : IsValid s' = record { sharing_le = v.sharing_le; index_lt = v.index_lt } in
    rw good (record {
      valid = commit-IsValid s' valid;
      below = omega (arith, commit-index s' fresh);
      good = can_capture-commit_self s' fresh;
      starting = commit-state s';
      started = (commit_keeps s').0;
    })

pub finish-Goes :
    (easytier : EasyTier) (e : Emitter) (t port : ℕ) (motd : Option Text) (now : ℕ) (own : Profile)
    → IsStarting easytier 1 e t
    → Goes
        (λ e t. IsConnected port (unwrap_or motd default_motd) now own e t)
        (or_stop (finish_guest e t port motd now own))
unfolding finish_guest transition emit version
finish-Goes easytier e t port motd now own h =
    let (s, state) = to_guest_ok port (unwrap_or motd default_motd) now own e.session in
    let s' : Session = record s { state = state } in
    let fresh : s'.index + 1 < u64_mod = omega (arith, h.below) in
    rw (finish_guest, transition, h.good, transition, h.good)
      (record {
        good = can_capture-commit_self s' fresh;
        connected = commit-state s';
        served = (commit_keeps s').1;
        at_port = (commit_keeps s').2;
        alone = (commit_keeps s').3;
      })

-- The Minecraft port at an address, which the host has answered, cannot be forwarded.
abbrev IsUnforwarded : World → Ipv4Addr → ℕ → Type 0
IsUnforwarded w ip p =
    w.forwarded (minecraft_forwards ip p (unwrap_or (w.specific p) w.fallback)) ≡ false

-- Why a guest flow blocks: one of its five looks finds EasyTier dead, after looks without a host; or
-- it has the address of a host from its looks and a port from its answer, and cannot forward that port.
abbrev pub IsHazard : World → Type 0
IsHazard w =
    IsDead w.easytier (first 5 w.rounds)
    ⊎ ((ip : Ipv4Addr) × (p : ℕ) × IsSeen w.easytier ip (first 5 w.rounds)
        × IsRead w.server_port p
        × IsUnforwarded w ip p)

-- A guest flow with a good token in a valid session three commits below the end of the counter, and
-- with the session to itself: it comes to its end, in GuestOk with a good token, its fake server on
-- the port in the two bytes of the host's answer, high byte first, if that can be had and else on the
-- one that stands in for it, and the guest alone in the list; or it raises PingHostFail or
-- GuestEasytierCrash; or it blocks, and then one of its five looks, after looks without a host, found
-- EasyTier dead, or the port of the answer could not be forwarded to the address of the first look
-- with a host. It never returns without having left GuestStarting.
pub run_guest-Ends :
    (w : World) (player_name motd : Option Text) (e : Emitter) (t : ℕ)
    → IsValid e.session
    → e.session.index + 3 < u64_mod
    → can_capture e.session t ≡ true
    → Ends
        (IsHazard w)
        (λ e t.
          (p : ℕ) × IsRead w.server_port p
          × IsConnected
              (unwrap_or (w.specific p) w.fallback)
              (unwrap_or motd default_motd)
              w.now
              (local_profile w.machine_id player_name w.vendor)
              e
              t)
        (run_guest w player_name motd e t)
unfolding run_guest
run_guest-Ends w player_name motd e t v room good =
    let H : Type 0 = IsHazard w in
    let own = local_profile w.machine_id player_name w.vendor in
    let At : ℕ → Emitter → ℕ → Type 0 =
      λ q. IsConnected q (unwrap_or motd default_motd) w.now own in
    let Done : Emitter → ℕ → Type 0 =
      λ e t. (p : ℕ) × IsRead w.server_port p × At (unwrap_or (w.specific p) w.fallback) e t in
    Ends->>= H (λ e t. IsStarting w.easytier 2 e t) Done (or_stop (start_guest e t w.easytier)) _
      (Ends-Goes H (IsStarting w.easytier 2) (IsStarting w.easytier 2) _
        (start-Goes w.easytier e t v room good) (λ e t h. h))
      λ e t h.
        Ends->>= H
          (λ e found. IsStarting w.easytier 1 e t × IsSeen w.easytier found.1 (first 5 w.rounds))
          Done (discover w.rounds t e) _ (discover-Ends w.easytier t H w.rounds e (λ d. inl d) h)
          λ e found h.
            Ends->>= H (λ e _. IsStarting w.easytier 1 e t) Done (verify_server w.handshakes t e) _
              (verify-Ends w.easytier t H w.handshakes e h.0)
              λ e _ h'.
                Ends->>= H (λ e p. IsStarting w.easytier 1 e t × IsRead w.server_port p) Done
                  (read_port w.server_port t e) _ (port-Ends w.easytier t H w.server_port e h')
                  λ e remote h''.
                    let port = unwrap_or (w.specific remote) w.fallback in
                    let forwards = minecraft_forwards found.1 remote port in
                    Ends->>= H (λ e p. IsStarting w.easytier 1 e t × (p ≡ port)) Done
                      (forward_minecraft (w.specific remote) w.fallback (w.forwarded forwards) t e)
                      _
                      (forward-Ends w.easytier t H (w.specific remote) w.fallback
                        (w.forwarded forwards) e (λ lost. inr (found.1, remote, h.1, h''.1, lost))
                        h''.0)
                      λ e p g.
                        Ends-Goes H (At p) Done (or_stop (finish_guest e t p motd w.now own))
                          (finish-Goes w.easytier e t p motd w.now own g.0)
                          (λ e t c. (remote, h''.1, subst (λ q. At q e t) g.1 c))
