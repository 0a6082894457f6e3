-- ===== src/Flow/Guest/Run.antt =====
-- `run_guest` of src/flow.rs as a whole, up to the start of its monitor, when nobody else writes to the
-- session meanwhile.
pub mod Phases
pub mod Looks
pub mod Ends
pub mod Meets
use terracotta_ffi.Base.{ℕ, Bool, List, [], ◌∷◌, Option, none, some, Text, Bytes}
use terracotta_ffi.EasyTier.{PortForward}
use terracotta_ffi.Emitter.{Emitter}
use terracotta_ffi.Profile.{Profile}
use terracotta_ffi.Session.{EasyTier}
use terracotta_ffi.Flow.{unwrap_or}
use terracotta_ffi.Flow.Guest.{
  Outcome, proceed, again, stopped, blocked, start_guest, Round, discover, Handshake, verify_server,
  read_port, minecraft_forwards, forward_minecraft, local_profile, finish_guest,
}

-- What the flow finds outside the program: the EasyTier that it starts, the looks of the
-- discovery and the handshakes of the verification, the answer to c:server_port, whether a port can be had on
-- this machine and the port that stands in for it, which forwards can be set up, the machine id and the
-- time.
pub record World : Type 0 where
  pub easytier : EasyTier
  pub rounds : ℕ → Round
  pub handshakes : ℕ → Handshake
  pub server_port : Option Bytes
  pub specific : ℕ → Option ℕ
  pub fallback : ℕ
  pub forwarded : List PortForward → Bool
  pub machine_id : Option Text
  pub vendor : Text
  pub now : ℕ

infixl 5 ◌>>=◌
abbrev pub ◌>>=◌ : {A B : Type 0} → Outcome A → (Emitter → A → Outcome B) → Outcome B
proceed e a >>= f = f e a
again e >>= f = again e
stopped e >>= f = stopped e
blocked >>= f = blocked

-- The end of a transition: a flow whose token is stale returns.
abbrev pub or_stop : Emitter × Option ℕ → Outcome ℕ
or_stop (e, none) = stopped e
or_stop (e, some token) = proceed e token

-- The outcome is the token with which the monitor is started.
unfoldable pub run_guest : World → Option Text → Option Text → Emitter → ℕ → Outcome ℕ
run_guest w player_name motd e token = or_stop (start_guest e token w.easytier) >>= λ e token.
    discover w.rounds token e >>= λ e found. verify_server w.handshakes token e >>= λ e _.
    read_port w.server_port token e >>= λ e port.
    let specific = w.specific port in
    forward_minecraft specific w.fallback
      (w.forwarded (minecraft_forwards found.1 port (unwrap_or specific w.fallback))) token e
    >>= λ e local_port. or_stop (
        finish_guest e token local_port motd w.now
          (local_profile w.machine_id player_name w.vendor))
