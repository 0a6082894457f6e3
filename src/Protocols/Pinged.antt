-- ===== src/Protocols/Pinged.antt =====
-- The ping of a guest, from its request to the host's list of players.
use terracotta_ffi.Base.{
  ℕ, zero, suc, ◌^◌, ◌<◌, ◌≡◌, ◌≢◌, refl, ap, subst, sym, ◌∙◌, Bool, true, false, [], Option, none,
  some, length, Text, Bytes, codes, if◌then◌else◌, arith,
}
use terracotta_ffi.Json.{Json, str, obj, end, field}
use terracotta_ffi.Profile.{Profile}
use terracotta_ffi.Session.{commit_shared as session_commit_shared}
use terracotta_ffi.Emitter.{Emitter, emit, commit_shared}
use terracotta_ffi.Scaffolding.{HandlerResult, answer, ok, header_room, find_handler, call}
use terracotta_ffi.Scaffolding.Exchange.{call_lem}
use terracotta_ffi.Protocols.{
  Env, IoError, Action, nothing, renamed, joined, refused, position, player_action, finish_ping,
  player_ping, build_handlers,
}
use terracotta_ffi.Protocols.Kinds.{player_ping-IsKind}
use terracotta_ffi.Protocols.Players.{Players, IsRoster, player_action-IsRoster}

-- What the monitor thread of a guest sends with c:player_ping, as src/flow.rs writes it.
abbrev pub ping_request : Profile → Json
ping_request p = obj (
    field (codes "machine_id") (str p.machine_id)
      (field (codes "name") (str p.name) (field (codes "vendor") (str p.vendor) end)))

abbrev is_refused : Action → Bool
is_refused (refused m) = true
is_refused _ = false

-- Every action but a refusal answers with nothing behind the header, and keeps the profiles.
finish_ping-answers :
    (debug : IoError → Bytes) (e : Emitter) (response : Bytes) (action : Action)
    → is_refused action ≡ false
    → ((finish_ping debug e response action).1 ≡ answer (ok response))
      × ((finish_ping debug e response action).0.session.profiles ≡ e.session.profiles)
unfolding finish_ping commit_shared emit session_commit_shared
finish_ping-answers debug e response nothing h = (refl, refl)
finish_ping-answers debug e response renamed h = (refl, refl)
finish_ping-answers debug e response (joined p) h = (refl, refl)
finish_ping-answers debug e response (refused m) h = cc h

renaming : (b : Bool) → is_refused (if b then nothing else renamed) ≡ false
renaming true = refl
renaming false = refl

-- Only the host's own machine id, which is first, is refused.
player_action-taken :
    (now : ℕ) (name m vendor : Text) (ps : Players) (o : Option ℕ)
    → position m ps ≡ o
    → o ≢ some 0
    → is_refused (player_action now name m vendor ps).1 ≡ false
unfolding player_action
player_action-taken now name m vendor ps none e h = rw (is_refused, e) refl
player_action-taken now name m vendor ps (some zero) e h = absurd (h refl)
player_action-taken now name m vendor ps (some (suc i)) e h = rw (is_refused, e) (renaming _)

handled_ping :
    (env : Env) (e : Emitter) (p : Profile)
    → env.codec.from_lossy (env.codec.to_writer (ping_request p)) ≡ some (ping_request p)
    → let acted = player_action env.now p.name p.machine_id p.vendor e.session.profiles in
      player_ping env e (env.codec.to_writer (ping_request p)) header_room
      ≡ finish_ping env.debug
          (record e { session = record e.session { profiles = acted.0 } })
          header_room
          acted.1
unfolding player_ping
handled_ping env e p reads = rw (player_ping, reads) refl

-- A guest's ping over the wire, to a host whose list is well formed and whose own machine id is another:
-- the guest gets an empty answer, the host's list is the one that the ping makes, and it is well formed.
-- The request fits its length field, and the host's parser reads back what the guest has printed.
pub call-player_ping :
    (env : Env) (e : Emitter) (p : Profile)
    → let body = env.codec.to_writer (ping_request p) in
      env.codec.from_lossy body ≡ some (ping_request p)
      → length body < 2 ^ 32
      → IsRoster e.session.profiles
      → position p.machine_id e.session.profiles ≢ some 0
      → let r = call (build_handlers env) e (codes "c") (codes "player_ping") body in
        let ps = (player_action env.now p.name p.machine_id p.vendor e.session.profiles).0 in
        (r.1 ≡ some []) × (r.0.session.profiles ≡ ps) × IsRoster r.0.session.profiles
unfolding build_handlers find_handler
call-player_ping env e p reads short roster other =
    let body : Bytes = env.codec.to_writer (ping_request p) in
    let ps : Players = e.session.profiles in
    let acted = player_action env.now p.name p.machine_id p.vendor ps in
    let e1 : Emitter = record e { session = record e.session { profiles = acted.0 } } in
    let taken =
      player_action-taken env.now p.name p.machine_id p.vendor ps (position p.machine_id ps) refl
        other in
    let answers = finish_ping-answers env.debug e1 header_room acted.1 taken in
    let handled : player_ping env e body header_room
        ≡ finish_ping env.debug e1 header_room acted.1 =
      handled_ping env e p reads in
    let e2 : Emitter = (finish_ping env.debug e1 header_room acted.1).0 in
    let found = handled ∙ ap (λ (r : HandlerResult). (e2, r)) answers.0 in
    let called : call (build_handlers env) e (codes "c") (codes "player_ping") body
        ≡ (e2, some []) =
      call_lem (build_handlers env) e e2 (codes "c") (codes "player_ping") body
        (answer (ok header_room)) 0 [] player_ping-IsKind short found refl (omega arith) in
    rw called (
      refl,
      answers.1,
      subst IsRoster (sym answers.1)
          (player_action-IsRoster env.now p.name p.machine_id p.vendor ps roster),
    )
