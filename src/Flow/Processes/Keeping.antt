-- ===== src/Flow/Processes/Keeping.antt =====
-- Every EasyTier process is owned by the session or by a flow for as long as it runs.
use terracotta_ffi.Base.{
  ℕ, ◌+◌, ◌≡◌, ◌≢◌, refl, sym, ap, ◌∙◌, ◌⊎◌, inl, inr, List, ◌∷◌, ◌++◌, Option, none, some, Text,
  arith, if◌then◌else◌, Bool-cases,
}
use terracotta_ffi.Profile.{Profile}
use terracotta_ffi.Room.{Room}
use terracotta_ffi.Session.{
  Session, SessionStateId, waiting, EasyTier, can_capture, commit,
  reset_to_waiting as session_reset_to_waiting,
}
use terracotta_ffi.Emitter.{Emitter, emit, transition, is_waiting}
use terracotta_ffi.Context.{Role, open_room, start_flow}
use terracotta_ffi.Event.{Event, host_ready}
use terracotta_ffi.Flow.Host.{finish_host, to_host_ok}
use terracotta_ffi.Flow.Guest.{start_guest}
use terracotta_ffi.Flow.Processes.{
  Machine, Launch, create_process, drop_held, after_transition, after_reset, System,
}
use terracotta_ffi.Flow.Processes.Accounts.{
  once, owns, holds, owns-append, IsAccounted, IsAccounted-same, drop_easytier-IsAccounted,
}

-- How often the session and the flows own a process.
abbrev pub owned : System → ℕ → ℕ
owned y p = holds p y.emitter.session.easytier + owns p y.launched

-- The books are in order, and a session that waits holds no EasyTier.
pub record IsKept (y : System) : Type 0 where
  pub accounts : IsAccounted (owned y) y.machine
  pub idle : y.emitter.session.state ≡ waiting → y.emitter.session.easytier ≡ none

create_process_lem :
    (l : Launch) (m m' : Machine) (t : EasyTier)
    → create_process l m ≡ some (m', t)
    → (m' ≡ record m { running = m.next_pid ∷ m.running; next_pid = m.next_pid + 1 })
      × (t.process ≡ m.next_pid)
unfolding create_process
create_process_lem l m m' t e = ground arith

pub create_process-IsAccounted :
    (l : Launch) (m m' : Machine) (t : EasyTier) (owned : ℕ → ℕ)
    → create_process l m ≡ some (m', t)
    → IsAccounted owned m
    → IsAccounted (λ p. owned p + once p t.process) m'
create_process-IsAccounted l m m' t owned e a =
    let made = create_process_lem l m m' t e in
    rw made.0 (record {
      fresh = λ p h. ground (arith, made.1, a.fresh p);
      single = λ p. ground (arith, made.1, a.single p, a.fresh p);
      run_owned = λ p. ground (arith, made.1, a.run_owned p);
      owned_run = λ p. ground (arith, made.1, a.owned_run p);
    })

-- What a transition with an EasyTier comes to: a refusal, or a session that holds it.
abbrev pub Delivers : Emitter → EasyTier → Emitter × Option ℕ → Type 0
Delivers e t r =
    ((r.0.session ≡ e.session) × (r.1 ≡ none))
    ⊎ ((r.0.session.easytier ≡ some t) × (r.0.session.state ≢ waiting) × ((k : ℕ) × (r.1 ≡ some k)))

-- The event that follows the transition of a host changes nothing of this.
emit-Delivers :
    (e : Emitter) (t : EasyTier) (ev : Event) (r : Emitter × Option ℕ)
    → Delivers e t r
    → Delivers e t
        (let (e', token) = r in elim token [ none ↦ (e', none) | some k ↦ (emit e' ev, some k) ])
unfolding emit
emit-Delivers e t ev (e', none) d = d
emit-Delivers e t ev (e', some k) d = d

to_host_ok-Delivers :
    (e : Emitter) (token : ℕ) (t : EasyTier) (port now : ℕ) (profile : Profile)
    → Delivers e t (transition e token (to_host_ok t port now profile))
unfolding transition emit commit
to_host_ok-Delivers e token t port now profile = elim (Bool-cases (can_capture e.session token)) [
  | inl c ↦ rw c (inr (refl, (λ w. cc), (_, refl)))
  | inr c ↦ rw c (inl (refl, refl))
]

pub finish_host-Delivers :
    (e : Emitter) (token : ℕ) (room : Room) (t : EasyTier) (port now : ℕ) (profile : Profile)
    → Delivers e t (finish_host e token room t port now profile)
unfolding finish_host
finish_host-Delivers e token room t port now profile =
    emit-Delivers e t (host_ready room.code port)
      (transition e token (to_host_ok t port now profile))
      (to_host_ok-Delivers e token t port now profile)

pub start_guest-Delivers :
    (e : Emitter) (token : ℕ) (t : EasyTier) → Delivers e t (start_guest e token t)
unfolding start_guest transition emit commit
start_guest-Delivers e token t = elim (Bool-cases (can_capture e.session token)) [
  | inl c ↦ rw c (inr (refl, (λ w. cc), (_, refl)))
  | inr c ↦ rw c (inl (refl, refl))
]

drop_held-IsAccounted :
    (held : Option EasyTier) (m : Machine) (owned owned' : ℕ → ℕ)
    → IsAccounted owned m
    → ((p : ℕ) → owned p ≡ holds p held + owned' p)
    → IsAccounted owned' (drop_held held m)
unfolding drop_held
drop_held-IsAccounted none m owned owned' a e = IsAccounted-same m a (λ p. omega (arith, e p))
drop_held-IsAccounted (some t) m owned owned' a e = drop_easytier-IsAccounted m a t e

owns_split :
    (p : ℕ) (xs before after : List EasyTier) (t : EasyTier)
    → xs ≡ before ++ t ∷ after
    → owns p xs ≡ once p t.process + owns p (before ++ after)
owns_split p xs before after t l =
    omega (arith, ap (owns p) l, owns-append p before (t ∷ after), owns-append p before after)

-- The transition of a flow takes its EasyTier off the flow.
pub deliver-IsKept :
    (y : System) (before after : List EasyTier) (t : EasyTier) (r : Emitter × Option ℕ)
    → Delivers y.emitter t r
    → y.launched ≡ before ++ t ∷ after
    → IsKept y
    → IsKept (record {
      machine = after_transition r.1 t y.emitter.session.easytier y.machine;
      emitter = r.0;
      launched = before ++ after;
    })
unfolding after_transition
deliver-IsKept y before after t (e, delivered) (inl (s, n)) l k = rw n (record {
  accounts = drop_easytier-IsAccounted y.machine k.accounts t (λ p. omega (
    arith,
    owns_split p y.launched before after t l,
    ap (λ (x : Session). holds p x.easytier) s,
  ));
  idle =
      λ w. ap (λ (x : Session). x.easytier) s ∙ k.idle (sym (ap (λ (x : Session). x.state) s) ∙ w);
})
deliver-IsKept y before after t (e, delivered) (inr (held, active, (token, n))) l k = rw n (record {
  accounts =
      drop_held-IsAccounted y.emitter.session.easytier y.machine (owned y) _ k.accounts
        (λ p. omega (arith, owns_split p y.launched before after t l, ap (holds p) held));
  idle = λ w. absurd (active w);
})

-- A command other than `set_waiting`, or an event, leaves the EasyTier and does not make the session wait.
abbrev pub Leaves : Emitter → Emitter → Type 0
Leaves e e' =
    (e'.session.easytier ≡ e.session.easytier)
    × (e'.session.state ≡ waiting → e.session.state ≡ waiting)

start_flow-Leaves :
    (e : Emitter) (role : Role) (state : SessionStateId) (room : Room) (name : Option Text)
    (nodes : List Text)
    → state ≢ waiting
    → Leaves e (start_flow e role state room name nodes).0
unfolding start_flow emit commit
start_flow-Leaves e role state room name nodes n = elim (Bool-cases (is_waiting e.session.state)) [
  | inl w ↦ rw w (refl, (λ h. absurd (n h)))
  | inr w ↦ rw w (refl, (λ h. h))
]

pub open_room-Leaves :
    (e : Emitter) (role : Role) (state : SessionStateId) (shown : Text) (o : Option Room)
    (name : Option Text) (nodes : List Text)
    → state ≢ waiting
    → Leaves e (open_room e role state shown o name nodes).0
unfolding open_room emit
open_room-Leaves e role state shown none name nodes n = (refl, (λ h. h))
open_room-Leaves e role state shown (some room) name nodes n =
    start_flow-Leaves e role state room name nodes n

pub write-IsKept :
    (y : System) (e : Emitter) → Leaves y.emitter e → IsKept y → IsKept (record y { emitter = e })
write-IsKept y e l k = record {
  accounts = IsAccounted-same y.machine k.accounts (λ p. omega (arith, ap (holds p) l.0));
  idle = λ w. l.0 ∙ k.idle (l.1 w);
}

-- What both resets come to.
pub reset-IsKept :
    (y : System) (e : Emitter)
    → e.session ≡ (
        if is_waiting y.emitter.session.state
        then y.emitter.session
        else session_reset_to_waiting y.emitter.session)
    → IsKept y
    → IsKept (record y { machine = after_reset y.emitter y.machine; emitter = e })
unfolding after_reset session_reset_to_waiting commit
reset-IsKept y e s k = elim (Bool-cases (is_waiting y.emitter.session.state)) [
  | inl w ↦ rw w (
      let same : e.session ≡ y.emitter.session = rw w at s in
      write-IsKept y e
        (ap (λ (x : Session). x.easytier) same, (λ h. sym (ap (λ (x : Session). x.state) same) ∙ h))
        k)
  | inr w ↦ rw w (
      let gone : e.session.easytier ≡ none = ap (λ (x : Session). x.easytier) (rw w at s) in
      record {
        accounts =
            drop_held-IsAccounted y.emitter.session.easytier y.machine (owned y) _ k.accounts
              (λ p. omega (arith, ap (holds p) gone));
        idle = λ h. gone;
      })
]
