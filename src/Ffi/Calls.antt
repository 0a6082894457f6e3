-- ===== src/Ffi/Calls.antt =====
-- What a call of the C interface promises.
use terracotta_ffi.Base.{
  ◌≡◌, ◌≢◌, refl, ◌⊎◌, inl, inr, Bool, true, [], ◌∷◌, Option, none, some, Text, Bytes, Bool-cases,
  Option-cases, arith,
}
use terracotta_ffi.Base.Utf8.{decode}
use terracotta_ffi.Room.{Room, parse, create}
use terracotta_ffi.Session.{waiting}
use terracotta_ffi.Emitter.{is_waiting}
use terracotta_ffi.Emitter.Writes.{waiting_of_is_waiting}
use terracotta_ffi.Context.{Context, Command, create_room, join_room, room_or_new, submit}
use terracotta_ffi.Context.{Env as CommandEnv}
use terracotta_ffi.Ffi.Values.{
  Code, ok, invalid_handle, Result, done, failed, ForeignConfig, room_code_from_c,
  player_name_from_c,
}
use terracotta_ffi.Ffi.{
  Handle, Env, context_of, put, require_waiting, joined_code, terracotta_destroy,
  terracotta_configure, terracotta_create_room, terracotta_join_room, terracotta_set_waiting,
  terracotta_get_state, terracotta_poll_event,
}

pub Result-cases :
    {A : Type 0} (r : Result A) → ((c : Code) × (r ≡ failed c)) ⊎ ((a : A) × (r ≡ done a))
Result-cases (done a) = inr (a, refl)
Result-cases (failed c) = inl (c, refl)

context_of-destroy : (h : Handle) → context_of (terracotta_destroy h).0 ≡ failed invalid_handle
unfolding context_of terracotta_destroy
context_of-destroy none = refl
context_of-destroy (some r) = elim (Bool-cases r.destroyed) [ inl d ↦ rw d | inr d ↦ rw d ]

destroy-twice :
    (g : Handle) → terracotta_destroy (terracotta_destroy g).0 ≡ ((terracotta_destroy g).0, none)
unfolding terracotta_destroy
destroy-twice none = refl
destroy-twice (some r) = elim (Bool-cases r.destroyed) [ inl d ↦ rw d | inr d ↦ rw d ]

-- Once a handle is destroyed, every call on it reports an invalid handle and changes nothing, and a
-- second destruction finds nothing to destroy.
pub destroyed-calls :
    (env : Env) (handle : Handle) (config : Option ForeignConfig) (name code : Option Bytes)
    (out : Bool)
    → let h = (terracotta_destroy handle).0 in
      (terracotta_configure env h config ≡ (h, invalid_handle))
      × (terracotta_create_room h name code ≡ (h, invalid_handle))
      × (terracotta_join_room h code name ≡ (h, invalid_handle))
      × (terracotta_set_waiting h ≡ (h, invalid_handle))
      × (terracotta_get_state env h out ≡ failed invalid_handle)
      × (terracotta_poll_event env h out ≡ (h, failed invalid_handle))
      × (terracotta_destroy h ≡ (h, none))
unfolding terracotta_configure terracotta_create_room terracotta_join_room terracotta_set_waiting
    terracotta_get_state terracotta_poll_event
destroyed-calls env handle config name code out =
    let gone = context_of-destroy handle in
    (
      rw gone,
      rw gone,
      rw gone,
      rw gone,
      rw gone,
      rw (gone, terracotta_poll_event),
      destroy-twice handle,
    )

-- An error leaves the handle as it was.
abbrev pub Fails : Handle → Handle × Code → Type 0
Fails h r = (r.1 ≢ ok) × (r.0 ≡ h)

-- A call that succeeds found a live context in the waiting state and queued one command behind the others.
abbrev pub Queues : Handle → Handle × Code → (Command → Type 0) → Type 0
Queues h r Good =
    (c : Context) × (command : Command) × (context_of h ≡ done c)
    × (c.emitter.session.state ≡ waiting)
    × (r ≡ (put (submit c command), ok))
    × Good command

-- The commands that `handle_command` does not refuse for their room code.
abbrev pub HasRoom : Command → Type 0
HasRoom (create_room name code nodes) =
    (env : CommandEnv) → (room : Room) × (room_or_new env code ≡ some room)
HasRoom (join_room code name nodes) = (room : Room) × (parse code ≡ some room)
HasRoom _ = ⊥

context_of-error : (h : Handle) (c : Code) → context_of h ≡ failed c → c ≢ ok
unfolding context_of
context_of-error h c e = ground arith

player_name-error : (b : Option Bytes) (c : Code) → player_name_from_c b ≡ failed c → c ≢ ok
unfolding player_name_from_c
player_name-error b c e = ground arith

room_code-error : (b : Option Bytes) (c : Code) → room_code_from_c b ≡ failed c → c ≢ ok
unfolding room_code_from_c
room_code-error b c e = ground arith

joined_code-error : (b : Option Bytes) (c : Code) → joined_code b ≡ failed c → c ≢ ok
unfolding joined_code
joined_code-error b c e = ground arith

waiting-error : (x : Context) (c : Code) → require_waiting x ≡ failed c → c ≢ ok
unfolding require_waiting
waiting-error x c e = ground arith

waiting-done :
    (x : Context) {u : Unit {0}}
    → require_waiting x ≡ done u
    → is_waiting x.emitter.session.state ≡ true
unfolding require_waiting
waiting-done x e = ground arith

room_code-room :
    (b : Option Bytes) (code : Option Text) (env : CommandEnv)
    → room_code_from_c b ≡ done code
    → (room : Room) × (room_or_new env code ≡ some room)
unfolding room_code_from_c
room_code-room b none env e = (create env.random, refl)
room_code-room none (some s) env e = cc
room_code-room (some bytes) (some s) env e = elim (Option-cases (decode bytes)) [
  | inl d ↦ cc (rw (d, room_code_from_c) at e)
  | inr ([], d) ↦ cc (rw (d, room_code_from_c) at e)
  | inr (c ∷ cs, d) ↦ elim (Option-cases (parse (c ∷ cs))) [
    | inl q ↦ cc (rw (d, q, room_code_from_c) at e)
    | inr (room, q) ↦
        let f : done (some (c ∷ cs)) ≡ done (some s) = rw (d, q, room_code_from_c) at e in
        let g : c ∷ cs ≡ s = cc f in (room, rw g at q)
  ]
]

joined_code-room :
    (b : Option Bytes) (code : Text)
    → joined_code b ≡ done code
    → (room : Room) × (parse code ≡ some room)
unfolding joined_code
joined_code-room none code e = cc
joined_code-room (some bytes) code e = elim (Option-cases (decode bytes)) [
  | inl d ↦ cc (rw (d, joined_code) at e)
  | inr (s, d) ↦ elim (Option-cases (parse s)) [
    | inl q ↦ cc (rw (d, q, joined_code) at e)
    | inr (room, q) ↦
        let f : done s ≡ done code = rw (d, q, joined_code) at e in
        let g : s ≡ code = cc f in (room, rw g at q)
  ]
]

-- `terracotta_create_room` fails and changes nothing, or it finds the context waiting and queues a
-- command whose room code, if there is one, is one that the command thread accepts.
pub terracotta_create_room_lem :
    (h : Handle) (name code : Option Bytes)
    → let r = terracotta_create_room h name code in Fails h r ⊎ Queues h r HasRoom
unfolding terracotta_create_room
terracotta_create_room_lem h name code = elim (Result-cases (context_of h)) [
  | inl (c, e) ↦ inl (rw e (context_of-error h c e), rw e)
  | inr (x, e) ↦ elim (Result-cases (room_code_from_c code)) [
    | inl (c, f) ↦ inl (rw (e, f) (room_code-error code c f), rw (e, f))
    | inr (room, f) ↦ elim (Result-cases (player_name_from_c name)) [
      | inl (c, g) ↦ inl (rw (e, f, g) (player_name-error name c g), rw (e, f, g))
      | inr (player, g) ↦ elim (Result-cases (require_waiting x)) [
        | inl (c, w) ↦ inl (rw (e, f, g, w) (waiting-error x c w), rw (e, f, g, w))
        | inr (u, w) ↦ inr (
          x,
          create_room player room [],
          e,
          waiting_of_is_waiting x.emitter.session.state (waiting-done x w),
          rw (e, f, g, w),
          λ env. room_code-room code room env f,
        )
      ]
    ]
  ]
]

-- `terracotta_join_room` fails and changes nothing, or it finds the context waiting and queues a
-- command whose room code is one that the command thread accepts.
pub terracotta_join_room_lem :
    (h : Handle) (code name : Option Bytes)
    → let r = terracotta_join_room h code name in Fails h r ⊎ Queues h r HasRoom
unfolding terracotta_join_room
terracotta_join_room_lem h code name = elim (Result-cases (context_of h)) [
  | inl (c, e) ↦ inl (rw e (context_of-error h c e), rw e)
  | inr (x, e) ↦ elim (Result-cases (joined_code code)) [
    | inl (c, f) ↦ inl (rw (e, f) (joined_code-error code c f), rw (e, f))
    | inr (room, f) ↦ elim (Result-cases (player_name_from_c name)) [
      | inl (c, g) ↦ inl (rw (e, f, g) (player_name-error name c g), rw (e, f, g))
      | inr (player, g) ↦ elim (Result-cases (require_waiting x)) [
        | inl (c, w) ↦ inl (rw (e, f, g, w) (waiting-error x c w), rw (e, f, g, w))
        | inr (u, w) ↦ inr (
          x,
          join_room room player [],
          e,
          waiting_of_is_waiting x.emitter.session.state (waiting-done x w),
          rw (e, f, g, w),
          joined_code-room code room f,
        )
      ]
    ]
  ]
]
