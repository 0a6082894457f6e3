-- ===== src/Client/Programs/Ready.antt =====
-- The programs reach their loops with the command they want in the queue.
use terracotta_ffi.Base.{
  ℕ, ◌≡◌, refl, inl, inr, true, false, [], ◌∷◌, ◌++◌, Option, none, some, All, Text, text_eq,
  eq_of_text_eq, codes, Option-cases, Bool-cases,
}
use terracotta_ffi.Base.Utf8.{encode, decode-encode, is_scalar, all_scalar_sound}
use terracotta_ffi.Json.{Json}
use terracotta_ffi.Room.{Room, parse, verify}
use terracotta_ffi.Session.{new_session}
use terracotta_ffi.Emitter.{ContextConfig, new_emitter}
use terracotta_ffi.Context.{
  Context, Command, default_config, create_room, join_room, initialize, new_context, set_config,
  submit,
}
use terracotta_ffi.Ffi.Values.{ok, done, read_string, player_name_from_c, room_code_from_c}
use terracotta_ffi.Ffi.{
  Env, put, context_of, require_waiting, joined_code, read_nodes, read_config, terracotta_create,
  terracotta_configure, terracotta_create_room, terracotta_join_room, terracotta_verify_room_code,
}
use terracotta_ffi.Client.Programs.{
  exited, running, example_motd, example_config, joining, host_program, guest_program,
}

verified :
    (room_code : Text)
    → All (λ c. is_scalar c ≡ true) room_code
    → terracotta_verify_room_code (some (encode room_code))
      ≡ elim (parse room_code) [ none ↦ none | some _ ↦ some 3 ]
unfolding terracotta_verify_room_code verify
verified room_code s = elim (Option-cases (parse room_code)) [
  | inl e ↦ rw (terracotta_verify_room_code, decode-encode room_code s, verify, e) refl
  | inr (room, e) ↦ rw (terracotta_verify_room_code, decode-encode room_code s, verify, e) refl
]

joined :
    (room_code : Text) {room : Room}
    → All (λ c. is_scalar c ≡ true) room_code
    → parse room_code ≡ some room
    → joined_code (some (encode room_code)) ≡ done room_code
unfolding joined_code
joined room_code s e = rw (joined_code, decode-encode room_code s, e) refl

named :
    (name : Text) (x : ℕ)
    → All (λ c. is_scalar c ≡ true) (x ∷ name)
    → player_name_from_c (some (encode (x ∷ name))) ≡ done (some (x ∷ name))
unfolding player_name_from_c
named name x t = rw (player_name_from_c, decode-encode (x ∷ name) t) refl

initialize-unpacks :
    (factory : Option Text) (dir : Text) → initialize true factory dir ≡ (some dir, true)
unfolding initialize
initialize-unpacks none dir = refl
initialize-unpacks (some old) dir = elim (Bool-cases (text_eq old dir)) [
  | inl e ↦ rw (e, eq_of_text_eq old dir e) refl
  | inr e ↦ rw e refl
]

-- A context that waits in a data directory, with one command sent.
abbrev pub ready : ℕ → Text → Command → Context
ready port dir command = record {
  emitter =
      record (new_emitter
        (record { public_nodes = []; data_dir = dir; motd = some example_motd })) {
          scaffolding_port = port;
        };
  commands = command ∷ [];
  serving = true;
  joined = false;
  factory = some dir;
}

abbrev idle : ℕ → ContextConfig → Context
idle port config = record {
  emitter = record (new_emitter config) { scaffolding_port = port };
  commands = [];
  serving = true;
  joined = false;
  factory = some config.data_dir;
}

abbrev chosen_config : Text → ContextConfig
chosen_config dir = record { public_nodes = []; data_dir = dir; motd = some example_motd }

new_context-unpacks :
    (factory : Option Text) (config : ContextConfig) (port : ℕ)
    → new_context true factory config port ≡ some (idle port config)
unfolding new_context
new_context-unpacks factory config port =
    rw (new_context, initialize-unpacks factory config.data_dir) refl

set_config-idle :
    (port : ℕ) (old new : ContextConfig) → set_config true (idle port old) new ≡ idle port new
unfolding set_config new_emitter new_session
set_config-idle port old new = rw (initialize-unpacks (some old.data_dir) new.data_dir) refl

read_string-encode :
    (s : Text) → All (λ c. is_scalar c ≡ true) s → read_string (some (encode s)) ≡ done s
unfolding read_string
read_string-encode s h = rw (read_string, decode-encode s h) refl

read_config-example :
    (temp dir : Text) (d : ℕ)
    → All (λ c. is_scalar c ≡ true) (d ∷ dir)
    → read_config temp (some (example_config (d ∷ dir))) ≡ done (chosen_config (d ∷ dir))
unfolding read_config read_nodes
read_config-example temp dir d s =
    rw
      (
        read_config,
        read_string-encode (d ∷ dir) s,
        read_string-encode example_motd (all_scalar_sound example_motd refl),
      )
      refl

module _ (temp : Text) (print : Json → Text) (port : ℕ) where
  abbrev pub unpacking : Env
  unpacking = record { default_dir = temp; unpacks = true; print = print; port = port }

  created :
      (factory : Option Text)
      → terracotta_create unpacking factory ≡ put (idle port (default_config temp))
  unfolding terracotta_create
  created factory =
      rw (terracotta_create, new_context-unpacks factory (default_config temp) port) refl

  configured :
      (dir : Text) (d : ℕ)
      → All (λ c. is_scalar c ≡ true) (d ∷ dir)
      → terracotta_configure unpacking
          (put (idle port (default_config temp)))
          (some (example_config (d ∷ dir)))
        ≡ (put (idle port (chosen_config (d ∷ dir))), ok)
  unfolding terracotta_configure context_of new_emitter new_session
  configured dir d s =
      rw
        (
          terracotta_configure,
          read_config-example temp dir d s,
          set_config-idle port (default_config temp) (chosen_config (d ∷ dir)),
        )
        refl

  -- On a machine where EasyTier unpacks, the host program comes to its loop with a waiting context in its
  -- data directory and one command: to create a room under a new code. The data directory is not empty
  -- and of Unicode scalar values.
  pub host_program_lem :
      (factory : Option Text) (dir : Text) (d : ℕ)
      → All (λ c. is_scalar c ≡ true) (d ∷ dir)
      → host_program unpacking factory (d ∷ dir)
        ≡ running
            (put (ready port (d ∷ dir) (create_room (some (codes "Conic_Connect")) none [])))
            []
  unfolding host_program terracotta_create_room context_of room_code_from_c require_waiting submit
      new_emitter new_session
  host_program_lem factory dir d s =
      rw
        (
          host_program,
          created factory,
          configured dir d s,
          named (codes "onic_Connect") b'C' (all_scalar_sound (codes "Conic_Connect") refl),
        )
        refl

  -- On a machine where EasyTier unpacks, the guest program comes to its loop with a waiting context in its
  -- data directory and one command: to join the room of its code, if the code parses. With any other
  -- code it exits. The data directory is not empty, and it and the code are of Unicode scalar values.
  pub guest_program_lem :
      (factory : Option Text) (dir room_code : Text) (d : ℕ)
      → All (λ c. is_scalar c ≡ true) (d ∷ dir)
      → All (λ c. is_scalar c ≡ true) room_code
      → guest_program unpacking factory (d ∷ dir) room_code ≡ elim (parse room_code) [
        | none ↦ exited (codes "error: invalid room code: " ++ room_code)
        | some _ ↦
            running
              (put (
                ready port (d ∷ dir) (join_room room_code (some (codes "conic-example-guest")) [])))
              []
      ]
  unfolding guest_program terracotta_join_room context_of require_waiting submit new_emitter
      new_session
  guest_program_lem factory dir room_code d s t = elim (Option-cases (parse room_code)) [
    | inl e ↦ rw (guest_program, verified room_code t, e) refl
    | inr (room, e) ↦
        rw
          (
            guest_program,
            verified room_code t,
            e,
            joining,
            created factory,
            configured dir d s,
            joined room_code t e,
            named (codes "onic-example-guest") b'c'
                (all_scalar_sound (codes "conic-example-guest") refl),
          )
          refl
  ]
