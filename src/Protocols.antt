-- ===== src/Protocols.antt =====
-- src/scaffolding/protocols.rs: the five handlers of the `c` namespace, over the emitter.
pub mod Handlers
pub mod Kinds
pub mod Players
pub mod Pinged
use terracotta_ffi.Base.{
  ℕ, zero, suc, ◌+◌, ◌-◌, Bool, true, false, not, List, [], ◌∷◌, ◌++◌, Option, none, some, ◌==◌,
  if◌then◌else◌, length, get_elem?, Text, Bytes, codes, text_eq, be16,
}
use terracotta_ffi.Base.Utf8.{encode}
use terracotta_ffi.Event.{player_joined}
use terracotta_ffi.Json.{Json, Items, str, arr, obj, nil, cons, end, field, str_field, Codec}
use terracotta_ffi.Profile.{Profile, ProfileKind, host, guest, local, set_name}
use terracotta_ffi.Scaffolding.{
  PacketResponse, ok, fail, HandlerResult, answer, error, panicked, Handler,
}
use terracotta_ffi.Session.{Session, SessionStateId, host_ok}
use terracotta_ffi.Emitter.{Emitter, emit, commit_shared}
use mathlib.Core.Option

pub data IoError : Type 0 where
  invalid_json invalid_input : IoError
  other : Text → IoError

-- What the handlers find outside the program: serde_json, the clock, and the `Debug` text of errors.
pub record Env : Type 0 where
  pub codec : Codec
  pub now : ℕ
  pub debug : IoError → Bytes

abbrev pub names : List (Text × Text)
names =
    (codes "c", codes "ping")
    ∷ (codes "c", codes "protocols")
    ∷ (codes "c", codes "server_port")
    ∷ (codes "c", codes "player_ping")
    ∷ (codes "c", codes "player_profiles_list")
    ∷ []

-- c:ping
unfoldable pub ping : Emitter → Bytes → Bytes → Emitter × HandlerResult
ping e request response = (e, answer (ok (response ++ request)))

-- The loop of c:protocols: a zero byte between two names.
unfoldable pub list_names : List (Text × Text) → Bytes → Bytes
list_names [] response = response
list_names ((namespace, path) ∷ []) response = response ++ (encode namespace ++ b':' ∷ encode path)
list_names ((namespace, path) ∷ name ∷ rest) response =
    list_names (name ∷ rest) (response ++ (encode namespace ++ b':' ∷ (encode path ++ 0 ∷ [])))

-- c:protocols
unfoldable pub protocols : Emitter → Bytes → Bytes → Emitter × HandlerResult
unfolding list_names
protocols e request response = (e, answer (ok (list_names names response)))

abbrev pub is_host_ok : SessionStateId → Bool
is_host_ok host_ok = true
is_host_ok _ = false

-- c:server_port
unfoldable pub server_port : Emitter → Bytes → Bytes → Emitter × HandlerResult
server_port e request response = (
  e,
  elim (if is_host_ok e.session.state then e.session.port else none) [
    | none ↦ answer (fail 32 response)
    | some port ↦ answer (ok (response ++ be16 port))
  ],
)

-- `iter().position(…)` by machine id.
unfoldable pub position : Text → List (ℕ × Profile) → Option ℕ
position m [] = none
position m ((t, p) ∷ ps) = if text_eq p.machine_id m then some 0 else Option.map suc (position m ps)

-- The time and the name of the profile at an index.
unfoldable pub touch : ℕ → Text → ℕ → List (ℕ × Profile) → List (ℕ × Profile)
touch now name i [] = []
touch now name zero ((t, p) ∷ ps) = (now, set_name name p) ∷ ps
touch now name (suc i) (x ∷ ps) = x ∷ touch now name i ps

pub data Action : Type 0 where
  nothing renamed : Action
  joined : Profile → Action
  refused : Text → Action

abbrev name_at : ℕ → List (ℕ × Profile) → Option Text
name_at i ps = Option.map (λ x. x.1.name) (get_elem? ps i)

abbrev same_name : Option Text → Text → Bool
same_name none name = false
same_name (some old) name = text_eq old name

-- What c:player_ping does under the lock. The first profile is the host's own.
unfoldable pub player_action :
    ℕ → Text → Text → Text → List (ℕ × Profile) → List (ℕ × Profile) × Action
player_action now name machine_id vendor ps = elim (position machine_id ps) [
  | none ↦
      let p : Profile = record {
        machine_id = machine_id;
        name = name;
        vendor = vendor;
        kind = guest;
      } in
      (ps ++ (now, p) ∷ [], joined p)
  | some zero ↦
      (ps, refused (codes "IllegalStateException: Cannot modify host, machine_id may conflict."))
  | some (suc i) ↦
      (touch now name (suc i) ps, if same_name (name_at (suc i) ps) name then nothing else renamed)
]

abbrev keep : Session → Session
keep s = s

-- The end of c:player_ping, outside the lock.
unfoldable pub finish_ping : (IoError → Bytes) → Emitter → Bytes → Action → Emitter × HandlerResult
finish_ping debug e response nothing = (e, answer (ok response))
finish_ping debug e response renamed = (commit_shared e keep, answer (ok response))
finish_ping debug e response (joined p) =
    (emit (commit_shared e keep) (player_joined p), answer (ok response))
finish_ping debug e response (refused message) = (e, error (debug (other message)))

-- c:player_ping
unfoldable pub player_ping : Env → Emitter → Bytes → Bytes → Emitter × HandlerResult
player_ping env e request response = elim (env.codec.from_lossy request) [
  | none ↦ (e, error (env.debug invalid_json))
  | some value ↦ elim (str_field (codes "name") value) [
    | none ↦ (e, error (env.debug invalid_input))
    | some name ↦ elim (str_field (codes "machine_id") value) [
      | none ↦ (e, error (env.debug invalid_input))
      | some machine_id ↦ elim (str_field (codes "vendor") value) [
        | none ↦ (e, error (env.debug invalid_input))
        | some vendor ↦
            let (ps, action) = player_action env.now name machine_id vendor e.session.profiles in
            finish_ping env.debug (record e { session = record e.session { profiles = ps } })
              response action
      ]
    ]
  ]
]

-- The kind of a listed profile; a local one is `unreachable!()`.
abbrev pub listed_kind : ProfileKind → Option Text
listed_kind host = some (codes "HOST")
listed_kind guest = some (codes "GUEST")
listed_kind local = none

abbrev pub profile_entry : Text → Profile → Json
profile_entry kind p = obj (
    field (codes "kind") (str kind) (
      field (codes "machine_id") (str p.machine_id)
        (field (codes "name") (str p.name) (field (codes "vendor") (str p.vendor) end))))

unfoldable pub list_profiles : List (ℕ × Profile) → Option Items
list_profiles [] = some nil
list_profiles ((t, p) ∷ ps) =
    let rest = list_profiles ps in
    elim (listed_kind p.kind) [
      | none ↦ none
      | some kind ↦ Option.map (cons (profile_entry kind p)) rest
    ]

-- c:player_profiles_list
unfoldable pub player_profiles_list : Env → Emitter → Bytes → Bytes → Emitter × HandlerResult
player_profiles_list env e request response =
    if is_host_ok e.session.state
    then (
      e,
      elim (list_profiles e.session.profiles) [
        | none ↦ panicked
        | some items ↦ answer (ok (response ++ env.codec.to_writer (arr items)))
      ],
    )
    else (e, error (env.debug (other (codes "IllegalStateException: Expecting HostOk."))))

unfoldable pub build_handlers : Env → List (Handler Emitter)
build_handlers env =
    record { namespace = codes "c"; path = codes "ping"; handle = ping }
    ∷ record { namespace = codes "c"; path = codes "protocols"; handle = protocols }
    ∷ record { namespace = codes "c"; path = codes "server_port"; handle = server_port }
    ∷ record { namespace = codes "c"; path = codes "player_ping"; handle = player_ping env }
    ∷ record {
      namespace = codes "c";
      path = codes "player_profiles_list";
      handle = player_profiles_list env;
    }
    ∷ []
