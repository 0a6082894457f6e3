-- ===== src/Protocols/Handlers.antt =====
-- The five handlers as a client sees them over the wire.
use terracotta_ffi.Base.{
  ℕ, ◌^◌, ◌<◌, ◌≡◌, refl, Bool, false, [], ◌∷◌, ◌++◌, Option, none, some, length, Text, Bytes,
  codes, text_eq, ◌&&◌, ◌||◌, be16, from_be_bytes, arith, if◌then◌else◌,
}
use mathlib.Core.Option
use terracotta_ffi.Base.Utf8.{encode, encode_char}
use terracotta_ffi.Json.{Items, arr}
use terracotta_ffi.Scaffolding.{answer, ok, fail, header_room, find_handler, default_handle, call}
use terracotta_ffi.Scaffolding.Exchange.{IsKind, call_lem}
use terracotta_ffi.Session.{SessionStateId, host_ok}
use terracotta_ffi.Emitter.{Emitter}
use terracotta_ffi.Protocols.{
  Env, ping, protocols, list_names, server_port, is_host_ok, list_profiles, player_profiles_list,
  build_handlers,
}
use terracotta_ffi.Protocols.Kinds.{
  ping-IsKind, protocols-IsKind, server_port-IsKind, profiles-IsKind,
}
use terracotta_ffi.Protocols.Players.{IsRoster, list_profiles-total}

-- c:ping answers with the body that it was sent, if that fits its length field, and changes
-- nothing.
pub call-ping :
    (env : Env) (e : Emitter) (body : Bytes)
    → length body < 2 ^ 32
    → call (build_handlers env) e (codes "c") (codes "ping") body ≡ (e, some body)
unfolding build_handlers find_handler ping
call-ping env e body h =
    call_lem (build_handlers env) e e (codes "c") (codes "ping") body _ 0 body ping-IsKind h refl
      refl h

-- c:protocols answers with the five names, a zero byte between two of them.
pub call-protocols :
    (env : Env) (e : Emitter)
    → call (build_handlers env) e (codes "c") (codes "protocols") [] ≡ (
      e,
      some (
          codes "c:ping"
          ++ 0
            ∷ (codes "c:protocols"
                ++ 0
                  ∷ (codes "c:server_port"
                      ++ 0 ∷ (codes "c:player_ping" ++ 0 ∷ codes "c:player_profiles_list")))),
    )
unfolding build_handlers find_handler protocols list_names encode encode_char
call-protocols env e =
    call_lem (build_handlers env) e e (codes "c") (codes "protocols") [] _ 0 _ protocols-IsKind
      (omega arith) refl refl (omega arith)

abbrev pub port_answer : SessionStateId → Option ℕ → Option Bytes
port_answer host_ok (some port) = some (be16 port)
port_answer _ _ = none

open_port : SessionStateId → Option ℕ → Option ℕ
open_port state port = if is_host_ok state then port else none

port_answer-eq :
    (state : SessionStateId) (port : Option ℕ)
    → port_answer state port ≡ Option.map be16 (open_port state port)
unfolding open_port
port_answer-eq state port = ground arith

call-server_port_by :
    (env : Env) (e : Emitter) (o : Option ℕ)
    → open_port e.session.state e.session.port ≡ o
    → call (build_handlers env) e (codes "c") (codes "server_port") [] ≡ (e, Option.map be16 o)
unfolding build_handlers find_handler server_port open_port
call-server_port_by env e none h =
    call_lem (build_handlers env) e e (codes "c") (codes "server_port") []
      (answer (fail 32 header_room)) 32 [] server_port-IsKind (omega arith) (rw h) refl
      (omega arith)
call-server_port_by env e (some port) h =
    call_lem (build_handlers env) e e (codes "c") (codes "server_port") []
      (answer (ok (header_room ++ be16 port))) 0 (be16 port) server_port-IsKind (omega arith) (rw h)
      refl (omega arith)

-- c:server_port answers with the port of a host that is ready, and fails in every other state.
pub call-server_port :
    (env : Env) (e : Emitter)
    → call (build_handlers env) e (codes "c") (codes "server_port") []
      ≡ (e, port_answer e.session.state e.session.port)
call-server_port env e =
    rw (port_answer-eq e.session.state e.session.port)
      (call-server_port_by env e (open_port e.session.state e.session.port) refl)

-- The two bytes of a port read back as the port.
pub from_be_bytes-be16 : (port : ℕ) → port < 2 ^ 16 → from_be_bytes 0 (be16 port) ≡ port
from_be_bytes-be16 port h = omega arith

-- A ready host with a roster answers c:player_profiles_list with the printed list of its players,
-- if that fits a response, and changes nothing.
pub call-player_profiles_list :
    (env : Env) (e : Emitter)
    → e.session.state ≡ host_ok
    → IsRoster e.session.profiles
    → ((items : Items)
        → list_profiles e.session.profiles ≡ some items
        → length (env.codec.to_writer (arr items)) < 2 ^ 32)
    → (items : Items) × (list_profiles e.session.profiles ≡ some items)
      × (call (build_handlers env) e (codes "c") (codes "player_profiles_list") []
          ≡ (e, some (env.codec.to_writer (arr items))))
unfolding build_handlers find_handler player_profiles_list
call-player_profiles_list env e state roster fits =
    let (items, listed) = list_profiles-total e.session.profiles roster in
    (
      items,
      listed,
      call_lem (build_handlers env) e e (codes "c") (codes "player_profiles_list") []
          (answer (ok (header_room ++ env.codec.to_writer (arr items)))) 0
          (env.codec.to_writer (arr items)) profiles-IsKind (omega arith) (rw (state, listed)) refl
          (fits items listed),
    )

-- The names that the protocol knows.
abbrev pub is_known : Text → Text → Bool
is_known namespace path =
    text_eq namespace (codes "c")
    && (text_eq path (codes "ping")
        || text_eq path (codes "protocols")
        || text_eq path (codes "server_port")
        || text_eq path (codes "player_ping")
        || text_eq path (codes "player_profiles_list"))

none_of :
    (n a b c d f : Bool)
    → (n && (a || b || c || d || f)) ≡ false
    → ((n && a) ≡ false)
      × ((n && b) ≡ false)
      × ((n && c) ≡ false)
      × ((n && d) ≡ false)
      × ((n && f) ≡ false)
none_of n a b c d f h = ground arith

-- A kind that can be sent and that the server does not know gets no answer, for a body that fits
-- its length field, and leaves the state alone.
pub call-unknown :
    (env : Env) (e : Emitter) (namespace path : Text) (body : Bytes)
    → IsKind namespace path
    → length body < 2 ^ 32
    → is_known namespace path ≡ false
    → call (build_handlers env) e namespace path body ≡ (e, none)
unfolding build_handlers find_handler default_handle
call-unknown env e namespace path body k h u =
    call_lem (build_handlers env) e e namespace path body _ 255 _ k h unknown refl (omega arith)
  where
    unknown : find_handler (build_handlers env) namespace path e body header_room ≡ (
      e,
      answer (fail 255 (header_room ++ codes "Requested protocol hasn't been implemented.")),
    )
    unknown =
        let five =
          none_of (text_eq namespace (codes "c")) (text_eq path (codes "ping"))
            (text_eq path (codes "protocols")) (text_eq path (codes "server_port"))
            (text_eq path (codes "player_ping")) (text_eq path (codes "player_profiles_list")) u in
        rw (five.0, five.1, five.2, five.3, five.4)
