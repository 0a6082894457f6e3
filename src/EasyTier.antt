-- ===== src/EasyTier.antt =====
-- src/easytier: mod.rs, argument.rs, publics.rs, and of process.rs the command line and the reading
-- of the peer list. EasyTier/Factory is the unpacking of the program's archive.
pub mod Factory
pub mod Difficulty
pub mod Peers
pub mod Output
pub mod Forwarding
use terracotta_ffi.Base.{
  ℕ, ◌+◌, Bool, true, false, ◌||◌, List, [], ◌∷◌, ◌++◌, Option, none, some, ◌==◌, if◌then◌else◌,
  Text, codes,
}
use terracotta_ffi.Base.Decimal.{decimal, u16_to_string}
use terracotta_ffi.Session.{ConnectionDifficulty, easiest, simple, medium, tough}

pub data NatType : Type 0 where
  unknown open_internet no_pat full_cone restricted port_restricted : NatType
  symmetric symmetric_udp_wall symmetric_easy_increase symmetric_easy_decrease : NatType

-- The discriminants, by which the derived `PartialEq` compares.
abbrev pub nat_number : NatType → ℕ
nat_number unknown = 0
nat_number open_internet = 1
nat_number no_pat = 2
nat_number full_cone = 3
nat_number restricted = 4
nat_number port_restricted = 5
nat_number symmetric = 6
nat_number symmetric_udp_wall = 7
nat_number symmetric_easy_increase = 8
nat_number symmetric_easy_decrease = 9

abbrev pub contains : List NatType → NatType → Bool
contains [] n = false
contains (t ∷ ts) n = (nat_number t == nat_number n) || contains ts n

unfoldable pub calc_conn_difficulty : NatType → NatType → ConnectionDifficulty
calc_conn_difficulty left right =
    let is = λ (types : List NatType). contains types left || contains types right in
    if is (open_internet ∷ [])
    then easiest
    else if is (no_pat ∷ full_cone ∷ [])
    then simple
    else if is (restricted ∷ port_restricted ∷ [])
    then medium
    else tough

pub record Ipv4Addr : Type 0 where
  pub a : ℕ
  pub b : ℕ
  pub c : ℕ
  pub d : ℕ

abbrev pub ipv4_unspecified : Ipv4Addr
ipv4_unspecified = record { a = 0; b = 0; c = 0; d = 0 }

-- A socket address; an IPv6 one is known by the text that it is displayed as.
pub data SocketAddr : Type 0 where
  v4 : Ipv4Addr → ℕ → SocketAddr
  v6 : Text → ℕ → SocketAddr

pub data Proto : Type 0 where
  tcp udp : Proto

abbrev pub proto_name : Proto → Text
proto_name tcp = codes "tcp"
proto_name udp = codes "udp"

pub record PortForward : Type 0 where
  pub local : SocketAddr
  pub remote : SocketAddr
  pub proto : Proto

pub data Argument : Type 0 where
  no_tun multi_thread latency_first enable_kcp_proxy dhcp p2p_only : Argument
  compression network_name network_secret public_server host_name : Text → Argument
  listener : SocketAddr → Proto → Argument
  port_forward : PortForward → Argument
  ipv4 : Ipv4Addr → Argument
  tcp_whitelist udp_whitelist : ℕ → Argument

abbrev pub show_ipv4 : Ipv4Addr → Text
show_ipv4 ip =
    decimal 3 ip.a ++ b'.' ∷ (decimal 3 ip.b ++ b'.' ∷ (decimal 3 ip.c ++ b'.' ∷ decimal 3 ip.d))

abbrev pub show_address : SocketAddr → Text
show_address (v4 ip port) = show_ipv4 ip ++ b':' ∷ u16_to_string port
show_address (v6 ip port) = b'[' ∷ (ip ++ b']' ∷ b':' ∷ u16_to_string port)

-- What `create` puts on the command line for one argument.
unfoldable pub render : Argument → List Text
render no_tun = codes "--no-tun" ∷ []
render (compression method) = (codes "--compression=" ++ method) ∷ []
render multi_thread = codes "--multi-thread" ∷ []
render latency_first = codes "--latency-first" ∷ []
render enable_kcp_proxy = codes "--enable-kcp-proxy" ∷ []
render (public_server server) = codes "-p" ∷ server ∷ []
render (network_name name) = codes "--network-name" ∷ name ∷ []
render (network_secret secret) = codes "--network-secret" ∷ secret ∷ []
render (listener address proto) =
    codes "-l" ∷ (proto_name proto ++ (codes "://" ++ show_address address)) ∷ []
render (port_forward f) =
    (codes "--port-forward="
      ++ (proto_name f.proto
          ++ (codes "://" ++ (show_address f.local ++ b'/' ∷ show_address f.remote))))
    ∷ []
render dhcp = codes "-d" ∷ []
render (host_name name) = codes "--hostname" ∷ name ∷ []
render (ipv4 address) = codes "--ipv4" ∷ show_ipv4 address ∷ []
render (tcp_whitelist port) = (codes "--tcp-whitelist=" ++ u16_to_string port) ∷ []
render (udp_whitelist port) = (codes "--udp-whitelist=" ++ u16_to_string port) ∷ []
render p2p_only = codes "--p2p-only" ∷ []

unfoldable pub render_all : List Argument → List Text
unfolding render
render_all [] = []
render_all (x ∷ xs) = render x ++ render_all xs

-- The command line of the child, with the port of its RPC.
unfoldable pub command_line : List Argument → ℕ → List Text
unfolding render_all
command_line args rpc = render_all args ++ codes "-r" ∷ u16_to_string rpc ∷ []

unfoldable pub fetch_public_nodes : List Text → List Text
fetch_public_nodes external =
    external
    ++ codes "tcp://public.easytier.top:11010"
      ∷ codes "tcp://public2.easytier.cn:54321"
      ∷ codes "https://etnode.zkitefly.eu.org/node1"
      ∷ codes "https://etnode.zkitefly.eu.org/node2"
      ∷ []
