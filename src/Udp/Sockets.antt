-- ===== src/Udp/Sockets.antt =====
-- How the UDP clients of src/udp/client.rs open their sockets, and the life of a `Listener`. What the
-- operating system answers is an argument.
pub mod Shared
pub mod Dropping
use rndz.Base.{
  ℕ, zero, suc, ◌+◌, ◌*◌, ◌^◌, String, Bool, true, false, Option, none, some, List, [], ◌∷◌, length,
  if◌then◌else◌,
}
use rndz.Net.{SocketAddr, v4, v6, is_ipv6, port}
use rndz.Proto.{ReqCmd, Request, request}
use rndz.Udp.Listener.{no_times}

pub data Error : Type 0 where
  no_servers no_address panicked : Error
  os_error : ℕ → Error

pub data Result (A : Type 0) : Type 0 where
  failed : Error → Result A
  ok : A → Result A

-- `?`
abbrev pub try : {A B : Type 0} → Result A → (A → Result B) → Result B
try (failed e) next = failed e
try (ok a) next = next a

-- `CommonConfig`, without the hook that configures a socket.
pub record CommonConfig : Type 0 where
  pub id : String
  pub local_addr : Option SocketAddr
  pub server_addrs : List String

unfoldable pub new_config : List String → String → Option SocketAddr → Result CommonConfig
new_config [] id local_addr = failed no_servers
new_config (addr ∷ addrs) id local_addr =
    ok (record { id = id; local_addr = local_addr; server_addrs = addr ∷ addrs })

-- A socket connected to a server: the address that it was bound to, the one that it got, and the
-- server's.
pub record Socket : Type 0 where
  pub bound : SocketAddr
  pub local_addr : SocketAddr
  pub peer_addr : SocketAddr

-- `Ipv4Addr::to_ipv6_mapped`: ::ffff:a.b.c.d
abbrev pub to_ipv6_mapped : ℕ → ℕ
to_ipv6_mapped ip = 65535 * 2 ^ 32 + ip

-- The server's address, for a socket that is bound to an IPv6 address.
abbrev pub mapped : SocketAddr → SocketAddr
mapped (v4 ip port) = v6 (to_ipv6_mapped ip) port 0 0
mapped (v6 ip port flowinfo scope_id) = v6 ip port flowinfo scope_id

abbrev pub server_for : Option SocketAddr → SocketAddr → SocketAddr
server_for none server = server
server_for (some addr) server = if is_ipv6 addr then mapped server else server

-- "0.0.0.0:0" or "[::]:0"
abbrev pub unspecified : SocketAddr → SocketAddr
unspecified (v4 ip port) = v4 0 0
unspecified (v6 ip port flowinfo scope_id) = v6 0 0 0 0

abbrev pub bind_for : Option SocketAddr → SocketAddr → SocketAddr
bind_for none server = unspecified server
bind_for (some addr) server = addr

abbrev pub first_of : List SocketAddr → Result SocketAddr
first_of [] = failed no_address
first_of (a ∷ addrs) = ok a

-- An address with another port.
abbrev pub with_port : SocketAddr → ℕ → SocketAddr
with_port (v4 ip _) port = v4 ip port
with_port (v6 ip _ flowinfo scope_id) port = v6 ip port flowinfo scope_id

-- The address that the client's other sockets share: the first socket's, or the address that was asked
-- for with the first socket's port.
abbrev pub shared_addr : Option SocketAddr → Socket → SocketAddr
shared_addr none sk = sk.local_addr
shared_addr (some addr) sk = with_port addr (port sk.local_addr)

abbrev pub or_else : Option SocketAddr → Option SocketAddr → Option SocketAddr
or_else none other = other
or_else (some addr) other = some addr

abbrev pub share : Option SocketAddr → Option SocketAddr → Socket → SocketAddr
share (some addr) initial sk = addr
share none initial sk = shared_addr initial sk

-- `local_addr.unwrap()`
abbrev pub unwrap : List Socket × Option SocketAddr → Result (List Socket × SocketAddr)
unwrap (sks, none) = failed panicked
unwrap (sks, some addr) = ok (sks, addr)

-- `unwrap` of a new socket
abbrev pub made : Result (Unit {0}) → Result (Unit {0})
made (failed e) = failed panicked
made (ok u) = ok u

-- What the operating system answers: the addresses of a name, whether a socket can be made, whether
-- the hook and its options succeed, whether it can be bound, and the address that it gets when it
-- is connected.
pub record Os : Type 0 where
  pub resolve : String → Result (List SocketAddr)
  pub new_socket : Result (Unit {0})
  pub config_socket : Result (Unit {0})
  pub set_reuse_address : Result (Unit {0})
  pub set_nonblocking : Result (Unit {0})
  pub bind_to : SocketAddr → Result (Unit {0})
  pub connect_to : SocketAddr → SocketAddr → Result SocketAddr

module _ (os : Os) where
  open os use {
    resolve, new_socket, config_socket, set_reuse_address, set_nonblocking, bind_to, connect_to,
  }

  abbrev pub create_socket : SocketAddr → Result (Unit {0})
  create_socket addr =
      try (made new_socket) λ _. try config_socket λ _. try set_reuse_address λ _. bind_to addr

  abbrev pub open_to : SocketAddr → SocketAddr → Result Socket
  open_to bound server = try (create_socket bound) λ _. try set_nonblocking λ _.
      try (connect_to bound server)
        λ addr. ok (record { bound = bound; local_addr = addr; peer_addr = server })

  unfoldable pub connect_server : String → Option SocketAddr → Result Socket
  connect_server server_addr local_addr = try (resolve server_addr) λ addrs.
      try (first_of addrs) λ found.
        let server = server_for local_addr found in open_to (bind_for local_addr server) server

  -- The loop of `connect_multiple_servers`, from the address that the sockets so far share.
  unfoldable pub connect_from :
      Option SocketAddr → Option SocketAddr → List String → Result (List Socket × Option SocketAddr)
  connect_from initial local_addr [] = ok ([], local_addr)
  connect_from initial local_addr (server ∷ servers) =
      try (connect_server server (or_else local_addr initial)) λ sk.
        try (connect_from initial (some (share local_addr initial sk)) servers)
          λ rest. ok (sk ∷ rest.0, rest.1)

  unfoldable pub connect_multiple_servers :
      List String → Option SocketAddr → Result (List Socket × SocketAddr)
  connect_multiple_servers server_addrs initial_addr =
      try (connect_from initial_addr none server_addrs) unwrap

-- A `Listener`, and the byes that it has sent.
pub record Listener : Type 0 where
  pub cfg : CommonConfig
  pub svr_sks : Option (List Socket)
  pub last_pong : List (Option ℕ)
  pub exit : Bool
  pub byes : List (Socket × Request)

unfoldable pub new_listener : List String → String → Option SocketAddr → Result Listener
unfolding new_config
new_listener server_addrs id local_addr = try (new_config server_addrs id local_addr) λ cfg.
    ok (record {
      cfg = cfg;
      svr_sks = none;
      last_pong = no_times (length cfg.server_addrs);
      exit = false;
      byes = [];
    })

-- What a call of `listen` meets: the outcome of `connect_multiple_servers`, of `set_nonblocking`, and
-- of `create_socket` for the peers.
pub record Listening : Type 0 where
  pub connecting : Result (List Socket × SocketAddr)
  pub nonblocking : Result (Unit {0})
  pub peer_socket : Result (Unit {0})

-- `listen` from the point where there are sockets: it takes them for its thread. The result is that
-- of the call; the second part is the listener.
abbrev pub listen_on : Listener → Listening → Option (List Socket) → Result (Unit {0}) × Listener
listen_on l w none = (failed panicked, l)
listen_on l w (some sks) = (try w.nonblocking λ _. w.peer_socket, record l { svr_sks = none })

abbrev pub listen_first :
    Listener → Listening → Result (List Socket × SocketAddr) → Result (Unit {0}) × Listener
listen_first l w (failed e) = (failed e, l)
listen_first l w (ok (sks, addr)) =
    listen_on (record l { svr_sks = some sks; cfg = record l.cfg { local_addr = some addr } }) w
      (some sks)

abbrev pub listen_with : Listener → Listening → Option (List Socket) → Result (Unit {0}) × Listener
listen_with l w none = listen_first l w w.connecting
listen_with l w (some sks) = listen_on l w (some sks)

unfoldable pub listen : Listener → Listening → Result (Unit {0}) × Listener
listen l w = listen_with l w l.svr_sks

abbrev pub byes_on : String → List Socket → List (Socket × Request)
byes_on id [] = []
byes_on id (sk ∷ sks) = (sk, request id ReqCmd.bye) ∷ byes_on id sks

abbrev pub say_bye : Listener → Option (List Socket) → Listener
say_bye l none = l
say_bye l (some sks) = record l { svr_sks = none; byes = byes_on l.cfg.id sks }

-- `Drop for Listener`
unfoldable pub drop_listener : Listener → Listener
drop_listener l = say_bye (record l { exit = true }) l.svr_sks
