-- ===== src/Tests/UdpClient.antt =====
-- The listener and the sockets of src/udp/client.rs at concrete inputs.
use rndz.Base.{
  ℕ, zero, suc, ◌+◌, ◌*◌, String, ◌≡◌, refl, true, false, Option, none, some, List, [], ◌∷◌, arith,
  length, All, Any, str_eq, if◌then◌else◌,
}
use rndz.Net.{SocketAddr, v4, v6, port}
use rndz.Proto.{Response}
use rndz.Udp.Client.{Poll, polled, recv_error}
use rndz.Udp.Listener.{Turn, run, start}
use rndz.Udp.Listener.KeepAlive.{InTime, PingsSince, pinged_recently}
use rndz.Udp.Sockets.{
  Os, Error, Result, failed, no_address, ok, Socket, Listener, Listening, connect_multiple_servers,
  connect_from, connect_server, new_listener, new_config, drop_listener,
}
use rndz.Udp.Sockets.Shared.{sockets_share, Reaches}
use rndz.Udp.Connector.{Connector, new_connector, connect}
use rndz.Udp.Connector.Failing.{bad_server}
use rndz.Udp.Sockets.Dropping.{listens, drop_silent}

abbrev no_response : List ℕ → Option Response
no_response bytes = none

abbrev no_addr : String → Option SocketAddr
no_addr s = none

abbrev two_servers : List SocketAddr
two_servers = v4 7 1 ∷ v4 8 1 ∷ []

-- A turn of a second, in which the poll times out.
abbrev turn_at : ℕ → Turn
turn_at begin = record {
  ticks = λ i. record { checked = begin; pinged = begin + 1; variation = 40 };
  result = polled (false ∷ false ∷ []);
  recv = λ i. recv_error 11;
  clock = λ i. begin + 999;
}

turn_at-InTime : (begin : ℕ) → InTime 1000 begin (turn_at begin) (begin + 1000)
turn_at-InTime begin = record {
  begins = λ i. omega arith;
  reads = λ i. omega arith;
  ends = λ i. omega arith;
  brief = omega arith;
  varied = λ i. omega arith;
}

pinged_recently_example :
    Any
      (PingsSince "k" 1 2500 (15000 + 2 * 1000))
      (run "k" no_response no_addr
        (λ e. true)
        (start 2)
        two_servers
        (turn_at 500 ∷ turn_at 1500 ∷ [])).sent
pinged_recently_example =
    pinged_recently "k" no_response no_addr (λ e. true) 1000 1 500 2500 (turn_at 500)
      (turn_at 1500 ∷ []) two_servers (omega arith)
      (1500, turn_at-InTime 500, (2500, turn_at-InTime 1500, refl))

-- Each server's name has one address; a socket bound to the port 0 gets the port 9.
abbrev resolve_one : String → Result (List SocketAddr)
resolve_one s = ok (v4 7 1 ∷ [])

abbrev open_any : SocketAddr → SocketAddr → Result SocketAddr
open_any (v4 ip zero) server = ok (v4 ip 9)
open_any (v4 ip (suc port)) server = ok (v4 ip (suc port))
open_any (v6 ip port flow scope) server = ok (v6 ip port flow scope)

abbrev machine : Os
machine = record {
  resolve = resolve_one;
  new_socket = ok tt;
  config_socket = ok tt;
  set_reuse_address = ok tt;
  set_nonblocking = ok tt;
  bind_to = λ addr. ok tt;
  connect_to = open_any;
}

abbrev socket_at : ℕ → ℕ → Socket
socket_at ip port = record { bound = v4 ip port; local_addr = v4 ip 9; peer_addr = v4 7 1 }

abbrev sockets : List Socket
sockets = socket_at 0 0 ∷ socket_at 0 9 ∷ []

-- The sockets for the address 6, with any port.
abbrev asked_sockets : List Socket
asked_sockets = socket_at 6 0 ∷ socket_at 6 9 ∷ []

two_sockets : connect_multiple_servers machine ("s" ∷ "t" ∷ []) none ≡ ok (sockets, v4 0 9)
unfolding connect_multiple_servers connect_from connect_server
two_sockets = refl

two_asked :
    connect_multiple_servers machine ("s" ∷ "t" ∷ []) (some (v4 6 0)) ≡ ok (asked_sockets, v4 6 9)
unfolding connect_multiple_servers connect_from connect_server
two_asked = refl

sockets_share_example :
    let initial : Option SocketAddr = some (v4 6 0) in
    let addr : SocketAddr = v4 6 9 in
    (length asked_sockets ≡ 2)
    × ((first : Socket) × (rest : List Socket) × (asked_sockets ≡ first ∷ rest)
        × (initial ≡ none → addr ≡ first.local_addr)
        × ((ip p : ℕ) → initial ≡ some (v4 ip p) → addr ≡ v4 ip (port first.local_addr))
        × ((ip p flowinfo scope_id : ℕ)
            → initial ≡ some (v6 ip p flowinfo scope_id)
            → addr ≡ v6 ip (port first.local_addr) flowinfo scope_id)
        × ((a : SocketAddr) → initial ≡ some a → first.bound ≡ a)
        × Reaches first
        × All (λ sk. (sk.bound ≡ addr) × Reaches sk) rest)
sockets_share_example =
    sockets_share machine ("s" ∷ "t" ∷ []) (some (v4 6 0)) asked_sockets (v4 6 9) two_asked

abbrev fresh : Listener
fresh = record {
  cfg = record { id = "k"; local_addr = none; server_addrs = "s" ∷ "t" ∷ [] };
  svr_sks = none;
  last_pong = none ∷ none ∷ [];
  exit = false;
  byes = [];
}

-- A call of `listen` that succeeds.
abbrev succeeds : Listening
succeeds = record { connecting = ok (sockets, v4 0 9); nonblocking = ok tt; peer_socket = ok tt }

fresh_new : new_listener ("s" ∷ "t" ∷ []) "k" none ≡ ok fresh
unfolding new_listener new_config
fresh_new = refl

drop_silent_example : (drop_listener (listens fresh (succeeds ∷ succeeds ∷ []))).byes ≡ []
drop_silent_example =
    drop_silent ("s" ∷ "t" ∷ []) "k" none fresh (succeeds ∷ succeeds ∷ []) fresh_new

-- Only "s" has an address.
abbrev resolve_s : String → Result (List SocketAddr)
resolve_s name = if str_eq name "s" then ok (v4 7 1 ∷ []) else failed no_address

abbrev offline : Os
offline = record machine { resolve = resolve_s }

abbrev two_named : Connector
two_named = record { cfg = record { id = "k"; local_addr = none; server_addrs = "s" ∷ "t" ∷ [] } }

two_named_new : new_connector ("s" ∷ "t" ∷ []) "k" none ≡ ok two_named
unfolding new_connector new_config
two_named_new = refl

abbrev no_polls : ℕ → List Poll
no_polls k = []

bad_server_example :
    (e : Error) × (connect no_response no_addr (λ sks i addr. none) offline two_named no_polls
      ≡ failed e)
bad_server_example =
    bad_server no_response no_addr (λ sks i addr. none) offline ("s" ∷ []) [] "t" "k" none two_named
      no_polls two_named_new (no_address, refl)
