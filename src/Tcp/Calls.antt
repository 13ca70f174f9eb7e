-- ===== src/Tcp/Calls.antt =====
-- The calls of a `Client` of src/tcp/client.rs: `new`, `listen`, `accept`, `shutdown` and `Drop`,
-- with the threads that they start and stop.
pub mod Spent
pub mod Again
use rndz.Base.{String, true, false, Option, none, some, [], ◌∷◌, ◌++◌}
use rndz.Net.{SocketAddr}
use rndz.Tcp.Client.{Os, Result, err, ok, try, bind, choose_bind_addr, connect_server}
use rndz.Tcp.Signal
use rndz.Tcp.Session.{Session, new_connection, notify_connections}

-- The listener is the address where it listens. `session` is what `signal` holds, and the threads;
-- a client has at most one thread of `listen`.
pub record Client : Type 0 where
  pub server_addr : String
  pub id : String
  pub listener : Option SocketAddr
  pub local_addr : Option SocketAddr
  pub session : Session

-- No thread runs.
abbrev pub idle : Session
idle = record {
  exit = false;
  broken = false;
  listening = Signal.Listening.returned;
  connections = [];
}

abbrev pub new : String → String → Option SocketAddr → Client
new server_addr id local_addr = record {
  server_addr = server_addr;
  id = id;
  listener = none;
  local_addr = local_addr;
  session = idle;
}

-- What a call of `listen` meets: whether the bound socket can listen, and its address.
pub record Listening : Type 0 where
  pub backlog : Result (Unit {0})
  pub local_addr : SocketAddr

-- The threads of a call of `listen` whose `start_background` succeeds.
abbrev pub begin : Session → Session
begin s = record s {
  listening = Signal.Listening.at_head;
  connections = s.connections ++ new_connection ∷ [];
}

abbrev pub listened : Client → Listening → Result SocketAddr → Result (Unit {0}) × Client
listened c w (err e) = (err e, c)
listened c w (ok addr) =
    (ok tt, record c { listener = some w.local_addr; session = begin c.session })

-- `listen`, when no thread of an earlier call runs.
unfoldable pub listen : Os → Listening → Client → Result (Unit {0}) × Client
listen os w c = listened c w (
    try (choose_bind_addr os c.local_addr c.server_addr) λ addr.
      try (bind os addr) λ _. try w.backlog λ _. connect_server os w.local_addr c.server_addr)

-- What `accept` gives: that the client does not listen, or what the listener gives.
pub data Accepted : Type 0 where
  not_listening : Accepted
  answer : Result SocketAddr → Accepted

abbrev pub accept_on : Option SocketAddr → Result SocketAddr → Accepted
accept_on none result = not_listening
accept_on (some addr) result = answer result

unfoldable pub accept : Client → Result SocketAddr → Accepted
accept c result = accept_on c.listener result

-- `shutdown`, and `Drop`.
unfoldable pub shutdown : Client → Client
shutdown c = record c {
  listener = none;
  session = notify_connections (record c.session { exit = true });
}
