-- ===== src/Tests/Registration.antt =====
-- A listener of src/udp/client.rs and the server of src/udp/server.rs at concrete inputs.
use rndz.Base.{
  ℕ, zero, suc, String, true, false, refl, Option, none, some, List, [], ◌∷◌, ◌+◌, arith,
}
use rndz.Map.{insert, empty}
use rndz.Net.{SocketAddr, v4}
use rndz.Proto.{ReqCmd, Request, Response, request}
use rndz.Udp.Client.{polled, recv_error, poll_sockets, scatter}
use rndz.Udp.Listener.{Turn, one_turn, next_ping_times, pings, serve, receive}
use rndz.Udp.Listener
use rndz.Udp.Listener.KeepAlive.{InTime}
use rndz.Udp.Server.{Server, Reads, Received}
use rndz.Udp.Server
use rndz.Udp.Server.Directory.{Registered}
use rndz.Udp.Registration.{Arrived, stays-Registered}
use rndz.Tests.Addresses.{strokes_text}

abbrev addr_j : SocketAddr
addr_j = v4 3 1

-- A message that begins with 0 is a ping of "j".
abbrev first_byte : List ℕ → Option Request
first_byte [] = none
first_byte (zero ∷ _) = some (request "j" ReqCmd.ping)
first_byte (suc _ ∷ _) = none

abbrev no_response : List ℕ → Option Response
no_response bytes = none

abbrev no_addr : String → Option SocketAddr
no_addr s = none

abbrev server_addrs : List SocketAddr
server_addrs = v4 7 1 ∷ []

-- A turn of a second, in which the poll times out.
abbrev turn_at : ℕ → Turn
turn_at begin = record {
  ticks = λ i. record { checked = begin; pinged = begin + 1; variation = 40 };
  result = polled (false ∷ []);
  recv = λ i. recv_error 11;
  clock = λ i. begin + 999;
}

turn_at-InTime : (begin : ℕ) → InTime 1000 begin (turn_at begin) (begin + 1000)
turn_at-InTime begin = record {
  begins = λ i. omega arith;
  reads = λ i. omega arith;
  ends = λ i. omega arith;
  brief = omega arith;
  varied = λ i. omega arith;
}

abbrev with_j : Server
with_j = record {
  clients = insert empty "j" (record { addr = addr_j; last_ping = 30 });
  next_gc = 900;
  sent = [];
}

-- The first ping arrives, and a collection follows.
abbrev served : List (Received × Reads)
served =
    (
      some (0 ∷ [], addr_j),
      record { handled = 700; checked = 1000; expiring = 1001; renewed = 1002 },
    )
    ∷ []

first_ping-Arrived :
    Arrived "j" no_response no_addr
      (λ e. true)
      server_addrs
      500
      1000
      (turn_at 500 ∷ [])
      0
      0
      1001
      700
unfolding Listener.run one_turn next_ping_times pings poll_sockets scatter serve
first_ping-Arrived = record {
  first = turn_at 500;
  before = [];
  after = [];
  until = 1500;
  split = refl;
  timed = (1500, turn_at-InTime 500, refl);
  late = omega arith;
  heard = ((λ e m. omega arith), tt);
}

stays-Registered_example :
    Registered (Server.run strokes_text first_byte with_j served) "j" addr_j 700
stays-Registered_example =
    stays-Registered "j" no_response no_addr (λ e. true) server_addrs 500 1000 (turn_at 500 ∷ [])
      first_byte 0 0 addr_j strokes_text with_j 30 served (omega arith) (omega arith)
      ((λ _. (refl, λ e. cc)), omega arith, first_ping-Arrived, tt)
      (record { addr = addr_j; last_ping = 30 }, refl, refl, omega arith)
