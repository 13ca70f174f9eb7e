-- ===== src/Udp/Listener.antt =====
-- The thread that `Listener::listen` of src/udp/client.rs starts: it pings the servers, polls their
-- sockets, and answers what they forward. Clock readings, random variations and what the operating
-- system gives are arguments, one `Turn` for each turn of the loop, which ends when `exit` is set.
-- Times are in milliseconds.
pub mod Later
pub mod KeepAlive
pub mod Answers
use rndz.Base.{
  ℕ, zero, suc, ◌+◌, String, Bool, true, false, not, Option, none, some, List, [], ◌∷◌, ◌++◌, ltb,
  str_eq, take, if◌then◌else◌, length,
}
use rndz.Net.{SocketAddr}
use rndz.Proto.{ReqCmd, Request, RespCmd, Response, request}
use rndz.Udp.Client.{
  PollResult, Polled, Recv, recv_error, datagram, poll_sockets, set_failed, none_of,
}

-- A datagram sent: when, on which server's socket, where to, and what.
pub record Sent : Type 0 where
  pub at : ℕ
  pub socket : ℕ
  pub to : SocketAddr
  pub message : Request

pub record State : Type 0 where
  pub ping_times : List (Option ℕ)
  pub failed_servers : List Bool
  pub last_pong : List (Option ℕ)
  pub sent : List Sent

-- The clock when `elapsed` and `Instant::now` read it for one server, and its random variation.
pub record Tick : Type 0 where
  pub checked : ℕ
  pub pinged : ℕ
  pub variation : ℕ

-- Duration::from_secs(10)
abbrev pub keepalive_to : ℕ
keepalive_to = 10000

-- The time of the last ping, with its variation, may lie ahead: then no time has elapsed.
abbrev pub is_due : Tick → Option ℕ → Bool
is_due tick none = true
is_due tick (some t) = ltb (t + keepalive_to) tick.checked

abbrev pub next_ping_time : Tick → Option ℕ → Option ℕ
next_ping_time tick t = if is_due tick t then some (tick.pinged + tick.variation) else t

-- The first loop of a turn, from the server `i` on: the new ping times, and what it sends.
unfoldable pub next_ping_times : ℕ → (ℕ → Tick) → List (Option ℕ) → List (Option ℕ)
next_ping_times i ticks [] = []
next_ping_times i ticks (t ∷ ts) = next_ping_time (ticks i) t ∷ next_ping_times (suc i) ticks ts

abbrev pub ping_of : String → ℕ → SocketAddr → Tick → Sent
ping_of myid i addr tick = record {
  at = tick.checked;
  socket = i;
  to = addr;
  message = request myid ReqCmd.ping;
}

abbrev pub ping_if : Bool → Sent → List Sent
ping_if true ping = ping ∷ []
ping_if false ping = []

unfoldable pub pings : String → ℕ → (ℕ → Tick) → List SocketAddr → List (Option ℕ) → List Sent
pings myid i ticks [] ts = []
pings myid i ticks (addr ∷ addrs) [] = []
pings myid i ticks (addr ∷ addrs) (t ∷ ts) =
    ping_if (is_due (ticks i) t) (ping_of myid i addr (ticks i))
    ++ pings myid (suc i) ticks addrs ts

abbrev pub set_pong : ℕ → ℕ → List (Option ℕ) → List (Option ℕ)
set_pong now i [] = []
set_pong now zero (p ∷ pongs) = some now ∷ pongs
set_pong now (suc i) (p ∷ pongs) = p ∷ set_pong now i pongs

-- `send_rsync`, by the socket `i`.
abbrev pub rsync_of : String → String → ℕ → ℕ → SocketAddr → Sent
rsync_of myid target_id now i addr = record {
  at = now;
  socket = i;
  to = addr;
  message = request myid (ReqCmd.rsync (record { id = target_id }));
}

-- What one turn meets: the ticks of the servers, the result of the poll, what each socket holds, and
-- the clock when it is read.
pub record Turn : Type 0 where
  pub ticks : ℕ → Tick
  pub result : PollResult
  pub recv : ℕ → Recv
  pub clock : ℕ → ℕ

-- The listener's name, the parsers, and which errors are `WouldBlock`.
module _ (myid : String) (parse_from_bytes : List ℕ → Option Response)
    (parse_addr : String → Option SocketAddr) (would_block : ℕ → Bool) where
  -- The Rsync to the peer follows the one to the server, if the peer's address can be read.
  abbrev pub rsyncs : String → ℕ → ℕ → SocketAddr → Option SocketAddr → List Sent
  rsyncs target_id now i addr none = rsync_of myid target_id now i addr ∷ []
  rsyncs target_id now i addr (some peer_addr) =
      rsync_of myid target_id now i addr ∷ rsync_of myid target_id now i peer_addr ∷ []

  abbrev pub respond : State → ℕ → SocketAddr → ℕ → Option RespCmd → State
  respond s i addr now (some RespCmd.pong) = record s { last_pong = set_pong now i s.last_pong }
  respond s i addr now (some (RespCmd.fsync f)) = record s {
    sent = s.sent ++ rsyncs f.id now i addr (parse_addr f.addr);
  }
  respond s i addr now (some (RespCmd.redirect r)) = s
  respond s i addr now none = s

  abbrev pub take_response : State → ℕ → SocketAddr → ℕ → Option Response → State
  take_response s i addr now none = s
  take_response s i addr now (some resp) =
      if not (str_eq resp.id myid) then s else respond s i addr now resp.cmd

  unfoldable pub receive : State → ℕ → SocketAddr → ℕ → Recv → State
  receive s i addr now (datagram bytes) =
      take_response s i addr now (parse_from_bytes (take 1500 bytes))
  receive s i addr now (recv_error e) =
      if would_block e then s else record s { failed_servers = set_failed i s.failed_servers }

  -- The loop over the sockets, from the server `i` on.
  unfoldable pub serve : State → ℕ → List SocketAddr → List Bool → Turn → State
  serve s i [] ready turn = s
  serve s i (addr ∷ addrs) [] turn = s
  serve s i (addr ∷ addrs) (false ∷ ready) turn = serve s (suc i) addrs ready turn
  serve s i (addr ∷ addrs) (true ∷ ready) turn =
      serve (receive s i addr (turn.clock i) (turn.recv i)) (suc i) addrs ready turn

  abbrev pub after_poll : State → List SocketAddr → Turn → Polled → State
  after_poll s addrs turn (Polled.err e) = s
  after_poll s addrs turn (Polled.ok ready) = serve s 0 addrs ready turn

  abbrev pub after_pings : State → List SocketAddr → Turn → State
  after_pings s addrs turn = record s {
    ping_times = next_ping_times 0 turn.ticks s.ping_times;
    sent = s.sent ++ pings myid 0 turn.ticks addrs s.ping_times;
  }

  unfoldable pub one_turn : State → List SocketAddr → Turn → State
  one_turn s addrs turn =
      after_poll (after_pings s addrs turn) addrs turn (poll_sockets s.failed_servers turn.result)

  unfoldable pub run : State → List SocketAddr → List Turn → State
  run s addrs [] = s
  run s addrs (turn ∷ turns) = run (one_turn s addrs turn) addrs turns

abbrev pub no_times : ℕ → List (Option ℕ)
no_times zero = []
no_times (suc n) = none ∷ no_times n

-- The state in which the thread starts, with so many servers.
abbrev pub start : ℕ → State
start servers = record {
  ping_times = no_times servers;
  failed_servers = none_of servers;
  last_pong = no_times servers;
  sent = [];
}
