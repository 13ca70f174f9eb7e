-- ===== src/Udp/Client.antt =====
-- `Connector::connect` and `poll_sockets` of src/udp/client.rs. A socket is its index among those
-- of the servers. What the operating system does is an argument: the outcome of each poll, what
-- each `recv` gives, and whether the socket for the peer can be opened.
pub mod Polling
pub mod Connecting
pub mod Answers
use rndz.Base.{
  ℕ, zero, suc, String, Bool, true, false, not, Option, none, some, List, [], ◌∷◌, ◌++◌, ◌&&◌,
  str_eq, if◌then◌else◌, length, take,
}
use rndz.Net.{SocketAddr}
use rndz.Proto.{RespCmd, Response}

-- Why a connection fails, or that it panics; an error of the system bears its number.
pub data Error : Type 0 where
  target_not_found no_response panicked : Error
  os_error : ℕ → Error

-- `ready` at each socket, from the events of the polled ones: those that have not failed, in order.
-- An event tells whether there is something to read.
unfoldable pub scatter : List Bool → List Bool → List Bool
scatter [] events = []
scatter (true ∷ failed) events = false ∷ scatter failed events
scatter (false ∷ failed) [] = false ∷ scatter failed []
scatter (false ∷ failed) (event ∷ events) = event ∷ scatter failed events

-- What `poll` gives: an error, the time-out, or the events.
pub data PollResult : Type 0 where
  poll_error : ℕ → PollResult
  timed_out : PollResult
  polled : List Bool → PollResult

-- `vec![false; n]`
abbrev pub none_of : ℕ → List Bool
none_of zero = []
none_of (suc n) = false ∷ none_of n

abbrev pub all_failed : List Bool → Bool
all_failed [] = true
all_failed (f ∷ failed) = f && all_failed failed

pub data Polled : Type 0 where
  err : Error → Polled
  ok : List Bool → Polled

abbrev pub polled_by : List Bool → PollResult → Polled
polled_by failed (poll_error e) = Polled.err (os_error e)
polled_by failed timed_out = Polled.ok (none_of (length failed))
polled_by failed (polled events) = Polled.ok (scatter failed events)

-- If every server has failed, nothing is polled.
unfoldable pub poll_sockets : List Bool → PollResult → Polled
poll_sockets failed result =
    if all_failed failed then Polled.ok (none_of (length failed)) else polled_by failed result

-- `recv` on a socket.
pub data Recv : Type 0 where
  recv_error : ℕ → Recv
  datagram : List ℕ → Recv

-- What `connect` keeps across its rounds, and the sockets on which it has sent its request.
pub record Search : Type 0 where
  pub failed_servers : List Bool
  pub last_error : Option Error
  pub sent : List ℕ

-- How `connect` ends: with a socket connected to this address, bound where the socket of this index
-- is, or with an error.
pub data Outcome : Type 0 where
  connected : ℕ → SocketAddr → Outcome
  failed_with : Error → Outcome

-- A step goes on, or `connect` returns.
pub data Step : Type 0 where
  goes_on : Search → Step
  returns : Outcome → Step

abbrev pub then_step : Step → (Search → Step) → Step
then_step (returns o) next = returns o
then_step (goes_on s) next = next s

abbrev pub set_failed : ℕ → List Bool → List Bool
set_failed i [] = []
set_failed zero (f ∷ failed) = true ∷ failed
set_failed (suc i) (f ∷ failed) = f ∷ set_failed i failed

abbrev pub live_from : ℕ → List Bool → List ℕ
live_from i [] = []
live_from i (true ∷ failed) = live_from (suc i) failed
live_from i (false ∷ failed) = i ∷ live_from (suc i) failed

-- The sends at the start of a round.
unfoldable pub send_isync : Search → Search
send_isync s = record s { sent = s.sent ++ live_from 0 s.failed_servers }

-- `last_error.unwrap_or_else(...)`
abbrev pub give_up : Option Error → Outcome
give_up none = failed_with no_response
give_up (some e) = failed_with e

-- A loop's `break` when every server has failed, and a round's on an error of the poll.
abbrev pub unless : Bool → Search → Step → Step
unless true s step = goes_on s
unless false s step = step

abbrev pub unless_failed : Search → Step → Step
unless_failed s step = unless (all_failed s.failed_servers) s step

abbrev pub after_poll : Search → Polled → (List Bool → Step) → Step
after_poll s (Polled.err e) next = goes_on (record s { last_error = some e })
after_poll s (Polled.ok r) next = next r

abbrev pub ended : Step → Outcome
ended (returns o) = o
ended (goes_on s) = give_up s.last_error

abbrev pub start : ℕ → Search
start servers = record { failed_servers = none_of servers; last_error = none; sent = [] }

-- One poll: its result, and what the sockets hold if they are read after it.
pub record Poll : Type 0 where
  pub result : PollResult
  pub recv : ℕ → Recv

-- The client's name; the parsers of responses and of addresses; and the error or the panic, if any,
-- of opening a socket where that of an index is bound and connecting it to an address.
module _ (id : String) (parse_from_bytes : List ℕ → Option Response)
    (parse_addr : String → Option SocketAddr) (open_peer : ℕ → SocketAddr → Option Error) where
  abbrev pub opened : ℕ → SocketAddr → Option Error → Outcome
  opened i addr none = connected i addr
  opened i addr (some e) = failed_with e

  abbrev pub redirected : Search → ℕ → Option SocketAddr → Step
  redirected s i none = goes_on s
  redirected s i (some addr) = returns (opened i addr (open_peer i addr))

  -- A response under the client's name: only a Redirect means anything; without an address it says
  -- that the server does not know the target.
  abbrev pub answered : Search → ℕ → Option RespCmd → Step
  answered s i (some (RespCmd.redirect rdr)) =
      if str_eq rdr.addr ""
      then goes_on (record s {
        failed_servers = set_failed i s.failed_servers;
        last_error = some target_not_found;
      })
      else redirected s i (parse_addr rdr.addr)
  answered s i (some RespCmd.pong) = goes_on s
  answered s i (some (RespCmd.fsync f)) = goes_on s
  answered s i none = goes_on s

  abbrev pub parsed : Search → ℕ → Option Response → Step
  parsed s i none = goes_on s
  parsed s i (some resp) = if not (str_eq resp.id id) then goes_on s else answered s i resp.cmd

  unfoldable pub receive : Search → ℕ → Recv → Step
  receive s i (recv_error e) = goes_on (record s { last_error = some (os_error e) })
  receive s i (datagram bytes) = parsed s i (parse_from_bytes (take 1500 bytes))

  -- The loop over the sockets after a poll, from the index `i` on.
  unfoldable pub serve : Search → ℕ → List Bool → (ℕ → Recv) → Step
  unfolding receive
  serve s i [] recv = goes_on s
  serve s i (false ∷ ready) recv = serve s (suc i) ready recv
  serve s i (true ∷ ready) recv = then_step (receive s i (recv i)) λ s'. serve s' (suc i) ready recv

  -- The polls of a round, as many as its five seconds take.
  unfoldable pub round : Search → List Poll → Step
  unfolding serve poll_sockets
  round s [] = goes_on s
  round s (p ∷ polls) = unless_failed s (
      after_poll s (poll_sockets s.failed_servers p.result)
        λ r. then_step (serve s 0 r p.recv) λ s'. round s' polls)

  -- `n` more rounds; round `n` sees the polls `polls n`.
  unfoldable pub rounds : ℕ → Search → (ℕ → List Poll) → Step
  unfolding round send_isync
  rounds zero s polls = goes_on s
  rounds (suc n) s polls =
      unless_failed s (then_step (round (send_isync s) (polls n)) λ s'. rounds n s' polls)

  -- `connect` with the sockets of so many servers.
  unfoldable pub connect : ℕ → (ℕ → List Poll) → Outcome
  unfolding rounds
  connect servers polls = ended (rounds 3 (start servers) polls)
