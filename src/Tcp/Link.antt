-- ===== src/Tcp/Link.antt =====
-- One connection of a TCP client with the server: its write loop and its read loop and the channel
-- between them, two threads in src/tcp/client.rs and two tasks in src/tcp/client_async.rs. A step
-- is what a thread does from one wait to the next; an interleaving is a list of events.
pub mod Pending
pub mod Reading
pub mod Order
pub mod Ends
use rndz.Base.{
  ℕ, suc, String, Bool, true, false, Option, none, some, List, [], ◌∷◌, ◌++◌, length, ltb,
  if◌then◌else◌,
}
use rndz.Net.{SocketAddr}
use rndz.Proto.{ReqCmd, Request, RespCmd, Response, request}

-- The read loop waits for a response, or for room in the channel, with a command in its hand; it has
-- returned, or its thread has panicked, and its end of the channel is gone.
pub data Reader : Type 0 where
  reading returned panicked : Reader
  sending : ReqCmd → Reader

-- The write loop waits for a command, writes one, or has ended, and its end of the channel is gone.
pub data Writer : Type 0 where
  waiting over : Writer
  writing : ReqCmd → Writer

-- `received` are the responses that have been read from the stream, `sent` the requests that have been
-- written to it, each with the newest last.
pub record Link : Type 0 where
  pub reader : Reader
  pub writer : Writer
  pub queue : List ReqCmd
  pub received : List Response
  pub sent : List Request

-- sync_channel(10)
abbrev pub bound : ℕ
bound = 10

-- `start_background` sends a Ping into the channel before it starts the threads.
abbrev pub start : Link
start = record {
  reader = reading;
  writer = waiting;
  queue = ReqCmd.ping ∷ [];
  received = [];
  sent = [];
}

-- The client of src/tcp/client.rs, and that of src/tcp/client_async.rs.
pub data Kind : Type 0 where
  blocking asynchronous : Kind

-- How the read loop ends when an address cannot be read, or the channel is closed: a thread unwraps the
-- error, a task just ends.
abbrev pub failure : Kind → Reader
failure blocking = panicked
failure asynchronous = returned

-- What may happen: the reader gets a response, or the stream ends for it; the reader sends what is
-- in its hand; the writer goes on, where a write succeeds or not; its wait for a command times out;
-- a loop takes the branch of the exit, which a blocking one has not.
pub data Event : Type 0 where
  gets : Response → Event
  stream_ends sends times_out exits_reading exits_writing : Event
  writes : Bool → Event

-- Whether an end of the channel is gone.
abbrev pub reader_gone : Reader → Bool
reader_gone reading = false
reader_gone (sending cmd) = false
reader_gone returned = true
reader_gone panicked = true

abbrev pub end_stream : Reader → Reader
end_stream reading = returned
end_stream (sending cmd) = sending cmd
end_stream returned = returned
end_stream panicked = panicked

abbrev pub exit_reading : Kind → Reader → Reader
exit_reading blocking r = r
exit_reading asynchronous r = end_stream r

abbrev pub exit_writing : Kind → Writer → Writer
exit_writing blocking w = w
exit_writing asynchronous waiting = over
exit_writing asynchronous (writing cmd) = writing cmd
exit_writing asynchronous over = over

-- A time-out of `recv_timeout` comes when there is nothing to receive, and somebody to receive it from;
-- a `select!` with several branches ready takes any of them.
abbrev pub ping_if_idle : Kind → Link → List ReqCmd → Link
ping_if_idle asynchronous l queue = record l { writer = writing ReqCmd.ping }
ping_if_idle blocking l [] =
    if reader_gone l.reader then l else record l { writer = writing ReqCmd.ping }
ping_if_idle blocking l (cmd ∷ rest) = l

-- The kind of client, its name, and the parser of addresses.
module _ (kind : Kind) (id : String) (parse_addr : String → Option SocketAddr) where
  abbrev pub answer_fsync : String → Option SocketAddr → Reader
  answer_fsync peer none = failure kind
  answer_fsync peer (some dst_addr) = sending (ReqCmd.rsync (record { id = peer }))

  abbrev pub answer : Option RespCmd → Reader
  answer (some RespCmd.pong) = reading
  answer (some (RespCmd.fsync f)) = answer_fsync f.id (parse_addr f.addr)
  answer (some (RespCmd.redirect r)) = reading
  answer none = reading

  abbrev pub get_response : Link → Response → Reader → Link
  get_response l resp reading = record l {
    reader = answer resp.cmd;
    received = l.received ++ resp ∷ [];
  }
  get_response l resp (sending cmd) = l
  get_response l resp returned = l
  get_response l resp panicked = l

  abbrev pub put : Link → ReqCmd → Link
  put l cmd =
      if ltb (length l.queue) bound
      then record l { reader = reading; queue = l.queue ++ cmd ∷ [] }
      else l

  -- `tx.send(req)`, which waits while the channel is full.
  abbrev pub send_by : Link → ReqCmd → Writer → Link
  send_by l cmd waiting = put l cmd
  send_by l cmd (writing other) = put l cmd
  send_by l cmd over = record l { reader = failure kind }

  abbrev pub send : Link → Reader → Link
  send l reading = l
  send l (sending cmd) = send_by l cmd l.writer
  send l returned = l
  send l panicked = l

  -- `recv_timeout`, but for its time-out.
  abbrev pub take_command : Link → List ReqCmd → Link
  take_command l [] = if reader_gone l.reader then record l { writer = over } else l
  take_command l (cmd ∷ rest) = record l { writer = writing cmd; queue = rest }

  abbrev pub write : Link → Bool → Writer → Link
  write l success waiting = take_command l l.queue
  write l success (writing cmd) =
      if success
      then record l { writer = waiting; sent = l.sent ++ request id cmd ∷ [] }
      else record l { writer = over }
  write l success over = l

  abbrev pub time_out : Link → Writer → Link
  time_out l waiting = ping_if_idle kind l l.queue
  time_out l (writing cmd) = l
  time_out l over = l

  unfoldable pub step : Link → Event → Link
  step l (gets resp) = get_response l resp l.reader
  step l stream_ends = record l { reader = end_stream l.reader }
  step l sends = send l l.reader
  step l (writes success) = write l success l.writer
  step l times_out = time_out l l.writer
  step l exits_reading = record l { reader = exit_reading kind l.reader }
  step l exits_writing = record l { writer = exit_writing kind l.writer }

  unfoldable pub run : Link → List Event → Link
  unfolding step
  run l [] = l
  run l (e ∷ es) = run (step l e) es
