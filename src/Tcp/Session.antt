-- ===== src/Tcp/Session.antt =====
-- A client of src/tcp/client.rs after `listen`: the thread of `listen`, and for each connection
-- with the server its two loops, the thread that joins them and the thread that shuts the
-- connection down.
pub mod Shows
pub mod Working
pub mod Refines
pub mod Dead
pub mod Fatal
pub mod Reconnects
use rndz.Base.{
  ℕ, zero, suc, String, Bool, true, false, Option, none, some, List, [], ◌∷◌, ◌++◌, if◌then◌else◌,
}
use rndz.Net.{SocketAddr}
use rndz.Tcp.Link.{Reader, reading, returned, panicked, sending, Writer, waiting, over, writing}
use rndz.Tcp.Link
use rndz.Tcp.Signal.{
  Listening, at_head, connecting, retrying, resting, rested, woken, Loops, running, ended, told,
  crashed, Closer, starting, State, notified, rouse, timed_out, spurious, listen_step, close_link,
  loops_at,
}
use rndz.Tcp.Signal

-- A connection; `joined` is set when the joining thread has told that both loops have ended.
pub record Connection : Type 0 where
  pub link : Link.Link
  pub joined : Bool
  pub closer : Closer
  pub shut : Bool

pub record Session : Type 0 where
  pub exit : Bool
  pub broken : Bool
  pub listening : Listening
  pub connections : List Connection

abbrev pub new_connection : Connection
new_connection = record { link = Link.start; joined = false; closer = starting; shut = false }

abbrev pub start : Session
start = record {
  exit = false;
  broken = false;
  listening = at_head;
  connections = new_connection ∷ [];
}

-- What joining the two threads gives: it waits for the write loop first, and it panics by the `unwrap`
-- of a thread that has panicked.
abbrev pub loops_of : Reader → Writer → Loops
loops_of returned over = ended
loops_of panicked over = crashed
loops_of reading over = running
loops_of (sending c) over = running
loops_of r waiting = running
loops_of r (writing c) = running

abbrev pub seen_loops : Bool → Loops → Loops
seen_loops true loops = told
seen_loops false loops = loops

-- A connection, and the client, as the threads that share `signal` see them.
abbrev pub shown : Connection → Signal.Link
shown c = record {
  loops = seen_loops c.joined (loops_of c.link.reader c.link.writer);
  closer = c.closer;
  shut = c.shut;
}

unfoldable pub all_shown : List Connection → List Signal.Link
all_shown [] = []
all_shown (c ∷ cs) = shown c ∷ all_shown cs

abbrev pub shows : Session → State
shows s = record {
  exit = s.exit;
  broken = s.broken;
  listening = s.listening;
  links = all_shown s.connections;
}

-- What may happen: as in `Tcp.Signal`, but that a loop does one step of its own.
pub data Event : Type 0 where
  listens : Bool → Event
  times_out wakes_up shuts_down : Event
  tells closes stirs : ℕ → Event
  works : ℕ → Link.Event → Event

abbrev pub rouse_connection : Connection → Connection
rouse_connection c = record c { closer = rouse c.closer }

unfoldable pub rouse_connections : List Connection → List Connection
rouse_connections [] = []
rouse_connections (c ∷ cs) = rouse_connection c ∷ rouse_connections cs

-- `cvar.notify_all()`
abbrev pub notify_connections : Session → Session
notify_connections s = record s {
  listening = notified s.listening;
  connections = rouse_connections s.connections;
}

-- A change of the connection at an index.
unfoldable pub at_connection : (Connection → Connection) → ℕ → List Connection → List Connection
at_connection f i [] = []
at_connection f zero (c ∷ cs) = f c ∷ cs
at_connection f (suc i) (c ∷ cs) = c ∷ at_connection f i cs

-- `start_background` adds a connection when it succeeds.
abbrev pub connections_after : Session → Bool → Listening → List Connection
connections_after s true connecting = s.connections ++ new_connection ∷ []
connections_after s false connecting = s.connections
connections_after s success at_head = s.connections
connections_after s success Listening.waiting = s.connections
connections_after s success woken = s.connections
connections_after s success retrying = s.connections
connections_after s success resting = s.connections
connections_after s success rested = s.connections
connections_after s success Listening.returned = s.connections
connections_after s success Listening.panicked = s.connections

-- The thread of `listen` goes on from where it stands; it sees nothing of the loops.
abbrev pub gone_on : Session → Bool → Listening → Session
gone_on s success l =
    let t = listen_step (shows s) success l in
    record {
      exit = t.exit;
      broken = t.broken;
      listening = t.listening;
      connections = connections_after s success l;
    }

abbrev pub go_on : Session → Bool → Session
go_on s success = gone_on s success s.listening

-- The joining thread tells once, when both threads have been joined.
abbrev pub tell_joined : Session → ℕ → Option Loops → Session
tell_joined s i (some ended) = notify_connections (record s {
  broken = true;
  connections = at_connection (λ c. record c { joined = true }) i s.connections;
})
tell_joined s i (some running) = s
tell_joined s i (some told) = s
tell_joined s i (some crashed) = s
tell_joined s i none = s

abbrev pub close_connection : Bool → Connection → Connection
close_connection exit c =
    let k = close_link exit (shown c) in record c { closer = k.closer; shut = k.shut }

module _ (id : String) (parse_addr : String → Option SocketAddr) where
  abbrev pub work : Link.Event → Connection → Connection
  work e c = record c { link = Link.step Link.blocking id parse_addr c.link e }

  unfoldable pub step : Session → Event → Session
  step s (listens success) = go_on s success
  step s times_out = record s { listening = timed_out s.listening }
  step s wakes_up = record s { listening = spurious s.listening }
  step s shuts_down = notify_connections (record s { exit = true })
  step s (tells i) = tell_joined s i (loops_at i (all_shown s.connections))
  step s (closes i) = record s {
    connections = at_connection (close_connection s.exit) i s.connections;
  }
  step s (stirs i) = record s { connections = at_connection rouse_connection i s.connections }
  step s (works i e) = record s { connections = at_connection (work e) i s.connections }

  unfoldable pub run : Session → List Event → Session
  unfolding step
  run s [] = s
  run s (e ∷ es) = run (step s e) es
