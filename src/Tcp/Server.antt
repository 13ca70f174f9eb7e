-- ===== src/Tcp/Server.antt =====
-- The state of src/tcp/server.rs: the counter, the table of peers that the tasks share, and the tasks,
-- one to a connection; and the interleavings of the tasks' actions as lists of events.
pub mod Routing
pub mod Calls
pub mod Methods
pub mod Table
pub mod Rendezvous
pub mod Names
pub mod Waiting
use rndz.Base.{
  ℕ, ◌+◌, ◌%◌, ◌^◌, String, not, Option, none, some, List, [], ◌∷◌, ◌++◌, length, ltb, ◌==◌,
  if◌then◌else◌,
}
use rndz.Map.{Map, empty, get, insert, remove, get_or}
use rndz.Net.{SocketAddr, AddrText}
use rndz.Proto.{Request, Response}
use rndz.Tcp.Handler.{PeerState, Proc, handle_cmd}

-- A connection's task. `queue` is what its channel holds, the oldest first; `written` are the
-- responses on its stream, the newest last; `addr` is the address of the stream's peer; `running` is
-- what is left of the method that it runs, `ok` between two.
pub record PeerHandler : Type 0 where
  pub peer_id : String
  pub id : ℕ
  pub req_tx : ℕ
  pub addr : SocketAddr
  pub queue : List Request
  pub written : List Response
  pub running : Proc

pub record Server : Type 0 where
  pub count : ℕ
  pub peers : Map PeerState
  pub handlers : ℕ → Option PeerHandler

unfoldable pub new : Server
new = record { count = 0; peers = empty; handlers = λ i. none }

abbrev pub set_handler : Server → ℕ → Option PeerHandler → Server
set_handler s i h = record s { handlers = λ j. if j == i then h else s.handlers j }

-- u64: the counter wraps.
unfoldable pub next_id : Server → ℕ
next_id s = (s.count + 1) % 2 ^ 64

abbrev pub new_handler : ℕ → SocketAddr → PeerHandler
new_handler id addr = record {
  peer_id = "";
  id = id;
  req_tx = id;
  addr = addr;
  queue = [];
  written = [];
  running = Proc.ok;
}

-- A round of the loop of `run`: a stream comes in, and a task is spawned for it.
unfoldable pub accept : Server → SocketAddr → Server
unfolding next_id
accept s addr =
    let id = next_id s in set_handler (record s { count = id }) id (some (new_handler id addr))

-- The table with the entry that is not the handler's own taken out.
abbrev pub evict : Map PeerState → String → ℕ → Option PeerState → Map PeerState
evict peers k id none = peers
evict peers k id (some p) = if not (p.id == id) then remove peers k else peers

-- The critical section of `insert_peerstate`, where the operating system gives the address of the
-- peer: another connection's entry makes room for the handler's own, which is made if it is not
-- there, and gets a new time.
unfoldable pub register : Map PeerState → PeerHandler → String → ℕ → Map PeerState
register peers h k now =
    let kept = evict peers k h.id (get peers k) in
    let fresh : PeerState = record {
      id = h.id;
      last_ping = now;
      req_tx = h.req_tx;
      addr = h.addr;
    } in
    let p = get_or (get kept k) fresh in insert kept k (record p { last_ping = now })

-- The end of `handle_stream`: the handler's entry leaves the table, if it is still its own.
abbrev pub unregister : Map PeerState → String → ℕ → Option PeerState → Map PeerState
unregister peers k id none = peers
unregister peers k id (some p) = if p.id == id then remove peers k else peers

unfoldable pub disconnect : Server → PeerHandler → Server
disconnect s h =
    set_handler (record s { peers = unregister s.peers h.peer_id h.id (get s.peers h.peer_id) })
      h.id none

abbrev pub map_handler : (PeerHandler → PeerHandler) → Option PeerHandler → Option PeerHandler
map_handler f none = none
map_handler f (some h) = some (f h)

abbrev pub update_handler : Server → ℕ → (PeerHandler → PeerHandler) → Server
update_handler s i f = set_handler s i (map_handler f (s.handlers i))

abbrev pub enqueue : Request → PeerHandler → PeerHandler
enqueue req h = record h { queue = h.queue ++ req ∷ [] }

abbrev pub continue : Proc → PeerHandler → PeerHandler
continue p h = record h { running = p }

-- The capacity of a channel: `channel(10)`.
abbrev pub capacity : ℕ
capacity = 10

-- `req_tx.send(req).await`, whose error is ignored: a send into the channel of a task that has ended
-- goes on; a send into a full channel waits, and changes nothing.
unfoldable pub send_to : Server → PeerHandler → ℕ → Request → Proc → Option PeerHandler → Server
send_to s h tx req rest none = update_handler s h.id (continue rest)
send_to s h tx req rest (some target) =
    if ltb (length target.queue) capacity
    then update_handler (update_handler s tx (enqueue req)) h.id (continue rest)
    else s

-- Whatever may happen next: a stream comes in; a request arrives on connection `i`, or its reader
-- makes one up (the Bye of `read_reqs` after a read error); task `i` makes an action at time `now`;
-- its write fails; its reader ends, which ends the task.
pub data Event : Type 0 where
  accepted : SocketAddr → Event
  received : ℕ → Request → Event
  acted : ℕ → ℕ → Event
  broken closed : ℕ → Event

-- `read_reqs` waits while its own channel is full.
abbrev pub receive : Server → Request → Option PeerHandler → Server
receive s req none = s
receive s req (some h) =
    if ltb (length h.queue) capacity then set_handler s h.id (some (enqueue req h)) else s

abbrev pub fail_write : Server → PeerHandler → Proc → Server
fail_write s h (Proc.write r rest) = set_handler s h.id (some (continue Proc.err h))
fail_write s h _ = s

abbrev pub with_handler : Server → (PeerHandler → Server) → Option PeerHandler → Server
with_handler s f none = s
with_handler s f (some h) = f h

module _ (t : AddrText) where
  -- The next request of the queue, if there is one, goes to its handler method.
  unfoldable pub take_request : Server → PeerHandler → List Request → Server
  take_request s h [] = s
  take_request s h (req ∷ rest) =
      set_handler s h.id
        (some (record h { queue = rest; running = handle_cmd t h.addr h.peer_id req.id req.cmd }))

  -- One action of a task: the next one of the method that it runs, or the next request of its queue.
  -- After an `Err` the task ends.
  unfoldable pub act : Server → PeerHandler → ℕ → Proc → Server
  unfolding take_request disconnect register send_to
  act s h now Proc.ok = take_request s h h.queue
  act s h now Proc.err = disconnect s h
  act s h now (Proc.lookup k f) = set_handler s h.id (some (continue (f (get s.peers k)) h))
  act s h now (Proc.insert_peerstate k rest) =
      set_handler (record s { peers = register s.peers h k now }) h.id
        (some (record h { peer_id = k; running = rest }))
  act s h now (Proc.send tx req rest) = send_to s h tx req rest (s.handlers tx)
  act s h now (Proc.write r rest) =
      set_handler s h.id (some (record h { written = h.written ++ r ∷ []; running = rest }))

  unfoldable pub step : Server → Event → Server
  unfolding accept act disconnect
  step s (accepted addr) = accept s addr
  step s (received i req) = receive s req (s.handlers i)
  step s (acted i now) = with_handler s (λ h. act s h now h.running) (s.handlers i)
  step s (broken i) = with_handler s (λ h. fail_write s h h.running) (s.handlers i)
  step s (closed i) = with_handler s (disconnect s) (s.handlers i)

  -- Any interleaving of the tasks is a list of events.
  unfoldable pub run : Server → List Event → Server
  unfolding step
  run s [] = s
  run s (e ∷ es) = run (step s e) es
