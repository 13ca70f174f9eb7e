-- ===== src/Udp/Server.antt =====
-- src/udp/server.rs: the UDP rendezvous server. A handler takes the clock reading of its
-- `Instant::now()` as an argument; times are in milliseconds. The socket is the list of the
-- datagrams sent, the newest last, as `send_to` reports its failure to nobody.
pub mod Directory
pub mod Replies
pub mod Expiry
pub mod Rendezvous
pub mod History
use rndz.Base.{
  ℕ, ◌+◌, String, Bool, Option, none, some, List, [], ◌∷◌, ◌++◌, ltb, take, if◌then◌else◌,
}
use rndz.Map.{Map, empty, get, insert, remove, get_or, retain}
use rndz.Net.{SocketAddr, v4, AddrText}
use rndz.Proto.{
  Isync, Redirect, Fsync, Rsync, ReqCmd, Request, RespCmd, Response, new_response, new_redirect,
}

pub record Client : Type 0 where
  pub addr : SocketAddr
  pub last_ping : ℕ

abbrev pub default_client : ℕ → Client
default_client now = record { addr = v4 0 0; last_ping = now }

pub record Server : Type 0 where
  pub clients : Map Client
  pub next_gc : ℕ
  pub sent : List (SocketAddr × Response)

-- Duration::from_secs(60)
abbrev pub minute : ℕ
minute = 60000

abbrev pub next_gc_at : ℕ → ℕ
next_gc_at now = now + minute

-- The fields that `Server::new` sets; the socket has sent nothing.
unfoldable pub new : ℕ → Server
new now = record { clients = empty; next_gc = next_gc_at now; sent = [] }

abbrev pub send_response : Server → RespCmd → String → SocketAddr → Server
send_response s cmd id addr = record s {
  sent = s.sent ++ (addr, record new_response { id = id; cmd = some cmd }) ∷ [];
}

-- `entry(id).or_default()`, and the writes through the reference that it gives.
abbrev pub touch : Server → String → SocketAddr → ℕ → Server
touch s id addr now =
    let c = get_or (get s.clients id) (default_client now) in
    record s { clients = insert s.clients id (record c { last_ping = now; addr = addr }) }

unfoldable pub handle_ping : Server → String → SocketAddr → ℕ → Server
handle_ping s id addr now = send_response (touch s id addr now) RespCmd.pong id addr

unfoldable pub handle_bye : Server → String → Server
handle_bye s id = record s { clients = remove s.clients id }

-- `expire < c.last_ping`, where `expire` is a minute before `now`: the subtraction of the instants
-- stands as an addition on the other side.
abbrev pub not_expired : ℕ → Client → Bool
not_expired now c = ltb now (c.last_ping + minute)

-- The two clock readings are those of `expire` and of `Self::next_gc()`.
unfoldable pub gc : Server → ℕ → ℕ → Server
gc s now later = record s {
  clients = retain (not_expired now) s.clients;
  next_gc = next_gc_at later;
}

-- The clock readings of one turn of the loop of `run`, in the order in which it takes them: in the
-- handler, at the test of `next_gc`, and the two in `gc`.
pub record Reads : Type 0 where
  pub handled : ℕ
  pub checked : ℕ
  pub expiring : ℕ
  pub renewed : ℕ

-- The second half of a turn of the loop.
unfoldable pub collect : Server → Reads → Server
collect s reads = if ltb s.next_gc reads.checked then gc s reads.expiring reads.renewed else s

-- What `recv_from` gives: bytes and their sender, or `none` on an error or on the time-out.
abbrev pub Received : Type 0
Received = Option (List ℕ × SocketAddr)

abbrev pub came_from : SocketAddr → Option Request → Option (Request × SocketAddr)
came_from addr none = none
came_from addr (some req) = some (req, addr)

-- The parser of requests, `Request::parse_from_bytes`, is an argument. `recv_from` fills at most
-- the 1500 bytes of the buffer.
module _ (parse_from_bytes : List ℕ → Option Request) where
  abbrev pub incoming : Received → Option (Request × SocketAddr)
  incoming none = none
  incoming (some (bytes, addr)) = came_from addr (parse_from_bytes (take 1500 bytes))

module _ (t : AddrText) where
  open t use {to_string}

  unfoldable pub handle_isync : Server → String → Isync → SocketAddr → ℕ → Server
  handle_isync s id isync addr now = elim (get s.clients isync.id) [
    | some target ↦
        send_response (touch s id addr now)
          (RespCmd.fsync (record { id = id; addr = to_string addr })) isync.id target.addr
    | none ↦ send_response s (RespCmd.redirect (record new_redirect { id = isync.id })) id addr
  ]

  unfoldable pub handle_rsync : Server → String → Rsync → SocketAddr → Server
  handle_rsync s id rsync addr = elim (get s.clients rsync.id) [
    | some c ↦
        send_response s (RespCmd.redirect (record { id = id; addr = to_string addr })) rsync.id
          c.addr
    | none ↦ s
  ]

  dispatch : Server → String → Option ReqCmd → SocketAddr → ℕ → Server
  dispatch s id (some ReqCmd.ping) addr now = handle_ping s id addr now
  dispatch s id (some (ReqCmd.isync isync)) addr now = handle_isync s id isync addr now
  dispatch s id (some (ReqCmd.rsync rsync)) addr now = handle_rsync s id rsync addr
  dispatch s id (some ReqCmd.bye) addr now = handle_bye s id
  dispatch s id (some (ReqCmd.fsync _)) addr now = s
  dispatch s id none addr now = s

  unfoldable pub handle_request : Server → Request → SocketAddr → ℕ → Server
  unfolding dispatch
  handle_request s req addr now = dispatch s req.id req.cmd addr now

  abbrev pub handle_incoming : Server → Option (Request × SocketAddr) → ℕ → Server
  handle_incoming s none now = s
  handle_incoming s (some (req, addr)) now = handle_request s req addr now

  -- One turn of the loop of `run`.
  unfoldable pub turn : Server → Option (Request × SocketAddr) → Reads → Server
  unfolding collect
  turn s input reads = collect (handle_incoming s input reads.handled) reads

  -- `run` never returns: a finite number of its turns, each with what it receives.
  unfoldable pub run : (List ℕ → Option Request) → Server → List (Received × Reads) → Server
  unfolding turn
  run parse_from_bytes s [] = s
  run parse_from_bytes s ((received, reads) ∷ rest) =
      run parse_from_bytes (turn s (incoming parse_from_bytes received) reads) rest
