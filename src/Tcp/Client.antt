-- ===== src/Tcp/Client.antt =====
-- The TCP clients: `connect`, the write loop and the read loop of src/tcp/client.rs, and the read
-- loop of src/tcp/client_async.rs. A stream is the list of the bytes that it still holds; what the
-- operating system answers is an argument.
pub mod Connecting
pub mod Loops
pub mod Replies
use rndz.Base.{
  ℕ, zero, suc, String, Bool, true, false, Option, none, some, List, [], ◌∷◌, ◌++◌, map,
  if◌then◌else◌,
}
use rndz.Net.{SocketAddr, v4, v6}
use rndz.Proto.{ReqCmd, Request, RespCmd, Response, request}
use rndz.Tcp.Frame.{frame, read_resp}
use rndz.Tcp.Frame

pub data Error : Type 0 where
  resolve_fail invalid_server_response target_id_not_found panicked : Error
  os_error : ℕ → Error
  read_error : Frame.Error → Error

pub data Result (A : Type 0) : Type 0 where
  err : Error → Result A
  ok : A → Result A

-- `?`
abbrev pub try : {A B : Type 0} → Result A → (A → Result B) → Result B
try (err e) next = err e
try (ok a) next = next a

-- `unwrap`
abbrev pub unwrap : {A : Type 0} → Result A → Result A
unwrap (err e) = err panicked
unwrap (ok a) = ok a

abbrev pub first_of : List SocketAddr → Result SocketAddr
first_of [] = err resolve_fail
first_of (a ∷ addrs) = ok a

-- "0.0.0.0:0" or "[::]:0"
abbrev pub unspecified : SocketAddr → SocketAddr
unspecified (v4 ip port) = v4 0 0
unspecified (v6 ip port flowinfo scope_id) = v6 0 0 0 0

abbrev pub read_by : {A B : Type 0} → Frame.Result A → (A → Result B) → Result B
read_by (Frame.err e) next = err (read_error e)
read_by (Frame.ok a) next = next a

-- The address in the server's first response.
abbrev pub redirect_addr : Option RespCmd → Result String
redirect_addr (some (RespCmd.redirect rdr)) = ok rdr.addr
redirect_addr (some RespCmd.pong) = err invalid_server_response
redirect_addr (some (RespCmd.fsync f)) = err invalid_server_response
redirect_addr none = err invalid_server_response

abbrev pub target_of : Option SocketAddr → Result SocketAddr
target_of none = err target_id_not_found
target_of (some addr) = ok addr

-- What `write_req` writes.
module _ (write_to_bytes : Request → List ℕ) where
  abbrev pub write_req : String → ReqCmd → List ℕ
  write_req id cmd = frame (write_to_bytes (request id cmd))

-- What the operating system answers: the addresses of a name, whether a socket can be made, whether
-- its options can be set, whether it can be bound, the address that it has when it is connected,
-- and whether a write succeeds.
pub record Os : Type 0 where
  pub resolve : String → Result (List SocketAddr)
  pub new_socket : Result (Unit {0})
  pub set_reuse_address : Result (Unit {0})
  pub set_reuse_port : Result (Unit {0})
  pub bind_to : SocketAddr → Result (Unit {0})
  pub connect_to : SocketAddr → SocketAddr → Result SocketAddr
  pub write_all : Result (Unit {0})

module _ (os : Os) where
  open os use {
    resolve, new_socket, set_reuse_address, set_reuse_port, bind_to, connect_to, write_all,
  }

  -- `bind`, on unix.
  abbrev pub bind : SocketAddr → Result (Unit {0})
  bind local_addr =
      try (unwrap new_socket)
        λ _. try set_reuse_address λ _. try set_reuse_port λ _. bind_to local_addr

  -- `bind` of src/tcp/client_async.rs, which does not panic.
  abbrev pub bind_async : SocketAddr → Result (Unit {0})
  bind_async local_addr =
      try new_socket λ _. try set_reuse_address λ _. try set_reuse_port λ _. bind_to local_addr

  unfoldable pub choose_bind_addr : Option SocketAddr → String → Result SocketAddr
  choose_bind_addr (some addr) server_addr = ok addr
  choose_bind_addr none server_addr =
      try (resolve server_addr) λ addrs. try (first_of addrs) λ server. ok (unspecified server)

  unfoldable pub connect_server : SocketAddr → String → Result SocketAddr
  connect_server local_addr server_addr = try (bind local_addr) λ _.
      try (resolve server_addr) λ addrs. try (first_of addrs) λ server. connect_to local_addr server

  unfoldable pub connect_server_async : SocketAddr → String → Result SocketAddr
  connect_server_async local_addr server_addr = try (bind_async local_addr) λ _.
      try (resolve server_addr) λ addrs. try (first_of addrs) λ server. connect_to local_addr server

  -- `connect` of src/tcp/client.rs, when the server's end of the stream holds these bytes: the
  -- addresses of the two ends of the connection with the peer.
  module _ (parse_from_bytes : List ℕ → Option Response)
      (parse_addr : String → Option SocketAddr) where
    abbrev pub connect_peer : SocketAddr → SocketAddr → Result (SocketAddr × SocketAddr)
    connect_peer local_addr target =
        try (bind local_addr) λ _. try (connect_to local_addr target) λ addr. ok (addr, target)

    abbrev pub follow : SocketAddr → Response → Result (SocketAddr × SocketAddr)
    follow local_addr resp =
        try (redirect_addr resp.cmd)
          λ addr. try (target_of (parse_addr addr)) λ target. connect_peer local_addr target

    unfoldable pub connect : Option SocketAddr → String → List ℕ → Result (SocketAddr × SocketAddr)
    unfolding choose_bind_addr connect_server
    connect local server_addr stream = try (choose_bind_addr local server_addr) λ bind_addr.
        try (connect_server bind_addr server_addr) λ local_addr.
          try write_all λ _. read_by (read_resp parse_from_bytes stream) λ r. follow local_addr r.0

    -- `connect` of src/tcp/client_async.rs: the address of the connection with the server is read
    -- before anything is written.
    abbrev pub follow_async : SocketAddr → Response → Result (SocketAddr × SocketAddr)
    follow_async local_addr resp = elim resp.cmd [
      | some (RespCmd.redirect rdr) ↦ try (target_of (parse_addr rdr.addr)) λ target.
          try (bind_async local_addr)
            λ _. try (connect_to local_addr target) λ addr. ok (addr, target)
      | _ ↦ err invalid_server_response
    ]

    unfoldable pub connect_async :
        Option SocketAddr → String → List ℕ → Result (SocketAddr × SocketAddr)
    unfolding choose_bind_addr connect_server_async
    connect_async local server_addr stream = try (choose_bind_addr local server_addr) λ bind_addr.
        try (connect_server_async bind_addr server_addr) λ local_addr.
          try write_all
            λ _. read_by (read_resp parse_from_bytes stream) λ r. follow_async local_addr r.0

-- What `recv_timeout` gives.
pub data Received : Type 0 where
  got : ReqCmd → Received
  timed_out disconnected : Received

-- The write loop, for what the channel gives, each with whether its write succeeds: the requests
-- that it has written. After a write that fails, or when the channel is closed, it ends.
unfoldable pub write_loop : String → List (Received × Bool) → List Request
write_loop id [] = []
write_loop id ((disconnected, _) ∷ rest) = []
write_loop id ((got cmd, false) ∷ rest) = []
write_loop id ((got cmd, true) ∷ rest) = request id cmd ∷ write_loop id rest
write_loop id ((timed_out, false) ∷ rest) = []
write_loop id ((timed_out, true) ∷ rest) = request id ReqCmd.ping ∷ write_loop id rest

-- How a read loop of src/tcp/client.rs ends: by the end of the stream, or by the `?` on an address that
-- cannot be read.
pub data End : Type 0 where
  stream_over invalid_fsync_addr : End

module _ (parse_from_bytes : List ℕ → Option Response)
    (parse_addr : String → Option SocketAddr) where
  abbrev pub and_send : ReqCmd → Option (List ReqCmd × End) → Option (List ReqCmd × End)
  and_send req none = none
  and_send req (some (reqs, end)) = some (req ∷ reqs, end)

  -- What a round of the loop does with a response, given the rounds after it.
  abbrev pub on_fsync :
      String → Option SocketAddr → Option (List ReqCmd × End) → Option (List ReqCmd × End)
  on_fsync id none rest = some ([], invalid_fsync_addr)
  on_fsync id (some dst_addr) rest = and_send (ReqCmd.rsync (record { id = id })) rest

  abbrev pub on_response : Option RespCmd → Option (List ReqCmd × End) → Option (List ReqCmd × End)
  on_response (some RespCmd.pong) rest = rest
  on_response (some (RespCmd.fsync f)) rest = on_fsync f.id (parse_addr f.addr) rest
  on_response (some (RespCmd.redirect r)) rest = rest
  on_response none rest = rest

  -- The read loop of src/tcp/client.rs: the commands that it sends to the write loop, while that takes
  -- them. `none` means that the fuel ran out. The attempt to connect to the peer opens the way for it
  -- and has no result that counts.
  unfoldable pub read_loop : ℕ → List ℕ → Option (List ReqCmd × End)
  read_loop zero stream = none
  read_loop (suc fuel) stream = elim (read_resp parse_from_bytes stream) [
    | Frame.ok (resp, rest) ↦ on_response resp.cmd (read_loop fuel rest)
    | Frame.err e ↦ some ([], stream_over)
  ]

-- `handle_resp` of src/tcp/client_async.rs, after the response has been read.
pub data Handled : Type 0 where
  nothing failed : Handled
  answer : ReqCmd → Handled

module _ (parse_from_bytes : List ℕ → Option Response)
    (parse_addr : String → Option SocketAddr) where
  abbrev pub handle_fsync : String → Option SocketAddr → Handled
  handle_fsync id none = failed
  handle_fsync id (some dst_addr) = answer (ReqCmd.rsync (record { id = id }))

  abbrev pub handle_cmd : Option RespCmd → Handled
  handle_cmd (some RespCmd.pong) = nothing
  handle_cmd (some (RespCmd.fsync f)) = handle_fsync f.id (parse_addr f.addr)
  handle_cmd (some (RespCmd.redirect r)) = nothing
  handle_cmd none = nothing

  -- What is left of the stream is of no use after a failure.
  abbrev pub handled : Frame.Result (Response × List ℕ) → Handled × List ℕ
  handled (Frame.ok (resp, rest)) = (handle_cmd resp.cmd, rest)
  handled (Frame.err e) = (failed, [])

  unfoldable pub handle_resp : List ℕ → Handled × List ℕ
  handle_resp stream = handled (read_resp parse_from_bytes stream)

  abbrev pub send_answer : ReqCmd → Option (List ReqCmd) → Option (List ReqCmd)
  send_answer req none = none
  send_answer req (some reqs) = some (req ∷ reqs)

  -- The read loop of src/tcp/client_async.rs, if no exit is notified and the channel stays open.
  abbrev pub go_on : Handled → Option (List ReqCmd) → Option (List ReqCmd)
  go_on nothing rest = rest
  go_on (answer req) rest = send_answer req rest
  go_on failed rest = some []

  unfoldable pub read_loop_async : ℕ → List ℕ → Option (List ReqCmd)
  unfolding handle_resp
  read_loop_async zero stream = none
  read_loop_async (suc fuel) stream =
      go_on (handle_resp stream).0 (read_loop_async fuel (handle_resp stream).1)
