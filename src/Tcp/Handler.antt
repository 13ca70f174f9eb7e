-- ===== src/Tcp/Handler.antt =====
-- The methods of a `PeerHandler` of src/tcp/server.rs, each as a program of atomic actions (`Proc`): a
-- critical section of the mutex, a send into a channel, a write to the stream. Between two actions
-- other tasks may run. A channel bears the number of the connection whose task made it.
use rndz.Base.{ℕ, String, Option, none, some, str_eq, if◌then◌else◌}
use rndz.Net.{SocketAddr, AddrText}
use rndz.Proto.{
  Isync, Fsync, Rsync, ReqCmd, Request, RespCmd, Response, new_request, new_response, new_redirect,
}

pub record PeerState : Type 0 where
  pub id : ℕ
  pub last_ping : ℕ
  pub req_tx : ℕ
  pub addr : SocketAddr

-- What a method of a handler does, action by action: it ends in `Ok` or in `Err`; it reads an entry
-- of the table, registers its connection, sends a request into a channel, or writes a response.
pub data Proc : Type 0 where
  ok err : Proc
  lookup : String → (Option PeerState → Proc) → Proc
  insert_peerstate : String → Proc → Proc
  send : ℕ → Request → Proc → Proc
  write : Response → Proc → Proc

-- `send_response` on a TCP stream leaves the identity of the response empty.
abbrev pub send_response : RespCmd → Proc
send_response cmd = Proc.write (record new_response { cmd = some cmd }) Proc.ok

unfoldable pub handle_ping : String → Proc
handle_ping src_id = Proc.insert_peerstate src_id (send_response RespCmd.pong)

unfoldable pub handle_fsync : Fsync → Proc
handle_fsync fsync = send_response (RespCmd.fsync fsync)

abbrev pub fsync_request : String → String → Request
fsync_request src_id addr = record new_request {
  cmd = some (ReqCmd.fsync (record { id = src_id; addr = addr }));
}

-- What an Rsync on its way does with the entry of its destination.
abbrev pub forward : String → Rsync → Option PeerState → Proc
forward src_id rsync none = Proc.ok
forward src_id rsync (some peer) =
    Proc.send peer.req_tx (record new_request { id = src_id; cmd = some (ReqCmd.rsync rsync) })
      Proc.ok

module _ (t : AddrText) where
  open t use {to_string}

  -- `addr` is the address of the peer at the other end of the handler's own stream.
  unfoldable pub handle_isync : SocketAddr → String → Isync → Proc
  handle_isync addr src_id isync = Proc.lookup isync.id λ peer_opt. elim peer_opt [
    | some peer ↦
        Proc.send peer.req_tx (fsync_request src_id (to_string addr))
          (Proc.insert_peerstate src_id Proc.ok)
    | none ↦ send_response (RespCmd.redirect (record new_redirect { id = isync.id }))
  ]

  -- What an Rsync that has reached its destination does with the entry of its sender.
  abbrev pub redirect_to : String → Option PeerState → Proc
  redirect_to src_id none = Proc.ok
  redirect_to src_id (some peer) =
      send_response (RespCmd.redirect (record { id = src_id; addr = to_string peer.addr }))

  unfoldable pub handle_rsync : String → String → Rsync → Proc
  handle_rsync peer_id src_id rsync =
      if str_eq rsync.id peer_id
      then Proc.lookup src_id (redirect_to src_id)
      else Proc.lookup rsync.id (forward src_id rsync)

  -- One round of the loop of `handle_cmds`, by the command of the request.
  unfoldable pub handle_cmd : SocketAddr → String → String → Option ReqCmd → Proc
  handle_cmd addr peer_id src_id (some ReqCmd.ping) = handle_ping src_id
  handle_cmd addr peer_id src_id (some (ReqCmd.isync isync)) = handle_isync addr src_id isync
  handle_cmd addr peer_id src_id (some (ReqCmd.fsync fsync)) = handle_fsync fsync
  handle_cmd addr peer_id src_id (some (ReqCmd.rsync rsync)) = handle_rsync peer_id src_id rsync
  handle_cmd addr peer_id src_id (some ReqCmd.bye) = Proc.err
  handle_cmd addr peer_id src_id none = Proc.err
