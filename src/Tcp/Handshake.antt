-- ===== src/Tcp/Handshake.antt =====
-- The whole way of a connection between two clients of src/tcp/client.rs through src/tcp/server.rs,
-- with the codec of src/proto/rndz.rs.
use rndz.Base.{ℕ, suc, ◌≤◌, ◌<◌, ◌^◌, String, ◌≡◌, refl, ◌∙◌, Option, List, [], ◌∷◌, ◌++◌, arith}
use rndz.Net.{SocketAddr, AddrText, flowinfo}
use rndz.Proto.{ReqCmd, RespCmd, request, response}
use rndz.Proto.Wire.{Wire}
use rndz.Proto.Parser.{parse_request, parse_response}
use rndz.Proto.Printer.{request_bytes, request_size, response_bytes, response_size}
use rndz.Proto.Printer.Sizes.{length-request_bytes}
use rndz.Proto.RoundTrip.{parse_request-request_bytes}
use rndz.Tcp.Frame
use rndz.Tcp.Frame.{frame, read_req, parsed, err, invalid_size}
use rndz.Tcp.Frame.RoundTrip.{read_req-frame}
use rndz.Tcp.Client.{
  Os, ok, choose_bind_addr, connect_server, connect as client_connect, connect_peer, write_req,
  read_loop, and_send,
}
use rndz.Tcp.Client.Connecting.{connect_first}
use rndz.Tcp.Client.Replies.{first_told}
use rndz.Tcp.Server.{PeerHandler, Server, run}
use rndz.Tcp.Server.Calls.{Has}
use rndz.Tcp.Server.Methods.{acts, idle}
use rndz.Tcp.Server.Rendezvous.{AreReady, connect, answer, serve, streams_written}

module _ (w : Wire) where
  -- The server reads the request that a client has written.
  read_req-write_req :
      (id : String) (cmd : ReqCmd) (rest : List ℕ)
      → request_size w (request id cmd) ≤ 1500
      → read_req (parse_request w) (write_req (request_bytes w) id cmd ++ rest)
        ≡ Frame.ok (request id cmd, rest)
  read_req-write_req id cmd rest short =
      let req = request id cmd in
      let len = length-request_bytes w req (omega arith) in
      let whole = parse_request-request_bytes w req (omega arith) in
      read_req-frame (parse_request w) (request_bytes w req) rest (omega (arith, len))
      ∙ rw whole (ground (arith, len))

  module _ (t : AddrText) (os : Os) where
    open t use {to_string, parse, parse-to_string}
    open os use {write_all}

    -- The whole way of a connection over TCP. The client of the task `h` runs `connect` for `k`,
    -- under the name `j`, when the client of the task `g` is registered as `k`; both tasks are
    -- idle, no other task acts meanwhile, the names differ, the state is routed, and the addresses
    -- carry no flow information. The server reads the Isync that the one writes, and its tasks
    -- write an Fsync on the stream of the other; the read loop there sends the Rsync for `j` and
    -- goes on with the rest; the server reads that Rsync as it is written, and its tasks write a
    -- Redirect on the stream of `h`; and `connect`, which has reached the server, goes on to the
    -- address that the server observes for `g`, from the address of its connection with the server.
    -- (The requests have a computed size of at most 1500, the responses one below 2 ^ 16.)
    pub handshake_tcp :
        (s : Server) (h g : PeerHandler) (j k : String) (n1 n2 n3 n4 fuel : ℕ)
        (local : Option SocketAddr) (server : String) (bound addr : SocketAddr)
        (more_j more_k more : List ℕ)
        → AreReady s h g j k
        → flowinfo h.addr ≡ 0
        → flowinfo g.addr ≡ 0
        → choose_bind_addr os local server ≡ ok bound
        → connect_server os bound server ≡ ok addr
        → write_all ≡ ok tt
        → let isync = ReqCmd.isync (record { id = k }) in
          let fsync = response "" (RespCmd.fsync (record { id = j; addr = to_string h.addr })) in
          let rsync = ReqCmd.rsync (record { id = j }) in
          let redirect =
            response "" (RespCmd.redirect (record { id = k; addr = to_string g.addr })) in
          request_size w (request j isync) ≤ 1500
          → response_size w fsync < 2 ^ 16
          → request_size w (request k rsync) ≤ 1500
          → response_size w redirect < 2 ^ 16
          → let asked = run t (serve t s h (connect j k) 4 n1) (acts 2 g.id n2) in
            let answered = run t (serve t asked g (answer k j) 3 n3) (acts 3 h.id n4) in
            (read_req (parse_request w) (write_req (request_bytes w) j isync ++ more_j)
              ≡ Frame.ok (connect j k, more_j))
            × Has asked (idle (record g { written = g.written ++ fsync ∷ [] }))
            × (read_loop
                  (parse_response w)
                  parse
                  (suc fuel)
                  (frame (response_bytes w fsync) ++ more)
                ≡ and_send
                    (parse_response w)
                    parse
                    rsync
                    (read_loop (parse_response w) parse fuel more))
            × (read_req (parse_request w) (write_req (request_bytes w) k rsync ++ more_k)
                ≡ Frame.ok (answer k j, more_k))
            × Has answered (record (idle h) { peer_id = j; written = h.written ++ redirect ∷ [] })
            × (client_connect os
                  (parse_response w)
                  parse
                  local
                  server
                  (frame (response_bytes w redirect) ++ more)
                ≡ connect_peer os (parse_response w) parse addr g.addr)
    handshake_tcp s h g j k n1 n2 n3 n4 fuel local server bound addr more_j more_k more v fh fg e1
          e2 e3 si sf sr sd =
        let (g1, h2) = streams_written t s h g j k n1 n2 n3 n4 v in
        (
          read_req-write_req j _ more_j si,
          g1,
          first_told w t fuel (j, h.addr) more (fh, sf),
          read_req-write_req k _ more_k sr,
          h2,
          connect_first w os t local server bound addr _ more e1 e2 e3 sd
              ∙ rw (parse-to_string g.addr fg) refl,
        )
