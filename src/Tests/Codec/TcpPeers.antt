-- ===== src/Tests/Codec/TcpPeers.antt =====
-- The TCP client, and a whole connection over TCP, at concrete inputs.
use rndz.Base.{ℕ, List, ◌≡◌, refl, none, some, [], ◌∷◌, ◌++◌, arith}
use rndz.Net.{v4}
use rndz.Proto.{ReqCmd, RespCmd, Response, request, response}
use rndz.Proto.Parser.{parse_response, parse_request}
use rndz.Proto.Printer.{request_size, response_bytes, response_size, request_bytes}
use rndz.Tcp.Frame.{frame, read_req}
use rndz.Tcp.Client.{
  connect_async, Os, ok, err, connect, connect_peer, choose_bind_addr, connect_server,
  target_id_not_found, invalid_server_response, read_loop, stream_over, invalid_fsync_addr,
  write_req, and_send,
}
use rndz.Tcp.Client.Connecting.{connect_decided}
use rndz.Tcp.Client.Replies.{told, fsyncs_answered}
use rndz.Tests.Addresses.{strokes_text, print}
use rndz.Tests.Codec.{code_wire, codes}
use rndz.Tcp.Handshake.{handshake_tcp}
use rndz.Tcp.Server.{run}
use rndz.Tcp.Server.Calls.{Has}
use rndz.Tcp.Server.Methods.{acts, idle}
use rndz.Tcp.Server.Rendezvous.{serve, connect as ask, answer}
use rndz.Tests.TcpServer.{started, started-AreReady, task_j, task_k}
use rndz.Tcp.Frame

tcp_isync_fits : request_size code_wire (request "j" (ReqCmd.isync (record { id = "k" }))) ≡ 8
unfolding request_size code_wire codes
tcp_isync_fits = refl

tcp_rsync_fits : request_size code_wire (request "k" (ReqCmd.rsync (record { id = "j" }))) ≡ 8
unfolding request_size code_wire codes
tcp_rsync_fits = refl

abbrev host : Os
host = record {
  resolve = λ name. ok (v4 7 1 ∷ []);
  new_socket = ok tt;
  set_reuse_address = ok tt;
  set_reuse_port = ok tt;
  bind_to = λ addr. ok tt;
  connect_to = λ from to. ok from;
  write_all = ok tt;
}

host_connects : connect_server host (v4 0 0) "s" ≡ ok (v4 0 0)
unfolding connect_server
host_connects = refl

host_binds : choose_bind_addr host none "s" ≡ ok (v4 0 0)
unfolding choose_bind_addr
host_binds = refl

tcp_redirect_size :
    response_size code_wire
      (response "" (RespCmd.redirect (record { id = "k"; addr = strokes_text.to_string (v4 5 2) })))
    ≡ 17
unfolding response_size code_wire codes print strokes_text
tcp_redirect_size = refl

refusal_size :
    response_size code_wire (response "" (RespCmd.redirect (record { id = "k"; addr = "" }))) ≡ 5
unfolding response_size code_wire codes
refusal_size = refl

pong_size : response_size code_wire (response "" RespCmd.pong) ≡ 2
unfolding response_size code_wire codes
pong_size = refl

bad_fsync_size :
    response_size code_wire (response "" (RespCmd.fsync (record { id = "k"; addr = "" }))) ≡ 5
unfolding response_size code_wire codes
bad_fsync_size = refl

tcp_fsync_size :
    response_size code_wire
      (response "" (RespCmd.fsync (record { id = "j"; addr = strokes_text.to_string (v4 3 1) })))
    ≡ 14
unfolding response_size code_wire codes print strokes_text
tcp_fsync_size = refl

connect_decided_example :
    let outcome = λ (cmd : RespCmd).
      connect host
        (parse_response code_wire)
        strokes_text.parse
        none
        "s"
        (frame (response_bytes code_wire (response "" cmd)) ++ 9 ∷ []) in
    (outcome (RespCmd.redirect (record { id = "k"; addr = strokes_text.to_string (v4 5 2) }))
      ≡ connect_peer host (parse_response code_wire) strokes_text.parse (v4 0 0) (v4 5 2))
    × (outcome (RespCmd.redirect (record { id = "k"; addr = "" })) ≡ err target_id_not_found)
    × (outcome RespCmd.pong ≡ err invalid_server_response)
    × (outcome (RespCmd.fsync (record { id = "k"; addr = "" })) ≡ err invalid_server_response)
    × ((stream : List ℕ)
        → connect_async host (parse_response code_wire) strokes_text.parse none "s" stream
          ≡ connect host (parse_response code_wire) strokes_text.parse none "s" stream)
connect_decided_example =
    connect_decided code_wire host strokes_text none "s" (v4 0 0) (v4 0 0) (v4 5 2) "k"
      (record { id = "k"; addr = "" }) (9 ∷ []) host_binds host_connects refl refl
      (omega (arith, tcp_redirect_size)) (omega (arith, refusal_size)) (omega (arith, pong_size))
      (omega (arith, bad_fsync_size))

fsyncs_answered_example :
    (read_loop
        (parse_response code_wire)
        strokes_text.parse
        2
        (told code_wire strokes_text (("j", v4 3 1) ∷ []) ++ [])
      ≡ some (ReqCmd.rsync (record { id = "j" }) ∷ [], stream_over))
    × (read_loop (parse_response code_wire) strokes_text.parse 2 (
          told code_wire strokes_text (("j", v4 3 1) ∷ [])
          ++ (frame (
                response_bytes code_wire
                  (response "" (RespCmd.fsync (record { id = "k"; addr = "" }))))
              ++ 9 ∷ []))
        ≡ some (ReqCmd.rsync (record { id = "j" }) ∷ [], invalid_fsync_addr))
fsyncs_answered_example =
    fsyncs_answered code_wire strokes_text (("j", v4 3 1) ∷ []) "k" "" (9 ∷ []) 2
      ((refl, omega (arith, tcp_fsync_size)), tt) (omega arith) strokes_text.parse_empty
      (omega (arith, bad_fsync_size))

-- The client "j" connects to "k", each by its task of the server.
abbrev fsync_j : Response
fsync_j = response "" (RespCmd.fsync (record { id = "j"; addr = strokes_text.to_string (v4 3 1) }))

abbrev redirect_to_k : Response
redirect_to_k =
    response "" (RespCmd.redirect (record { id = "k"; addr = strokes_text.to_string (v4 5 2) }))

handshake_tcp_example :
    let asked =
      run strokes_text (serve strokes_text started task_j (ask "j" "k") 4 10) (acts 2 1 11) in
    let answered =
      run strokes_text (serve strokes_text asked task_k (answer "k" "j") 3 12) (acts 3 2 13) in
    (read_req
        (parse_request code_wire)
        (write_req (request_bytes code_wire) "j" (ReqCmd.isync (record { id = "k" })) ++ [])
      ≡ Frame.ok (ask "j" "k", []))
    × Has asked (idle (record task_k { written = task_k.written ++ fsync_j ∷ [] }))
    × (read_loop
          (parse_response code_wire)
          strokes_text.parse
          6
          (frame (response_bytes code_wire fsync_j) ++ 9 ∷ [])
        ≡ and_send
            (parse_response code_wire)
            strokes_text.parse
            (ReqCmd.rsync (record { id = "j" }))
            (read_loop (parse_response code_wire) strokes_text.parse 5 (9 ∷ [])))
    × (read_req
          (parse_request code_wire)
          (write_req (request_bytes code_wire) "k" (ReqCmd.rsync (record { id = "j" })) ++ 0 ∷ [])
        ≡ Frame.ok (answer "k" "j", 0 ∷ []))
    × Has answered
        (record (idle task_j) { peer_id = "j"; written = task_j.written ++ redirect_to_k ∷ [] })
    × (connect host
          (parse_response code_wire)
          strokes_text.parse
          none
          "s"
          (frame (response_bytes code_wire redirect_to_k) ++ 9 ∷ [])
        ≡ connect_peer host (parse_response code_wire) strokes_text.parse (v4 0 0) (v4 5 2))
handshake_tcp_example =
    handshake_tcp code_wire strokes_text host started task_j task_k "j" "k" 10 11 12 13 5 none "s"
      (v4 0 0) (v4 0 0) [] (0 ∷ []) (9 ∷ []) started-AreReady refl refl host_binds host_connects
      refl (omega (arith, tcp_isync_fits)) (omega (arith, tcp_fsync_size))
      (omega (arith, tcp_rsync_fits)) (omega (arith, tcp_redirect_size))
