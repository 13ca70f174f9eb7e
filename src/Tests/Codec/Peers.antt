-- ===== src/Tests/Codec/Peers.antt =====
-- A whole connection over UDP at concrete inputs.
use rndz.Base.{ℕ, ◌≡◌, refl, true, Option, none, [], ◌∷◌, ◌++◌, arith}
use rndz.Map.{empty, insert}
use rndz.Net.{SocketAddr, v4}
use rndz.Proto.{ReqCmd, RespCmd, Request, Response, request, response}
use rndz.Proto.Parser.{parse_response}
use rndz.Proto.Printer.{request_size, response_bytes, response_size}
use rndz.Udp.Server.{Server}
use rndz.Udp.Client.{Error, opened, returns, datagram, start, receive as search_receive}
use rndz.Udp.Listener.{receive, start as listen_start}
use rndz.Udp.Listener.Answers.{deliver, handshake}
use rndz.Tests.Addresses.{strokes_text, print}
use rndz.Tests.Codec.{code_wire, codes}

-- "k" is registered.
abbrev with_k : Server
with_k = record {
  clients = insert empty "k" (record { addr = v4 5 2; last_ping = 30 });
  next_gc = 60000;
  sent = [];
}

abbrev opens : ℕ → SocketAddr → Option Error
opens i addr = none

isync_fits : request_size code_wire (request "j" (ReqCmd.isync (record { id = "k" }))) ≡ 8
unfolding request_size code_wire codes
isync_fits = refl

rsync_fits : request_size code_wire (request "k" (ReqCmd.rsync (record { id = "j" }))) ≡ 8
unfolding request_size code_wire codes
rsync_fits = refl

fsync_fits :
    response_size code_wire
      (response "k" (RespCmd.fsync (record { id = "j"; addr = strokes_text.to_string (v4 3 1) })))
    ≡ 17
unfolding response_size code_wire codes print strokes_text
fsync_fits = refl

redirect_fits :
    response_size code_wire (
      response "j" (RespCmd.redirect (record { id = "k"; addr = strokes_text.to_string (v4 5 2) })))
    ≡ 20
unfolding response_size code_wire codes print strokes_text
redirect_fits = refl

abbrev isync : Request
isync = request "j" (ReqCmd.isync (record { id = "k" }))

abbrev fsync : Response
fsync = response "k" (RespCmd.fsync (record { id = "j"; addr = strokes_text.to_string (v4 3 1) }))

abbrev rsync : Request
rsync = request "k" (ReqCmd.rsync (record { id = "j" }))

abbrev redirect : Response
redirect =
    response "j" (RespCmd.redirect (record { id = "k"; addr = strokes_text.to_string (v4 5 2) }))

handshake_example :
    let asked = deliver code_wire strokes_text with_k isync (v4 3 1) 40 in
    let heard =
      receive "k"
        (parse_response code_wire)
        strokes_text.parse
        (λ e. true)
        (listen_start 1)
        0
        (v4 1 1)
        41
        (datagram (response_bytes code_wire fsync)) in
    let answered = deliver code_wire strokes_text asked rsync (v4 5 2) 42 in
    (asked.sent ≡ (v4 5 2, fsync) ∷ [])
    × (heard.sent
        ≡ record { at = 41; socket = 0; to = v4 1 1; message = rsync }
          ∷ record { at = 41; socket = 0; to = v4 3 1; message = rsync }
          ∷ [])
    × (answered.sent ≡ asked.sent ++ (v4 3 1, redirect) ∷ [])
    × (search_receive "j"
          (parse_response code_wire)
          strokes_text.parse
          opens
          (start 1)
          0
          (datagram (response_bytes code_wire redirect))
        ≡ returns (opened "j" (parse_response code_wire) strokes_text.parse opens 0 (v4 5 2) none))
handshake_example =
    handshake code_wire strokes_text opens (λ e. true) with_k "j" "k" (v4 5 2) (v4 3 1) (v4 1 1) 40
      41 42 (record { addr = v4 5 2; last_ping = 30 }) (start 1) 0 (listen_start 1) 0 refl refl refl
      (omega (arith, isync_fits)) (omega (arith, fsync_fits)) (omega (arith, rsync_fits))
      (omega (arith, redirect_fits))
