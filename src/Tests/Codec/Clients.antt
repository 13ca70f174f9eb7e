-- ===== src/Tests/Codec/Clients.antt =====
-- The connector of src/udp/client.rs at concrete inputs.
use rndz.Base.{
  ℕ, String, ◌≡◌, refl, true, Option, none, some, List, [], ◌∷◌, arith, ◌==◌, str_eq, if◌then◌else◌,
}
use rndz.Map.{empty, insert}
use rndz.Net.{SocketAddr, v4}
use rndz.Proto.{ReqCmd, RespCmd, Response, request, response}
use rndz.Proto.Parser.{parse_response}
use rndz.Proto.Printer.{response_bytes, response_size}
use rndz.Udp.Server.{Server, handle_request}
use rndz.Udp.Client.{
  Error, Recv, recv_error, datagram, Poll, polled, connected, connect, returns, goes_on, receive,
  start, scatter, target_not_found,
}
use rndz.Udp.Client.Connecting.{Tells, connect-Tells}
use rndz.Udp.Client.Answers.{rsync_connects, isync_refused}
use rndz.Tests.Addresses.{strokes_text, print}
use rndz.Tests.Codec.{code_wire, codes}

-- The second of two servers tells "j" of the address "a".
abbrev parse_answer : List ℕ → Option Response
parse_answer [] = none
parse_answer (_ ∷ _) = some (response "j" (RespCmd.redirect (record { id = "k"; addr = "a" })))

abbrev parse_name : String → Option SocketAddr
parse_name s = if str_eq s "a" then some (v4 5 2) else none

abbrev second_tells : ℕ → Recv
second_tells i = if i == 1 then datagram (7 ∷ []) else recv_error 11

abbrev one_poll : ℕ → List Poll
one_poll k = record { result = polled (true ∷ true ∷ []); recv = second_tells } ∷ []

abbrev opens : ℕ → SocketAddr → Option Error
opens i addr = none

connects : connect "j" parse_answer parse_name opens 2 one_poll ≡ connected 1 (v4 5 2)
unfolding connect scatter
connects = refl

-- Every server that tells of an address is the second one.
second_tells-Tells :
    (k : ℕ) → Tells "j" parse_answer parse_name opens (λ i addr. i ≡ 1) second_tells × Unit {0}
second_tells-Tells k = ((λ i bytes rdr addr at p q. ground arith), tt)

connect-Tells_example : ◌≡◌ {A = ℕ} 1 1
connect-Tells_example =
    connect-Tells "j" parse_answer parse_name opens (λ i addr. i ≡ 1) 2 one_poll 1 (v4 5 2)
      second_tells-Tells connects

-- "j" is registered.
abbrev with_j : Server
with_j = record {
  clients = insert empty "j" (record { addr = v4 3 1; last_ping = 30 });
  next_gc = 60000;
  sent = [];
}

told_size :
    response_size code_wire (
      response "j" (RespCmd.redirect (record { id = "k"; addr = strokes_text.to_string (v4 5 2) })))
    ≡ 20
unfolding response_size code_wire codes print strokes_text
told_size = refl

refusal_size :
    response_size code_wire (response "j" (RespCmd.redirect (record { id = "k"; addr = "" }))) ≡ 8
unfolding response_size code_wire codes
refusal_size = refl

rsync_connects_example :
    (resp : Response) × ((handle_request strokes_text with_j
        (request "k" (ReqCmd.rsync (record { id = "j" })))
        (v4 5 2)
        99).sent
      ≡ (v4 3 1, resp) ∷ [])
    × (receive "j"
          (parse_response code_wire)
          strokes_text.parse
          opens
          (start 1)
          0
          (datagram (response_bytes code_wire resp))
        ≡ returns (connected 0 (v4 5 2)))
rsync_connects_example =
    rsync_connects code_wire strokes_text opens with_j "j" "k" (v4 5 2) (v4 3 1) 99 30 (start 1) 0
      (record { addr = v4 3 1; last_ping = 30 }, refl, refl, omega arith) refl
      (omega (arith, told_size))

isync_refused_example :
    (resp : Response) × ((handle_request strokes_text with_j
        (request "j" (ReqCmd.isync (record { id = "k" })))
        (v4 3 1)
        99).sent
      ≡ (v4 3 1, resp) ∷ [])
    × (receive "j"
          (parse_response code_wire)
          strokes_text.parse
          opens
          (start 1)
          0
          (datagram (response_bytes code_wire resp))
        ≡ goes_on
            (record { failed_servers = true ∷ []; last_error = some target_not_found; sent = [] }))
isync_refused_example =
    isync_refused code_wire strokes_text opens with_j "j" "k" (v4 3 1) 99 (start 1) 0 refl
      (omega (arith, refusal_size))
