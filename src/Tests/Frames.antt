-- ===== src/Tests/Frames.antt =====
-- The framing of src/tcp at concrete inputs.
use rndz.Base.{ℕ, zero, suc, ◌≡◌, refl, Option, none, some, List, [], ◌∷◌, ◌++◌, arith}
use rndz.Proto.{ReqCmd, Request, request}
use rndz.Tcp.Frame.{
  ok, frame, read_resp, read_reqs, read_req, read_size, read_exact, check_size, Turn, timely, late,
  elapsed,
}
use rndz.Tcp.Frame.RoundTrip.{read_resp-frame}
use rndz.Tcp.Frame.Requests.{Ended, read_reqs_ends}

-- A parser and a printer for the tests: a request is its one byte.
abbrev parse_byte : List ℕ → Option Request
parse_byte (zero ∷ []) = some (request "j" ReqCmd.ping)
parse_byte _ = none

abbrev write_byte : Request → List ℕ
write_byte _ = 0 ∷ []

abbrev ping_j : Request
ping_j = request "j" ReqCmd.ping

frame_two : frame (7 ∷ 8 ∷ []) ≡ 0 ∷ 2 ∷ 7 ∷ 8 ∷ []
unfolding frame
frame_two = refl

read_resp-frame_example : read_resp parse_byte (frame (0 ∷ []) ++ 9 ∷ []) ≡ ok (ping_j, 9 ∷ [])
read_resp-frame_example = read_resp-frame parse_byte (0 ∷ []) (9 ∷ [])

-- The second read takes too long.
abbrev second_late : ℕ → Turn
second_late zero = timely
second_late (suc i) = late

reads_then_waits :
    read_reqs parse_byte second_late 7 (frame (0 ∷ []) ++ frame (0 ∷ []))
    ≡ some (ping_j ∷ [], elapsed)
unfolding read_reqs frame read_req read_size read_exact check_size
reads_then_waits = refl

read_reqs_ends_example :
    Ended parse_byte second_late
      (frame (0 ∷ []) ++ frame (0 ∷ []))
      (read_reqs parse_byte second_late 7 (frame (0 ∷ []) ++ frame (0 ∷ [])))
unfolding frame
read_reqs_ends_example =
    read_reqs_ends parse_byte 7 (frame (0 ∷ []) ++ frame (0 ∷ [])) second_late (omega arith)
