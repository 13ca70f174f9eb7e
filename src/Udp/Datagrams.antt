-- ===== src/Udp/Datagrams.antt =====
-- A message of at most 1500 bytes in a datagram: the buffers of src/udp/server.rs and of
-- src/udp/client.rs hold it whole, and it is parsed back.
use rndz.Base.{
  ℕ, zero, suc, ◌^◌, ◌≤◌, ◌<◌, ◌≡◌, refl, ◌∙◌, ap, some, List, [], ◌∷◌, arith, length, take,
}
use rndz.Proto.{Request, Response}
use rndz.Proto.Wire.{Wire}
use rndz.Proto.Parser.{parse_request, parse_response}
use rndz.Proto.Printer.{request_bytes, request_size, response_bytes, response_size}
use rndz.Proto.Printer.Sizes.{length-request_bytes, length-response_bytes}
use rndz.Proto.RoundTrip.{parse_request-request_bytes, parse_response-response_bytes}

take_short : (n : ℕ) (xs : List ℕ) → length xs ≤ n → take n xs ≡ xs
take_short zero [] h = refl
take_short zero (x ∷ xs) h = absurd (omega (arith, h))
take_short (suc n) [] h = refl
take_short (suc n) (x ∷ xs) h = ap (◌∷◌ x) (take_short n xs (omega (arith, h)))

module _ (w : Wire) where
  pub request-datagram :
      (m : Request)
      → request_size w m ≤ 1500
      → parse_request w (take 1500 (request_bytes w m)) ≡ some m
  request-datagram m short =
      let small : request_size w m < 2 ^ 32 = omega arith in
      ap (parse_request w)
        (take_short 1500 (request_bytes w m) (omega (arith, length-request_bytes w m small)))
      ∙ parse_request-request_bytes w m small

  pub response-datagram :
      (m : Response)
      → response_size w m ≤ 1500
      → parse_response w (take 1500 (response_bytes w m)) ≡ some m
  response-datagram m short =
      let small : response_size w m < 2 ^ 32 = omega arith in
      ap (parse_response w)
        (take_short 1500 (response_bytes w m) (omega (arith, length-response_bytes w m small)))
      ∙ parse_response-response_bytes w m small
