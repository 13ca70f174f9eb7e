-- ===== src/Tcp/Frame/Messages.antt =====
-- The requests that src/tcp/server.rs reads from a client of src/tcp/client.rs, with the codec of
-- src/proto/rndz.rs.
use rndz.Base.{ℕ, ◌≤◌, ◌<◌, ◌≡◌, some, List, [], ◌∷◌, ◌++◌, arith, length, All}
use rndz.Proto.{ReqCmd, Request}
use rndz.Proto.Wire.{Wire}
use rndz.Proto.Parser.{parse_request}
use rndz.Proto.Printer.{request_bytes, request_size}
use rndz.Proto.Printer.Sizes.{length-request_bytes}
use rndz.Proto.RoundTrip.{parse_request-request_bytes}
use rndz.Tcp.Frame.{Turn, timely, read_failed, read_reqs}
use rndz.Tcp.Frame.Requests.{stream, read_reqs-stream}

module _ (w : Wire) where
  sendable :
      (reqs : List Request)
      → All (λ m. request_size w m ≤ 1500) reqs
      → All
          (λ m.
            (length (request_bytes w m) ≤ 1500) × (parse_request w (request_bytes w m) ≡ some m))
          reqs
  sendable [] all = tt
  sendable (m ∷ reqs) (short, all) = (
    (
      omega (arith, length-request_bytes w m (omega arith)),
      parse_request-request_bytes w m (omega arith),
    ),
    sendable reqs all,
  )

  -- The requests that a client prints, frames and sends, each of a computed size of at most 1500,
  -- are parsed by the server as they were, each once and in order, and enter the channel; then the
  -- end of the stream makes a Bye without a name. (No read takes 30 seconds, and the channel is
  -- open.)
  pub read_reqs-printed :
      (reqs : List Request) (fuel : ℕ) (turns : ℕ → Turn)
      → All (λ m. request_size w m ≤ 1500) reqs
      → length reqs < fuel
      → ((i : ℕ) → i ≤ length reqs → turns i ≡ timely)
      → read_reqs (parse_request w) turns fuel (stream (request_bytes w) reqs)
        ≡ some (reqs ++ record { id = ""; cmd = some ReqCmd.bye } ∷ [], read_failed)
  read_reqs-printed reqs fuel turns all h fast =
      read_reqs-stream (parse_request w) (request_bytes w) reqs fuel turns (sendable reqs all) h
        fast
