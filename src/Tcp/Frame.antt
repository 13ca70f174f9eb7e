-- ===== src/Tcp/Frame.antt =====
-- The framing of messages on a TCP stream: two bytes of length, the higher first, then the message.
-- `read_reqs`, `read_req` and `send_response` of src/tcp/server.rs; `write_req` and `read_resp` of
-- src/tcp/client.rs and src/tcp/client_async.rs. A stream is the list of the bytes that it still holds;
-- bytes are numbers below 256.
pub mod RoundTrip
pub mod Requests
pub mod Messages
use rndz.Base.{
  ℕ, zero, suc, ◌+◌, ◌*◌, ◌/◌, ◌%◌, ◌^◌, Option, none, some, List, [], ◌∷◌, ◌++◌, ltb, length, take,
  drop, if◌then◌else◌,
}
use rndz.Proto.{ReqCmd, Request, new_request}

pub data Error : Type 0 where
  unexpected_eof : Error
  invalid_size : Error
  bad_message : Error

pub data Result {κ} (Value : Type κ) : Type κ where
  err : Error → Result Value
  ok : Value → Result Value

-- The operator `?`, as `do` writes it.
infixl 5 ◌>>=◌ ◌>>◌
abbrev pub ◌>>=◌ {κ μ} : {V : Type κ} {W : Type μ} → Result V → (V → Result W) → Result W
err failure >>= next = err failure
ok value >>= next = next value

abbrev pub ◌>>◌ {κ μ} : {V : Type κ} {W : Type μ} → Result V → Result W → Result W
first >> second = first >>= λ _. second

-- `n as u16`
abbrev pub as_u16 : ℕ → ℕ
as_u16 n = n % 2 ^ 16

-- `u16::to_be_bytes` and `u16::from_be_bytes`
abbrev pub to_be_bytes : ℕ → List ℕ
to_be_bytes n = n / 256 ∷ n % 256 ∷ []

abbrev pub from_be_bytes : List ℕ → ℕ
from_be_bytes (hi ∷ lo ∷ _) = hi * 256 + lo
from_be_bytes _ = 0

-- What `write_req` and `send_response` write for a message of these bytes.
unfoldable pub frame : List ℕ → List ℕ
frame buf = to_be_bytes (as_u16 (length buf)) ++ buf

-- `read_exact` into a buffer of `n` bytes: the bytes, and what is left of the stream.
unfoldable pub read_exact : ℕ → List ℕ → Result (List ℕ × List ℕ)
read_exact n stream =
    if ltb (length stream) n then err unexpected_eof else ok (take n stream, drop n stream)

-- The length of the next message.
unfoldable pub read_size : List ℕ → Result (ℕ × List ℕ)
read_size stream = do (buf, rest) ← read_exact 2 stream; ok (from_be_bytes buf, rest)

abbrev pub parsed {ℓ} : {A : Type ℓ} → Option A → List ℕ → Result (A × List ℕ)
parsed none rest = err bad_message
parsed (some a) rest = ok (a, rest)

-- The server's limit on the size of a message.
unfoldable pub check_size : ℕ → Result (Unit {0})
check_size size = if ltb 1500 size then err invalid_size else ok tt

-- The parser of the bytes of a message is an argument.
module _ {A : Type 0} (parse_from_bytes : List ℕ → Option A) where
  -- `read_resp`: there is no limit on the length.
  unfoldable pub read_resp : List ℕ → Result (A × List ℕ)
  read_resp stream = do
    (size, rest) ← read_size stream
    (buf, rest') ← read_exact size rest
    parsed (parse_from_bytes buf) rest'

  unfoldable pub read_req : List ℕ → Result (A × List ℕ)
  unfolding check_size
  read_req stream = do
    (size, rest) ← read_size stream
    check_size size
    (buf, rest') ← read_exact size rest
    parsed (parse_from_bytes buf) rest'

-- The request that `read_reqs` makes up when it cannot read one.
abbrev pub bye_request : Request
bye_request = record new_request { cmd = some ReqCmd.bye }

-- What a turn of the loop of `read_reqs` meets: its read ends within 30 seconds, and the channel of the
-- connection is open; the read takes longer; or the channel is closed.
pub data Turn : Type 0 where
  timely late closed : Turn

-- How `read_reqs` ends, always by an error: that of the time-out, that of a read that failed, or that of the
-- closed channel.
pub data End : Type 0 where
  elapsed read_failed channel_closed : End

-- The requests that `read_reqs` has sent into the channel, and how it has ended.
abbrev pub Finished : Type 0
Finished = List Request × End

abbrev pub after_request : Request → Option Finished → Option Finished
after_request req none = none
after_request req (some (reqs, end)) = some (req ∷ reqs, end)

-- A turn with what `read_req` gives, if it is in time, and what the turns after it give.
abbrev pub next_request : Turn → Result (Request × List ℕ) → Option Finished → Option Finished
next_request late r more = some ([], elapsed)
next_request timely (ok (req, rest)) more = after_request req more
next_request timely (err e) more = some (bye_request ∷ [], read_failed)
next_request closed (ok (req, rest)) more = some ([], channel_closed)
next_request closed (err e) more = some ([], read_failed)

-- What is left of the stream behind a request.
abbrev pub left_of : Result (Request × List ℕ) → List ℕ
left_of (ok (req, rest)) = rest
left_of (err e) = []

-- The loop of `read_reqs`, for what its turns meet. `none` means that the fuel ran out.
unfoldable pub read_reqs : (List ℕ → Option Request) → (ℕ → Turn) → ℕ → List ℕ → Option Finished
read_reqs parse_from_bytes turns zero stream = none
read_reqs parse_from_bytes turns (suc fuel) stream =
    let r = read_req parse_from_bytes stream in
    let more = read_reqs parse_from_bytes (λ i. turns (suc i)) fuel (left_of r) in
    next_request (turns 0) r more
