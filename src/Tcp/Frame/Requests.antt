-- ===== src/Tcp/Frame/Requests.antt =====
-- The requests that `read_reqs` of src/tcp/server.rs takes out of a stream.
use rndz.Base.{
  sym, ap, subst, ℕ, zero, suc, ◌+◌, ◌≤◌, ◌<◌, ◌≡◌, refl, ◌∙◌, ◌⊎◌, inl, inr, Option, none, some,
  List, [], ◌∷◌, ◌++◌, arith, length, drop, All,
}
use rndz.Proto.{ReqCmd, Request}
use rndz.Tcp.Frame.{
  Result, ok, err, Error, unexpected_eof, frame, read_exact, read_size, read_req, read_resp,
  check_size, parsed, read_reqs, bye_request, ◌>>=◌, Turn, timely, late, closed, End, elapsed,
  read_failed, channel_closed, Finished, after_request, next_request, left_of,
}
use rndz.Tcp.Frame.RoundTrip.{read_req-frame}

length-drop-le : (n : ℕ) (xs : List ℕ) → length (drop n xs) + n ≤ length xs ⊎ (length xs < n)
length-drop-le zero xs = inl (omega arith)
length-drop-le (suc n) [] = inr (omega arith)
length-drop-le (suc n) (x ∷ xs) = ground (arith, length-drop-le n xs)

-- A successful read leaves as many bytes fewer.
read_exact-length :
    (n : ℕ) (stream buf rest : List ℕ)
    → read_exact n stream ≡ ok (buf, rest)
    → length rest + n ≤ length stream
unfolding read_exact
read_exact-length n stream buf rest h = ground (arith, length-drop-le n stream)

pub Result-cases {ℓ} :
    {A : Type ℓ} (r : Result A) → ((a : A) × (r ≡ ok a)) ⊎ ((e : Error) × (r ≡ err e))
Result-cases (ok a) = inl (a, refl)
Result-cases (err e) = inr (e, refl)

-- Where a chain succeeds, its first link did, and what followed.
>>=-chain {κ μ} :
    {V : Type κ} {W : Type μ} (first : Result V) (next : V → Result W) {w : W}
    → (first >>= next) ≡ ok w
    → (v : V) × (first ≡ ok v) × (next v ≡ ok w)
>>=-chain (err failure) next e = cc
>>=-chain (ok v) next e = (v, refl, e)

read_size-length :
    (stream rest : List ℕ) (size : ℕ)
    → read_size stream ≡ ok (size, rest)
    → length rest + 2 ≤ length stream
unfolding read_size
read_size-length stream rest size h =
    let ((buf, rest'), e, f) = >>=-chain (read_exact 2 stream) _ h in
    let same : rest' ≡ rest = ground arith in rw (← same) (read_exact-length 2 stream buf rest' e)

parsed-rest :
    {A : Type 0} (o : Option A) (rest rest' : List ℕ) (a : A)
    → parsed o rest ≡ ok (a, rest')
    → rest ≡ rest'
parsed-rest none rest rest' a h = cc
parsed-rest (some b) rest rest' a h = ground arith

pub read_resp-length :
    {A : Type 0} (parse_from_bytes : List ℕ → Option A) (stream : List ℕ) (resp : A) (rest : List ℕ)
    → read_resp parse_from_bytes stream ≡ ok (resp, rest)
    → length rest + 2 ≤ length stream
unfolding read_resp
read_resp-length parse_from_bytes stream resp rest h =
    let ((size, r1), e1, h1) = >>=-chain (read_size stream) _ h in
    let ((buf, r2), e2, h2) = >>=-chain (read_exact size r1) _ h1 in
    let same : r2 ≡ rest = parsed-rest (parse_from_bytes buf) r2 rest resp h2 in
    rw (← same)
      (omega (arith, read_size-length stream r1 size e1, read_exact-length size r1 buf r2 e2))

-- What a client writes that sends these requests, one after another.
abbrev pub stream : (Request → List ℕ) → List Request → List ℕ
stream write_to_bytes [] = []
stream write_to_bytes (req ∷ reqs) = frame (write_to_bytes req) ++ stream write_to_bytes reqs

module _ (parse_from_bytes : List ℕ → Option Request) where
  read_req-length :
      (stream : List ℕ) (req : Request) (rest : List ℕ)
      → read_req parse_from_bytes stream ≡ ok (req, rest)
      → length rest + 2 ≤ length stream
  unfolding read_req
  read_req-length stream req rest h =
      let ((size, r1), e1, h1) = >>=-chain (read_size stream) _ h in
      let (_, e2, h2) = >>=-chain (check_size size) _ h1 in
      let ((buf, r2), e3, h3) = >>=-chain (read_exact size r1) _ h2 in
      let same : r2 ≡ rest = parsed-rest (parse_from_bytes buf) r2 rest req h3 in
      rw (← same)
        (omega (arith, read_size-length stream r1 size e1, read_exact-length size r1 buf r2 e3))

  read_req-nil : read_req parse_from_bytes [] ≡ err unexpected_eof
  unfolding read_req read_size read_exact
  read_req-nil = refl

  read_first :
      (write_to_bytes : Request → List ℕ) (req : Request) (rest : List ℕ)
      → length (write_to_bytes req) ≤ 1500
      → parse_from_bytes (write_to_bytes req) ≡ some req
      → read_req parse_from_bytes (frame (write_to_bytes req) ++ rest) ≡ ok (req, rest)
  read_first write_to_bytes req rest short back =
      read_req-frame parse_from_bytes (write_to_bytes req) rest (omega arith) ∙ ground (arith)

  -- The stream begins with these requests, as `read_req` reads them, and this is left of it.
  abbrev pub Holds : List ℕ → List Request → List ℕ → Type 0
  Holds stream [] left = stream ≡ left
  Holds stream (req ∷ reqs) left =
      (rest : List ℕ) × (read_req parse_from_bytes stream ≡ ok (req, rest)) × Holds rest reqs left

  abbrev pub Fails : List ℕ → Type 0
  Fails stream = (e : Error) × (read_req parse_from_bytes stream ≡ err e)

  -- What the loop has sent, and how it has ended, when it has read these requests in time, and what it meets
  -- in the turn after them.
  abbrev pub EndsBy : Turn → List ℕ → List Request → List Request → End → Type 0
  EndsBy late left reqs sent end = (sent ≡ reqs) × (end ≡ elapsed)
  EndsBy timely left reqs sent end =
      Fails left
      × (sent ≡ reqs ++ record { id = ""; cmd = some ReqCmd.bye } ∷ [])
      × (end ≡ read_failed)
  EndsBy closed left reqs sent end =
      (sent ≡ reqs) × ((Fails left × (end ≡ read_failed)) ⊎ (¬ Fails left × (end ≡ channel_closed)))

  EndsBy-cons :
      (t : Turn) (left : List ℕ) (req : Request) (reqs sent : List Request) (end : End)
      → EndsBy t left reqs sent end
      → EndsBy t left (req ∷ reqs) (req ∷ sent) end
  EndsBy-cons late left req reqs sent end (same, e) = (ap (λ l. req ∷ l) same, e)
  EndsBy-cons timely left req reqs sent end (fails, same, e) = (fails, ap (λ l. req ∷ l) same, e)
  EndsBy-cons closed left req reqs sent end (same, e) = (ap (λ l. req ∷ l) same, e)

  -- `o` is how the loop ends on the stream, for what its turns meet.
  abbrev pub Ended : (ℕ → Turn) → List ℕ → Option Finished → Type 0
  Ended turns stream o =
      (reqs : List Request) × (sent : List Request) × (left : List ℕ) × (end : End) × (o
        ≡ some (sent, end))
      × Holds stream reqs left
      × ((i : ℕ) → i < length reqs → turns i ≡ timely)
      × EndsBy (turns (length reqs)) left reqs sent end

  early :
      (turns : ℕ → Turn) (n : ℕ)
      → turns 0 ≡ timely
      → ((i : ℕ) → i < n → turns (suc i) ≡ timely)
      → (i : ℕ) → i < suc n
      → turns i ≡ timely
  early turns n now later zero h = now
  early turns n now later (suc i) h = later i (omega arith)

  turn-Ended :
      (turns : ℕ → Turn) (stream : List ℕ) (t : Turn) (r : Result (Request × List ℕ))
      (more : Option Finished)
      → turns 0 ≡ t
      → read_req parse_from_bytes stream ≡ r
      → ((req : Request) (rest : List ℕ)
          → r ≡ ok (req, rest)
          → Ended (λ i. turns (suc i)) rest more)
      → Ended turns stream (next_request t r more)
  turn-Ended turns stream late r more now e next =
      ([], [], stream, elapsed, refl, refl, (λ i h. absurd (omega arith)), rw now (refl, refl))
  turn-Ended turns stream timely (err c) more now e next = (
    [],
    bye_request ∷ [],
    stream,
    read_failed,
    refl,
    refl,
    (λ i h. absurd (omega arith)),
    rw now ((c, e), refl, refl),
  )
  turn-Ended turns stream closed (err c) more now e next = (
    [],
    [],
    stream,
    read_failed,
    refl,
    refl,
    (λ i h. absurd (omega arith)),
    rw now (refl, inl ((c, e), refl)),
  )
  turn-Ended turns stream closed (ok (req, rest)) more now e next = (
    [],
    [],
    stream,
    channel_closed,
    refl,
    refl,
    (λ i h. absurd (omega arith)),
    rw now (refl, inr ((λ f. cc), refl)),
  )
  turn-Ended turns stream timely (ok (req, rest)) more now e next =
      let (reqs, sent, left, end, same, holds, before, by) = next req rest refl in
      (
        req ∷ reqs,
        req ∷ sent,
        left,
        end,
        ap (after_request req) same,
        (rest, e, holds),
        early turns (length reqs) now before,
        EndsBy-cons (turns (suc (length reqs))) left req reqs sent end by,
      )

  -- With more fuel than the stream has bytes the loop ends, on any stream: it reads requests, each in time
  -- and with the channel open, and sends them in order, up to a turn in which the read takes 30
  -- seconds, or fails, or the channel is closed. When the read takes 30 seconds it sends nothing
  -- more, and ends by the error of the time-out; when the read fails, it sends a Bye last, without a
  -- name, and ends by that error; when the channel is closed it sends nothing more.
  pub read_reqs_ends :
      (fuel : ℕ) (stream : List ℕ) (turns : ℕ → Turn)
      → length stream < fuel
      → Ended turns stream (read_reqs parse_from_bytes turns fuel stream)
  unfolding read_reqs
  read_reqs_ends zero stream turns h = absurd (omega arith)
  read_reqs_ends (suc fuel) stream turns h =
      turn-Ended turns stream (turns 0) (read_req parse_from_bytes stream) _ refl refl λ req rest e.
        subst
          (λ r.
            Ended (λ i. turns (suc i)) rest
              (read_reqs parse_from_bytes (λ i. turns (suc i)) fuel (left_of r)))
          (sym e)
          (read_reqs_ends fuel rest (λ i. turns (suc i))
            (omega (arith, read_req-length stream req rest e)))

  -- The requests that a client frames and sends, each of at most 1500 bytes and one that the parser
  -- reads back, reach the channel as they are, each once and in order; then the end of the stream
  -- makes a Bye.
  pub read_reqs-stream :
      (write_to_bytes : Request → List ℕ) (reqs : List Request) (fuel : ℕ) (turns : ℕ → Turn)
      → All
          (λ req.
            (length (write_to_bytes req) ≤ 1500)
            × (parse_from_bytes (write_to_bytes req) ≡ some req))
          reqs
      → length reqs < fuel
      → ((i : ℕ) → i ≤ length reqs → turns i ≡ timely)
      → read_reqs parse_from_bytes turns fuel (stream write_to_bytes reqs)
        ≡ some (reqs ++ record { id = ""; cmd = some ReqCmd.bye } ∷ [], read_failed)
  unfolding read_reqs
  read_reqs-stream write_to_bytes reqs zero turns all h fast = absurd (omega arith)
  read_reqs-stream write_to_bytes [] (suc fuel) turns all h fast =
      rw (read_req-nil, fast 0 (omega arith)) refl
  read_reqs-stream write_to_bytes (req ∷ reqs) (suc fuel) turns ((short, back), all) h fast =
      rw
        (
          read_first write_to_bytes req (stream write_to_bytes reqs) short back,
          fast 0 (omega arith),
        )
        (ap (after_request req) (
          read_reqs-stream write_to_bytes reqs fuel (λ i. turns (suc i)) all (omega arith)
            (λ i le. fast (suc i) (omega arith))))
