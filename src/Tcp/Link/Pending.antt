-- ===== src/Tcp/Link/Pending.antt =====
-- What the threads of a connection of src/tcp/client.rs have answered and not yet written.
use mathlib.Core.List.{append-nil, append_assoc}
use rndz.Base.{
  ◌≤◌, ◌≡◌, ◌≢◌, refl, sym, ◌∙◌, ap, ◌⊎◌, inl, String, Option, none, some, List, [], ◌∷◌, ◌++◌,
  arith, length,
}
use rndz.Net.{SocketAddr}
use rndz.Proto.{ReqCmd, Request, Response, request}
use rndz.Tcp.Link.{
  Kind, Reader, reading, returned, panicked, sending, Writer, waiting, over, writing, Link, start,
  answer, bound,
}

-- The commands but the Pings.
abbrev pub not_ping : ReqCmd → List ReqCmd
not_ping ReqCmd.ping = []
not_ping (ReqCmd.isync i) = ReqCmd.isync i ∷ []
not_ping (ReqCmd.fsync f) = ReqCmd.fsync f ∷ []
not_ping (ReqCmd.rsync r) = ReqCmd.rsync r ∷ []
not_ping ReqCmd.bye = ReqCmd.bye ∷ []

abbrev pub no_pings : List ReqCmd → List ReqCmd
no_pings [] = []
no_pings (c ∷ cmds) = not_ping c ++ no_pings cmds

abbrev pub request_commands : Option ReqCmd → List ReqCmd
request_commands none = []
request_commands (some c) = not_ping c

abbrev pub commands : List Request → List ReqCmd
commands [] = []
commands (req ∷ reqs) = request_commands req.cmd ++ commands reqs

-- What each thread has in its hand.
abbrev pub reader_hand : Reader → List ReqCmd
reader_hand reading = []
reader_hand (sending c) = not_ping c
reader_hand returned = []
reader_hand panicked = []

abbrev pub writer_hand : Writer → List ReqCmd
writer_hand waiting = []
writer_hand (writing c) = not_ping c
writer_hand over = []

pub no_pings-append : (xs ys : List ReqCmd) → no_pings (xs ++ ys) ≡ no_pings xs ++ no_pings ys
no_pings-append [] ys = refl
no_pings-append (x ∷ xs) ys =
    ap (λ l. not_ping x ++ l) (no_pings-append xs ys)
    ∙ sym (append_assoc (not_ping x) (no_pings xs) (no_pings ys))

pub commands-append : (xs ys : List Request) → commands (xs ++ ys) ≡ commands xs ++ commands ys
commands-append [] ys = refl
commands-append (x ∷ xs) ys =
    ap (λ l. request_commands x.cmd ++ l) (commands-append xs ys)
    ∙ sym (append_assoc (request_commands x.cmd) (commands xs) (commands ys))

-- The writer has a Ping to write before anything else.
abbrev pub Greets : Writer → List ReqCmd → Type 0
Greets over queue = Unit
Greets (writing c) queue = c ≡ ReqCmd.ping
Greets waiting [] = ⊥
Greets waiting (c ∷ queue) = c ≡ ReqCmd.ping

module _ (kind : Kind) (id : String) (parse_addr : String → Option SocketAddr) where
  -- The Rsyncs that the responses call for: one for each Fsync whose address can be read.
  abbrev pub answers : List Response → List ReqCmd
  answers [] = []
  answers (resp ∷ resps) = reader_hand (answer kind id parse_addr resp.cmd) ++ answers resps

  pub answers-append : (xs ys : List Response) → answers (xs ++ ys) ≡ answers xs ++ answers ys
  answers-append [] ys = refl
  answers-append (x ∷ xs) ys =
      ap (λ l. reader_hand (answer kind id parse_addr x.cmd) ++ l) (answers-append xs ys)
      ∙ sym (append_assoc (reader_hand (answer kind id parse_addr x.cmd)) (answers xs) (answers ys))

  -- What has been answered and not been written.
  abbrev pub pending : Link → List ReqCmd
  pending l = writer_hand l.writer ++ (no_pings l.queue ++ reader_hand l.reader)

  abbrev pub StartsWithPing : List Request → Type 0
  StartsWithPing [] = ⊥
  StartsWithPing (req ∷ reqs) = req ≡ request id ReqCmd.ping

  pub record IsOrdered (l : Link) : Type 0 where
    pub fits : length l.queue ≤ bound
    pub rest : List ReqCmd
    pub order : commands l.sent ++ rest ≡ answers l.received
    pub waits : l.writer ≢ over → rest ≡ pending l
    pub greets : ((l.sent ≡ []) × Greets l.writer l.queue) ⊎ StartsWithPing l.sent

  pub start-IsOrdered : IsOrdered start
  start-IsOrdered = record {
    fits = omega arith;
    rest = [];
    order = refl;
    waits = λ h. refl;
    greets = inl (refl, refl);
  }

  pub answers-snoc :
      (xs : List Response) (x : Response)
      → answers (xs ++ x ∷ []) ≡ answers xs ++ reader_hand (answer kind id parse_addr x.cmd)
  answers-snoc xs x =
      answers-append xs (x ∷ [])
      ∙ ap (λ l. answers xs ++ l) (append-nil (reader_hand (answer kind id parse_addr x.cmd)))

  pub commands-snoc :
      (xs : List Request) (c : ReqCmd)
      → commands (xs ++ request id c ∷ []) ≡ commands xs ++ not_ping c
  commands-snoc xs c =
      commands-append xs (request id c ∷ []) ∙ ap (λ l. commands xs ++ l) (append-nil (not_ping c))

  pub Greets-append :
      (w : Writer) (queue : List ReqCmd) (c : ReqCmd) → Greets w queue → Greets w (queue ++ c ∷ [])
  Greets-append over queue c g = tt
  Greets-append (writing d) queue c g = g
  Greets-append waiting [] c g = absurd g
  Greets-append waiting (d ∷ queue) c g = g

  pub StartsWithPing-append :
      (sent : List Request) (req : Request)
      → StartsWithPing sent
      → StartsWithPing (sent ++ req ∷ [])
  StartsWithPing-append [] req g = absurd g
  StartsWithPing-append (r ∷ sent) req g = g

  -- The reader's hand, when the state of the reader is known.
  pub waits_with :
      (l : Link) (r : Reader)
      → l.reader ≡ r
      → (v : IsOrdered l) → l.writer ≢ over
      → v.rest ≡ writer_hand l.writer ++ (no_pings l.queue ++ reader_hand r)
  waits_with l r e v h =
      v.waits h ∙ ap (λ x. writer_hand l.writer ++ (no_pings l.queue ++ reader_hand x)) e
