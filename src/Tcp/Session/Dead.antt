-- ===== src/Tcp/Session/Dead.antt =====
-- A connection of a client of src/tcp/client.rs of whose end nothing will be told any more.
use rndz.Base.{
  ℕ, zero, suc, ◌≡◌, ◌≢◌, refl, ◌∙◌, ap, subst, ◌⊎◌, inl, inr, String, Bool, true, false, Option,
  none, some, List, [], ◌∷◌, arith, All, length,
}
use rndz.Net.{SocketAddr}
use rndz.Proto.{ReqCmd}
use rndz.Tcp.Link.{
  Reader, reading, returned, panicked, sending, Writer, waiting, over, writing, reader_gone,
  get_response, end_stream, send, write, time_out, take_command,
}
use rndz.Tcp.Link
use rndz.Tcp.Link.Ends.{get_response-same, end_stream-same, send-same, time_out-same}
use rndz.Tcp.Signal.{Loops, running, ended, told, crashed, loops_at}
use mathlib.Core.Option.{some-injective}
use rndz.Tcp.Session.{
  Connection, Session, loops_of, seen_loops, shown, all_shown, at_connection, tell_joined, work,
}

-- The end of the connection has been told, or never will be.
abbrev pub IsDead : Connection → Type 0
IsDead c = (c.joined ≡ true) ⊎ (c.link.reader ≡ panicked)

loops_of-panicked : (w : Writer) → loops_of panicked w ≢ ended
loops_of-panicked over = λ h. cc
loops_of-panicked waiting = λ h. cc
loops_of-panicked (writing c) = λ h. cc

seen-panicked : (joined : Bool) (w : Writer) → seen_loops joined (loops_of panicked w) ≢ ended
seen-panicked true w = λ h. cc
seen-panicked false w = loops_of-panicked w

told_ends_not : told ≢ ended
told_ends_not = λ h. cc

shown-IsDead : (c : Connection) → IsDead c → (shown c).loops ≢ ended
shown-IsDead c (inl h) = λ e.
    told_ends_not (subst (λ b. seen_loops b (loops_of c.link.reader c.link.writer) ≡ ended) h e)
shown-IsDead c (inr h) = λ e.
    seen-panicked c.joined c.link.writer
      (subst (λ r. seen_loops c.joined (loops_of r c.link.writer) ≡ ended) h e)

pub tell_joined-same :
    (s : Session) (i : ℕ) (o : Option Loops) → o ≢ some ended → tell_joined s i o ≡ s
tell_joined-same s i none h = refl
tell_joined-same s i (some running) h = refl
tell_joined-same s i (some told) h = refl
tell_joined-same s i (some crashed) h = refl
tell_joined-same s i (some ended) h = absurd (h refl)

pub loops_at-IsDead :
    (i : ℕ) (cs : List Connection) → All IsDead cs → loops_at i (all_shown cs) ≢ some ended
unfolding loops_at all_shown
loops_at-IsDead i [] v = λ h. cc
loops_at-IsDead zero (c ∷ cs) (d, v) = λ h. shown-IsDead c d (some-injective _ _ h)
loops_at-IsDead (suc i) (c ∷ cs) (d, v) = loops_at-IsDead i cs v

pub at_connection-IsDead :
    (f : Connection → Connection) (i : ℕ) (cs : List Connection)
    → ((c : Connection) → IsDead c → IsDead (f c))
    → All IsDead cs
    → All IsDead (at_connection f i cs) × (length (at_connection f i cs) ≡ length cs)
unfolding at_connection
at_connection-IsDead f i [] keeps v = (v, refl)
at_connection-IsDead f zero (c ∷ cs) keeps (d, v) = ((keeps c d, v), refl)
at_connection-IsDead f (suc i) (c ∷ cs) keeps (d, v) =
    let (u, e) = at_connection-IsDead f i cs keeps v in ((d, u), ap suc e)

module _ (id : String) (parse_addr : String → Option SocketAddr) where
  reader-take_command :
      (l : Link.Link) (queue : List ReqCmd)
      → (take_command Link.blocking id parse_addr l queue).reader ≡ l.reader
  reader-take_command l [] = ground arith
  reader-take_command l (c ∷ queue) = refl

  reader-write :
      (l : Link.Link) (success : Bool) (w : Writer)
      → (write Link.blocking id parse_addr l success w).reader ≡ l.reader
  reader-write l success waiting = reader-take_command l l.queue
  reader-write l true (writing c) = refl
  reader-write l false (writing c) = refl
  reader-write l success over = refl

  -- A thread that has panicked does nothing any more.
  reader-step :
      (l : Link.Link) (e : Link.Event)
      → l.reader ≡ panicked
      → (Link.step Link.blocking id parse_addr l e).reader ≡ panicked
  unfolding Link.step
  reader-step l (Link.Event.gets resp) h =
      ap (λ (r : Link.Link). r.reader)
        (get_response-same id parse_addr l resp l.reader (ap reader_gone h))
      ∙ h
  reader-step l Link.Event.stream_ends h =
      end_stream-same id parse_addr l.reader (ap reader_gone h) ∙ h
  reader-step l Link.Event.sends h =
      ap (λ (r : Link.Link). r.reader) (send-same id parse_addr l l.reader (ap reader_gone h)) ∙ h
  reader-step l (Link.Event.writes success) h = reader-write l success l.writer ∙ h
  reader-step l Link.Event.times_out h =
      ap (λ (r : Link.Link). r.reader) (time_out-same id parse_addr l l.writer (ap reader_gone h))
      ∙ h
  reader-step l Link.Event.exits_reading h = h
  reader-step l Link.Event.exits_writing h = h

  pub work-IsDead : (e : Link.Event) (c : Connection) → IsDead c → IsDead (work id parse_addr e c)
  work-IsDead e c (inl h) = inl h
  work-IsDead e c (inr h) = inr (reader-step c.link e h)
