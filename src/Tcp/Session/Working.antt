-- ===== src/Tcp/Session/Working.antt =====
-- What a step of the two loops of a connection of src/tcp/client.rs shows.
use rndz.Base.{
  ℕ, ◌≡◌, ◌≢◌, refl, sym, ◌∙◌, ap, subst, ◌⊎◌, inl, inr, String, Bool, true, false, Option, some,
  List,
}
use rndz.Net.{SocketAddr}
use rndz.Tcp.Link.{
  Reader, reading, returned, panicked, sending, Writer, waiting, over, writing, reader_gone,
  get_response, end_stream, send, write, time_out,
}
use rndz.Tcp.Link
use rndz.Tcp.Link.Ends.{get_response-same, end_stream-same, send-same, time_out-same}
use rndz.Tcp.Signal.{
  Listening, at_head, connecting, retrying, resting, rested, woken, Loops, running, ended, told,
  crashed, Closer, starting, State, new_link, notified, rouse, rouse_all, timed_out, spurious,
  listen_step, close_link, close_step, loops_at, at_link, end_loops, crash_loops, tell, notify_all,
}
use rndz.Tcp.Signal
use mathlib.Core.Option.{some-injective}
use rndz.Tcp.Session.{
  Connection, Session, loops_of, seen_loops, shown, all_shown, shows, at_connection, work,
}
use rndz.Tcp.Session.Shows.{all_shown-at, at_link-same, change, connection_at}

ended_or_running :
    (r : Reader) (w : Writer) → (loops_of r w ≡ running) ⊎ ((reader_gone r ≡ true) × (w ≡ over))
ended_or_running reading over = inl refl
ended_or_running (sending c) over = inl refl
ended_or_running returned over = inr (refl, refl)
ended_or_running panicked over = inr (refl, refl)
ended_or_running r waiting = inl refl
ended_or_running r (writing c) = inl refl

loops_of-told : (r : Reader) (w : Writer) → loops_of r w ≢ told
loops_of-told reading over = λ h. cc
loops_of-told (sending c) over = λ h. cc
loops_of-told returned over = λ h. cc
loops_of-told panicked over = λ h. cc
loops_of-told r waiting = λ h. cc
loops_of-told r (writing c) = λ h. cc

module _ (id : String) (parse_addr : String → Option SocketAddr) where
  write-over :
      (l : Link.Link) (success : Bool) (w : Writer)
      → w ≡ over
      → write Link.blocking id parse_addr l success w ≡ l
  write-over l success w h =
      subst (λ x. write Link.blocking id parse_addr l success x ≡ l) (sym h) refl

  -- What has ended stays as it ended.
  pub same_loops :
      (l : Link.Link) (e : Link.Event)
      → reader_gone l.reader ≡ true
      → l.writer ≡ over
      → let r = Link.step Link.blocking id parse_addr l e in
        loops_of r.reader r.writer ≡ loops_of l.reader l.writer
  unfolding Link.step
  same_loops l (Link.Event.gets resp) g h =
      ap (λ (r : Link.Link). loops_of r.reader r.writer)
        (get_response-same id parse_addr l resp l.reader g)
  same_loops l Link.Event.stream_ends g h =
      ap (λ r. loops_of r l.writer) (end_stream-same id parse_addr l.reader g)
  same_loops l Link.Event.sends g h =
      ap (λ (r : Link.Link). loops_of r.reader r.writer) (send-same id parse_addr l l.reader g)
  same_loops l (Link.Event.writes success) g h =
      ap (λ (r : Link.Link). loops_of r.reader r.writer) (write-over l success l.writer h)
  same_loops l Link.Event.times_out g h =
      ap (λ (r : Link.Link). loops_of r.reader r.writer) (time_out-same id parse_addr l l.writer g)
  same_loops l Link.Event.exits_reading g h = refl
  same_loops l Link.Event.exits_writing g h = refl

  abbrev pub loops_before : Connection → Loops
  loops_before c = (shown c).loops

  abbrev pub loops_after : Link.Event → Connection → Loops
  loops_after e c = (shown (work id parse_addr e c)).loops

  pub progress_by :
      (e : Link.Event) (c : Connection) (joined : Bool)
      → let r = Link.step Link.blocking id parse_addr c.link e in
        let a = seen_loops joined (loops_of c.link.reader c.link.writer) in
        let b = seen_loops joined (loops_of r.reader r.writer) in
        ((a ≡ running) × (b ≢ told)) ⊎ (b ≡ a)
  progress_by e c true = inr refl
  progress_by e c false = elim (ended_or_running c.link.reader c.link.writer) [
    | inl h ↦ inl (h, loops_of-told _ _)
    | inr (g, h) ↦ inr (same_loops c.link e g h)
  ]

  pub shown-work :
      (F : Loops → Loops) (e : Link.Event) (i : ℕ) (cs : List Connection) (c : Connection)
      → connection_at i cs ≡ some c
      → loops_after e c ≡ F (loops_before c)
      → all_shown (at_connection (work id parse_addr e) i cs)
        ≡ at_link (λ k. record k { loops = F k.loops }) i (all_shown cs)
  shown-work F e i cs c at h =
      all_shown-at (work id parse_addr e) (λ k. record k { loops = F k.loops }) i cs
        λ d at'.
          subst
            (λ x. shown (work id parse_addr e x) ≡ record (shown x) { loops = F (loops_before x) })
            (some-injective c d (sym at ∙ at')) (ap (λ x. record (shown c) { loops = x }) h)

  pub shown-same :
      (e : Link.Event) (i : ℕ) (cs : List Connection) (c : Connection)
      → connection_at i cs ≡ some c
      → loops_after e c ≡ loops_before c
      → all_shown (at_connection (work id parse_addr e) i cs) ≡ all_shown cs
  shown-same e i cs c at h =
      shown-work (λ x. x) e i cs c at h
      ∙ at_link-same (λ k. record k { loops = k.loops }) i (all_shown cs) (λ k. refl)

  pub works_as :
      (s : Session) (i : ℕ) (e : Link.Event) (c : Connection) (a b : Loops)
      → connection_at i s.connections ≡ some c
      → loops_before c ≡ a
      → loops_after e c ≡ b
      → ((a ≡ running) × (b ≢ told)) ⊎ (b ≡ a)
      → shows (record s { connections = at_connection (work id parse_addr e) i s.connections })
        ≡ Signal.run (shows s) (change i a b)
  unfolding Signal.run Signal.step
  works_as s i e c running ended at p q h =
      ap (λ ks. record (shows s) { links = ks })
        (shown-work end_loops e i s.connections c at (q ∙ ap end_loops (sym p)))
  works_as s i e c running crashed at p q h =
      ap (λ ks. record (shows s) { links = ks })
        (shown-work crash_loops e i s.connections c at (q ∙ ap crash_loops (sym p)))
  works_as s i e c running running at p q h =
      ap (λ ks. record (shows s) { links = ks }) (shown-same e i s.connections c at (q ∙ sym p))
  works_as s i e c running told at p q h = elim h [ inl (u, v) ↦ absurd (v refl) | inr u ↦ cc ]
  works_as s i e c ended b at p q h = elim h [
    | inl (u, v) ↦ cc
    | inr u ↦
        ap (λ ks. record (shows s) { links = ks })
          (shown-same e i s.connections c at (q ∙ u ∙ sym p))
  ]
  works_as s i e c told b at p q h = elim h [
    | inl (u, v) ↦ cc
    | inr u ↦
        ap (λ ks. record (shows s) { links = ks })
          (shown-same e i s.connections c at (q ∙ u ∙ sym p))
  ]
  works_as s i e c crashed b at p q h = elim h [
    | inl (u, v) ↦ cc
    | inr u ↦
        ap (λ ks. record (shows s) { links = ks })
          (shown-same e i s.connections c at (q ∙ u ∙ sym p))
  ]
