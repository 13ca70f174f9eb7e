-- ===== src/Tcp/Session/Refines.antt =====
-- A client of src/tcp/client.rs with its loops is, to the threads that share `signal`, what
-- `Tcp.Signal` says.
use rndz.Base.{
  ℕ, ◌≤◌, ◌≡◌, refl, sym, ◌∙◌, ap, subst, String, Option, none, some, List, [], ◌∷◌, ◌++◌,
}
use rndz.Net.{SocketAddr}
use rndz.Tcp.Link.{
  Reader, reading, returned, panicked, sending, Writer, waiting, over, writing, reader_gone,
  get_response, end_stream, send, write, time_out,
}
use rndz.Tcp.Link
use rndz.Tcp.Signal.{
  rouse_link, Listening, at_head, connecting, retrying, resting, rested, woken, Loops, running,
  ended, told, crashed, Closer, starting, State, new_link, notified, rouse, rouse_all, timed_out,
  spurious, listen_step, close_link, close_step, loops_at, at_link, end_loops, crash_loops, tell,
  notify_all,
}
use rndz.Tcp.Signal
use rndz.Tcp.Session.{
  Connection, Session, start, all_shown, shows, Event, listens, times_out, wakes_up, shuts_down,
  tells, closes, stirs, works, at_connection, close_connection, rouse_connection, work, step, run,
}
use rndz.Tcp.Session.Shows.{
  absent, all_shown-at, change, connection_at, shown-close, shows-go_on, shows-notify, shows-tell,
}
use rndz.Tcp.Session.Working.{loops_before, loops_after, works_as, progress_by}
use rndz.Tcp.Signal.Live.{live}
use rndz.Tcp.Signal.Single.{one_connection}

-- The events but the ends of loops.
abbrev pub calls : List Signal.Event → List Signal.Event
calls [] = []
calls (Signal.Event.ends i ∷ es) = calls es
calls (Signal.Event.crashes i ∷ es) = calls es
calls (Signal.Event.listens success ∷ es) = Signal.Event.listens success ∷ calls es
calls (Signal.Event.times_out ∷ es) = Signal.Event.times_out ∷ calls es
calls (Signal.Event.wakes_up ∷ es) = Signal.Event.wakes_up ∷ calls es
calls (Signal.Event.shuts_down ∷ es) = Signal.Event.shuts_down ∷ calls es
calls (Signal.Event.tells i ∷ es) = Signal.Event.tells i ∷ calls es
calls (Signal.Event.closes i ∷ es) = Signal.Event.closes i ∷ calls es
calls (Signal.Event.stirs i ∷ es) = Signal.Event.stirs i ∷ calls es

abbrev pub outer : List Event → List Signal.Event
outer [] = []
outer (works i e ∷ es) = outer es
outer (listens success ∷ es) = Signal.Event.listens success ∷ outer es
outer (times_out ∷ es) = Signal.Event.times_out ∷ outer es
outer (wakes_up ∷ es) = Signal.Event.wakes_up ∷ outer es
outer (shuts_down ∷ es) = Signal.Event.shuts_down ∷ outer es
outer (tells i ∷ es) = Signal.Event.tells i ∷ outer es
outer (closes i ∷ es) = Signal.Event.closes i ∷ outer es
outer (stirs i ∷ es) = Signal.Event.stirs i ∷ outer es

module _ (id : String) (parse_addr : String → Option SocketAddr) where
  abbrev pub changes : ℕ → Link.Event → Option Connection → List Signal.Event
  changes i e none = []
  changes i e (some c) = change i (loops_before id parse_addr c) (loops_after id parse_addr e c)

  -- The events of `Tcp.Signal` that an event is.
  abbrev pub shadow : Session → Event → List Signal.Event
  shadow s (listens success) = Signal.Event.listens success ∷ []
  shadow s times_out = Signal.Event.times_out ∷ []
  shadow s wakes_up = Signal.Event.wakes_up ∷ []
  shadow s shuts_down = Signal.Event.shuts_down ∷ []
  shadow s (tells i) = Signal.Event.tells i ∷ []
  shadow s (closes i) = Signal.Event.closes i ∷ []
  shadow s (stirs i) = Signal.Event.stirs i ∷ []
  shadow s (works i e) = changes i e (connection_at i s.connections)

  shows-works :
      (s : Session) (i : ℕ) (e : Link.Event) (o : Option Connection)
      → connection_at i s.connections ≡ o
      → shows (record s { connections = at_connection (work id parse_addr e) i s.connections })
        ≡ Signal.run (shows s) (changes i e o)
  unfolding Signal.run
  shows-works s i e none h =
      ap (λ cs. shows (record s { connections = cs }))
        (absent (work id parse_addr e) i s.connections h)
  shows-works s i e (some c) h =
      works_as id parse_addr s i e c _ _ h refl refl (progress_by id parse_addr e c c.joined)

  shows-step :
      (s : Session) (e : Event) → shows (step id parse_addr s e) ≡ Signal.run (shows s) (shadow s e)
  unfolding step Signal.run Signal.step
  shows-step s (listens success) = shows-go_on s success
  shows-step s times_out = refl
  shows-step s wakes_up = refl
  shows-step s shuts_down = shows-notify _
  shows-step s (tells i) = shows-tell s i _
  shows-step s (closes i) =
      ap (λ ks. record (shows s) { links = ks })
        (all_shown-at (close_connection s.exit) (close_link s.exit) i s.connections
          (λ c h. shown-close s.exit c))
  shows-step s (stirs i) =
      ap (λ ks. record (shows s) { links = ks })
        (all_shown-at rouse_connection rouse_link i s.connections (λ c h. refl))
  shows-step s (works i e) = shows-works s i e _ refl

  run-append :
      (t : State) (xs ys : List Signal.Event)
      → Signal.run t (xs ++ ys) ≡ Signal.run (Signal.run t xs) ys
  unfolding Signal.run
  run-append t [] ys = refl
  run-append t (x ∷ xs) ys = run-append (Signal.step t x) xs ys

  unfoldable pub shadows : Session → List Event → List Signal.Event
  shadows s [] = []
  shadows s (e ∷ es) = shadow s e ++ shadows (step id parse_addr s e) es

  shows-run :
      (es : List Event) (s : Session)
      → shows (run id parse_addr s es) ≡ Signal.run (shows s) (shadows s es)
  unfolding run shadows Signal.run
  shows-run [] s = refl
  shows-run (e ∷ es) s =
      shows-run es (step id parse_addr s e)
      ∙ ap (λ t. Signal.run t (shadows (step id parse_addr s e) es)) (shows-step s e)
      ∙ sym (run-append (shows s) (shadow s e) (shadows (step id parse_addr s e) es))

  calls-change :
      (i : ℕ) (a b : Loops) (rest : List Signal.Event) → calls (change i a b ++ rest) ≡ calls rest
  calls-change i running ended rest = refl
  calls-change i running crashed rest = refl
  calls-change i running running rest = refl
  calls-change i running told rest = refl
  calls-change i ended b rest = refl
  calls-change i told b rest = refl
  calls-change i crashed b rest = refl

  calls-changes :
      (i : ℕ) (e : Link.Event) (o : Option Connection) (rest : List Signal.Event)
      → calls (changes i e o ++ rest) ≡ calls rest
  calls-changes i e none rest = refl
  calls-changes i e (some c) rest = calls-change i _ _ rest

  calls-shadows : (es : List Event) (s : Session) → calls (shadows s es) ≡ outer es
  unfolding shadows
  calls-shadows [] s = refl
  calls-shadows (listens success ∷ es) s =
      ap (λ l. Signal.Event.listens success ∷ l) (calls-shadows es _)
  calls-shadows (times_out ∷ es) s = ap (λ l. Signal.Event.times_out ∷ l) (calls-shadows es _)
  calls-shadows (wakes_up ∷ es) s = ap (λ l. Signal.Event.wakes_up ∷ l) (calls-shadows es _)
  calls-shadows (shuts_down ∷ es) s = ap (λ l. Signal.Event.shuts_down ∷ l) (calls-shadows es _)
  calls-shadows (tells i ∷ es) s = ap (λ l. Signal.Event.tells i ∷ l) (calls-shadows es _)
  calls-shadows (closes i ∷ es) s = ap (λ l. Signal.Event.closes i ∷ l) (calls-shadows es _)
  calls-shadows (stirs i ∷ es) s = ap (λ l. Signal.Event.stirs i ∷ l) (calls-shadows es _)
  calls-shadows (works i e ∷ es) s =
      calls-changes i e (connection_at i s.connections) _ ∙ calls-shadows es _

  -- Whatever a client and its loops do, the threads that share `signal` see a run of `Tcp.Signal`,
  -- with the same calls, time-outs and wakeups in the same order, in which a connection has ended,
  -- or has panicked, when its two loops have; so that, as there, at most one connection is live at
  -- a time.
  pub session_refines :
      (es : List Event)
      → (shows (run id parse_addr start es) ≡ Signal.run Signal.start (shadows start es))
        × (calls (shadows start es) ≡ outer es)
        × (live (all_shown (run id parse_addr start es).connections) ≤ 1)
  unfolding all_shown
  session_refines es =
      let e = shows-run es start in
      (
        e,
        calls-shadows es start,
        subst (λ (t : State). live t.links ≤ 1) (sym e) (one_connection (shadows start es)).0,
      )
