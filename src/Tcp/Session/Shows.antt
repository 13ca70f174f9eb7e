-- ===== src/Tcp/Session/Shows.antt =====
-- What a step of a client of src/tcp/client.rs shows to the threads that share `signal`.
use rndz.Base.{
  ℕ, zero, suc, ◌≡◌, refl, sym, ◌∙◌, ap, Bool, true, false, Option, none, some, List, [], ◌∷◌, ◌++◌,
  arith,
}
use rndz.Tcp.Signal.{
  Listening, at_head, connecting, retrying, resting, rested, woken, Loops, running, ended, told,
  crashed, Closer, starting, State, new_link, notified, rouse, rouse_all, timed_out, spurious,
  listen_step, close_link, close_step, loops_at, at_link, end_loops, crash_loops, tell, notify_all,
}
use rndz.Tcp.Signal
use rndz.Tcp.Signal.Lost.{close_step-loops}
use rndz.Tcp.Session.{
  Connection, Session, new_connection, shown, all_shown, shows, rouse_connections,
  notify_connections, at_connection, connections_after, go_on, tell_joined, close_connection,
}

-- A connection at an index.
unfoldable pub connection_at : ℕ → List Connection → Option Connection
connection_at i [] = none
connection_at zero (c ∷ cs) = some c
connection_at (suc i) (c ∷ cs) = connection_at i cs

pub all_shown-rouse :
    (cs : List Connection) → all_shown (rouse_connections cs) ≡ rouse_all (all_shown cs)
unfolding all_shown rouse_connections rouse_all
all_shown-rouse [] = refl
all_shown-rouse (c ∷ cs) =
    ap (λ l. shown (record c { closer = rouse c.closer }) ∷ l) (all_shown-rouse cs)

pub all_shown-append_new :
    (cs : List Connection) → all_shown (cs ++ new_connection ∷ []) ≡ all_shown cs ++ new_link ∷ []
unfolding all_shown
all_shown-append_new [] = refl
all_shown-append_new (c ∷ cs) = ap (λ l. shown c ∷ l) (all_shown-append_new cs)

-- A change of a connection shows as a change of the link.
pub all_shown-at :
    (g : Connection → Connection) (f : Signal.Link → Signal.Link) (i : ℕ) (cs : List Connection)
    → ((c : Connection) → connection_at i cs ≡ some c → shown (g c) ≡ f (shown c))
    → all_shown (at_connection g i cs) ≡ at_link f i (all_shown cs)
unfolding all_shown at_connection at_link connection_at
all_shown-at g f i [] h = refl
all_shown-at g f zero (c ∷ cs) h = ap (λ k. k ∷ all_shown cs) (h c refl)
all_shown-at g f (suc i) (c ∷ cs) h = ap (λ l. shown c ∷ l) (all_shown-at g f i cs h)

pub at_link-same :
    (f : Signal.Link → Signal.Link) (i : ℕ) (ks : List Signal.Link)
    → ((k : Signal.Link) → f k ≡ k)
    → at_link f i ks ≡ ks
unfolding at_link
at_link-same f i [] h = refl
at_link-same f zero (k ∷ ks) h = ap (λ x. x ∷ ks) (h k)
at_link-same f (suc i) (k ∷ ks) h = ap (λ l. k ∷ l) (at_link-same f i ks h)

pub absent :
    (g : Connection → Connection) (i : ℕ) (cs : List Connection)
    → connection_at i cs ≡ none
    → at_connection g i cs ≡ cs
unfolding connection_at at_connection
absent g i [] h = refl
absent g zero (c ∷ cs) h = cc
absent g (suc i) (c ∷ cs) h = ap (λ l. c ∷ l) (absent g i cs h)

-- The event of `Tcp.Signal` that a step of the loops is.
abbrev pub change : ℕ → Loops → Loops → List Signal.Event
change i running ended = Signal.Event.ends i ∷ []
change i running crashed = Signal.Event.crashes i ∷ []
change i running running = []
change i running told = []
change i ended new = []
change i told new = []
change i crashed new = []

pub shown-close :
    (exit : Bool) (c : Connection) → shown (close_connection exit c) ≡ close_link exit (shown c)
shown-close exit c =
    let k = close_link exit (shown c) in
    ap (λ x. record { loops = x; closer = k.closer; shut = k.shut })
      (sym (close_step-loops exit (shown c) c.closer))

pub links-go_on :
    (s : Session) (success : Bool) (l : Listening)
    → all_shown (connections_after s success l) ≡ (listen_step (shows s) success l).links
links-go_on s success at_head = refl
links-go_on s success Listening.waiting = refl
links-go_on s success woken = ground arith
links-go_on s true connecting = all_shown-append_new s.connections
links-go_on s false connecting = refl
links-go_on s success retrying = refl
links-go_on s success resting = refl
links-go_on s success rested = refl
links-go_on s success Listening.returned = refl
links-go_on s success Listening.panicked = refl

pub shows-go_on :
    (s : Session) (success : Bool)
    → shows (go_on s success) ≡ listen_step (shows s) success s.listening
shows-go_on s success =
    let t = listen_step (shows s) success s.listening in
    ap (λ ks. record { exit = t.exit; broken = t.broken; listening = t.listening; links = ks })
      (links-go_on s success s.listening)

pub shows-notify : (s : Session) → shows (notify_connections s) ≡ notify_all (shows s)
shows-notify s =
    ap (λ ks. record (notify_all (shows s)) { links = ks }) (all_shown-rouse s.connections)

pub shows-tell :
    (s : Session) (i : ℕ) (o : Option Loops) → shows (tell_joined s i o) ≡ tell (shows s) i o
shows-tell s i none = refl
shows-tell s i (some running) = refl
shows-tell s i (some told) = refl
shows-tell s i (some crashed) = refl
shows-tell s i (some ended) =
    shows-notify _
    ∙ ap (λ ks. notify_all (record (shows s) { broken = true; links = ks }))
        (all_shown-at (λ c. record c { joined = true }) (λ k. record k { loops = told }) i
          s.connections (λ c h. refl))
