-- ===== src/Tcp/Signal.antt =====
-- The threads of src/tcp/client.rs that share its `signal`, a mutex with a condition variable: the
-- thread that `listen` starts, and the threads that `start_background` starts for each connection
-- with the server. Each step is what a thread does without letting go of the mutex; an interleaving
-- is a list of events.
pub mod Waking
pub mod Lost
pub mod Exit
pub mod Live
pub mod Single
use rndz.Base.{
  ℕ, zero, suc, Bool, true, false, Option, none, some, List, [], ◌∷◌, ◌++◌, map, if◌then◌else◌,
}

-- Where the thread of `listen` stands: at the head of its loop; in `cvar.wait`, and after it; before
-- a call of `start_background`, and after one that failed; in `cvar.wait_timeout`, and after it; at
-- its end, and at the failure of its assertion. (That failure poisons the mutex, so that the other
-- threads fail when they take it; they are not followed there.)
pub data Listening : Type 0 where
  at_head waiting woken connecting retrying resting rested returned panicked : Listening

-- The two loops of a connection and the thread that joins them: they run; both have ended; that has
-- been told; or one has panicked, and the joining thread with it.
pub data Loops : Type 0 where
  running ended told crashed : Loops

-- The thread that shuts a connection down: before its wait, in it, after it, and at its end.
pub data Closer : Type 0 where
  starting sleeping roused gone : Closer

-- A connection with the server: `shut` is set when the socket is shut down.
pub record Link : Type 0 where
  pub loops : Loops
  pub closer : Closer
  pub shut : Bool

-- `Signal`, the thread of `listen`, and the connections.
pub record State : Type 0 where
  pub exit : Bool
  pub broken : Bool
  pub listening : Listening
  pub links : List Link

abbrev pub new_link : Link
new_link = record { loops = running; closer = starting; shut = false }

-- `listen`, when its first `start_background` has succeeded.
abbrev pub start : State
start = record { exit = false; broken = false; listening = at_head; links = new_link ∷ [] }

abbrev pub notified : Listening → Listening
notified waiting = woken
notified resting = rested
notified l = l

abbrev pub rouse : Closer → Closer
rouse sleeping = roused
rouse c = c

abbrev pub rouse_link : Link → Link
rouse_link k = record k { closer = rouse k.closer }

unfoldable pub rouse_all : List Link → List Link
rouse_all [] = []
rouse_all (k ∷ links) = rouse_link k ∷ rouse_all links

-- `cvar.notify_all()`
abbrev pub notify_all : State → State
notify_all s = record s { listening = notified s.listening; links = rouse_all s.links }

-- `shutdown`
abbrev pub shut_down : State → State
shut_down s = notify_all (record s { exit = true })

-- What may happen: the thread of `listen` goes on, where `start_background` succeeds or not; its wait
-- times out; its wait ends for no reason, as the standard library allows, and so may that of the
-- closing thread of a connection (`stirs`); the loops of a connection end, or one of them panics;
-- the joining thread, or the closing thread, of a connection goes on; `shutdown` is called.
pub data Event : Type 0 where
  listens : Bool → Event
  times_out wakes_up shuts_down : Event
  ends crashes tells closes stirs : ℕ → Event

abbrev pub listen_step : State → Bool → Listening → State
listen_step s success at_head = record s { listening = if s.exit then returned else waiting }
listen_step s success waiting = s
listen_step s success woken =
    if s.exit
    then record s { listening = returned }
    else if s.broken
    then record s { broken = false; listening = connecting }
    else record s { listening = panicked }
listen_step s success connecting =
    if success
    then record s { listening = at_head; links = s.links ++ new_link ∷ [] }
    else record s { listening = retrying }
listen_step s success retrying = record s { listening = if s.exit then returned else resting }
listen_step s success resting = s
listen_step s success rested = record s { listening = if s.exit then returned else connecting }
listen_step s success returned = s
listen_step s success panicked = s

abbrev pub timed_out : Listening → Listening
timed_out resting = rested
timed_out l = l

abbrev pub spurious : Listening → Listening
spurious waiting = woken
spurious l = l

-- A change of the connection at an index.
unfoldable pub at_link : (Link → Link) → ℕ → List Link → List Link
at_link f i [] = []
at_link f zero (k ∷ links) = f k ∷ links
at_link f (suc i) (k ∷ links) = k ∷ at_link f i links

abbrev pub end_loops : Loops → Loops
end_loops running = ended
end_loops l = l

abbrev pub crash_loops : Loops → Loops
crash_loops running = crashed
crash_loops l = l

abbrev pub close_step : Bool → Link → Closer → Link
close_step exit k starting =
    if exit then record k { closer = gone; shut = true } else record k { closer = sleeping }
close_step exit k sleeping = k
close_step exit k roused =
    if exit then record k { closer = gone; shut = true } else record k { closer = gone }
close_step exit k gone = k

abbrev pub close_link : Bool → Link → Link
close_link exit k = close_step exit k k.closer

unfoldable pub loops_at : ℕ → List Link → Option Loops
loops_at i [] = none
loops_at zero (k ∷ links) = some k.loops
loops_at (suc i) (k ∷ links) = loops_at i links

-- The joining thread tells once, when the loops have ended.
abbrev pub tell : State → ℕ → Option Loops → State
tell s i (some ended) =
    notify_all
      (record s { broken = true; links = at_link (λ k. record k { loops = told }) i s.links })
tell s i (some running) = s
tell s i (some told) = s
tell s i (some crashed) = s
tell s i none = s

unfoldable pub step : State → Event → State
step s (listens success) = listen_step s success s.listening
step s times_out = record s { listening = timed_out s.listening }
step s wakes_up = record s { listening = spurious s.listening }
step s shuts_down = shut_down s
step s (ends i) = record s {
  links = at_link (λ k. record k { loops = end_loops k.loops }) i s.links;
}
step s (crashes i) = record s {
  links = at_link (λ k. record k { loops = crash_loops k.loops }) i s.links;
}
step s (tells i) = tell s i (loops_at i s.links)
step s (closes i) = record s { links = at_link (close_link s.exit) i s.links }
step s (stirs i) = record s { links = at_link rouse_link i s.links }

unfoldable pub run : State → List Event → State
unfolding step
run s [] = s
run s (e ∷ es) = run (step s e) es
