-- ===== src/Tcp/Tasks.antt =====
-- The tasks of src/tcp/client_async.rs that wait for its `exit`, a `Notify`: the one that `listen`
-- starts, and the loops of each connection with the server, with the task that joins them and
-- notifies `broken`. A notification reaches the tasks that are in a `select!` then, and no others.
-- Each step is what a task does from one wait to the next; an interleaving is a list of events.
pub mod Missed
pub mod Single
use rndz.Base.{
  ℕ, zero, suc, Bool, true, false, Option, none, some, List, [], ◌∷◌, ◌++◌, length, ◌==◌, ◌&&◌, not,
  if◌then◌else◌,
}

-- A loop is in its `select!`, notified of the exit or not, is sending or writing, or is over.
pub data Loop : Type 0 where
  selecting : Bool → Loop
  busy over : Loop

-- A connection: `joined` is set when both loops are over and `broken` has been notified.
pub record Link : Type 0 where
  pub reader : Loop
  pub writer : Loop
  pub joined : Bool

-- The task of `listen`: before its first `select!`; in it, notified of the exit, and of the break, or
-- not; in `start_background`; after that has failed; in the second `select!`; and at its end.
pub data Task : Type 0 where
  starting : Task
  listening : Bool → Bool → Task
  connecting retrying : Task
  resting : Bool → Task
  finished : Task

pub record State : Type 0 where
  pub dropped : Bool
  pub task : Task
  pub links : List Link

abbrev pub new_link : Link
new_link = record { reader = busy; writer = busy; joined = false }

-- `listen`, when its first `start_background` has succeeded.
abbrev pub start : State
start = record { dropped = false; task = starting; links = new_link ∷ [] }

-- What may happen: the task of `listen` goes on to its next `select!`; that takes the branch of the
-- exit, of the break, or of the time-out; `start_background` succeeds or not; a loop goes to its
-- `select!`, takes the branch of the exit, or another one, or ends by an error or a closed channel;
-- a connection is joined; the client is dropped.
pub data Event : Type 0 where
  goes takes_exit takes_broken times_out drops : Event
  connects : Bool → Event
  reads writes : ℕ → Event
  reader_selects writer_selects : ℕ → Event
  reader_exits writer_exits : ℕ → Event
  reader_fails writer_fails : ℕ → Event
  joins : ℕ → Event

abbrev pub select : Task → Task
select starting = listening false false
select (listening exit broken) = listening exit broken
select connecting = connecting
select retrying = resting false
select (resting exit) = resting exit
select finished = finished

abbrev pub on_exit : Task → Task
on_exit starting = starting
on_exit (listening exit broken) = if exit then finished else listening exit broken
on_exit connecting = connecting
on_exit retrying = retrying
on_exit (resting exit) = if exit then finished else resting exit
on_exit finished = finished

abbrev pub on_broken : Task → Task
on_broken starting = starting
on_broken (listening exit broken) = if broken then connecting else listening exit broken
on_broken connecting = connecting
on_broken retrying = retrying
on_broken (resting exit) = resting exit
on_broken finished = finished

abbrev pub timed_out : Task → Task
timed_out starting = starting
timed_out (listening exit broken) = listening exit broken
timed_out connecting = connecting
timed_out retrying = retrying
timed_out (resting exit) = connecting
timed_out finished = finished

-- `exit.notify_waiters()`
abbrev pub told_exit : Task → Task
told_exit starting = starting
told_exit (listening exit broken) = listening true broken
told_exit connecting = connecting
told_exit retrying = retrying
told_exit (resting exit) = resting true
told_exit finished = finished

-- `broken.notify_waiters()`
abbrev pub told_broken : Task → Task
told_broken starting = starting
told_broken (listening exit broken) = listening exit true
told_broken connecting = connecting
told_broken retrying = retrying
told_broken (resting exit) = resting exit
told_broken finished = finished

abbrev pub loop_told : Loop → Loop
loop_told (selecting exit) = selecting true
loop_told busy = busy
loop_told over = over

unfoldable pub all_told : List Link → List Link
all_told [] = []
all_told (k ∷ links) =
    record k { reader = loop_told k.reader; writer = loop_told k.writer } ∷ all_told links

abbrev pub loop_selects : Loop → Loop
loop_selects (selecting exit) = selecting exit
loop_selects busy = selecting false
loop_selects over = over

abbrev pub loop_works : Loop → Loop
loop_works (selecting exit) = busy
loop_works busy = busy
loop_works over = over

abbrev pub loop_exits : Loop → Loop
loop_exits (selecting exit) = if exit then over else selecting exit
loop_exits busy = busy
loop_exits over = over

-- A change of the connection at an index.
unfoldable pub at_link : (Link → Link) → ℕ → List Link → List Link
at_link f i [] = []
at_link f zero (k ∷ links) = f k ∷ links
at_link f (suc i) (k ∷ links) = k ∷ at_link f i links

abbrev pub is_over : Loop → Bool
is_over (selecting exit) = false
is_over busy = false
is_over over = true

-- Whether the connection at an index can be joined now.
unfoldable pub joinable : ℕ → List Link → Bool
joinable i [] = false
joinable zero (k ∷ links) = is_over k.reader && (is_over k.writer && not k.joined)
joinable (suc i) (k ∷ links) = joinable i links

-- The task of `listen` waits for the break of the last connection only.
abbrev pub join : State → ℕ → State
join s i = record s {
  task = if suc i == length s.links then told_broken s.task else s.task;
  links = at_link (λ k. record k { joined = true }) i s.links;
}

abbrev pub connected : State → Bool → Task → State
connected s true connecting = record s { task = starting; links = s.links ++ new_link ∷ [] }
connected s false connecting = record s { task = retrying }
connected s success starting = s
connected s success (listening exit broken) = s
connected s success retrying = s
connected s success (resting exit) = s
connected s success finished = s

abbrev pub drop_client : State → State
drop_client s = record s { dropped = true; task = told_exit s.task; links = all_told s.links }

unfoldable pub step : State → Event → State
step s goes = record s { task = select s.task }
step s takes_exit = record s { task = on_exit s.task }
step s takes_broken = record s { task = on_broken s.task }
step s times_out = record s { task = timed_out s.task }
step s drops = if s.dropped then s else drop_client s
step s (connects success) = connected s success s.task
step s (reads i) = record s {
  links = at_link (λ k. record k { reader = loop_works k.reader }) i s.links;
}
step s (writes i) = record s {
  links = at_link (λ k. record k { writer = loop_works k.writer }) i s.links;
}
step s (reader_selects i) = record s {
  links = at_link (λ k. record k { reader = loop_selects k.reader }) i s.links;
}
step s (writer_selects i) = record s {
  links = at_link (λ k. record k { writer = loop_selects k.writer }) i s.links;
}
step s (reader_exits i) = record s {
  links = at_link (λ k. record k { reader = loop_exits k.reader }) i s.links;
}
step s (writer_exits i) = record s {
  links = at_link (λ k. record k { writer = loop_exits k.writer }) i s.links;
}
step s (reader_fails i) = record s { links = at_link (λ k. record k { reader = over }) i s.links }
step s (writer_fails i) = record s { links = at_link (λ k. record k { writer = over }) i s.links }
step s (joins i) = if joinable i s.links then join s i else s

unfoldable pub run : State → List Event → State
unfolding step
run s [] = s
run s (e ∷ es) = run (step s e) es
