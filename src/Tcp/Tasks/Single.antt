-- ===== src/Tcp/Tasks/Single.antt =====
-- How many connections with the server the client of src/tcp/client_async.rs has at a time.
use mathlib.Core.Bool.{false≢true}
use rndz.Base.{
  ℕ, zero, suc, ◌+◌, ◌≤◌, ◌≡◌, refl, ◌∙◌, ap, Bool, true, false, List, [], ◌∷◌, ◌++◌, arith,
  if◌then◌else◌,
}
use rndz.Tcp.Tasks.{
  Task, starting, listening, connecting, retrying, resting, finished, State, Link, new_link, Event,
  goes, takes_exit, takes_broken, times_out, drops, connects, reads, writes, reader_selects,
  writer_selects, reader_exits, writer_exits, reader_fails, writer_fails, joins, step, run, start,
  select, on_exit, on_broken, timed_out, told_exit, connected, join, joinable, at_link, all_told,
  drop_client,
}

-- The connections that have not been joined.
abbrev pub unjoined : List Link → ℕ
unjoined [] = 0
unjoined (k ∷ links) = (if k.joined then 0 else 1) + unjoined links

-- The task has been notified of a break, or is on its way to a new connection.
abbrev pub redoing : Task → Bool
redoing starting = false
redoing (listening exit broken) = broken
redoing connecting = true
redoing retrying = true
redoing (resting exit) = true
redoing finished = false

redoing-select : (t : Task) → redoing (select t) ≡ true → redoing t ≡ true
redoing-select t h = ground arith

redoing-on_exit : (t : Task) → redoing (on_exit t) ≡ true → redoing t ≡ true
redoing-on_exit t h = ground arith

redoing-on_broken : (t : Task) → redoing (on_broken t) ≡ true → redoing t ≡ true
redoing-on_broken t h = ground arith

redoing-timed_out : (t : Task) → redoing (timed_out t) ≡ true → redoing t ≡ true
redoing-timed_out t h = ground arith

redoing-told_exit : (t : Task) → redoing (told_exit t) ≡ true → redoing t ≡ true
redoing-told_exit t h = ground arith

unjoined-all_told : (links : List Link) → unjoined (all_told links) ≡ unjoined links
unfolding all_told
unjoined-all_told [] = refl
unjoined-all_told (k ∷ links) = ap (λ n. (if k.joined then 0 else 1) + n) (unjoined-all_told links)

unjoined-append_new : (links : List Link) → unjoined (links ++ new_link ∷ []) ≡ unjoined links + 1
unjoined-append_new [] = refl
unjoined-append_new (k ∷ links) = omega (arith, unjoined-append_new links)

unjoined-at_link :
    (f : Link → Link) (i : ℕ) (links : List Link)
    → ((k : Link) → (f k).joined ≡ k.joined)
    → unjoined (at_link f i links) ≡ unjoined links
unfolding at_link
unjoined-at_link f i [] same = refl
unjoined-at_link f zero (k ∷ links) same = ap (λ b. (if b then 0 else 1) + unjoined links) (same k)
unjoined-at_link f (suc i) (k ∷ links) same =
    ap (λ n. (if k.joined then 0 else 1) + n) (unjoined-at_link f i links same)

unjoined-join :
    (i : ℕ) (links : List Link)
    → joinable i links ≡ true
    → suc (unjoined (at_link (λ k. record k { joined = true }) i links)) ≡ unjoined links
unfolding at_link joinable
unjoined-join i [] h = cc
unjoined-join zero (k ∷ links) h = ground arith
unjoined-join (suc i) (k ∷ links) h = omega (arith, unjoined-join i links h)

record IsSingle (s : State) : Type 0 where
  few : unjoined s.links ≤ 1
  redone : redoing s.task ≡ true → unjoined s.links ≡ 0

task-IsSingle :
    (s : State) (t : Task)
    → (redoing t ≡ true → redoing s.task ≡ true)
    → IsSingle s
    → IsSingle (record s { task = t })
task-IsSingle s t h v = record { few = v.few; redone = λ g. v.redone (h g) }

links-IsSingle :
    (s : State) (f : Link → Link) (i : ℕ)
    → ((k : Link) → (f k).joined ≡ k.joined)
    → IsSingle s
    → IsSingle (record s { links = at_link f i s.links })
links-IsSingle s f i same v =
    let e = unjoined-at_link f i s.links same in
    record { few = omega (arith, e, v.few); redone = λ h. e ∙ v.redone h }

connected-IsSingle :
    (s : State) (success : Bool) (t : Task)
    → s.task ≡ t
    → IsSingle s
    → IsSingle (connected s success t)
connected-IsSingle s true connecting h v =
    let e = unjoined-append_new s.links in
    let d = v.redone (ap redoing h) in
    record { few = omega (arith, e, d); redone = λ g. absurd (false≢true g) }
connected-IsSingle s false connecting h v = record {
  few = v.few;
  redone = λ g. v.redone (ap redoing h);
}
connected-IsSingle s success starting h v = v
connected-IsSingle s success (listening exit broken) h v = v
connected-IsSingle s success retrying h v = v
connected-IsSingle s success (resting exit) h v = v
connected-IsSingle s success finished h v = v

joined-IsSingle :
    (s : State) (i : ℕ) (b : Bool)
    → joinable i s.links ≡ b
    → IsSingle s
    → IsSingle (if b then join s i else s)
joined-IsSingle s i false h v = v
joined-IsSingle s i true h v =
    let e = unjoined-join i s.links h in
    record { few = omega (arith, e, v.few); redone = λ g. omega (arith, e, v.few) }

dropped-IsSingle : (s : State) (b : Bool) → IsSingle s → IsSingle (if b then s else drop_client s)
dropped-IsSingle s true v = v
dropped-IsSingle s false v =
    let e = unjoined-all_told s.links in
    record {
      few = omega (arith, e, v.few);
      redone = λ g. e ∙ v.redone (redoing-told_exit s.task g);
    }

step-IsSingle : (s : State) (e : Event) → IsSingle s → IsSingle (step s e)
unfolding step
step-IsSingle s goes v = task-IsSingle s _ (redoing-select s.task) v
step-IsSingle s takes_exit v = task-IsSingle s _ (redoing-on_exit s.task) v
step-IsSingle s takes_broken v = task-IsSingle s _ (redoing-on_broken s.task) v
step-IsSingle s times_out v = task-IsSingle s _ (redoing-timed_out s.task) v
step-IsSingle s drops v = dropped-IsSingle s s.dropped v
step-IsSingle s (connects success) v = connected-IsSingle s success s.task refl v
step-IsSingle s (reads i) v = links-IsSingle s _ i (λ k. refl) v
step-IsSingle s (writes i) v = links-IsSingle s _ i (λ k. refl) v
step-IsSingle s (reader_selects i) v = links-IsSingle s _ i (λ k. refl) v
step-IsSingle s (writer_selects i) v = links-IsSingle s _ i (λ k. refl) v
step-IsSingle s (reader_exits i) v = links-IsSingle s _ i (λ k. refl) v
step-IsSingle s (writer_exits i) v = links-IsSingle s _ i (λ k. refl) v
step-IsSingle s (reader_fails i) v = links-IsSingle s _ i (λ k. refl) v
step-IsSingle s (writer_fails i) v = links-IsSingle s _ i (λ k. refl) v
step-IsSingle s (joins i) v = joined-IsSingle s i _ refl v

run-IsSingle : (es : List Event) (s : State) → IsSingle s → IsSingle (run s es)
unfolding run
run-IsSingle [] s v = v
run-IsSingle (e ∷ es) s v = run-IsSingle es (step s e) (step-IsSingle s e v)

-- Whatever the tasks of an asynchronous client do after `listen`, in whichever order, at most one
-- of its connections has not been joined at a time; and none while the task of `listen` has a break
-- to take up or is on its way to a new connection.
pub one_unjoined :
    (es : List Event)
    → (unjoined (run start es).links ≤ 1)
      × (redoing (run start es).task ≡ true → unjoined (run start es).links ≡ 0)
one_unjoined es =
    let v =
      run-IsSingle es start (record { few = omega arith; redone = λ h. absurd (false≢true h) }) in
    (v.few, v.redone)
