-- ===== src/Tcp/Tasks/Missed.antt =====
-- When the task of `listen` in src/tcp/client_async.rs misses that the client is dropped.
use rndz.Base.{
  ℕ, suc, ◌≡◌, ◌≢◌, refl, sym, subst, Bool, true, false, List, [], ◌∷◌, arith, if◌then◌else◌, not,
  Bool-cases, inl, inr, length, ◌==◌,
}
use rndz.Tcp.Tasks.{
  Task, starting, listening, connecting, retrying, resting, finished, State, Event, goes,
  takes_exit, takes_broken, times_out, drops, connects, reads, writes, reader_selects,
  writer_selects, reader_exits, writer_exits, reader_fails, writer_fails, joins, step, run, select,
  on_exit, on_broken, timed_out, told_broken, connected, join, joinable,
}

-- The task is running and has not been notified of the exit.
abbrev pub unaware : Task → Bool
unaware starting = true
unaware (listening exit broken) = not exit
unaware connecting = true
unaware retrying = true
unaware (resting exit) = not exit
unaware finished = false

unaware-select : (t : Task) → unaware t ≡ true → unaware (select t) ≡ true
unaware-select t v = ground arith

unaware-on_exit : (t : Task) → unaware t ≡ true → unaware (on_exit t) ≡ true
unaware-on_exit t v = ground arith

unaware-on_broken : (t : Task) → unaware t ≡ true → unaware (on_broken t) ≡ true
unaware-on_broken t v = ground arith

unaware-timed_out : (t : Task) → unaware t ≡ true → unaware (timed_out t) ≡ true
unaware-timed_out t v = ground arith

unaware-told_broken : (t : Task) → unaware t ≡ true → unaware (told_broken t) ≡ true
unaware-told_broken t v = ground arith

-- The client has been dropped, and the task does not know.
record IsDeaf (s : State) : Type 0 where
  gone : s.dropped ≡ true
  deaf : unaware s.task ≡ true

connected-IsDeaf :
    (s : State) (success : Bool) (t : Task) → s.task ≡ t → IsDeaf s → IsDeaf (connected s success t)
connected-IsDeaf s true connecting h v = record { gone = v.gone; deaf = refl }
connected-IsDeaf s false connecting h v = record { gone = v.gone; deaf = refl }
connected-IsDeaf s success starting h v = v
connected-IsDeaf s success (listening exit broken) h v = v
connected-IsDeaf s success retrying h v = v
connected-IsDeaf s success (resting exit) h v = v
connected-IsDeaf s success finished h v = v

drops-IsDeaf : (s : State) → IsDeaf s → step s drops ≡ s
unfolding step
drops-IsDeaf s v = ground arith

joins-IsDeaf : (s : State) (i : ℕ) (b : Bool) → IsDeaf s → IsDeaf (if b then join s i else s)
joins-IsDeaf s i false v = v
joins-IsDeaf s i true v = record {
  gone = v.gone;
  deaf = elim (Bool-cases (suc i == length s.links)) [
    | inl e ↦ rw e (unaware-told_broken s.task v.deaf)
    | inr e ↦ rw e v.deaf
  ];
}

step-IsDeaf : (s : State) (e : Event) → IsDeaf s → IsDeaf (step s e)
unfolding step
step-IsDeaf s goes v = record { gone = v.gone; deaf = unaware-select s.task v.deaf }
step-IsDeaf s takes_exit v = record { gone = v.gone; deaf = unaware-on_exit s.task v.deaf }
step-IsDeaf s takes_broken v = record { gone = v.gone; deaf = unaware-on_broken s.task v.deaf }
step-IsDeaf s times_out v = record { gone = v.gone; deaf = unaware-timed_out s.task v.deaf }
step-IsDeaf s drops v = subst IsDeaf (sym (drops-IsDeaf s v)) v
step-IsDeaf s (connects success) v = connected-IsDeaf s success s.task refl v
step-IsDeaf s (reads i) v = record { gone = v.gone; deaf = v.deaf }
step-IsDeaf s (writes i) v = record { gone = v.gone; deaf = v.deaf }
step-IsDeaf s (reader_selects i) v = record { gone = v.gone; deaf = v.deaf }
step-IsDeaf s (writer_selects i) v = record { gone = v.gone; deaf = v.deaf }
step-IsDeaf s (reader_exits i) v = record { gone = v.gone; deaf = v.deaf }
step-IsDeaf s (writer_exits i) v = record { gone = v.gone; deaf = v.deaf }
step-IsDeaf s (reader_fails i) v = record { gone = v.gone; deaf = v.deaf }
step-IsDeaf s (writer_fails i) v = record { gone = v.gone; deaf = v.deaf }
step-IsDeaf s (joins i) v = joins-IsDeaf s i (joinable i s.links) v

run-IsDeaf : (s : State) (es : List Event) → IsDeaf s → IsDeaf (run s es)
unfolding run
run-IsDeaf s [] v = v
run-IsDeaf s (e ∷ es) v = run-IsDeaf (step s e) es (step-IsDeaf s e v)

finished-unaware : (t : Task) → unaware t ≡ true → t ≢ finished
finished-unaware t v = ground arith

-- Once the client has been dropped, the task of `listen` never ends, whatever happens afterwards, if it
-- still runs and no notification of the exit is pending for it: because it was not in a `select!` then,
-- or has taken the branch of the break although it was notified of the exit, too.
pub exit_missed :
    (s : State) (es : List Event)
    → s.dropped ≡ true
    → unaware s.task ≡ true
    → (run s es).task ≢ finished
exit_missed s es d u =
    let v = run-IsDeaf s es (record { gone = d; deaf = u }) in finished-unaware _ v.deaf
