-- ===== src/Tests/Tasks.antt =====
-- The tasks of src/tcp/client_async.rs in concrete orders.
use rndz.Base.{◌≤◌, ◌≡◌, ◌≢◌, refl, true, false, List, [], ◌∷◌}
use rndz.Tcp.Tasks.{
  listening, connecting, finished, over, State, Event, goes, takes_exit, takes_broken, drops,
  connects, reader_selects, writer_selects, reader_exits, writer_exits, joins, start, run, step,
  at_link, all_told, joinable,
}
use rndz.Tcp.Tasks.Single.{unjoined, redoing, one_unjoined}
use rndz.Tcp.Tasks.Missed.{exit_missed}

-- All tasks are in their `select!` when the client is dropped.
abbrev settled : List Event
settled = goes ∷ reader_selects 0 ∷ writer_selects 0 ∷ drops ∷ reader_exits 0 ∷ writer_exits 0 ∷ []

exits : (run start settled).task ≡ listening true false
unfolding run step at_link all_told
exits = refl

exits_first : (run (run start settled) (takes_exit ∷ [])).task ≡ finished
unfolding run step at_link all_told
exits_first = refl

-- The loops end and are joined before the task of `listen` goes on, which takes the branch of the
-- break.
abbrev dropped_connecting : State
dropped_connecting = record {
  dropped = true;
  task = connecting;
  links = record { reader = over; writer = over; joined = true } ∷ [];
}

joined_first : run (run start settled) (joins 0 ∷ takes_broken ∷ []) ≡ dropped_connecting
unfolding run step at_link all_told joinable
joined_first = refl

exit_missed_example :
    (run dropped_connecting (connects true ∷ goes ∷ drops ∷ takes_exit ∷ [])).task ≢ finished
exit_missed_example =
    exit_missed dropped_connecting (connects true ∷ goes ∷ drops ∷ takes_exit ∷ []) refl refl

one_unjoined_example :
    (unjoined (run start settled).links ≤ 1)
    × (redoing (run start settled).task ≡ true → unjoined (run start settled).links ≡ 0)
one_unjoined_example = one_unjoined settled
