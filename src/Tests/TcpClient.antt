-- ===== src/Tests/TcpClient.antt =====
-- The clients of src/tcp at concrete inputs.
use rndz.Base.{
  ◌≤◌, ℕ, zero, suc, String, ◌≡◌, ◌≢◌, refl, true, false, Option, none, some, List, [], ◌∷◌, arith,
  length, All,
}
use rndz.Net.{SocketAddr, v4}
use rndz.Proto.{ReqCmd, RespCmd, Response, response}
use rndz.Tcp.Client.{End, read_loop, read_loop_async}
use rndz.Tcp.Client.Loops.{read_loops_agree}
use rndz.Tcp.Signal.{
  at_head, panicked, returned, connecting, Event, listens, times_out, wakes_up, shuts_down, ends,
  tells, closes, running, told, Closer, starting, State, start, run, step, at_link, loops_at,
  rouse_all,
}
use rndz.Tcp.Signal.Waking.{assertion_holds}
use rndz.Tcp.Signal.Lost.{IsMute, IsWaiting, lost_wakeup}
use rndz.Tcp.Signal.Live.{live}
use rndz.Tcp.Signal.Single.{one_connection}
use rndz.Tcp.Signal.Exit.{goes, shutdown_ends}

-- A message is an Fsync of "k", from an address if its first byte is 1.
abbrev parse_fsync : List ℕ → Option Response
parse_fsync [] = none
parse_fsync (zero ∷ _) = some (response "" (RespCmd.fsync (record { id = "k"; addr = "" })))
parse_fsync (suc _ ∷ _) = some (response "" (RespCmd.fsync (record { id = "k"; addr = "a" })))

abbrev parse_any : String → Option SocketAddr
parse_any String.[] = none
parse_any (String.◌∷◌ c s) = some (v4 5 2)

read_loops_agree_example :
    (reqs : List ReqCmd) × (end : End) × (read_loop parse_fsync parse_any 7
        (0 ∷ 1 ∷ 1 ∷ 0 ∷ 1 ∷ 0 ∷ [])
      ≡ some (reqs, end))
    × (read_loop_async parse_fsync parse_any 7 (0 ∷ 1 ∷ 1 ∷ 0 ∷ 1 ∷ 0 ∷ []) ≡ some reqs)
read_loops_agree_example =
    read_loops_agree parse_fsync parse_any 7 (0 ∷ 1 ∷ 1 ∷ 0 ∷ 1 ∷ 0 ∷ []) (omega arith)

-- The connection breaks and the client connects again.
abbrev reconnects : List Event
reconnects = listens true ∷ closes 0 ∷ ends 0 ∷ tells 0 ∷ listens true ∷ listens true ∷ []

reconnected :
    (run start reconnects).links
    ≡ record { loops = told; closer = Closer.roused; shut = false }
      ∷ record { loops = running; closer = starting; shut = false }
      ∷ []
unfolding run step at_link loops_at rouse_all
reconnected = refl

assertion_holds_example : (run start reconnects).listening ≢ panicked
assertion_holds_example =
    assertion_holds reconnects
      ((λ e. cc), ((λ e. cc), ((λ e. cc), ((λ e. cc), ((λ e. cc), ((λ e. cc), tt))))))

-- The assertion does fail after a wait that ends for no reason.
assertion_fails : (run start (listens true ∷ wakes_up ∷ listens true ∷ [])).listening ≡ panicked
unfolding run step
assertion_fails = refl

-- The connection breaks before the thread of `listen` waits.
abbrev missed : State
missed = record {
  exit = false;
  broken = true;
  listening = at_head;
  links = record { loops = told; closer = starting; shut = false } ∷ [];
}

missed_reached : run start (ends 0 ∷ tells 0 ∷ []) ≡ missed
unfolding run step at_link loops_at rouse_all
missed_reached = refl

lost_wakeup_example :
    (length (run missed (listens true ∷ times_out ∷ tells 0 ∷ [])).links ≡ 1)
    × All (λ k. IsMute k.loops) (run missed (listens true ∷ times_out ∷ tells 0 ∷ [])).links
    × IsWaiting (run missed (listens true ∷ times_out ∷ tells 0 ∷ [])).listening
lost_wakeup_example =
    lost_wakeup missed (listens true ∷ times_out ∷ tells 0 ∷ [])
      (record { is_open = refl; waits = tt; mute = (tt, tt) })
      (((λ e. cc), λ e. cc), (((λ e. cc), λ e. cc), (((λ e. cc), λ e. cc), tt)))

-- The client is shut down while it connects.
abbrev reconnecting : State
reconnecting = record missed { broken = false; listening = connecting }

shutdown_ends_example :
    (run reconnecting (shuts_down ∷ listens true ∷ closes 1 ∷ listens true ∷ [])).listening
    ≡ returned
unfolding goes
shutdown_ends_example =
    shutdown_ends reconnecting (listens true ∷ closes 1 ∷ listens true ∷ []) (λ e. cc) (omega arith)

one_connection_example :
    (live (run start reconnects).links ≤ 1)
    × ((run start reconnects).broken ≡ true → live (run start reconnects).links ≡ 0)
one_connection_example = one_connection reconnects

live_again : live (run start reconnects).links ≡ 1
unfolding run step at_link loops_at rouse_all
live_again = refl
