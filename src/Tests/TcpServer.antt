-- ===== src/Tests/TcpServer.antt =====
-- The server of src/tcp/server.rs at concrete inputs.
use mathlib.Core.Bool.{false≢true}
use rndz.Base.{String, ◌≡◌, ◌≢◌, refl, none, some, List, [], ◌∷◌, ◌++◌, arith, eq_iff}
use rndz.Map.{get}
use rndz.Net.{SocketAddr, v4}
use rndz.Proto.{ReqCmd, RespCmd, Request, request, response}
use rndz.Tcp.Handler.{PeerState, Proc, handle_cmd, handle_ping, handle_isync, fsync_request}
use rndz.Tcp.Server.{
  PeerHandler, Server, Event, accepted, received, acted, closed, new, disconnect, register, step,
  run,
}
use rndz.Tcp.Server.Calls.{Has}
use rndz.Tcp.Server.Routing.{IsRouted}
use rndz.Tcp.Server.Routing.Runs.{run-IsRouted}
use rndz.Tcp.Server.Table.{takeover}
use rndz.Tcp.Server.Rendezvous.{serve, AreReady}
use rndz.Tcp.Server.Names.{two_names}
use rndz.Tcp.Server.Waiting.{waits_forever}
use rndz.Tests.Addresses.{strokes_text}

abbrev addr_j : SocketAddr
addr_j = v4 3 1

abbrev addr_k : SocketAddr
addr_k = v4 5 2

-- The client "k" connects and pings, and is answered; another client connects.
abbrev start : List Event
start =
    accepted addr_k
    ∷ received 1 (request "k" ReqCmd.ping)
    ∷ acted 1 5
    ∷ acted 1 6
    ∷ acted 1 7
    ∷ accepted addr_j
    ∷ []

abbrev pub task_k : PeerHandler
task_k = record {
  peer_id = "k";
  id = 1;
  req_tx = 1;
  addr = addr_k;
  queue = [];
  written = response "" RespCmd.pong ∷ [];
  running = Proc.ok;
}

abbrev pub task_j : PeerHandler
task_j = record {
  peer_id = "";
  id = 2;
  req_tx = 2;
  addr = addr_j;
  queue = [];
  written = [];
  running = Proc.ok;
}

abbrev entry_k : PeerState
entry_k = record { id = 1; last_ping = 6; req_tx = 1; addr = addr_k }

pub started : Server
started = run strokes_text new start

started_tasks : (started.handlers 1 ≡ some task_k) × (started.handlers 2 ≡ some task_j)
unfolding started run new handle_cmd handle_ping
started_tasks = (refl, refl)

started_entry : get started.peers "k" ≡ some entry_k
unfolding started run new handle_cmd handle_ping
started_entry = refl

run-IsRouted_example : IsRouted (run strokes_text new start)
run-IsRouted_example = run-IsRouted strokes_text start (omega arith)

started-IsRouted : IsRouted started
unfolding started
started-IsRouted = run-IsRouted strokes_text start (omega arith)

j_not_k : ◌≢◌ {A = String} "j" "k"
j_not_k e = false≢true ((eq_iff "j" "k").1 e)

pub started-AreReady : AreReady started task_j task_k "j" "k"
started-AreReady = record {
  asker = started_tasks.1;
  target = started_tasks.0;
  apart = λ e. absurd (omega arith);
  names = j_not_k;
  own_name = refl;
  routed = started-IsRouted;
  entry = entry_k;
  found = started_entry;
  leads = refl;
}

takeover_example :
    (p : PeerState) × (get
        (disconnect (record started { peers = register started.peers task_j "k" 9 }) task_k).peers
        "k"
      ≡ some p)
    × (p.id ≡ 2)
takeover_example = takeover started task_j task_k "k" 9 (λ e. absurd (omega arith))

two_names_example :
    let once = serve strokes_text started task_j (request "a" ReqCmd.ping) 3 10 in
    let twice = serve strokes_text once task_j (request "b" ReqCmd.ping) 3 20 in
    let gone = step strokes_text twice (closed 2) in
    ((p : PeerState) × (get gone.peers "a" ≡ some p) × (p.id ≡ 2)) × (gone.handlers 2 ≡ none)
two_names_example =
    two_names strokes_text started task_j "a" "b" 10 20 started_tasks.1
      (λ e. false≢true ((eq_iff "a" "b").1 e))

-- "k" asks to be connected to itself, and goes on with ten pings before the server looks.
abbrev self_connect : Request
self_connect = request "k" (ReqCmd.isync (record { id = "k" }))

abbrev ten_pings : List Request
ten_pings = let p = request "k" ReqCmd.ping in p ∷ p ∷ p ∷ p ∷ p ∷ p ∷ p ∷ p ∷ p ∷ p ∷ []

abbrev arrivals : List Request → List Event
arrivals [] = []
arrivals (req ∷ reqs) = received 1 req ∷ arrivals reqs

abbrev self_events : List Event
self_events = start ++ received 1 self_connect ∷ acted 1 20 ∷ acted 1 21 ∷ arrivals ten_pings

waiting : Server
waiting = run strokes_text new self_events

abbrev waiting_task : PeerHandler
waiting_task = record task_k {
  queue = ten_pings;
  running =
      Proc.send 1 (fsync_request "k" (strokes_text.to_string addr_k))
        (Proc.insert_peerstate "k" Proc.ok);
}

waiting-Has : Has waiting waiting_task
unfolding waiting run new handle_cmd handle_ping handle_isync
waiting-Has = refl

waiting-IsRouted : IsRouted waiting
unfolding waiting
waiting-IsRouted = run-IsRouted strokes_text self_events (omega arith)

waiting_count : waiting.count ≡ 2
unfolding waiting run new handle_cmd handle_ping handle_isync
waiting_count = refl

waits_forever_example : Has (run strokes_text waiting (acted 1 30 ∷ acted 2 31 ∷ [])) waiting_task
waits_forever_example =
    waits_forever strokes_text (acted 1 30 ∷ acted 2 31 ∷ []) waiting waiting_task
      (fsync_request "k" (strokes_text.to_string addr_k)) (Proc.insert_peerstate "k" Proc.ok)
      (record { at = waiting-Has; sending = refl; full = omega arith }) waiting-IsRouted
      (omega (arith, waiting_count)) (λ e. cc, (λ e. cc, tt))
