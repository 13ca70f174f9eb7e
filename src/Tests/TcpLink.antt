-- ===== src/Tests/TcpLink.antt =====
-- The loops of a connection of the TCP clients, and a client with its loops, in concrete orders.
use rndz.Base.{
  ℕ, suc, String, ◌≡◌, ◌≤◌, refl, true, false, Option, none, some, List, [], ◌∷◌, arith, length,
  All,
}
use rndz.Net.{SocketAddr, v4}
use rndz.Proto.{ReqCmd, RespCmd, Response, response, request}
use rndz.Tcp.Link.{
  Kind, blocking, Reader, reading, returned, panicked, Writer, waiting, over, Event, gets,
  stream_ends, sends, times_out, writes, exits_reading, exits_writing, reader_gone, start, run,
  step,
}
use rndz.Tcp.Link
use rndz.Tcp.Link.Ends.{goes, write_loop_ends}
use rndz.Tcp.Signal
use rndz.Tcp.Signal.Live.{live}
use rndz.Tcp.Signal.Lost.{IsWaiting}
use rndz.Tcp.Session.{
  Connection, Session, shows, all_shown, listens, tells, closes, works, new_connection,
  at_connection, rouse_connections,
}
use rndz.Tcp.Session
use rndz.Tcp.Session.Shows.{connection_at}
use rndz.Tcp.Session.Refines.{shadows, calls, outer, session_refines}
use rndz.Tcp.Session.Reconnects.{reconnects}
use rndz.Tcp.Session.Dead.{IsDead}
use rndz.Tcp.Session.Fatal.{bad_fsync}

abbrev parse_some : String → Option SocketAddr
parse_some String.[] = none
parse_some (String.◌∷◌ c s) = some (v4 5 2)

abbrev fsync_k : Response
fsync_k = response "" (RespCmd.fsync (record { id = "k"; addr = "a" }))

abbrev bad : Response
bad = response "" (RespCmd.fsync (record { id = "k"; addr = "" }))

-- The Ping goes out, an Fsync is answered, and the stream ends.
abbrev exchange : List Event
exchange =
    writes true ∷ gets fsync_k ∷ writes true ∷ sends ∷ writes true ∷ stream_ends ∷ writes true ∷ []

exchanged : run blocking "j" parse_some start exchange ≡ record {
  reader = returned;
  writer = waiting;
  queue = [];
  received = fsync_k ∷ [];
  sent = request "j" ReqCmd.ping ∷ request "j" (ReqCmd.rsync (record { id = "k" })) ∷ [];
}
unfolding run step
exchanged = refl

abbrev repeat : ℕ → List Event
repeat ℕ.zero = []
repeat (suc n) = writes true ∷ repeat n

bad_read : reader_gone (run blocking "j" parse_some start (gets bad ∷ [])).reader ≡ true
unfolding run step
bad_read = refl

repeats : goes (repeat 22) ≡ 22
unfolding goes
repeats = refl

write_loop_ends_example :
    let l = run blocking "j" parse_some start (gets bad ∷ []) in
    ((run blocking "j" parse_some l (repeat 22)).writer ≡ over)
    × ((run blocking "j" parse_some l (repeat 22)).reader ≡ l.reader)
write_loop_ends_example =
    write_loop_ends "j" parse_some (gets bad ∷ []) (repeat 22) bad_read (omega (arith, repeats))

-- The connection ends, the client connects again.
abbrev breaks_once : List Session.Event
breaks_once =
    listens true
    ∷ works 0 stream_ends
    ∷ works 0 (writes true)
    ∷ works 0 (writes false)
    ∷ tells 0
    ∷ listens true
    ∷ listens true
    ∷ []

shadowed :
    shadows "j" parse_some Session.start breaks_once
    ≡ Signal.Event.listens true
      ∷ Signal.Event.ends 0
      ∷ Signal.Event.tells 0
      ∷ Signal.Event.listens true
      ∷ Signal.Event.listens true
      ∷ []
unfolding shadows connection_at Session.step Link.step at_connection all_shown Signal.loops_at
    rouse_connections
shadowed = refl

session_refines_example :
    (shows (Session.run "j" parse_some Session.start breaks_once)
      ≡ Signal.run Signal.start (shadows "j" parse_some Session.start breaks_once))
    × (calls (shadows "j" parse_some Session.start breaks_once) ≡ outer breaks_once)
    × (live (all_shown (Session.run "j" parse_some Session.start breaks_once).connections) ≤ 1)
session_refines_example = session_refines "j" parse_some breaks_once

bad_fsync_example :
    let t =
      Session.run "j" parse_some Session.start
        (works 0 (gets bad) ∷ listens true ∷ works 0 (writes true) ∷ tells 0 ∷ []) in
    (length t.connections ≡ 1) × All IsDead t.connections × IsWaiting t.listening
bad_fsync_example =
    bad_fsync "j" parse_some Session.start [] new_connection bad (record { id = "k"; addr = "" })
      (listens true ∷ works 0 (writes true) ∷ tells 0 ∷ []) refl tt refl tt refl refl refl
      (((λ e. cc), λ e. cc), (((λ e. cc), λ e. cc), (((λ e. cc), λ e. cc), tt)))

-- The loops of the only connection have ended while the thread of `listen` waits.
abbrev broken_off : Session
broken_off = record {
  exit = false;
  broken = false;
  listening = Signal.Listening.waiting;
  connections =
      record new_connection { link = record start { reader = returned; writer = over } } ∷ [];
}

reconnects_example :
    let woken = Session.run "j" parse_some broken_off (tells 0 ∷ closes 0 ∷ []) in
    let redone = Session.run "j" parse_some woken (listens true ∷ closes 0 ∷ []) in
    let t = Session.run "j" parse_some redone (listens true ∷ []) in
    (length t.connections ≡ 2) × (t.broken ≡ false) × (t.listening ≡ Signal.Listening.at_head)
unfolding connection_at
reconnects_example =
    reconnects "j" parse_some broken_off 0
      (record new_connection { link = record start { reader = returned; writer = over } })
      (closes 0 ∷ []) (closes 0 ∷ []) true refl refl refl refl refl refl (tt, tt) (tt, tt)
