-- ===== src/Tests/TcpCalls.antt =====
-- The calls of a client of src/tcp/client.rs in a concrete order.
use rndz.Base.{suc, String, ◌≡◌, refl, true, Option, none, [], ◌∷◌, length}
use rndz.Net.{SocketAddr, v4}
use rndz.Tcp.Client.{Os, ok, choose_bind_addr, connect_server}
use rndz.Tcp.Signal.{returned}
use rndz.Tcp.Session.{listens, closes, run, step, at_connection, rouse_connections, all_shown}
use rndz.Tcp.Calls.{Client, Listening, new, listen, accept, answer, shutdown}
use rndz.Tcp.Calls.Spent.{Last, IsShut, IsIdle}
use rndz.Tcp.Calls.Again.{listen_again}

abbrev no_addr : String → Option SocketAddr
no_addr s = none

abbrev machine : Os
machine = record {
  resolve = λ s. ok (v4 7 1 ∷ []);
  new_socket = ok tt;
  set_reuse_address = ok tt;
  set_reuse_port = ok tt;
  bind_to = λ addr. ok tt;
  connect_to = λ local_addr server. ok (v4 5 9);
  write_all = ok tt;
}

abbrev succeeds : Listening
succeeds = record { backlog = ok tt; local_addr = v4 0 9 }

abbrev first_listen : Client
first_listen = (listen machine succeeds (new "s" "k" none)).1

-- The thread of the first `listen` waits, the client is shut down, and the thread ends.
abbrev stopped : Client
stopped =
    let c = record first_listen {
      session = run "k" no_addr first_listen.session (listens true ∷ closes 0 ∷ []);
    } in
    let d = shutdown c in record d { session = run "k" no_addr d.session (listens true ∷ []) }

stopped_exit : stopped.session.exit ≡ true
unfolding shutdown run step listen choose_bind_addr connect_server at_connection rouse_connections
    all_shown
stopped_exit = refl

stopped_returned : stopped.session.listening ≡ returned
unfolding shutdown run step listen choose_bind_addr connect_server at_connection rouse_connections
    all_shown
stopped_returned = refl

listens_again : (listen machine succeeds stopped).0 ≡ ok tt
unfolding listen choose_bind_addr connect_server shutdown
listens_again = refl

listen_again_example :
    let n = length stopped.session.connections in
    let s =
      run stopped.id no_addr (listen machine succeeds stopped).1.session (listens true ∷ []) in
    let t = run stopped.id no_addr s (closes n ∷ listens true ∷ []) in
    (accept (listen machine succeeds stopped).1 (ok (v4 5 7)) ≡ answer (ok (v4 5 7)))
    × (length t.connections ≡ suc n)
    × Last IsShut n t.connections
    × IsIdle t.listening
listen_again_example =
    listen_again no_addr machine succeeds stopped (listens true ∷ []) (listens true ∷ [])
      (ok (v4 5 7)) stopped_exit stopped_returned listens_again
