-- ===== src/Tcp/Calls/Again.antt =====
-- A `Client` of src/tcp/client.rs that listens again after `shutdown`.
use rndz.Base.{ℕ, suc, String, ◌≡◌, refl, sym, subst, inl, true, Option, List, ◌∷◌, length}
use rndz.Net.{SocketAddr}
use rndz.Tcp.Client.{Os, Result, err, ok}
use rndz.Tcp.Signal.{returned}
use rndz.Tcp.Session.{Session, new_connection, Event, closes, close_connection, step, run}
use rndz.Tcp.Calls.{begin, listened, listen, accept, accept_on, Accepted, answer}
use rndz.Tcp.Calls
use rndz.Tcp.Calls.Spent.{
  Last, IsIdle, IsShut, IsClosing, length-Last, Last-change, Last-new, closed-IsClosing,
  IsShut-IsKept, IsClosing-IsKept, IsSpent, run-IsSpent,
}

close-IsSpent :
    (id : String) (parse_addr : String → Option SocketAddr) (n : ℕ) (s : Session)
    → IsSpent IsClosing n s
    → IsSpent IsShut n (step id parse_addr s (closes n))
unfolding step
close-IsSpent id parse_addr n s v = record {
  exits = v.exits;
  stops = v.stops;
  last =
      Last-change IsClosing IsShut (close_connection s.exit) n s.connections
        (λ c p. subst (λ b. IsShut (close_connection b c)) (sym v.exits) (closed-IsClosing c p))
        v.last;
}

begin-IsSpent : (s : Session) → s.exit ≡ true → IsSpent IsClosing (length s.connections) (begin s)
begin-IsSpent s h = record {
  exits = h;
  stops = inl refl;
  last = Last-new IsClosing s.connections new_connection (inl refl);
}

listened-ok :
    (c : Calls.Client) (w : Calls.Listening) (r : Result SocketAddr) (result : Result SocketAddr)
    → (listened c w r).0 ≡ ok tt
    → ((listened c w r).1.session ≡ begin c.session)
      × (accept_on (listened c w r).1.listener result ≡ answer result)
listened-ok c w (err e) result h = cc
listened-ok c w (ok addr) result h = (refl, refl)

-- A client that has been shut down, and whose thread of `listen` has ended, may listen again with
-- success, so that `accept` asks its listener; but it gets no connection with the server that
-- lasts. Whatever its threads do then, when the thread that closes its new connection has looked at
-- `signal` once, that connection is shut down, no other one is added, and the thread of `listen` is
-- at the head of its loop or has ended.
pub listen_again :
    (parse_addr : String → Option SocketAddr) (os : Os) (w : Calls.Listening) (c : Calls.Client)
    (before after : List Event) (result : Result SocketAddr)
    → c.session.exit ≡ true
    → c.session.listening ≡ returned
    → (listen os w c).0 ≡ ok tt
    → let n = length c.session.connections in
      let s = run c.id parse_addr (listen os w c).1.session before in
      let t = run c.id parse_addr s (closes n ∷ after) in
      (accept (listen os w c).1 result ≡ answer result)
      × (length t.connections ≡ suc n)
      × Last IsShut n t.connections
      × IsIdle t.listening
unfolding listen accept run
listen_again parse_addr os w c before after result exits _ h =
    let (begun, asks) = listened-ok c w _ result h in
    let n = length c.session.connections in
    let a = subst (IsSpent IsClosing n) (sym begun) (begin-IsSpent c.session exits) in
    let b = run-IsSpent IsClosing IsClosing-IsKept n c.id parse_addr before _ a in
    let v =
      run-IsSpent IsShut IsShut-IsKept n c.id parse_addr after _
        (close-IsSpent c.id parse_addr n _ b) in
    (asks, length-Last IsShut n _ v.last, v.last, v.stops)
