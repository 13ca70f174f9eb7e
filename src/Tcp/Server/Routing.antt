-- ===== src/Tcp/Server/Routing.antt =====
-- The invariant that the table of peers of src/tcp/server.rs leads to the right connections, kept by
-- each way in which the state changes.
pub mod Runs
use mathlib.Core.Option.{some-injective}
use rndz.Base.{
  true, ℕ, suc, ◌+◌, ◌*◌, ◌%◌, ◌^◌, ◌≤◌, ◌<◌, String, ◌≡◌, refl, ◌∙◌, ap, sym, ◌⊎◌, inl, inr,
  Option, none, some, List, [], ◌∷◌, ◌++◌, arith, str_eq, eq_iff, ◌==◌, ltb, Bool-cases,
  Option-cases, length, length-append, not,
}
use rndz.Map.{Map, get, get_or, AllValues, AllValues-insert, AllValues-remove}
use rndz.Net.{SocketAddr, AddrText}
use rndz.Proto.{Request}
use rndz.Tcp.Handler.{PeerState, Proc, handle_cmd}
use rndz.Tcp.Server.{
  PeerHandler, Server, Event, accepted, received, acted, broken, closed, new, next_id, accept,
  set_handler, map_handler, update_handler, enqueue, continue, evict, register, unregister,
  disconnect, capacity, send_to, take_request, act, receive, fail_write, with_handler, step, run,
}

-- The task at number `i`: it has that number and that channel, the counter has passed it, and
-- its channel holds no more than its capacity.
pub record IsTask (count i : ℕ) (h : PeerHandler) : Type 0 where
  pub numbered : h.id ≡ i
  pub channelled : h.req_tx ≡ i
  pub counted : i ≤ count
  pub bounded : length h.queue ≤ capacity

-- An entry of the table: its channel is that of the connection of its number, and if that is still
-- open, its address is the one that the server observes there.
pub record IsRoute (count : ℕ) (handlers : ℕ → Option PeerHandler) (p : PeerState) : Type 0 where
  pub channelled : p.req_tx ≡ p.id
  pub counted : p.id ≤ count
  pub addressed : (h : PeerHandler) → handlers p.id ≡ some h → p.addr ≡ h.addr

pub record IsRouted (s : Server) : Type 0 where
  pub tasks : (i : ℕ) (h : PeerHandler) → s.handlers i ≡ some h → IsTask s.count i h
  pub table : AllValues (IsRoute s.count s.handlers) s.peers

pub new-IsRouted : IsRouted new
unfolding new
new-IsRouted = record { tasks = λ i h e. cc; table = λ k p e. cc }

-- A task that changes keeps its number, its channel and its address.
pub set_handler-IsRouted :
    (s : Server) (i : ℕ) (h h' : PeerHandler)
    → s.handlers i ≡ some h
    → h'.id ≡ h.id
    → h'.req_tx ≡ h.req_tx
    → h'.addr ≡ h.addr
    → length h'.queue ≤ capacity
    → IsRouted s
    → IsRouted (set_handler s i (some h'))
set_handler-IsRouted s i h h' at id tx addr room v = record {
  tasks = λ j g e. ground (arith, v.tasks j g, v.tasks i h);
  table = λ k p e. record {
    channelled = (v.table k p e).channelled;
    counted = (v.table k p e).counted;
    addressed = λ g e'. ground (arith, (v.table k p e).addressed g, (v.table k p e).addressed h);
  };
}

pub table-IsRouted :
    (s : Server) (peers : Map PeerState)
    → AllValues (IsRoute s.count s.handlers) peers
    → IsRouted s
    → IsRouted (record s { peers = peers })
table-IsRouted s peers all v = record { tasks = v.tasks; table = all }

pub remove_handler-IsRouted : (s : Server) (i : ℕ) → IsRouted s → IsRouted (set_handler s i none)
remove_handler-IsRouted s i v = record {
  tasks = λ j g e. ground (arith, v.tasks j g);
  table = λ k p e. record {
    channelled = (v.table k p e).channelled;
    counted = (v.table k p e).counted;
    addressed = λ g e'. ground (arith, (v.table k p e).addressed g);
  };
}

pub evict-AllValues :
    (P : PeerState → Type 0) (peers : Map PeerState) (k : String) (id : ℕ) (o : Option PeerState)
    → AllValues P peers
    → AllValues P (evict peers k id o)
evict-AllValues P peers k id none all = all
evict-AllValues P peers k id (some p) all = elim (Bool-cases (p.id == id)) [
  | inl e ↦ rw e all
  | inr e ↦ rw e (AllValues-remove P peers all k)
]

pub unregister-AllValues :
    (P : PeerState → Type 0) (peers : Map PeerState) (k : String) (id : ℕ) (o : Option PeerState)
    → AllValues P peers
    → AllValues P (unregister peers k id o)
unregister-AllValues P peers k id none all = all
unregister-AllValues P peers k id (some p) all = elim (Bool-cases (p.id == id)) [
  | inl e ↦ rw e (AllValues-remove P peers all k)
  | inr e ↦ rw e all
]

-- The entry that `insert_peerstate` leaves is the old one with a new time, or a fresh one.
pub register-AllValues :
    (P : PeerState → Type 0) (peers : Map PeerState) (h : PeerHandler) (k : String) (now : ℕ)
    → ((p : PeerState) → P p → P (record p { last_ping = now }))
    → P (record { id = h.id; last_ping = now; req_tx = h.req_tx; addr = h.addr })
    → AllValues P peers
    → AllValues P (register peers h k now)
unfolding register
register-AllValues P peers h k now later fresh all =
    AllValues-insert P _ kept k _ (elim (Option-cases (get (evict peers k h.id (get peers k)) k)) [
      | inl e ↦ rw e fresh
      | inr (p, e) ↦ rw e (later p (kept k p e))
    ])
  where
    kept : AllValues P (evict peers k h.id (get peers k))
    kept = evict-AllValues P peers k h.id (get peers k) all

pub accept-IsRouted :
    (s : Server) (addr : SocketAddr) → s.count + 1 < 2 ^ 64 → IsRouted s → IsRouted (accept s addr)
unfolding accept next_id
accept-IsRouted s addr fits v = record {
  tasks = λ j g e. ground (arith, v.tasks j g);
  table = λ k p e. record {
    channelled = (v.table k p e).channelled;
    counted = omega (arith, (v.table k p e).counted);
    addressed = λ g e'. ground (arith, (v.table k p e).addressed g, (v.table k p e).counted);
  };
}

pub disconnect-IsRouted : (s : Server) (h : PeerHandler) → IsRouted s → IsRouted (disconnect s h)
unfolding disconnect
disconnect-IsRouted s h v =
    remove_handler-IsRouted _ h.id
      (table-IsRouted s _ (unregister-AllValues _ s.peers _ _ (get s.peers h.peer_id) v.table) v)

pub update_handler-IsRouted :
    (s : Server) (i : ℕ) (f : PeerHandler → PeerHandler)
    → ((h : PeerHandler)
        → s.handlers i ≡ some h
        → ((f h).id ≡ h.id)
          × ((f h).req_tx ≡ h.req_tx)
          × ((f h).addr ≡ h.addr)
          × (length (f h).queue ≤ capacity))
    → IsRouted s
    → IsRouted (update_handler s i f)
update_handler-IsRouted s i f same v = elim (Option-cases (s.handlers i)) [
  | inl e ↦ rw (e, map_handler) (remove_handler-IsRouted s i v)
  | inr (h, e) ↦
      let (a, b, c, d) = same h e in
      rw (e, map_handler) (set_handler-IsRouted s i h (f h) e a b c d v)
]

pub continue-IsRouted :
    (s : Server) (i : ℕ) (p : Proc) → IsRouted s → IsRouted (update_handler s i (continue p))
continue-IsRouted s i p v =
    update_handler-IsRouted s i (continue p) (λ h e. (refl, refl, refl, (v.tasks i h e).bounded)) v

pub enqueue_bounded :
    (h : PeerHandler) (req : Request)
    → ltb (length h.queue) capacity ≡ true
    → length (enqueue req h).queue ≤ capacity
enqueue_bounded h req e = ground (arith, length-append h.queue (req ∷ []))

pub send_to-IsRouted :
    (s : Server) (h : PeerHandler) (tx : ℕ) (req : Request) (rest : Proc) (o : Option PeerHandler)
    → s.handlers tx ≡ o
    → IsRouted s
    → IsRouted (send_to s h tx req rest o)
unfolding send_to
send_to-IsRouted s h tx req rest none e v = continue-IsRouted s h.id rest v
send_to-IsRouted s h tx req rest (some target) e v =
    elim (Bool-cases (ltb (length target.queue) capacity)) [
      | inl room ↦ rw room (
          continue-IsRouted (update_handler s tx (enqueue req)) h.id rest (
            update_handler-IsRouted s tx (enqueue req)
              (λ g e'. (
                refl,
                refl,
                refl,
                enqueue_bounded g req (rw (← some-injective target g (sym e ∙ e')) room),
              ))
              v))
      | inr full ↦ rw full v
    ]
