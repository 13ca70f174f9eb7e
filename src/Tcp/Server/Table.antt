-- ===== src/Tcp/Server/Table.antt =====
-- The table of peers of src/tcp/server.rs: what a registration and the end of a task do to it.
use rndz.Base.{
  ℕ, String, ◌≡◌, refl, sym, ◌∙◌, ◌≢◌, ◌↔◌, Option, none, some, arith, ◌==◌, if◌then◌else◌, eq_iff,
}
use rndz.Map.{Map, get}
use rndz.Tcp.Handler.{PeerState}
use rndz.Tcp.Server.{PeerHandler, Server, register, unregister, disconnect}

abbrev pub own_entry : PeerHandler → ℕ → Option PeerState → PeerState
own_entry h now none = record { id = h.id; last_ping = now; req_tx = h.req_tx; addr = h.addr }
own_entry h now (some q) =
    if q.id == h.id
    then record q { last_ping = now }
    else record { id = h.id; last_ping = now; req_tx = h.req_tx; addr = h.addr }

pub get-register_self :
    (peers : Map PeerState) (h : PeerHandler) (k : String) (now : ℕ)
    → get (register peers h k now) k ≡ some (own_entry h now (get peers k))
unfolding register
get-register_self peers h k now = ground (arith, eq_iff k k)

pub id-own_entry :
    (h : PeerHandler) (now : ℕ) (o : Option PeerState) → (own_entry h now o).id ≡ h.id
id-own_entry h now none = refl
id-own_entry h now (some q) = ground arith

own_entry-IsOwn :
    (h : PeerHandler) (now : ℕ) (o : Option PeerState)
    → ((q : PeerState) → o ≡ some q → q.id ≡ h.id → (q.req_tx ≡ h.req_tx) × (q.addr ≡ h.addr))
    → let p = own_entry h now o in
      (p.id ≡ h.id) × (p.last_ping ≡ now) × (p.req_tx ≡ h.req_tx) × (p.addr ≡ h.addr)
own_entry-IsOwn h now none own = (refl, refl, refl, refl)
own_entry-IsOwn h now (some q) own = ground (arith, own q refl)

pub get-register_ne :
    (peers : Map PeerState) (h : PeerHandler) (k j : String) (now : ℕ)
    → k ≢ j
    → get (register peers h k now) j ≡ get peers j
unfolding register
get-register_ne peers h k j now other = ground (arith, eq_iff k j)

-- If the table's entry under the name `k`, where it bears the task's number, has the task's channel
-- and address, then a registration under `k` leaves there an entry with the number, the channel and
-- the address of the task and with the time of the registration, whoever held the name before, and
-- it changes no other entry.
pub register_own :
    (peers : Map PeerState) (h : PeerHandler) (k : String) (now : ℕ)
    → ((q : PeerState)
        → get peers k ≡ some q
        → q.id ≡ h.id
        → (q.req_tx ≡ h.req_tx) × (q.addr ≡ h.addr))
    → ((p : PeerState) × (get (register peers h k now) k ≡ some p)
        × (p.id ≡ h.id)
        × (p.last_ping ≡ now)
        × (p.req_tx ≡ h.req_tx)
        × (p.addr ≡ h.addr))
      × ((j : String) → k ≢ j → get (register peers h k now) j ≡ get peers j)
register_own peers h k now own =
    let (a, b, c, d) = own_entry-IsOwn h now (get peers k) own in
    (
      (own_entry h now (get peers k), get-register_self peers h k now, a, b, c, d),
      λ j. get-register_ne peers h k j now,
    )

unregister_exact :
    (m : Map PeerState) (k : String) (id : ℕ) (j : String) (p : PeerState)
    → (get (unregister m k id (get m k)) j ≡ some p)
      ↔ ((get m j ≡ some p) × ¬ ((j ≡ k) × (p.id ≡ id)))
unregister_exact m k id j p = (
  λ x. (ground (arith, eq_iff k j), λ e. ground (arith, eq_iff k j)),
  λ x. ground (arith, eq_iff k j),
)

-- The end of a task removes the entry under its last name if that bears its number, and no other.
pub disconnect_exact :
    (s : Server) (h : PeerHandler) (k : String) (p : PeerState)
    → (get (disconnect s h).peers k ≡ some p)
      ↔ ((get s.peers k ≡ some p) × ¬ ((k ≡ h.peer_id) × (p.id ≡ h.id)))
unfolding disconnect
disconnect_exact s h k p = unregister_exact s.peers h.peer_id h.id k p

pub handlers-disconnect : (s : Server) (h : PeerHandler) → (disconnect s h).handlers h.id ≡ none
unfolding disconnect
handlers-disconnect s h = ground arith

-- When the connection of task `g` has taken over the name `k` and then the older task `h` ends, the
-- name still leads to `g`.
pub takeover :
    (s : Server) (g h : PeerHandler) (k : String) (now : ℕ)
    → g.id ≢ h.id
    → (p : PeerState) × (get (disconnect (record s { peers = register s.peers g k now }) h).peers k
        ≡ some p)
      × (p.id ≡ g.id)
takeover s g h k now other =
    let p = own_entry g now (get s.peers k) in
    let own : p.id ≡ g.id = id-own_entry g now (get s.peers k) in
    (
      p,
      (disconnect_exact (record s { peers = register s.peers g k now }) h k p).1
          (get-register_self s.peers g k now, λ q. other (sym own ∙ q.1)),
      own,
    )
