-- ===== src/Tcp/Server/Calls.antt =====
-- The single actions of a task of src/tcp/server.rs: what each changes, and what it leaves.
use rndz.Base.{
  ℕ, ◌<◌, String, ◌≡◌, ◌∙◌, ap, ◌≢◌, Option, some, List, [], ◌∷◌, ◌++◌, arith, lt→ltb, length,
}
use rndz.Map.{get}
use rndz.Net.{AddrText}
use rndz.Proto.{Request, Response}
use rndz.Tcp.Handler.{PeerState, Proc, handle_cmd}
use rndz.Tcp.Server.{
  PeerHandler, Server, received, acted, closed, set_handler, map_handler, update_handler, enqueue,
  continue, register, capacity, send_to, take_request, act, disconnect, receive, with_handler, step,
}

-- Task `h` stands in the state, under its own number.
abbrev pub Has : Server → PeerHandler → Type 0
Has s h = s.handlers h.id ≡ some h

pub Has-set_self :
    (s : Server) (h : PeerHandler) (i : ℕ) → h.id ≡ i → Has (set_handler s i (some h)) h
Has-set_self s h i e = ground arith

pub Has-set_ne :
    (s : Server) (h : PeerHandler) (i : ℕ) (o : Option PeerHandler)
    → h.id ≢ i
    → Has s h
    → Has (set_handler s i o) h
Has-set_ne s h i o other at = ground arith

update_handler-eq :
    (s : Server) (h : PeerHandler) (f : PeerHandler → PeerHandler)
    → Has s h
    → update_handler s h.id f ≡ set_handler s h.id (some (f h))
update_handler-eq s h f at = ap (λ o. set_handler s h.id (map_handler f o)) at

module _ (t : AddrText) (s : Server) (h : PeerHandler) (at : Has s h) where
  pub step-acted :
      (p : Proc) (now : ℕ) → h.running ≡ p → step t s (acted h.id now) ≡ act t s h now p
  unfolding step
  step-acted p now e = rw (at, with_handler) (ap (act t s h now) e)

  pub step-closed : step t s (closed h.id) ≡ disconnect s h
  unfolding step
  step-closed = rw (at, with_handler)

  -- A request arrives and finds room in the channel.
  pub step-received :
      (req : Request)
      → length h.queue < capacity
      → step t s (received h.id req) ≡ set_handler s h.id (some (enqueue req h))
  unfolding step
  step-received req room = rw (at, receive) (ground arith)

  -- The next request goes to its method.
  pub step-takes :
      (req : Request) (rest : List Request) (now : ℕ)
      → h.running ≡ Proc.ok
      → h.queue ≡ req ∷ rest
      → step t s (acted h.id now)
        ≡ set_handler s h.id (
            some
              (record h { queue = rest; running = handle_cmd t h.addr h.peer_id req.id req.cmd }))
  unfolding act take_request
  step-takes req rest now e q = step-acted Proc.ok now e ∙ ap (take_request t s h) q

  pub step-lookup :
      (k : String) (f : Option PeerState → Proc) (o : Option PeerState) (now : ℕ)
      → h.running ≡ Proc.lookup k f
      → get s.peers k ≡ o
      → step t s (acted h.id now) ≡ set_handler s h.id (some (continue (f o) h))
  unfolding act
  step-lookup k f o now e found =
      step-acted (Proc.lookup k f) now e
      ∙ ap (λ x. set_handler s h.id (some (continue (f x) h))) found

  pub step-insert_peerstate :
      (k : String) (rest : Proc) (now : ℕ)
      → h.running ≡ Proc.insert_peerstate k rest
      → step t s (acted h.id now)
        ≡ set_handler
            (record s { peers = register s.peers h k now })
            h.id
            (some (record h { peer_id = k; running = rest }))
  unfolding act
  step-insert_peerstate k rest now e = step-acted (Proc.insert_peerstate k rest) now e

  pub step-write :
      (r : Response) (rest : Proc) (now : ℕ)
      → h.running ≡ Proc.write r rest
      → step t s (acted h.id now)
        ≡ set_handler s h.id (some (record h { written = h.written ++ r ∷ []; running = rest }))
  unfolding act
  step-write r rest now e = step-acted (Proc.write r rest) now e

  -- A send to another open task with room in its channel.
  pub step-send :
      (g : PeerHandler) (req : Request) (rest : Proc) (now : ℕ)
      → h.running ≡ Proc.send g.id req rest
      → Has s g
      → h.id ≢ g.id
      → length g.queue < capacity
      → step t s (acted h.id now)
        ≡ set_handler (set_handler s g.id (some (enqueue req g))) h.id (some (continue rest h))
  unfolding act send_to
  step-send g req rest now e has other room =
      step-acted (Proc.send g.id req rest) now e
      ∙ ap (send_to s h g.id req rest) has
      ∙ rw (lt→ltb _ _ room) (
          ap (λ r. update_handler r h.id (continue rest)) (update_handler-eq s g (enqueue req) has)
          ∙ update_handler-eq (set_handler s g.id (some (enqueue req g))) h (continue rest)
              (Has-set_ne s h g.id (some (enqueue req g)) other at))
