-- ===== src/Tcp/Server/Names.antt =====
-- A connection of src/tcp/server.rs that uses two names.
use rndz.Base.{ℕ, String, ◌≡◌, refl, sym, ◌∙◌, ap, ◌≢◌, none, some, [], ◌∷◌, ◌++◌, subst}
use rndz.Map.{get}
use rndz.Net.{AddrText}
use rndz.Proto.{ReqCmd, RespCmd, request, response}
use rndz.Tcp.Handler.{PeerState, Proc, handle_cmd, handle_ping}
use rndz.Tcp.Server.{PeerHandler, Server, acted, closed, register, set_handler, step, run}
use rndz.Tcp.Server.Calls.{
  Has, Has-set_self, step-takes, step-insert_peerstate, step-write, step-closed,
}
use rndz.Tcp.Server.Table.{
  get-register_ne, disconnect_exact, handlers-disconnect, id-own_entry, own_entry,
  get-register_self,
}
use rndz.Tcp.Server.Methods.{acts, idle, with_request, run-acts, run-nil}
use rndz.Tcp.Server.Rendezvous.{serve, serve-eq, arrived}

module _ (t : AddrText) where
  -- The three actions of a ping.
  ping_actions :
      (s : Server) (h : PeerHandler) (k : String) (now : ℕ)
      → Has s (with_request h (request k ReqCmd.ping))
      → let r = run t s (acts 3 h.id now) in
        Has r
          (record (idle h) { peer_id = k; written = h.written ++ response "" RespCmd.pong ∷ [] })
        × (r.peers ≡ register s.peers (idle h) k now)
  unfolding handle_cmd handle_ping register
  ping_actions s h k now at =
      let req = request k ReqCmd.ping in
      let pong = response "" RespCmd.pong in
      let h1 : PeerHandler = record (idle h) {
        running = handle_cmd t h.addr h.peer_id k req.cmd;
      } in
      let s1 = set_handler s h.id (some h1) in
      let h2 : PeerHandler = record (idle h) { peer_id = k; running = Proc.write pong Proc.ok } in
      let s2 = set_handler (record s1 { peers = register s1.peers h1 k now }) h.id (some h2) in
      let h3 : PeerHandler = record (idle h) { peer_id = k; written = h.written ++ pong ∷ [] } in
      let s3 = set_handler s2 h.id (some h3) in
      let e1 : step t s (acted h.id now) ≡ s1 =
        step-takes t s (with_request h req) at req [] now refl refl in
      let e2 : step t s1 (acted h.id now) ≡ s2 =
        step-insert_peerstate t s1 h1 (Has-set_self s h1 h.id refl) k (Proc.write pong Proc.ok) now
          refl in
      let e3 : step t s2 (acted h.id now) ≡ s3 =
        step-write t s2 h2
          (Has-set_self (record s1 { peers = register s1.peers h1 k now }) h2 h.id refl) pong
          Proc.ok now refl in
      subst (λ r. Has r h3 × (r.peers ≡ register s.peers (idle h) k now))
        (sym (
          run-acts t s 2 h.id now e1
            (run-acts t s1 1 h.id now e2 (run-acts t s2 0 h.id now e3 (run-nil t s3)))))
        (Has-set_self s2 h3 h.id refl, refl)

  -- A ping served by an idle task, from its arrival on.
  pinged :
      (s : Server) (h : PeerHandler) (k : String) (now : ℕ)
      → Has s (idle h)
      → let r = serve t s h (request k ReqCmd.ping) 3 now in
        Has r
          (record (idle h) { peer_id = k; written = h.written ++ response "" RespCmd.pong ∷ [] })
        × (r.peers ≡ register s.peers (idle h) k now)
  pinged s h k now at =
      subst
        (λ r.
          Has r
            (record (idle h) { peer_id = k; written = h.written ++ response "" RespCmd.pong ∷ [] })
          × (r.peers ≡ register s.peers (idle h) k now))
        (sym (serve-eq t s h (request k ReqCmd.ping) 3 now at))
        (ping_actions (arrived t s h (request k ReqCmd.ping)) h k now
          (Has-set_self s (with_request h (request k ReqCmd.ping)) h.id refl))

  -- A connection whose client pings under a name `a`, then under another name `b`, and then closes,
  -- leaves the name `a` in the table: its entry has the number of a connection that is no more.
  pub two_names :
      (s : Server) (h : PeerHandler) (a b : String) (now later : ℕ)
      → Has s (idle h)
      → a ≢ b
      → let once = serve t s h (request a ReqCmd.ping) 3 now in
        let twice = serve t once h (request b ReqCmd.ping) 3 later in
        let gone = step t twice (closed h.id) in
        ((p : PeerState) × (get gone.peers a ≡ some p) × (p.id ≡ h.id))
        × (gone.handlers h.id ≡ none)
  two_names s h a b now later at other =
      let h1 : PeerHandler = record (idle h) {
        peer_id = a;
        written = h.written ++ response "" RespCmd.pong ∷ [];
      } in
      let h2 : PeerHandler = record h1 {
        peer_id = b;
        written = h1.written ++ response "" RespCmd.pong ∷ [];
      } in
      let once = serve t s h (request a ReqCmd.ping) 3 now in
      let twice = serve t once h (request b ReqCmd.ping) 3 later in
      let (at1, p1) = pinged s h a now at in
      let (at2, p2) = pinged once h1 b later at1 in
      let p = own_entry (idle h) now (get s.peers a) in
      let kept : get twice.peers a ≡ some p =
        ap (λ m. get m a) p2
        ∙ get-register_ne once.peers h1 b a later (λ e. other (sym e))
        ∙ ap (λ m. get m a) p1
        ∙ get-register_self s.peers (idle h) a now in
      subst
        (λ r.
          ((q : PeerState) × (get r.peers a ≡ some q) × (q.id ≡ h.id)) × (r.handlers h.id ≡ none))
        (sym (step-closed t twice h2 at2))
        (
          (
            p,
            (disconnect_exact twice h2 a p).1 (kept, λ q. other q.0),
            id-own_entry (idle h) now (get s.peers a),
          ),
          handlers-disconnect twice h2,
        )
