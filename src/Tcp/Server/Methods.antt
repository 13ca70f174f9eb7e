-- ===== src/Tcp/Server/Methods.antt =====
-- The methods of a task of src/tcp/server.rs that lead to a rendezvous, run action by action with no
-- other task between.
use rndz.Base.{
  ℕ, zero, suc, ◌<◌, String, ◌≡◌, refl, sym, ◌∙◌, ap, ◌≢◌, some, List, [], ◌∷◌, ◌++◌, length,
  str_eq-false, eq_refl, subst,
}
use rndz.Map.{get}
use rndz.Net.{AddrText}
use rndz.Proto.{ReqCmd, RespCmd, Fsync, Request, request, response}
use rndz.Tcp.Handler.{
  PeerState, Proc, handle_cmd, handle_isync, handle_rsync, handle_fsync, fsync_request, forward,
  redirect_to,
}
use rndz.Tcp.Server.{
  PeerHandler, Server, Event, acted, set_handler, enqueue, continue, register, capacity, step, run,
}
use rndz.Tcp.Server.Calls.{
  Has, Has-set_self, Has-set_ne, step-takes, step-lookup, step-insert_peerstate, step-write,
  step-send,
}

-- `n` actions in a row of the task at `i`, at time `now`.
abbrev pub acts : ℕ → ℕ → ℕ → List Event
acts zero i now = []
acts (suc n) i now = acted i now ∷ acts n i now

-- A task between two methods, with one request in its channel.
abbrev pub with_request : PeerHandler → Request → PeerHandler
with_request h req = record h { queue = req ∷ []; running = Proc.ok }

abbrev pub idle : PeerHandler → PeerHandler
idle h = record h { queue = []; running = Proc.ok }

module _ (t : AddrText) where
  open t use {to_string}

  pub run-nil : (s : Server) → run t s [] ≡ s
  unfolding run
  run-nil s = refl

  pub run-acts :
      (s : Server) (n i now : ℕ) {r q : Server}
      → step t s (acted i now) ≡ r
      → run t r (acts n i now) ≡ q
      → run t s (acts (suc n) i now) ≡ q
  unfolding run
  run-acts s n i now first after = ap (λ x. run t x (acts n i now)) first ∙ after

  -- The four actions of an Isync to a registered peer.
  pub isync_actions :
      (s : Server) (h g : PeerHandler) (k : String) (p : PeerState) (src : String) (now : ℕ)
      → let req = request src (ReqCmd.isync (record { id = k })) in
        let h' = with_request h req in
        Has s h'
        → Has s g
        → h.id ≢ g.id
        → get s.peers k ≡ some p
        → p.req_tx ≡ g.id
        → length g.queue < capacity
        → let r = run t s (acts 4 h.id now) in
          Has r (record (idle h) { peer_id = src })
          × Has r (enqueue (fsync_request src (to_string h.addr)) g)
          × (r.peers ≡ register s.peers (idle h) src now)
  unfolding handle_cmd handle_isync register
  isync_actions s h g k p src now at has other found tx room =
      let apart : g.id ≢ h.id = λ e. other (sym e) in
      let req = request src (ReqCmd.isync (record { id = k })) in
      let fsync = fsync_request src (to_string h.addr) in
      let h1 : PeerHandler = record (idle h) {
        running = handle_cmd t h.addr h.peer_id src req.cmd;
      } in
      let s1 = set_handler s h.id (some h1) in
      let h2 = continue (Proc.send p.req_tx fsync (Proc.insert_peerstate src Proc.ok)) h1 in
      let s2 = set_handler s1 h.id (some h2) in
      let h3 = continue (Proc.insert_peerstate src Proc.ok) h2 in
      let s3 = set_handler (set_handler s2 g.id (some (enqueue fsync g))) h.id (some h3) in
      let h4 : PeerHandler = record h3 { peer_id = src; running = Proc.ok } in
      let s4 = set_handler (record s3 { peers = register s3.peers h3 src now }) h.id (some h4) in
      let e1 : step t s (acted h.id now) ≡ s1 =
        step-takes t s (with_request h req) at req [] now refl refl in
      let e2 : step t s1 (acted h.id now) ≡ s2 =
        step-lookup t s1 h1 (Has-set_self s h1 h.id refl) k _ (some p) now refl found in
      let has2 : Has s2 g =
        Has-set_ne s1 g h.id (some h2) apart (Has-set_ne s g h.id (some h1) apart has) in
      let e3 : step t s2 (acted h.id now) ≡ s3 =
        step-send t s2 h2 (Has-set_self s1 h2 h.id refl) g fsync (Proc.insert_peerstate src Proc.ok)
          now (ap (λ x. Proc.send x fsync (Proc.insert_peerstate src Proc.ok)) tx) has2 other
          room in
      let e4 : step t s3 (acted h.id now) ≡ s4 =
        step-insert_peerstate t s3 h3
          (Has-set_self (set_handler s2 g.id (some (enqueue fsync g))) h3 h.id refl) src Proc.ok now
          refl in
      subst
        (λ r.
          Has r (record (idle h) { peer_id = src })
          × Has r (enqueue fsync g)
          × (r.peers ≡ register s.peers (idle h) src now))
        (sym (
          run-acts s 3 h.id now e1 (
            run-acts s1 2 h.id now e2
              (run-acts s2 1 h.id now e3 (run-acts s3 0 h.id now e4 (run-nil s4))))))
        (
          Has-set_self (record s3 { peers = register s3.peers h3 src now }) h4 h.id refl,
          Has-set_ne (record s3 { peers = register s3.peers h3 src now }) (enqueue fsync g) h.id
              (some h4) apart
              (Has-set_ne (set_handler s2 g.id (some (enqueue fsync g))) (enqueue fsync g) h.id
                (some h3) apart (Has-set_self s2 (enqueue fsync g) g.id refl)),
          refl,
        )

  -- The two actions of a forwarded Fsync.
  pub fsync_actions :
      (s : Server) (g : PeerHandler) (id : String) (f : Fsync) (now : ℕ)
      → Has s (with_request g (request id (ReqCmd.fsync f)))
      → let r = run t s (acts 2 g.id now) in
        Has r (record (idle g) { written = g.written ++ response "" (RespCmd.fsync f) ∷ [] })
        × ((h : PeerHandler) → h.id ≢ g.id → Has s h → Has r h)
        × (r.peers ≡ s.peers)
  unfolding handle_cmd handle_fsync
  fsync_actions s g id f now at =
      let req = request id (ReqCmd.fsync f) in
      let g1 : PeerHandler = record (idle g) {
        running = handle_cmd t g.addr g.peer_id id req.cmd;
      } in
      let s1 = set_handler s g.id (some g1) in
      let g2 : PeerHandler = record (idle g) {
        written = g.written ++ response "" (RespCmd.fsync f) ∷ [];
      } in
      let s2 = set_handler s1 g.id (some g2) in
      let e1 : step t s (acted g.id now) ≡ s1 =
        step-takes t s (with_request g req) at req [] now refl refl in
      let e2 : step t s1 (acted g.id now) ≡ s2 =
        step-write t s1 g1 (Has-set_self s g1 g.id refl) (response "" (RespCmd.fsync f)) Proc.ok now
          refl in
      subst
        (λ r.
          Has r g2 × ((h : PeerHandler) → h.id ≢ g.id → Has s h → Has r h) × (r.peers ≡ s.peers))
        (sym (run-acts s 1 g.id now e1 (run-acts s1 0 g.id now e2 (run-nil s2))))
        (
          Has-set_self s1 g2 g.id refl,
          λ h apart has.
              Has-set_ne s1 h g.id (some g2) apart (Has-set_ne s h g.id (some g1) apart has),
          refl,
        )

  -- The three actions of an Rsync for another peer.
  pub rsync_actions :
      (s : Server) (g h : PeerHandler) (k src : String) (p : PeerState) (now : ℕ)
      → let req = request src (ReqCmd.rsync (record { id = k })) in
        Has s (with_request g req)
        → Has s h
        → g.id ≢ h.id
        → k ≢ g.peer_id
        → get s.peers k ≡ some p
        → p.req_tx ≡ h.id
        → length h.queue < capacity
        → let r = run t s (acts 3 g.id now) in
          Has r (idle g) × Has r (enqueue req h) × (r.peers ≡ s.peers)
  unfolding handle_cmd handle_rsync
  rsync_actions s g h k src p now at has other foreign found tx room =
      let apart : h.id ≢ g.id = λ e. other (sym e) in
      let req = request src (ReqCmd.rsync (record { id = k })) in
      let g1 : PeerHandler = record (idle g) {
        running = handle_cmd t g.addr g.peer_id src req.cmd;
      } in
      let s1 = set_handler s g.id (some g1) in
      let g2 = continue (Proc.send p.req_tx req Proc.ok) g1 in
      let s2 = set_handler s1 g.id (some g2) in
      let s3 = set_handler (set_handler s2 h.id (some (enqueue req h))) g.id (some (idle g)) in
      let e1 : step t s (acted g.id now) ≡ s1 =
        step-takes t s (with_request g req) at req [] now refl refl in
      let e2 : step t s1 (acted g.id now) ≡ s2 =
        step-lookup t s1 g1 (Has-set_self s g1 g.id refl) k (forward src (record { id = k }))
          (some p) now (rw (str_eq-false k g.peer_id foreign)) found in
      let e3 : step t s2 (acted g.id now) ≡ s3 =
        step-send t s2 g2 (Has-set_self s1 g2 g.id refl) h req Proc.ok now
          (ap (λ x. Proc.send x req Proc.ok) tx)
          (Has-set_ne s1 h g.id (some g2) apart (Has-set_ne s h g.id (some g1) apart has)) other
          room in
      subst (λ r. Has r (idle g) × Has r (enqueue req h) × (r.peers ≡ s.peers))
        (sym (
          run-acts s 2 g.id now e1
            (run-acts s1 1 g.id now e2 (run-acts s2 0 g.id now e3 (run-nil s3)))))
        (
          Has-set_self (set_handler s2 h.id (some (enqueue req h))) (idle g) g.id refl,
          Has-set_ne (set_handler s2 h.id (some (enqueue req h))) (enqueue req h) g.id
              (some (idle g)) apart (Has-set_self s2 (enqueue req h) h.id refl),
          refl,
        )

  -- The three actions of an Rsync that has reached the peer that it is for.
  pub redirect_actions :
      (s : Server) (h : PeerHandler) (src : String) (p : PeerState) (now : ℕ)
      → Has s (with_request h (request src (ReqCmd.rsync (record { id = h.peer_id }))))
      → get s.peers src ≡ some p
      → let r = run t s (acts 3 h.id now) in
        let redirect = RespCmd.redirect (record { id = src; addr = to_string p.addr }) in
        Has r (record (idle h) { written = h.written ++ response "" redirect ∷ [] })
        × ((g : PeerHandler) → g.id ≢ h.id → Has s g → Has r g)
        × (r.peers ≡ s.peers)
  unfolding handle_cmd handle_rsync
  redirect_actions s h src p now at found =
      let req = request src (ReqCmd.rsync (record { id = h.peer_id })) in
      let told = response "" (RespCmd.redirect (record { id = src; addr = to_string p.addr })) in
      let h1 : PeerHandler = record (idle h) {
        running = handle_cmd t h.addr h.peer_id src req.cmd;
      } in
      let s1 = set_handler s h.id (some h1) in
      let h2 = continue (Proc.write told Proc.ok) h1 in
      let s2 = set_handler s1 h.id (some h2) in
      let h3 : PeerHandler = record (idle h) { written = h.written ++ told ∷ [] } in
      let s3 = set_handler s2 h.id (some h3) in
      let e1 : step t s (acted h.id now) ≡ s1 =
        step-takes t s (with_request h req) at req [] now refl refl in
      let e2 : step t s1 (acted h.id now) ≡ s2 =
        step-lookup t s1 h1 (Has-set_self s h1 h.id refl) src (redirect_to t src) (some p) now
          (rw (eq_refl h.peer_id)) found in
      let e3 : step t s2 (acted h.id now) ≡ s3 =
        step-write t s2 h2 (Has-set_self s1 h2 h.id refl) told Proc.ok now refl in
      subst
        (λ r.
          Has r h3 × ((g : PeerHandler) → g.id ≢ h.id → Has s g → Has r g) × (r.peers ≡ s.peers))
        (sym (
          run-acts s 2 h.id now e1
            (run-acts s1 1 h.id now e2 (run-acts s2 0 h.id now e3 (run-nil s3)))))
        (
          Has-set_self s2 h3 h.id refl,
          λ g apart has.
              Has-set_ne s2 g h.id (some h3) apart
                (Has-set_ne s1 g h.id (some h2) apart (Has-set_ne s g h.id (some h1) apart has)),
          refl,
        )
