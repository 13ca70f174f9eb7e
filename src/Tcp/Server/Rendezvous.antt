-- ===== src/Tcp/Server/Rendezvous.antt =====
-- The rendezvous of two peers through src/tcp/server.rs.
use rndz.Base.{ℕ, String, ◌≡◌, refl, sym, ◌∙◌, ap, ◌≢◌, some, [], ◌∷◌, ◌++◌, arith, subst}
use rndz.Map.{get}
use rndz.Net.{SocketAddr, AddrText, flowinfo}
use rndz.Proto.{ReqCmd, RespCmd, Fsync, Redirect, Request, request, response}
use rndz.Tcp.Handler.{PeerState}
use rndz.Tcp.Server.{PeerHandler, Server, received, register, set_handler, run}
use rndz.Tcp.Server.Calls.{Has, Has-set_self, Has-set_ne, step-received}
use rndz.Tcp.Server.Routing.{IsRouted}
use rndz.Tcp.Server.Table.{register_own}
use rndz.Tcp.Server.Methods.{
  acts, idle, with_request, isync_actions, fsync_actions, rsync_actions, redirect_actions,
}

-- An idle task `h` whose client asks, under the name `j`, for the peer `k`, and the idle task `g` of
-- that peer.
pub record AreReady (s : Server) (h g : PeerHandler) (j k : String) : Type 0 where
  pub asker : Has s (idle h)
  pub target : Has s (idle g)
  pub apart : h.id ≢ g.id
  pub names : j ≢ k
  pub own_name : g.peer_id ≡ k
  pub routed : IsRouted s
  pub entry : PeerState
  pub found : get s.peers k ≡ some entry
  pub leads : entry.id ≡ g.id

abbrev pub connect : String → String → Request
connect j k = request j (ReqCmd.isync (record { id = k }))

abbrev pub answer : String → String → Request
answer k j = request k (ReqCmd.rsync (record { id = j }))

-- In a routed state the entries with a task's number have its channel and its address.
own_entries :
    (s : Server) (h : PeerHandler) (k : String)
    → IsRouted s
    → Has s h
    → (q : PeerState) → get s.peers k ≡ some q
    → q.id ≡ h.id
    → (q.req_tx ≡ h.req_tx) × (q.addr ≡ h.addr)
own_entries s h k v at q found same = (
  (v.table k q found).channelled ∙ same ∙ sym (v.tasks h.id h at).channelled,
  (v.table k q found).addressed h (ap s.handlers same ∙ at),
)

module _ (t : AddrText) where
  open t use {to_string, parse, parse-to_string}

  -- A request reaches an idle task, whose actions follow.
  abbrev pub serve : Server → PeerHandler → Request → ℕ → ℕ → Server
  serve s h req n now = run t s (received h.id req ∷ acts n h.id now)

  abbrev pub arrived : Server → PeerHandler → Request → Server
  arrived s h req = set_handler s h.id (some (with_request h req))

  pub serve-eq :
      (s : Server) (h : PeerHandler) (req : Request) (n now : ℕ)
      → Has s (idle h)
      → serve s h req n now ≡ run t (arrived s h req) (acts n h.id now)
  unfolding run
  serve-eq s h req n now at =
      ap (λ r. run t r (acts n h.id now)) (step-received t s (idle h) at req (omega arith))

  abbrev pub told_fsync : PeerHandler → PeerHandler → String → PeerHandler
  told_fsync g h j = record g {
    written =
        g.written ++ response "" (RespCmd.fsync (record { id = j; addr = to_string h.addr })) ∷ [];
  }

  -- First half: the Isync of `h`, up to the Fsync on the stream of `g`.
  asks :
      (s : Server) (h g : PeerHandler) (j k : String) (now later : ℕ)
      → AreReady s h g j k
      → let r = run t (serve s h (connect j k) 4 now) (acts 2 g.id later) in
        Has r (record (idle h) { peer_id = j })
        × Has r (idle (told_fsync g h j))
        × (r.peers ≡ register s.peers (idle h) j now)
  asks s h g j k now later v =
      let apart : g.id ≢ h.id = λ e. v.apart (sym e) in
      let fsync : Fsync = record { id = j; addr = to_string h.addr } in
      let a1 = arrived s h (connect j k) in
      let (h1, g1, p1) =
        isync_actions t a1 h (idle g) k v.entry j now
          (Has-set_self s (with_request h (connect j k)) h.id refl)
          (Has-set_ne s (idle g) h.id (some (with_request h (connect j k))) apart v.target) v.apart
          v.found ((v.routed.table k v.entry v.found).channelled ∙ v.leads) (omega arith) in
      let r1 = run t a1 (acts 4 h.id now) in
      let (g2, others, p2) = fsync_actions t r1 g "" fsync later g1 in
      subst
        (λ x.
          Has (run t x (acts 2 g.id later)) (record (idle h) { peer_id = j })
          × Has (run t x (acts 2 g.id later)) (idle (told_fsync g h j))
          × ((run t x (acts 2 g.id later)).peers ≡ register s.peers (idle h) j now))
        (sym (serve-eq s h (connect j k) 4 now v.asker))
        (others (record (idle h) { peer_id = j }) v.apart h1, g2, p2 ∙ p1)

  abbrev pub told_redirect : PeerHandler → PeerHandler → String → String → PeerHandler
  told_redirect h g j k = record h {
    peer_id = j;
    written =
        h.written
        ++ response "" (RespCmd.redirect (record { id = k; addr = to_string g.addr })) ∷ [];
  }

  -- Second half: the Rsync of `g`, up to the Redirect on the stream of `h`.
  answers :
      (s : Server) (h g : PeerHandler) (j k : String) (now later : ℕ) (p q : PeerState)
      → Has s (record (idle h) { peer_id = j })
      → Has s (idle g)
      → h.id ≢ g.id
      → j ≢ g.peer_id
      → get s.peers j ≡ some p
      → p.req_tx ≡ h.id
      → get s.peers k ≡ some q
      → q.addr ≡ g.addr
      → let r = run t (serve s g (answer k j) 3 now) (acts 3 h.id later) in
        Has r (idle (told_redirect h g j k)) × Has r (idle g)
  answers s h g j k now later p q hat gat apart foreign found leads found' comes =
      let a = arrived s g (answer k j) in
      let h' : PeerHandler = record (idle h) { peer_id = j } in
      let (g1, h1, p1) =
        rsync_actions t a g h' j k p now (Has-set_self s (with_request g (answer k j)) g.id refl)
          (Has-set_ne s h' g.id (some (with_request g (answer k j))) apart hat) (λ e. apart (sym e))
          foreign found leads (omega arith) in
      let r1 = run t a (acts 3 g.id now) in
      let (h2, others, p2) =
        redirect_actions t r1 h' k q later h1 (ap (λ m. get m k) p1 ∙ found') in
      subst
        (λ x.
          Has (run t x (acts 3 h.id later)) (idle (told_redirect h g j k))
          × Has (run t x (acts 3 h.id later)) (idle g))
        (sym (serve-eq s g (answer k j) 3 now gat))
        (
          subst
              (λ (b : SocketAddr). Has (run t r1 (acts 3 h.id later)) (record h' {
                written =
                    h.written
                    ++ response "" (RespCmd.redirect (record { id = k; addr = to_string b })) ∷ [];
              }))
              comes h2,
          others (idle g) (λ e. apart (sym e)) g1,
        )

  -- What the two halves leave on the streams of `g` and of `h`.
  pub streams_written :
      (s : Server) (h g : PeerHandler) (j k : String) (n1 n2 n3 n4 : ℕ)
      → AreReady s h g j k
      → let asked = run t (serve s h (connect j k) 4 n1) (acts 2 g.id n2) in
        let answered = run t (serve asked g (answer k j) 3 n3) (acts 3 h.id n4) in
        Has asked (idle (told_fsync g h j)) × Has answered (idle (told_redirect h g j k))
  streams_written s h g j k n1 n2 n3 n4 v =
      let (told, g1, p1) = asks s h g j k n1 n2 v in
      let asked = run t (serve s h (connect j k) 4 n1) (acts 2 g.id n2) in
      let ((p, e, id, _, tx, _), others) =
        register_own s.peers (idle h) j n1 (own_entries s (idle h) j v.routed v.asker) in
      let (h2, _) =
        answers asked h (told_fsync g h j) j k n3 n4 p v.entry told g1 v.apart
          (λ same. v.names (same ∙ v.own_name)) (ap (λ m. get m j) p1 ∙ e)
          (tx ∙ (v.routed.tasks h.id (idle h) v.asker).channelled)
          (ap (λ m. get m k) p1 ∙ others k v.names ∙ v.found)
          ((v.routed.table k v.entry v.found).addressed (idle g)
            (ap s.handlers v.leads ∙ v.target)) in
      (g1, h2)

  -- The client of `h`, under the name `j`, asks for the peer `k`, whose connection is that of `g`;
  -- both tasks are idle, no other task acts meanwhile, the two names differ, the state is routed,
  -- and the two addresses carry no flow information. The four actions of `h` and two of `g` write
  -- an Fsync on the stream of `g` from which its client reads the name `j` and the address that the
  -- server observes for `h`; then the Rsync that this client sends, by three actions of `g` and
  -- three of `h`, writes a Redirect on the stream of `h` from which its client reads the name `k`
  -- and the address that the server observes for `g`. Both tasks are then idle again.
  pub rendezvous_on_streams :
      (s : Server) (h g : PeerHandler) (j k : String) (n1 n2 n3 n4 : ℕ)
      → AreReady s h g j k
      → flowinfo h.addr ≡ 0
      → flowinfo g.addr ≡ 0
      → let asked = run t (serve s h (connect j k) 4 n1) (acts 2 g.id n2) in
        let answered = run t (serve asked g (answer k j) 3 n3) (acts 3 h.id n4) in
        ((f : Fsync) × Has asked
            (idle (record g { written = g.written ++ response "" (RespCmd.fsync f) ∷ [] }))
          × (f.id ≡ j)
          × (parse f.addr ≡ some h.addr))
        × ((r : Redirect) × Has answered (record (idle h) {
          peer_id = j;
          written = h.written ++ response "" (RespCmd.redirect r) ∷ [];
        })
            × (r.id ≡ k)
            × (parse r.addr ≡ some g.addr))
  rendezvous_on_streams s h g j k n1 n2 n3 n4 v fh fg =
      let (g1, h2) = streams_written s h g j k n1 n2 n3 n4 v in
      (
        (record { id = j; addr = to_string h.addr }, g1, refl, parse-to_string h.addr fh),
        (record { id = k; addr = to_string g.addr }, h2, refl, parse-to_string g.addr fg),
      )
