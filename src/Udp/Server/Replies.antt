-- ===== src/Udp/Server/Replies.antt =====
-- What the server of src/udp/server.rs sends, and to whom.
use rndz.Base.{
  ℕ, ◌+◌, ◌≤◌, String, ◌≡◌, inl, inr, Option, none, some, List, [], ◌∷◌, ◌++◌, arith, eq_iff,
  Bool-cases, ltb, Option-cases, All, All-append, length, length-append,
}
use rndz.Map.{get, AllValues, AllValues-insert, AllValues-remove, AllValues-retain}
use rndz.Net.{SocketAddr, AddrText}
use rndz.Proto.{ReqCmd, RespCmd, Request, request, response}
use rndz.Udp.Server.{
  Client, Server, Reads, Received, send_response, touch, handle_ping, handle_isync, handle_rsync,
  handle_bye, dispatch, handle_request, incoming, gc, collect, turn, run,
}

-- Every address in the state is one of which `P` holds: those of the clients, and those of the
-- datagrams sent.
pub record IsAddressed (P : SocketAddr → Type 0) (s : Server) : Type 0 where
  pub table : AllValues (λ (c : Client). P c.addr) s.clients
  pub sends : All (λ d. P d.0) s.sent

abbrev pub From : (SocketAddr → Type 0) → Option (Request × SocketAddr) → Type 0
From P none = Unit
From P (some (req, addr)) = P addr

module _ (P : SocketAddr → Type 0) where
  send-IsAddressed :
      (s : Server) (cmd : RespCmd) (id : String) (addr : SocketAddr)
      → P addr
      → IsAddressed P s
      → IsAddressed P (send_response s cmd id addr)
  send-IsAddressed s cmd id addr p v = record {
    table = v.table;
    sends = All-append _ s.sent _ v.sends (p, tt);
  }

  touch-IsAddressed :
      (s : Server) (id : String) (addr : SocketAddr) (now : ℕ)
      → P addr
      → IsAddressed P s
      → IsAddressed P (touch s id addr now)
  touch-IsAddressed s id addr now p v = record {
    table = AllValues-insert _ s.clients v.table id _ p;
    sends = v.sends;
  }

  collect-IsAddressed :
      (s : Server) (reads : Reads) → IsAddressed P s → IsAddressed P (collect s reads)
  unfolding collect gc
  collect-IsAddressed s reads v = elim (Bool-cases (ltb s.next_gc reads.checked)) [
    | inl e ↦ rw e (record { table = AllValues-retain _ s.clients v.table _; sends = v.sends })
    | inr e ↦ rw e v
  ]

  module _ (t : AddrText) where
    dispatch-IsAddressed :
        (s : Server) (id : String) (cmd : Option ReqCmd) (addr : SocketAddr) (now : ℕ)
        → P addr
        → IsAddressed P s
        → IsAddressed P (dispatch t s id cmd addr now)
    unfolding dispatch handle_ping handle_bye handle_isync handle_rsync
    dispatch-IsAddressed s id (some ReqCmd.ping) addr now p v =
        send-IsAddressed _ _ id addr p (touch-IsAddressed s id addr now p v)
    dispatch-IsAddressed s id (some (ReqCmd.isync i)) addr now p v =
        elim (Option-cases (get s.clients i.id)) [
          | inl e ↦ rw (e, handle_isync) (send-IsAddressed _ _ _ addr p v)
          | inr (c, e) ↦
              rw (e, handle_isync)
                (send-IsAddressed _ _ _ c.addr (v.table i.id c e)
                  (touch-IsAddressed s id addr now p v))
        ]
    dispatch-IsAddressed s id (some (ReqCmd.rsync r)) addr now p v =
        elim (Option-cases (get s.clients r.id)) [
          | inl e ↦ rw (e, handle_rsync) v
          | inr (c, e) ↦ rw (e, handle_rsync) (send-IsAddressed _ _ _ c.addr (v.table r.id c e) v)
        ]
    dispatch-IsAddressed s id (some ReqCmd.bye) addr now p v = record {
      table = AllValues-remove _ s.clients v.table id;
      sends = v.sends;
    }
    dispatch-IsAddressed s id (some (ReqCmd.fsync f)) addr now p v = v
    dispatch-IsAddressed s id none addr now p v = v

    turn-IsAddressed :
        (s : Server) (input : Option (Request × SocketAddr)) (reads : Reads)
        → From P input
        → IsAddressed P s
        → IsAddressed P (turn t s input reads)
    unfolding turn handle_request
    turn-IsAddressed s none reads p v = collect-IsAddressed s reads v
    turn-IsAddressed s (some (req, addr)) reads p v =
        collect-IsAddressed _ reads (dispatch-IsAddressed s req.id req.cmd addr reads.handled p v)

    module _ (parse_from_bytes : List ℕ → Option Request) where
      -- If `P` holds of the sender of each request that the server receives, and of the addresses in
      -- its state, then after any number of turns it holds of every address in the table of clients
      -- and of the destination of every datagram sent: the server writes to no address that did not
      -- write to it first.
      pub run-IsAddressed :
          (turns : List (Received × Reads)) (s : Server)
          → All (λ (d : Received × Reads). From P (incoming parse_from_bytes d.0)) turns
          → IsAddressed P s
          → IsAddressed P (run t parse_from_bytes s turns)
      unfolding run
      run-IsAddressed [] s p v = v
      run-IsAddressed ((received, reads) ∷ rest) s p v =
          run-IsAddressed rest _ p.1
            (turn-IsAddressed s (incoming parse_from_bytes received) reads p.0 v)

module _ (t : AddrText) where
  length_sent-dispatch :
      (s : Server) (id : String) (cmd : Option ReqCmd) (addr : SocketAddr) (now : ℕ)
      → length (dispatch t s id cmd addr now).sent ≤ length s.sent + 1
  unfolding dispatch handle_ping handle_bye handle_isync handle_rsync
  length_sent-dispatch s id (some ReqCmd.ping) addr now = omega (arith, length-append {0})
  length_sent-dispatch s id (some (ReqCmd.isync i)) addr now =
      elim (Option-cases (get s.clients i.id)) [
        | inl e ↦ rw (e, handle_isync) (omega (arith, length-append {0}))
        | inr (c, e) ↦ rw (e, handle_isync) (omega (arith, length-append {0}))
      ]
  length_sent-dispatch s id (some (ReqCmd.rsync r)) addr now =
      elim (Option-cases (get s.clients r.id)) [
        | inl e ↦ rw (e, handle_rsync) (omega arith)
        | inr (c, e) ↦ rw (e, handle_rsync) (omega (arith, length-append {0}))
      ]
  length_sent-dispatch s id (some ReqCmd.bye) addr now = omega arith
  length_sent-dispatch s id (some (ReqCmd.fsync f)) addr now = omega arith
  length_sent-dispatch s id none addr now = omega arith

  length_sent-turn :
      (s : Server) (input : Option (Request × SocketAddr)) (reads : Reads)
      → length (turn t s input reads).sent ≤ length s.sent + 1
  unfolding turn collect gc handle_request
  length_sent-turn s none reads = ground arith
  length_sent-turn s (some (req, addr)) reads =
      ground (arith, length_sent-dispatch s req.id req.cmd addr reads.handled)

  -- The server sends at most one datagram for each turn of its loop.
  pub length_sent-run :
      (parse_from_bytes : List ℕ → Option Request) (turns : List (Received × Reads)) (s : Server)
      → length (run t parse_from_bytes s turns).sent ≤ length s.sent + length turns
  unfolding run
  length_sent-run parse_from_bytes [] s = omega arith
  length_sent-run parse_from_bytes ((received, reads) ∷ rest) s = omega (
    arith,
    length_sent-run parse_from_bytes rest (turn t s (incoming parse_from_bytes received) reads),
    length_sent-turn s (incoming parse_from_bytes received) reads,
  )

  -- After a Bye under the name `k`, a request to be connected to `k` is answered to its sender alone,
  -- by a Redirect that names `k` and has no address, and it does not register its sender.
  isync-bye :
      (s : Server) (k j : String) (a b : SocketAddr) (now later : ℕ)
      → let gone = handle_request t s (request k ReqCmd.bye) a now in
        let asked = handle_request t gone (request j (ReqCmd.isync (record { id = k }))) b later in
        (asked.sent
          ≡ s.sent ++ (b, response j (RespCmd.redirect (record { id = k; addr = "" }))) ∷ [])
        × (get asked.clients j ≡ get gone.clients j)
  unfolding handle_request handle_isync handle_bye
  isync-bye s k j a b now later = (ground (arith, eq_iff k k), ground (arith, eq_iff k k))
