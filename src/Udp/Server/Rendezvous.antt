-- ===== src/Udp/Server/Rendezvous.antt =====
-- The rendezvous of two clients through the server of src/udp/server.rs.
use rndz.Base.{ℕ, String, ◌≡◌, refl, ap, Option, none, some, List, [], ◌∷◌, ◌++◌}
use native.Mathlib.Nat.{le_refl}
use rndz.Map.{get, get-insert}
use rndz.Net.{SocketAddr, AddrText, flowinfo}
use rndz.Proto.{ReqCmd, RespCmd, Fsync, Redirect, Request, request, response}
use rndz.Udp.Server.{
  Client, Server, Reads, Received, handle_isync, handle_rsync, dispatch, handle_request, run,
}
use rndz.Udp.Server.Directory.{Registered, KeepsAlive, run-Registered}

module _ (t : AddrText) where
  open t use {to_string, parse, parse-to_string}

  -- Isync to a registered client: it is told the address from which the request came, and the sender
  -- of the request is registered there.
  pub isync_found :
      (s : Server) (j k : String) (b : SocketAddr) (now : ℕ) (c : Client)
      → get s.clients k ≡ some c
      → let asked = handle_request t s (request j (ReqCmd.isync (record { id = k }))) b now in
        (asked.sent
          ≡ s.sent
            ++ (c.addr, response k (RespCmd.fsync (record { id = j; addr = to_string b }))) ∷ [])
        × Registered asked j b now
  unfolding handle_request dispatch handle_isync
  isync_found s j k b now c h =
      rw (h, handle_isync)
        (refl, (record { addr = b; last_ping = now }, get-insert s.clients j _, refl, le_refl now))

  pub rsync_found :
      (s : Server) (k j : String) (a b : SocketAddr) (now p : ℕ)
      → Registered s j b p
      → (handle_request t s (request k (ReqCmd.rsync (record { id = j }))) a now).sent
        ≡ s.sent ++ (b, response j (RespCmd.redirect (record { id = k; addr = to_string a }))) ∷ []
  unfolding handle_request dispatch handle_rsync
  rsync_found s k j a b now p (c, e, same, _) =
      rw (e, handle_rsync)
        (ap
          (λ x.
            s.sent
            ++ (x, response j (RespCmd.redirect (record { id = k; addr = to_string a }))) ∷ [])
          same)

  pub unknown_target :
      (srv : Server) (j k : String) (b : SocketAddr) (now : ℕ)
      → get srv.clients k ≡ none
      → (handle_request t srv (request j (ReqCmd.isync (record { id = k }))) b now).sent
        ≡ srv.sent ++ (b, response j (RespCmd.redirect (record { id = k; addr = "" }))) ∷ []
  unfolding handle_request dispatch handle_isync
  unknown_target srv j k b now e = rw (e, handle_isync) refl

  -- The server brings two clients together. A client `j` at address `b` asks for the registered client
  -- `k`: the server forwards an Fsync to the address of `k` from which `k` reads the identity and the
  -- address of `j`. However many turns later, if `j` kept its entry alive in them, an Rsync of `k` from
  -- address `a` makes the server send `j`, at `b`, a Redirect from which `j` reads the identity of
  -- `k` and the address `a`. (Addresses that the server observes carry no flow information.)
  pub rendezvous :
      (parse_from_bytes : List ℕ → Option Request) (turns : List (Received × Reads)) (s : Server)
      (j k : String) (a b : SocketAddr) (now later : ℕ) (c : Client)
      → get s.clients k ≡ some c
      → KeepsAlive t parse_from_bytes j b now turns
      → flowinfo a ≡ 0
      → flowinfo b ≡ 0
      → let asked = handle_request t s (request j (ReqCmd.isync (record { id = k }))) b now in
        let waited = run t parse_from_bytes asked turns in
        let answered =
          handle_request t waited (request k (ReqCmd.rsync (record { id = j }))) a later in
        ((f : Fsync) × (asked.sent ≡ s.sent ++ (c.addr, response k (RespCmd.fsync f)) ∷ [])
          × (f.id ≡ j)
          × (parse f.addr ≡ some b))
        × ((r : Redirect) × (answered.sent
              ≡ waited.sent ++ (b, response j (RespCmd.redirect r)) ∷ [])
            × (r.id ≡ k)
            × (parse r.addr ≡ some a))
  rendezvous parse_from_bytes turns s j k a b now later c found alive fa fb =
      let asked = handle_request t s (request j (ReqCmd.isync (record { id = k }))) b now in
      let (told, registered) = isync_found s j k b now c found in
      let kept = run-Registered t parse_from_bytes turns asked j b now alive registered in
      (
        (record { id = j; addr = to_string b }, told, refl, parse-to_string b fb),
        (
          record { id = k; addr = to_string a },
          rsync_found (run t parse_from_bytes asked turns) k j a b later _ kept,
          refl,
          parse-to_string a fa,
        ),
      )
