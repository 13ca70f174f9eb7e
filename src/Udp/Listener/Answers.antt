-- ===== src/Udp/Listener/Answers.antt =====
-- How the listener of src/udp/client.rs answers what the server of src/udp/server.rs forwards, and the
-- whole way of a connection between the two kinds of client.
use rndz.Base.{
  ℕ, ◌≤◌, String, Bool, ◌≡◌, refl, sym, ◌∙◌, ap, Option, some, [], ◌∷◌, ◌++◌, eq_iff, subst,
}
use rndz.Map.{get}
use rndz.Net.{SocketAddr, AddrText, flowinfo}
use rndz.Proto.{ReqCmd, RespCmd, Request, request, response}
use rndz.Proto.Wire.{Wire}
use rndz.Proto.Parser.{parse_request, parse_response}
use rndz.Proto.Printer.{request_bytes, request_size, response_bytes, response_size}
use rndz.Udp.Datagrams.{request-datagram, response-datagram}
use rndz.Udp.Server.{Client, Server, handle_incoming, incoming, came_from, handle_request}
use rndz.Udp.Server.Rendezvous.{isync_found, rsync_found}
use rndz.Udp.Server.Directory.{Registered}
use rndz.Udp.Client.{Error, datagram, Search, returns, opened, receive as search_receive}
use rndz.Udp.Client.Answers.{receive-redirect}
use rndz.Udp.Listener.{State, rsync_of, take_response, receive}

module _ (w : Wire) (t : AddrText) where
  open t use {to_string, parse, parse-to_string}

  -- The server takes a request in, from a datagram that holds it.
  abbrev pub deliver : Server → Request → SocketAddr → ℕ → Server
  deliver s req addr now =
      handle_incoming t s (incoming (parse_request w) (some (request_bytes w req, addr))) now

  deliver-eq :
      (s : Server) (req : Request) (addr : SocketAddr) (now : ℕ)
      → request_size w req ≤ 1500
      → deliver s req addr now ≡ handle_request t s req addr now
  deliver-eq s req addr now short =
      ap (λ o. handle_incoming t s (came_from addr o) now) (request-datagram w req short)

  -- A listener named `k` that receives an Fsync under its name answers by two Rsyncs: to the server,
  -- and to the peer's address.
  receive-fsync :
      (would_block : ℕ → Bool) (s : State) (i : ℕ) (svr_addr : SocketAddr) (now : ℕ) (j k : String)
      (b : SocketAddr)
      → flowinfo b ≡ 0
      → let fsync = response k (RespCmd.fsync (record { id = j; addr = to_string b })) in
        response_size w fsync ≤ 1500
        → receive k
            (parse_response w)
            parse
            would_block
            s
            i
            svr_addr
            now
            (datagram (response_bytes w fsync))
          ≡ record s { sent = s.sent ++ rsync_of k j now i svr_addr ∷ rsync_of k j now i b ∷ [] }
  unfolding receive
  receive-fsync would_block s i svr_addr now j k b flow short =
      let fsync = response k (RespCmd.fsync (record { id = j; addr = to_string b })) in
      ap (take_response k (parse_response w) parse would_block s i svr_addr now)
        (response-datagram w fsync short)
      ∙ rw ((eq_iff k k).1 refl) (rw (parse-to_string b flow) refl)

  -- The whole way of a connection over UDP, if no datagram is lost. The connector `j`, whose
  -- address is observed as `b`, asks the server for `k`, which is registered there. The server
  -- sends one datagram, to the address of `k`; the listener `k` that receives it sends an Rsync to
  -- the server and one to `b`; the server, which observes that from `a`, sends one datagram, to
  -- `b`; and the connector that receives it opens a socket to `a` and returns it, or the error or
  -- the panic of opening it. The requests and the responses are printed, and parsed from the
  -- datagrams; each has a computed size of at most 1500, and `a` and `b` carry no flow information.
  pub handshake :
      (open_peer : ℕ → SocketAddr → Option Error) (would_block : ℕ → Bool) (srv : Server)
      (j k : String) (a b svr_addr : SocketAddr) (now between later : ℕ) (e : Client) (s : Search)
      (i : ℕ) (l : State) (n : ℕ)
      → get srv.clients k ≡ some e
      → flowinfo a ≡ 0
      → flowinfo b ≡ 0
      → let isync = request j (ReqCmd.isync (record { id = k })) in
        let fsync = response k (RespCmd.fsync (record { id = j; addr = to_string b })) in
        let rsync = request k (ReqCmd.rsync (record { id = j })) in
        let redirect = response j (RespCmd.redirect (record { id = k; addr = to_string a })) in
        request_size w isync ≤ 1500
        → response_size w fsync ≤ 1500
        → request_size w rsync ≤ 1500
        → response_size w redirect ≤ 1500
        → let asked = deliver srv isync b now in
          let told =
            receive k
              (parse_response w)
              parse
              would_block
              l
              n
              svr_addr
              between
              (datagram (response_bytes w fsync)) in
          let answered = deliver asked rsync a later in
          (asked.sent ≡ srv.sent ++ (e.addr, fsync) ∷ [])
          × (told.sent
              ≡ l.sent
                ++ record { at = between; socket = n; to = svr_addr; message = rsync }
                  ∷ record { at = between; socket = n; to = b; message = rsync }
                  ∷ [])
          × (answered.sent ≡ asked.sent ++ (b, redirect) ∷ [])
          × (search_receive j
                (parse_response w)
                parse
                open_peer
                s
                i
                (datagram (response_bytes w redirect))
              ≡ returns (opened j (parse_response w) parse open_peer i a (open_peer i a)))
  handshake open_peer would_block srv j k a b svr_addr now between later e s i l n found fa fb si sf
        sr sd =
      let isync = request j (ReqCmd.isync (record { id = k })) in
      let rsync = request k (ReqCmd.rsync (record { id = j })) in
      let asked = deliver srv isync b now in
      let direct : asked ≡ handle_request t srv isync b now = deliver-eq srv isync b now si in
      let (sends, registered) = isync_found t srv j k b now e found in
      (
        ap (λ (r : Server). r.sent) direct ∙ sends,
        ap (λ (r : State). r.sent) (receive-fsync would_block l n svr_addr between j k b fb sf),
        ap (λ (r : Server). r.sent) (deliver-eq asked rsync a later sr)
            ∙ rsync_found t asked k j a b later now
                (subst (λ r. Registered r j b now) (sym direct) registered),
        receive-redirect w t open_peer s i j k a fa sd,
      )
