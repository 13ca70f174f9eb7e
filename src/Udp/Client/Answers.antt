-- ===== src/Udp/Client/Answers.antt =====
-- How `Connector::connect` of src/udp/client.rs reads what the server of src/udp/server.rs sends.
use rndz.Base.{
  ℕ, ◌≤◌, String, ◌≡◌, ◌≢◌, refl, sym, ◌∙◌, ap, Option, none, some, [], ◌∷◌, ◌++◌, str_eq-false,
  eq_iff,
}
use rndz.Map.{get}
use rndz.Net.{SocketAddr, AddrText, flowinfo}
use rndz.Proto.{ReqCmd, RespCmd, Response, request, response}
use rndz.Proto.Wire.{Wire}
use rndz.Proto.Parser.{parse_response}
use rndz.Proto.Printer.{response_bytes, response_size}
use rndz.Udp.Datagrams.{response-datagram}
use rndz.Udp.Server.{Server, handle_request}
use rndz.Udp.Server.Directory.{Registered}
use rndz.Udp.Server.Rendezvous.{rsync_found, unknown_target}
use rndz.Udp.Client.{
  Error, datagram, Search, goes_on, returns, opened, parsed, answered, receive, set_failed,
  target_not_found,
}

module _ (w : Wire) (t : AddrText) (open_peer : ℕ → SocketAddr → Option Error) where
  open t use {to_string, parse, parse-to_string, parse_empty}

  -- A printed address is not empty.
  to_string_filled : (a : SocketAddr) → flowinfo a ≡ 0 → to_string a ≢ ""
  to_string_filled a flow e =
      let back : some a ≡ none = sym (parse-to_string a flow) ∙ ap parse e ∙ parse_empty in cc

  receive-response :
      (s : Search) (i : ℕ) (j : String) (cmd : RespCmd)
      → response_size w (response j cmd) ≤ 1500
      → receive j
          (parse_response w)
          parse
          open_peer
          s
          i
          (datagram (response_bytes w (response j cmd)))
        ≡ answered j (parse_response w) parse open_peer s i (some cmd)
  unfolding receive
  receive-response s i j cmd short =
      ap (parsed j (parse_response w) parse open_peer s i)
        (response-datagram w (response j cmd) short)
      ∙ rw ((eq_iff j j).1 refl) refl

  pub receive-redirect :
      (s : Search) (i : ℕ) (j k : String) (a : SocketAddr)
      → flowinfo a ≡ 0
      → let redirect = response j (RespCmd.redirect (record { id = k; addr = to_string a })) in
        response_size w redirect ≤ 1500
        → receive j (parse_response w) parse open_peer s i (datagram (response_bytes w redirect))
          ≡ returns (opened j (parse_response w) parse open_peer i a (open_peer i a))
  receive-redirect s i j k a flow short =
      receive-response s i j (RespCmd.redirect (record { id = k; addr = to_string a })) short
      ∙ rw (str_eq-false (to_string a) "" (to_string_filled a flow))
          (rw (parse-to_string a flow) refl)

  -- When the client `j` is registered at the address `b` and the peer `k` answers it by an Rsync
  -- from the address `a`, the server sends one datagram, to `b`; and the connector named `j` that
  -- receives it, in whatever state and on whatever socket, opens a socket to `a` and returns it, or
  -- the error or the panic of opening it, if the datagram's computed size is at most 1500 and `a`
  -- carries no flow information.
  pub rsync_connects :
      (srv : Server) (j k : String) (a b : SocketAddr) (now p : ℕ) (s : Search) (i : ℕ)
      → Registered srv j b p
      → flowinfo a ≡ 0
      → response_size w (response j (RespCmd.redirect (record { id = k; addr = to_string a })))
        ≤ 1500
      → (resp : Response) × ((handle_request t srv
            (request k (ReqCmd.rsync (record { id = j })))
            a
            now).sent
          ≡ srv.sent ++ (b, resp) ∷ [])
        × (receive j (parse_response w) parse open_peer s i (datagram (response_bytes w resp))
            ≡ returns (opened j (parse_response w) parse open_peer i a (open_peer i a)))
  rsync_connects srv j k a b now p s i registered flow short = (
    response j (RespCmd.redirect (record { id = k; addr = to_string a })),
    rsync_found t srv k j a b now p registered,
    receive-redirect s i j k a flow short,
  )

  -- When the client `j` asks from the address `b` for a name `k` that the server does not know, the
  -- server sends one datagram, to `b`; and the connector named `j` that receives it on the socket `i`
  -- counts that server as failed and keeps "Target not found" as its error, if the datagram's
  -- computed size is at most 1500.
  pub isync_refused :
      (srv : Server) (j k : String) (b : SocketAddr) (now : ℕ) (s : Search) (i : ℕ)
      → get srv.clients k ≡ none
      → response_size w (response j (RespCmd.redirect (record { id = k; addr = "" }))) ≤ 1500
      → (resp : Response) × ((handle_request t srv
            (request j (ReqCmd.isync (record { id = k })))
            b
            now).sent
          ≡ srv.sent ++ (b, resp) ∷ [])
        × (receive j (parse_response w) parse open_peer s i (datagram (response_bytes w resp))
            ≡ goes_on (record s {
              failed_servers = set_failed i s.failed_servers;
              last_error = some target_not_found;
            }))
  isync_refused srv j k b now s i unknown short = (
    response j (RespCmd.redirect (record { id = k; addr = "" })),
    unknown_target t srv j k b now unknown,
    receive-response s i j (RespCmd.redirect (record { id = k; addr = "" })) short,
  )
