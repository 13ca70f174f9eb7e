-- ===== src/Tcp/Client/Connecting.antt =====
-- How `connect` of src/tcp/client.rs follows the first response of the server of src/tcp/server.rs.
use rndz.Base.{
  fun_ext, Option-cases, inl, inr, ℕ, ◌^◌, ◌<◌, String, ◌≡◌, refl, ◌∙◌, ap, Option, List, ◌++◌,
  arith,
}
use rndz.Net.{SocketAddr, AddrText, flowinfo}
use rndz.Proto.{RespCmd, Response, Fsync, response}
use rndz.Proto.Wire.{Wire}
use rndz.Proto.Parser.{parse_response}
use rndz.Proto.Printer.{response_bytes, response_size}
use rndz.Proto.Printer.Sizes.{length-response_bytes}
use rndz.Proto.RoundTrip.{parse_response-response_bytes}
use rndz.Tcp.Frame.{parsed, frame, read_resp}
use rndz.Tcp.Frame
use rndz.Tcp.Frame.RoundTrip.{read_resp-frame_whole}
use rndz.Tcp.Client.{
  unwrap, connect_server_async, invalid_server_response, target_id_not_found, ok, err, Os,
  choose_bind_addr, connect_server, follow, connect, connect_peer, follow_async, connect_async, try,
  read_by, Result,
}

made-unwrap :
    {A B C : Type 0} (r : Result A) (g : A → Result B) (f : B → Result C) {c : C}
    → try (try (unwrap r) g) f ≡ ok c
    → (a : A) × (r ≡ ok a)
made-unwrap (err e) g f h = cc
made-unwrap (ok a) g f h = (a, refl)

module _ (w : Wire) where
  -- A framed and printed response is read back.
  pub read_resp-response :
      (resp : Response) (rest : List ℕ)
      → response_size w resp < 2 ^ 16
      → read_resp (parse_response w) (frame (response_bytes w resp) ++ rest) ≡ Frame.ok (resp, rest)
  read_resp-response resp rest small =
      let whole = length-response_bytes w resp (omega arith) in
      read_resp-frame_whole (parse_response w) (response_bytes w resp) rest (omega (arith, whole))
      ∙ ap (λ o. parsed o rest) (parse_response-response_bytes w resp (omega arith))

  module _ (os : Os) (t : AddrText) where
    open os use {new_socket, write_all}
    open t use {to_string, parse, parse-to_string, parse_empty}

    pub connect_first :
        (local : Option SocketAddr) (server : String) (bound addr : SocketAddr) (resp : Response)
        (rest : List ℕ)
        → choose_bind_addr os local server ≡ ok bound
        → connect_server os bound server ≡ ok addr
        → write_all ≡ ok tt
        → response_size w resp < 2 ^ 16
        → connect os (parse_response w) parse local server (frame (response_bytes w resp) ++ rest)
          ≡ follow os (parse_response w) parse addr resp
    unfolding connect
    connect_first local server bound addr resp rest e1 e2 e3 small =
        rw e1 (rw e2 (rw e3 (rw (read_resp-response resp rest small) refl)))

    -- A client whose `bind` gets a socket does not panic there.
    socket_made :
        (bound : SocketAddr) (server : String) (addr : SocketAddr)
        → connect_server os bound server ≡ ok addr
        → new_socket ≡ ok tt
    unfolding connect_server
    socket_made bound server addr h = let (u, e) = made-unwrap new_socket _ _ h in e

    connect_server_async-eq :
        new_socket ≡ ok tt
        → (bound : SocketAddr) (server : String)
        → connect_server_async os bound server ≡ connect_server os bound server
    unfolding connect_server connect_server_async
    connect_server_async-eq h bound server = rw h refl

    follow_async-eq :
        new_socket ≡ ok tt
        → (addr : SocketAddr) (resp : Response)
        → follow_async os (parse_response w) parse addr resp
          ≡ follow os (parse_response w) parse addr resp
    follow_async-eq h addr resp = elim (Option-cases resp.cmd) [
      | inl e ↦ rw e refl
      | inr (RespCmd.pong, e) ↦ rw e refl
      | inr (RespCmd.fsync f, e) ↦ rw e refl
      | inr (RespCmd.redirect r, e) ↦ rw (e, h) refl
    ]

    connect_async-eq :
        new_socket ≡ ok tt
        → (local : Option SocketAddr) (server : String) (stream : List ℕ)
        → connect_async os (parse_response w) parse local server stream
          ≡ connect os (parse_response w) parse local server stream
    unfolding connect connect_async
    connect_async-eq h local server stream =
        let whole =
          λ (server_of : SocketAddr → String → Result SocketAddr)
              (go : SocketAddr → Response → Result (SocketAddr × SocketAddr)).
            try (choose_bind_addr os local server) λ bind_addr.
              try (server_of bind_addr server) λ local_addr.
                try write_all
                  λ _. read_by (read_resp (parse_response w) stream) λ r. go local_addr r.0 in
        ap (whole (connect_server_async os))
          (fun_ext λ addr. fun_ext λ resp. follow_async-eq h addr resp)
        ∙ ap (λ f. whole f (follow os (parse_response w) parse))
            (fun_ext λ bound. fun_ext λ name. connect_server_async-eq h bound name)

    -- When the client has reached the server and written its request, the first response on the stream
    -- decides: a Redirect with a printed address leads to a connection with that address, from
    -- the address of the connection with the server; one with an empty address ends in "target id
    -- not found"; a Pong or an Fsync, in "invalid server response". Each has a computed size below
    -- 2 ^ 16, the printed address carries no flow information, and what follows on the stream
    -- does not matter. The `connect` of src/tcp/client_async.rs has the same outcome on every stream.
    pub connect_decided :
        (local : Option SocketAddr) (server : String) (bound addr a : SocketAddr) (k : String)
        (fsync : Fsync) (rest : List ℕ)
        → choose_bind_addr os local server ≡ ok bound
        → connect_server os bound server ≡ ok addr
        → write_all ≡ ok tt
        → flowinfo a ≡ 0
        → response_size w (response "" (RespCmd.redirect (record { id = k; addr = to_string a })))
          < 2 ^ 16
        → response_size w (response "" (RespCmd.redirect (record { id = k; addr = "" }))) < 2 ^ 16
        → response_size w (response "" RespCmd.pong) < 2 ^ 16
        → response_size w (response "" (RespCmd.fsync fsync)) < 2 ^ 16
        → let outcome = λ (cmd : RespCmd).
          connect os
            (parse_response w)
            parse
            local
            server
            (frame (response_bytes w (response "" cmd)) ++ rest) in
          (outcome (RespCmd.redirect (record { id = k; addr = to_string a }))
            ≡ connect_peer os (parse_response w) parse addr a)
          × (outcome (RespCmd.redirect (record { id = k; addr = "" })) ≡ err target_id_not_found)
          × (outcome RespCmd.pong ≡ err invalid_server_response)
          × (outcome (RespCmd.fsync fsync) ≡ err invalid_server_response)
          × ((stream : List ℕ)
              → connect_async os (parse_response w) parse local server stream
                ≡ connect os (parse_response w) parse local server stream)
    connect_decided local server bound addr a k fsync rest e1 e2 e3 flow s1 s2 s3 s4 = (
      connect_first local server bound addr _ rest e1 e2 e3 s1 ∙ rw (parse-to_string a flow) refl,
      connect_first local server bound addr _ rest e1 e2 e3 s2 ∙ rw parse_empty refl,
      connect_first local server bound addr _ rest e1 e2 e3 s3,
      connect_first local server bound addr _ rest e1 e2 e3 s4,
      connect_async-eq (socket_made bound server addr e2) local server,
    )
