-- ===== src/Tcp/Client/Replies.antt =====
-- What the read loop of src/tcp/client.rs sends for the Fsyncs of the server.
use rndz.Base.{
  ℕ, zero, suc, ◌^◌, ◌<◌, String, ◌≡◌, refl, ◌∙◌, ap, none, some, List, [], ◌∷◌, ◌++◌, map, arith,
  length, All,
}
use mathlib.Core.List.{append_assoc}
use rndz.Net.{SocketAddr, AddrText, flowinfo}
use rndz.Proto.{ReqCmd, RespCmd, Response, response}
use rndz.Proto.Wire.{Wire}
use rndz.Proto.Parser.{parse_response}
use rndz.Proto.Printer.{response_bytes, response_size}
use rndz.Tcp.Frame.{frame, read_resp, read_size, read_exact}
use rndz.Tcp.Client.{End, stream_over, invalid_fsync_addr, and_send, read_loop}
use rndz.Tcp.Client.Connecting.{read_resp-response}

module _ (w : Wire) (t : AddrText) where
  open t use {to_string, parse, parse-to_string}

  -- The Fsync for a peer with this name and address, and the Rsync that answers it.
  abbrev pub fsync_for : String × SocketAddr → Response
  fsync_for (id, a) = response "" (RespCmd.fsync (record { id = id; addr = to_string a }))

  abbrev pub rsync_for : String × SocketAddr → ReqCmd
  rsync_for (id, a) = ReqCmd.rsync (record { id = id })

  abbrev pub told : List (String × SocketAddr) → List ℕ
  told [] = []
  told (p ∷ peers) = frame (response_bytes w (fsync_for p)) ++ told peers

  abbrev pub CanTell : String × SocketAddr → Type 0
  CanTell p = (flowinfo p.1 ≡ 0) × (response_size w (fsync_for p) < 2 ^ 16)

  pub first_told :
      (fuel : ℕ) (p : String × SocketAddr) (rest : List ℕ)
      → CanTell p
      → read_loop
          (parse_response w)
          parse
          (suc fuel)
          (frame (response_bytes w (fsync_for p)) ++ rest)
        ≡ and_send
            (parse_response w)
            parse
            (rsync_for p)
            (read_loop (parse_response w) parse fuel rest)
  unfolding read_loop
  first_told fuel (id, a) rest (flow, small) =
      rw (read_resp-response w (fsync_for (id, a)) rest small, read_loop)
        (rw (parse-to_string a flow) refl)

  read_told :
      (fuel : ℕ) (peers : List (String × SocketAddr)) (rest : List ℕ) (end : End)
      → All CanTell peers
      → length peers < fuel
      → ((more : ℕ) → 0 < more → read_loop (parse_response w) parse more rest ≡ some ([], end))
      → read_loop (parse_response w) parse fuel (told peers ++ rest)
        ≡ some (map rsync_for peers, end)
  read_told fuel [] rest end all h last = last fuel h
  read_told zero (p ∷ peers) rest end all h last = absurd (omega arith)
  read_told (suc fuel) (p ∷ peers) rest end (first, all) h last =
      ap (read_loop (parse_response w) parse (suc fuel))
        (append_assoc (frame (response_bytes w (fsync_for p))) (told peers) rest)
      ∙ first_told fuel p (told peers ++ rest) first
      ∙ ap (and_send (parse_response w) parse (rsync_for p))
          (read_told fuel peers rest end all (omega arith) last)

  nothing_left :
      (more : ℕ) → 0 < more → read_loop (parse_response w) parse more [] ≡ some ([], stream_over)
  unfolding read_loop read_resp read_size read_exact
  nothing_left zero h = absurd (omega arith)
  nothing_left (suc more) h = refl

  bad_first :
      (id addr : String) (rest : List ℕ) (more : ℕ)
      → parse addr ≡ none
      → response_size w (response "" (RespCmd.fsync (record { id = id; addr = addr }))) < 2 ^ 16
      → 0 < more
      → read_loop (parse_response w) parse more (
          frame (response_bytes w (response "" (RespCmd.fsync (record { id = id; addr = addr }))))
          ++ rest)
        ≡ some ([], invalid_fsync_addr)
  unfolding read_loop
  bad_first id addr rest zero bad small h = absurd (omega arith)
  bad_first id addr rest (suc more) bad small h =
      rw
        (
          read_resp-response w (response "" (RespCmd.fsync (record { id = id; addr = addr }))) rest
              small,
          read_loop,
        )
        (rw bad refl)

  -- The client answers each Fsync that the server has printed and framed for it by one Rsync with the
  -- peer's name, in order. At the end of the stream its loop ends well; at an Fsync whose address
  -- cannot be parsed it ends in an error, whatever follows. (Each response has a computed size below
  -- 2 ^ 16, and the printed addresses carry no flow information.)
  pub fsyncs_answered :
      (peers : List (String × SocketAddr)) (id addr : String) (rest : List ℕ) (fuel : ℕ)
      → All CanTell peers
      → length peers < fuel
      → parse addr ≡ none
      → response_size w (response "" (RespCmd.fsync (record { id = id; addr = addr }))) < 2 ^ 16
      → (read_loop (parse_response w) parse fuel (told peers ++ [])
          ≡ some (map rsync_for peers, stream_over))
        × (read_loop (parse_response w) parse fuel (
              told peers
              ++ (frame (
                    response_bytes w
                      (response "" (RespCmd.fsync (record { id = id; addr = addr }))))
                  ++ rest))
            ≡ some (map rsync_for peers, invalid_fsync_addr))
  fsyncs_answered peers id addr rest fuel all h bad small = (
    read_told fuel peers [] stream_over all h nothing_left,
    read_told fuel peers _ invalid_fsync_addr all h
        (λ more pos. bad_first id addr rest more bad small pos),
  )
