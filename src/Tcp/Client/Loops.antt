-- ===== src/Tcp/Client/Loops.antt =====
-- The read loops of src/tcp/client.rs and of src/tcp/client_async.rs.
use rndz.Base.{
  ℕ, zero, suc, ◌<◌, String, ◌≡◌, refl, sym, ◌∙◌, ap, inl, inr, Option, none, some, List, [], arith,
  length,
}
use rndz.Net.{SocketAddr}
use rndz.Proto.{ReqCmd, RespCmd, Response}
use rndz.Tcp.Frame.{read_resp}
use rndz.Tcp.Frame.Requests.{Result-cases, read_resp-length}
use rndz.Tcp.Client.{
  End, stream_over, invalid_fsync_addr, and_send, on_fsync, on_response, read_loop, handle_fsync,
  handle_cmd, handle_resp, send_answer, go_on, read_loop_async,
}

-- The commands that a loop has sent, of a loop that tells how it ended.
abbrev pub sent_by : Option (List ReqCmd × End) → Option (List ReqCmd)
sent_by none = none
sent_by (some (reqs, end)) = some reqs

module _ (parse_from_bytes : List ℕ → Option Response)
    (parse_addr : String → Option SocketAddr) where
  sent_by-and_send :
      (req : ReqCmd) (o : Option (List ReqCmd × End))
      → sent_by (and_send parse_from_bytes parse_addr req o)
        ≡ send_answer parse_from_bytes parse_addr req (sent_by o)
  sent_by-and_send req none = refl
  sent_by-and_send req (some (reqs, end)) = refl

  sent_by-on_fsync :
      (id : String) (a : Option SocketAddr) (o : Option (List ReqCmd × End))
      → sent_by (on_fsync parse_from_bytes parse_addr id a o)
        ≡ go_on parse_from_bytes parse_addr
            (handle_fsync parse_from_bytes parse_addr id a)
            (sent_by o)
  sent_by-on_fsync id none o = refl
  sent_by-on_fsync id (some a) o = sent_by-and_send (ReqCmd.rsync (record { id = id })) o

  sent_by-on_response :
      (cmd : Option RespCmd) (o : Option (List ReqCmd × End))
      → sent_by (on_response parse_from_bytes parse_addr cmd o)
        ≡ go_on parse_from_bytes parse_addr (handle_cmd parse_from_bytes parse_addr cmd) (sent_by o)
  sent_by-on_response none o = refl
  sent_by-on_response (some RespCmd.pong) o = refl
  sent_by-on_response (some (RespCmd.redirect r)) o = refl
  sent_by-on_response (some (RespCmd.fsync f)) o = sent_by-on_fsync f.id (parse_addr f.addr) o

  -- On one stream the two read loops send the same commands, in the same order.
  loops_agree :
      (fuel : ℕ) (stream : List ℕ)
      → sent_by (read_loop parse_from_bytes parse_addr fuel stream)
        ≡ read_loop_async parse_from_bytes parse_addr fuel stream
  unfolding read_loop read_loop_async handle_resp
  loops_agree zero stream = refl
  loops_agree (suc fuel) stream = elim (Result-cases (read_resp parse_from_bytes stream)) [
    | inl ((resp, rest), e) ↦
        rw (e, read_loop, read_loop_async, handle_resp)
          (sent_by-on_response resp.cmd (read_loop parse_from_bytes parse_addr fuel rest)
            ∙ ap
                (go_on parse_from_bytes parse_addr
                  (handle_cmd parse_from_bytes parse_addr resp.cmd))
                (loops_agree fuel rest))
    | inr (e', e) ↦ rw (e, read_loop, read_loop_async, handle_resp) refl
  ]

  abbrev IsOver : Option (List ReqCmd × End) → Type 0
  IsOver o = (reqs : List ReqCmd) × (end : End) × (o ≡ some (reqs, end))

  on_fsync-IsOver :
      (id : String) (a : Option SocketAddr) (o : Option (List ReqCmd × End))
      → IsOver o
      → IsOver (on_fsync parse_from_bytes parse_addr id a o)
  on_fsync-IsOver id none o v = ([], invalid_fsync_addr, refl)
  on_fsync-IsOver id (some a) o (reqs, end, e) =
      (_, end, ap (and_send parse_from_bytes parse_addr _) e)

  on_response-IsOver :
      (cmd : Option RespCmd) (o : Option (List ReqCmd × End))
      → IsOver o
      → IsOver (on_response parse_from_bytes parse_addr cmd o)
  on_response-IsOver none o v = v
  on_response-IsOver (some RespCmd.pong) o v = v
  on_response-IsOver (some (RespCmd.redirect r)) o v = v
  on_response-IsOver (some (RespCmd.fsync f)) o v = on_fsync-IsOver f.id (parse_addr f.addr) o v

  read_loop-IsOver :
      (fuel : ℕ) (stream : List ℕ)
      → length stream < fuel
      → IsOver (read_loop parse_from_bytes parse_addr fuel stream)
  unfolding read_loop
  read_loop-IsOver zero stream h = absurd (omega arith)
  read_loop-IsOver (suc fuel) stream h = elim (Result-cases (read_resp parse_from_bytes stream)) [
    | inl ((resp, rest), e) ↦
        rw (e, read_loop)
          (on_response-IsOver resp.cmd _ (
            read_loop-IsOver fuel rest
              (omega (arith, read_resp-length parse_from_bytes stream resp rest e))))
    | inr (e', e) ↦ ([], stream_over, rw (e, read_loop) refl)
  ]

  -- On any stream, with more fuel than it has bytes, both read loops end, and they have sent the same
  -- commands, in the same order.
  pub read_loops_agree :
      (fuel : ℕ) (stream : List ℕ)
      → length stream < fuel
      → (reqs : List ReqCmd) × (end : End) × (read_loop parse_from_bytes parse_addr fuel stream
          ≡ some (reqs, end))
        × (read_loop_async parse_from_bytes parse_addr fuel stream ≡ some reqs)
  read_loops_agree fuel stream h =
      let (reqs, end, e) = read_loop-IsOver fuel stream h in
      (reqs, end, e, sym (loops_agree fuel stream) ∙ ap sent_by e)
