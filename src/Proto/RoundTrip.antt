-- ===== src/Proto/RoundTrip.antt =====
-- The parsers of src/proto/rndz.rs read back what its printers write.
use mathlib.Core.List.{append_assoc}
use rndz.Base.{◌^◌, ◌<◌, String, ◌≡◌, refl, sym, subst, Option, none, some, [], ◌++◌, arith}
use rndz.Proto.{
  Isync, Redirect, Fsync, Rsync, ReqCmd, Request, RespCmd, Response, new_request, new_response,
  new_redirect, new_isync, new_fsync, new_rsync, clear_request, clear_response,
}
use rndz.Proto.Wire.{Wire}
use rndz.Proto.Parser.{
  parse_request, parse_response, done, parse, ping_field, isync_field, rsync_field, redirect_field,
  fsync_field, request_field, response_field,
}
use rndz.Proto.Printer.{
  string_bytes, isync_bytes, rsync_bytes, redirect_bytes, fsync_bytes, req_cmd_bytes, request_bytes,
  resp_cmd_bytes, response_bytes, isync_size, rsync_size, redirect_size, fsync_size, req_cmd_size,
  request_size, resp_cmd_size, response_size,
}
use rndz.Proto.Printer.Sizes.{length-string_bytes, length-two_strings}
use rndz.Proto.Parser.Fields.{Merges, nil-Merges, message-Merges, string_bytes-Merges, parse_whole}

module _ (w : Wire) where
  parse-isync_bytes :
      (v : Isync)
      → isync_size w v < 2 ^ 32
      → parse w (isync_field w) new_isync (isync_bytes w v) ≡ done v
  parse-isync_bytes v small = parse_whole w (isync_field w) new_isync v _ (
      string_bytes-Merges w (isync_field w) 1 v.id _ new_isync v [] (omega arith) (omega arith)
        small (λ mid. refl) refl (nil-Merges w (isync_field w) v))

  parse-rsync_bytes :
      (v : Rsync)
      → rsync_size w v < 2 ^ 32
      → parse w (rsync_field w) new_rsync (rsync_bytes w v) ≡ done v
  parse-rsync_bytes v small = parse_whole w (rsync_field w) new_rsync v _ (
      string_bytes-Merges w (rsync_field w) 1 v.id _ new_rsync v [] (omega arith) (omega arith)
        small (λ mid. refl) refl (nil-Merges w (rsync_field w) v))

  parse-redirect_bytes :
      (v : Redirect)
      → redirect_size w v < 2 ^ 32
      → parse w (redirect_field w) new_redirect (redirect_bytes w v) ≡ done v
  parse-redirect_bytes v small =
      let one : Redirect = record { id = v.id; addr = "" } in
      parse_whole w (redirect_field w) new_redirect v _ (
        subst (λ x. Merges w (redirect_field w) new_redirect x v)
          (sym (append_assoc (string_bytes w 1 v.id) (string_bytes w 2 v.addr) []))
          (string_bytes-Merges w (redirect_field w) 1 v.id _ new_redirect v _ (omega arith)
            (omega arith) (omega arith) (λ mid. refl) refl
            (string_bytes-Merges w (redirect_field w) 2 v.addr _ one v [] (omega arith)
              (omega arith) (omega arith) (λ mid. refl) refl (nil-Merges w (redirect_field w) v))))

  parse-fsync_bytes :
      (v : Fsync)
      → fsync_size w v < 2 ^ 32
      → parse w (fsync_field w) new_fsync (fsync_bytes w v) ≡ done v
  parse-fsync_bytes v small =
      let one : Fsync = record { id = v.id; addr = "" } in
      parse_whole w (fsync_field w) new_fsync v _ (
        subst (λ x. Merges w (fsync_field w) new_fsync x v)
          (sym (append_assoc (string_bytes w 1 v.id) (string_bytes w 2 v.addr) []))
          (string_bytes-Merges w (fsync_field w) 1 v.id _ new_fsync v _ (omega arith) (omega arith)
            (omega arith) (λ mid. refl) refl
            (string_bytes-Merges w (fsync_field w) 2 v.addr _ one v [] (omega arith) (omega arith)
              (omega arith) (λ mid. refl) refl (nil-Merges w (fsync_field w) v))))

  parse-nothing : parse w (ping_field w) tt [] ≡ done tt
  parse-nothing = nil-Merges w (ping_field w) tt 1 (omega arith)

  req_cmd-Merges :
      (id : String) (c : Option ReqCmd)
      → req_cmd_size w c < 2 ^ 32
      → Merges w
          (request_field w)
          (record { id = id; cmd = none })
          (req_cmd_bytes w c ++ [])
          (record { id = id; cmd = c })
  unfolding request_field
  req_cmd-Merges id none small = nil-Merges w (request_field w) _
  req_cmd-Merges id (some ReqCmd.ping) small =
      message-Merges w (request_field w) 2 0 [] (parse w (ping_field w) tt) tt _ _ _ []
        (omega arith) (omega arith) refl (omega arith) (λ mid. refl) parse-nothing
        (nil-Merges w (request_field w) _)
  req_cmd-Merges id (some (ReqCmd.isync v)) small =
      message-Merges w (request_field w) 3 (isync_size w v) (isync_bytes w v)
        (parse w (isync_field w) new_isync) v _ _ _ [] (omega arith) (omega arith)
        (length-string_bytes w 1 v.id) (omega arith) (λ mid. refl)
        (parse-isync_bytes v (omega arith)) (nil-Merges w (request_field w) _)
  req_cmd-Merges id (some (ReqCmd.fsync v)) small =
      message-Merges w (request_field w) 4 (fsync_size w v) (fsync_bytes w v)
        (parse w (fsync_field w) new_fsync) v _ _ _ [] (omega arith) (omega arith)
        (length-two_strings w 1 2 v.id v.addr) (omega arith) (λ mid. refl)
        (parse-fsync_bytes v (omega arith)) (nil-Merges w (request_field w) _)
  req_cmd-Merges id (some (ReqCmd.rsync v)) small =
      message-Merges w (request_field w) 5 (rsync_size w v) (rsync_bytes w v)
        (parse w (rsync_field w) new_rsync) v _ _ _ [] (omega arith) (omega arith)
        (length-string_bytes w 1 v.id) (omega arith) (λ mid. refl)
        (parse-rsync_bytes v (omega arith)) (nil-Merges w (request_field w) _)
  req_cmd-Merges id (some ReqCmd.bye) small =
      message-Merges w (request_field w) 6 0 [] (parse w (ping_field w) tt) tt _ _ _ []
        (omega arith) (omega arith) refl (omega arith) (λ mid. refl) parse-nothing
        (nil-Merges w (request_field w) _)

  resp_cmd-Merges :
      (id : String) (c : Option RespCmd)
      → resp_cmd_size w c < 2 ^ 32
      → Merges w
          (response_field w)
          (record { id = id; cmd = none })
          (resp_cmd_bytes w c ++ [])
          (record { id = id; cmd = c })
  unfolding response_field
  resp_cmd-Merges id none small = nil-Merges w (response_field w) _
  resp_cmd-Merges id (some RespCmd.pong) small =
      message-Merges w (response_field w) 2 0 [] (parse w (ping_field w) tt) tt _ _ _ []
        (omega arith) (omega arith) refl (omega arith) (λ mid. refl) parse-nothing
        (nil-Merges w (response_field w) _)
  resp_cmd-Merges id (some (RespCmd.redirect v)) small =
      message-Merges w (response_field w) 3 (redirect_size w v) (redirect_bytes w v)
        (parse w (redirect_field w) new_redirect) v _ _ _ [] (omega arith) (omega arith)
        (length-two_strings w 1 2 v.id v.addr) (omega arith) (λ mid. refl)
        (parse-redirect_bytes v (omega arith)) (nil-Merges w (response_field w) _)
  resp_cmd-Merges id (some (RespCmd.fsync v)) small =
      message-Merges w (response_field w) 4 (fsync_size w v) (fsync_bytes w v)
        (parse w (fsync_field w) new_fsync) v _ _ _ [] (omega arith) (omega arith)
        (length-two_strings w 1 2 v.id v.addr) (omega arith) (λ mid. refl)
        (parse-fsync_bytes v (omega arith)) (nil-Merges w (response_field w) _)

  parse-request_bytes :
      (m : Request)
      → request_size w m < 2 ^ 32
      → parse w (request_field w) new_request (request_bytes w m) ≡ done m
  unfolding request_bytes request_size request_field
  parse-request_bytes m small = parse_whole w (request_field w) new_request m _ (
      subst (λ x. Merges w (request_field w) new_request x m)
        (sym (append_assoc (string_bytes w 1 m.id) (req_cmd_bytes w m.cmd) []))
        (string_bytes-Merges w (request_field w) 1 m.id _ new_request m _ (omega arith)
          (omega arith) (omega arith) (λ mid. refl) refl (req_cmd-Merges m.id m.cmd (omega arith))))

  parse-response_bytes :
      (m : Response)
      → response_size w m < 2 ^ 32
      → parse w (response_field w) new_response (response_bytes w m) ≡ done m
  unfolding response_bytes response_size response_field
  parse-response_bytes m small = parse_whole w (response_field w) new_response m _ (
      subst (λ x. Merges w (response_field w) new_response x m)
        (sym (append_assoc (string_bytes w 1 m.id) (resp_cmd_bytes w m.cmd) []))
        (string_bytes-Merges w (response_field w) 1 m.id _ new_response m _ (omega arith)
          (omega arith) (omega arith) (λ mid. refl) refl
          (resp_cmd-Merges m.id m.cmd (omega arith))))

  -- Every request, and every response, whose computed size is below 2 ^ 32 is parsed back from what is
  -- written for it, both into a new message and into one that has been used and cleared.
  pub parse-printed :
      (req old_req : Request) (resp old_resp : Response)
      → request_size w req < 2 ^ 32
      → response_size w resp < 2 ^ 32
      → (parse w (request_field w) new_request (request_bytes w req) ≡ done req)
        × (parse w (request_field w) (clear_request old_req) (request_bytes w req) ≡ done req)
        × (parse w (response_field w) new_response (response_bytes w resp) ≡ done resp)
        × (parse w (response_field w) (clear_response old_resp) (response_bytes w resp) ≡ done resp)
  parse-printed req old_req resp old_resp small small' =
      let r = parse-request_bytes req small in
      let s = parse-response_bytes resp small' in (r, r, s, s)

  -- The same for `parse_from_bytes`.
  pub parse_request-request_bytes :
      (m : Request) → request_size w m < 2 ^ 32 → parse_request w (request_bytes w m) ≡ some m
  unfolding parse_request
  parse_request-request_bytes m small = rw (parse-request_bytes m small, parse_request)

  pub parse_response-response_bytes :
      (m : Response) → response_size w m < 2 ^ 32 → parse_response w (response_bytes w m) ≡ some m
  unfolding parse_response
  parse_response-response_bytes m small = rw (parse-response_bytes m small, parse_response)
