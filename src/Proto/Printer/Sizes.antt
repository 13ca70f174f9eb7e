-- ===== src/Proto/Printer/Sizes.antt =====
-- The sizes that src/proto/rndz.rs computes before it writes.
use rndz.Base.{
  ℕ, ◌+◌, ◌^◌, ◌<◌, String, ◌≡◌, refl, Option, none, some, List, ◌++◌, arith, length, length-append,
}
use rndz.Proto.{ReqCmd, Request, RespCmd, Response}
use rndz.Proto.Wire.{Wire}
use rndz.Proto.Printer.{
  cached, string_bytes, string_part, message_part, req_cmd_bytes, request_bytes, resp_cmd_bytes,
  response_bytes, req_cmd_size, request_size, resp_cmd_size, response_size,
}

module _ (w : Wire) where
  open w use {
    write_message_field, compute_raw_varint64_size, length-write_string, length-write_message_field,
  }

  pub length-string_bytes : (n : ℕ) (s : String) → length (string_bytes w n s) ≡ string_part w n s
  length-string_bytes n s = ground (arith, length-write_string n s)

  pub length-two_strings :
      (n k : ℕ) (r s : String)
      → length (string_bytes w n r ++ string_bytes w k s) ≡ string_part w n r + string_part w k s
  length-two_strings n k r s = omega (
    arith,
    length-append (string_bytes w n r) (string_bytes w k s),
    length-string_bytes n r,
    length-string_bytes k s,
  )

  pub cached-eq :
      (size : ℕ) (bytes : List ℕ) → length bytes ≡ size → size < 2 ^ 32 → cached size ≡ length bytes
  cached-eq size bytes same small = omega arith

  length-message :
      (n size : ℕ) (bytes : List ℕ)
      → n < 16
      → length bytes ≡ size
      → message_part w size < 2 ^ 32
      → length (write_message_field n (cached size) bytes) ≡ message_part w size
  length-message n size bytes low same small =
      let fits : length bytes < 2 ^ 32 = omega arith in
      rw (cached-eq size bytes same (omega arith), ← same)
        (length-write_message_field n bytes low fits)

  length-req_cmd_bytes :
      (c : Option ReqCmd)
      → req_cmd_size w c < 2 ^ 32
      → length (req_cmd_bytes w c) ≡ req_cmd_size w c
  length-req_cmd_bytes none small = refl
  length-req_cmd_bytes (some ReqCmd.ping) small = length-message 2 0 _ (omega arith) refl small
  length-req_cmd_bytes (some (ReqCmd.isync v)) small =
      length-message 3 _ _ (omega arith) (length-string_bytes 1 v.id) small
  length-req_cmd_bytes (some (ReqCmd.fsync v)) small =
      length-message 4 _ _ (omega arith) (length-two_strings 1 2 v.id v.addr) small
  length-req_cmd_bytes (some (ReqCmd.rsync v)) small =
      length-message 5 _ _ (omega arith) (length-string_bytes 1 v.id) small
  length-req_cmd_bytes (some ReqCmd.bye) small = length-message 6 0 _ (omega arith) refl small

  length-resp_cmd_bytes :
      (c : Option RespCmd)
      → resp_cmd_size w c < 2 ^ 32
      → length (resp_cmd_bytes w c) ≡ resp_cmd_size w c
  length-resp_cmd_bytes none small = refl
  length-resp_cmd_bytes (some RespCmd.pong) small = length-message 2 0 _ (omega arith) refl small
  length-resp_cmd_bytes (some (RespCmd.redirect v)) small =
      length-message 3 _ _ (omega arith) (length-two_strings 1 2 v.id v.addr) small
  length-resp_cmd_bytes (some (RespCmd.fsync v)) small =
      length-message 4 _ _ (omega arith) (length-two_strings 1 2 v.id v.addr) small

  pub length-request_bytes :
      (m : Request) → request_size w m < 2 ^ 32 → length (request_bytes w m) ≡ request_size w m
  unfolding request_bytes request_size
  length-request_bytes m small = omega (
    arith,
    length-append (string_bytes w 1 m.id) (req_cmd_bytes w m.cmd),
    length-string_bytes 1 m.id,
    length-req_cmd_bytes m.cmd (omega arith),
  )

  pub length-response_bytes :
      (m : Response) → response_size w m < 2 ^ 32 → length (response_bytes w m) ≡ response_size w m
  unfolding response_bytes response_size
  length-response_bytes m small = omega (
    arith,
    length-append (string_bytes w 1 m.id) (resp_cmd_bytes w m.cmd),
    length-string_bytes 1 m.id,
    length-resp_cmd_bytes m.cmd (omega arith),
  )

  -- A request, and a response, whose computed size is below 2 ^ 32 is written in as many bytes as its
  -- computed size.
  pub length-printed :
      (req : Request) (resp : Response)
      → request_size w req < 2 ^ 32
      → response_size w resp < 2 ^ 32
      → (length (request_bytes w req) ≡ request_size w req)
        × (length (response_bytes w resp) ≡ response_size w resp)
  length-printed req resp small small' =
      (length-request_bytes req small, length-response_bytes resp small')
