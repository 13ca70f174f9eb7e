-- ===== src/Proto/Printer.antt =====
-- `compute_size` and `write_to_with_cached_sizes` of each message in src/proto/rndz.rs, over the
-- interface `Wire` to the protobuf crate. A message has no unknown fields.
pub mod Sizes
use rndz.Base.{
  ℕ, zero, suc, ◌+◌, ◌%◌, ◌^◌, String, Option, none, some, List, [], ◌++◌, length, ◌==◌, str_eq,
  if◌then◌else◌,
}
use rndz.Proto.{
  Isync, Redirect, Fsync, Rsync, ReqCmd, Request, RespCmd, Response, new_request, new_response,
  new_redirect, new_isync, new_fsync, new_rsync,
}
use rndz.Proto.Wire.{Wire, RawTag, bad_tag, eof, raw_tag}

-- `self.special_fields.cached_size().set(my_size as u32)`
abbrev pub cached : ℕ → ℕ
cached my_size = my_size % 2 ^ 32

module _ (w : Wire) where
  open w use {write_string, write_message_field, string_size, compute_raw_varint64_size}

  -- A string field of a message, which is left out if it is empty, and its size.
  abbrev pub string_bytes : ℕ → String → List ℕ
  string_bytes number s = if str_eq s "" then [] else write_string number s

  abbrev pub string_part : ℕ → String → ℕ
  string_part number s = if str_eq s "" then 0 else string_size number s

  -- The size of a message field whose message has the size `len`.
  abbrev pub message_part : ℕ → ℕ
  message_part len = 1 + compute_raw_varint64_size len + len

  -- `compute_size` of each message.
  abbrev pub isync_size : Isync → ℕ
  isync_size m = string_part 1 m.id

  abbrev pub rsync_size : Rsync → ℕ
  rsync_size m = string_part 1 m.id

  abbrev pub redirect_size : Redirect → ℕ
  redirect_size m = string_part 1 m.id + string_part 2 m.addr

  abbrev pub fsync_size : Fsync → ℕ
  fsync_size m = string_part 1 m.id + string_part 2 m.addr

  abbrev pub req_cmd_size : Option ReqCmd → ℕ
  req_cmd_size none = 0
  req_cmd_size (some ReqCmd.ping) = message_part 0
  req_cmd_size (some (ReqCmd.isync v)) = message_part (isync_size v)
  req_cmd_size (some (ReqCmd.fsync v)) = message_part (fsync_size v)
  req_cmd_size (some (ReqCmd.rsync v)) = message_part (rsync_size v)
  req_cmd_size (some ReqCmd.bye) = message_part 0

  unfoldable pub request_size : Request → ℕ
  request_size m = string_part 1 m.id + req_cmd_size m.cmd

  abbrev pub resp_cmd_size : Option RespCmd → ℕ
  resp_cmd_size none = 0
  resp_cmd_size (some RespCmd.pong) = message_part 0
  resp_cmd_size (some (RespCmd.redirect v)) = message_part (redirect_size v)
  resp_cmd_size (some (RespCmd.fsync v)) = message_part (fsync_size v)

  unfoldable pub response_size : Response → ℕ
  response_size m = string_part 1 m.id + resp_cmd_size m.cmd

  -- `write_to_with_cached_sizes` of each message; the cached sizes are those of `compute_size`.
  abbrev pub isync_bytes : Isync → List ℕ
  isync_bytes m = string_bytes 1 m.id

  abbrev pub rsync_bytes : Rsync → List ℕ
  rsync_bytes m = string_bytes 1 m.id

  abbrev pub redirect_bytes : Redirect → List ℕ
  redirect_bytes m = string_bytes 1 m.id ++ string_bytes 2 m.addr

  abbrev pub fsync_bytes : Fsync → List ℕ
  fsync_bytes m = string_bytes 1 m.id ++ string_bytes 2 m.addr

  abbrev pub req_cmd_bytes : Option ReqCmd → List ℕ
  req_cmd_bytes none = []
  req_cmd_bytes (some ReqCmd.ping) = write_message_field 2 (cached 0) []
  req_cmd_bytes (some (ReqCmd.isync v)) =
      write_message_field 3 (cached (isync_size v)) (isync_bytes v)
  req_cmd_bytes (some (ReqCmd.fsync v)) =
      write_message_field 4 (cached (fsync_size v)) (fsync_bytes v)
  req_cmd_bytes (some (ReqCmd.rsync v)) =
      write_message_field 5 (cached (rsync_size v)) (rsync_bytes v)
  req_cmd_bytes (some ReqCmd.bye) = write_message_field 6 (cached 0) []

  unfoldable pub request_bytes : Request → List ℕ
  request_bytes m = string_bytes 1 m.id ++ req_cmd_bytes m.cmd

  abbrev pub resp_cmd_bytes : Option RespCmd → List ℕ
  resp_cmd_bytes none = []
  resp_cmd_bytes (some RespCmd.pong) = write_message_field 2 (cached 0) []
  resp_cmd_bytes (some (RespCmd.redirect v)) =
      write_message_field 3 (cached (redirect_size v)) (redirect_bytes v)
  resp_cmd_bytes (some (RespCmd.fsync v)) =
      write_message_field 4 (cached (fsync_size v)) (fsync_bytes v)

  unfoldable pub response_bytes : Response → List ℕ
  response_bytes m = string_bytes 1 m.id ++ resp_cmd_bytes m.cmd
