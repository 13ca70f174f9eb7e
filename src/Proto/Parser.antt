-- ===== src/Proto/Parser.antt =====
-- `merge_from` of each message in src/proto/rndz.rs, over the interface `Wire` to the protobuf crate. A
-- parser forgets the unknown fields that it reads. `Ping`, `Pong` and `Bye` are `Unit`.
pub mod Ends
pub mod Fields
use rndz.Base.{
  ℕ, zero, suc, ◌+◌, ◌%◌, ◌^◌, String, Option, none, some, List, [], ◌++◌, length, ◌==◌, str_eq,
  if◌then◌else◌,
}
use rndz.Proto.{
  Isync, Redirect, Fsync, Rsync, ReqCmd, Request, RespCmd, Response, new_request, new_response,
  new_redirect, new_isync, new_fsync, new_rsync,
}
use rndz.Proto.Wire.{Wire, RawTag, bad_tag, eof, raw_tag}

-- What a parser makes of bytes. `unfinished` means that the fuel ran out.
pub data Merged {ℓ} (A : Type ℓ) : Type ℓ where
  unfinished malformed : Merged A
  done : A → Merged A

abbrev pub and_then {ℓ κ} : {A : Type ℓ} {B : Type κ} → Merged A → (A → Merged B) → Merged B
and_then unfinished k = unfinished
and_then malformed k = malformed
and_then (done a) k = k a

-- One `is.read_...()?` with the assignment of the field that it reads.
abbrev pub string_field {ℓ} :
    {A : Type ℓ} → Option (String × List ℕ) → (String → A) → Merged (A × List ℕ)
string_field none set = malformed
string_field (some (s, rest)) set = done (set s, rest)

abbrev pub message_field {ℓ κ} :
    {A : Type ℓ} {B : Type κ}
    → (List ℕ → Merged B)
    → Option (List ℕ × List ℕ)
    → (B → A)
    → Merged (A × List ℕ)
message_field parse none set = malformed
message_field parse (some (bytes, rest)) set = and_then (parse bytes) λ b. done (set b, rest)

abbrev pub unknown_field {ℓ} : {A : Type ℓ} → Option (List ℕ) → A → Merged (A × List ℕ)
unknown_field none m = malformed
unknown_field (some rest) m = done (m, rest)

module _ (w : Wire) where
  open w use {read_raw_tag_or_eof, read_string, read_delimited, read_unknown_or_skip_group}

  abbrev pub after_tag {ℓ} : {A : Type ℓ} → RawTag → A → (ℕ → List ℕ → Merged A) → Merged A
  after_tag bad_tag m k = malformed
  after_tag eof m k = done m
  after_tag (raw_tag tag rest) m k = k tag rest

  -- The loop of every `merge_from`: `field` is the `match` in its body.
  unfoldable pub merge_from {ℓ} :
      {A : Type ℓ} → (A → ℕ → List ℕ → Merged (A × List ℕ)) → ℕ → A → List ℕ → Merged A
  merge_from field zero m stream = unfinished
  merge_from field (suc fuel) m stream =
      after_tag (read_raw_tag_or_eof stream) m
        λ tag rest. and_then (field m tag rest) λ p. merge_from field fuel p.0 p.1

  -- A new message, merged from these bytes.
  abbrev pub parse {ℓ} :
      {A : Type ℓ} → (A → ℕ → List ℕ → Merged (A × List ℕ)) → A → List ℕ → Merged A
  parse field new bytes = merge_from field (suc (length bytes)) new bytes

  -- The bodies of the loops.
  abbrev pub ping_field : Unit {0} → ℕ → List ℕ → Merged (Unit {0} × List ℕ)
  ping_field m tag stream = unknown_field (read_unknown_or_skip_group tag stream) m

  abbrev pub isync_field : Isync → ℕ → List ℕ → Merged (Isync × List ℕ)
  isync_field m tag stream =
      if tag == 10
      then string_field (read_string stream) (λ s. record m { id = s })
      else unknown_field (read_unknown_or_skip_group tag stream) m

  abbrev pub rsync_field : Rsync → ℕ → List ℕ → Merged (Rsync × List ℕ)
  rsync_field m tag stream =
      if tag == 10
      then string_field (read_string stream) (λ s. record m { id = s })
      else unknown_field (read_unknown_or_skip_group tag stream) m

  abbrev pub redirect_field : Redirect → ℕ → List ℕ → Merged (Redirect × List ℕ)
  redirect_field m tag stream =
      if tag == 10
      then string_field (read_string stream) (λ s. record m { id = s })
      else if tag == 18
      then string_field (read_string stream) (λ s. record m { addr = s })
      else unknown_field (read_unknown_or_skip_group tag stream) m

  abbrev pub fsync_field : Fsync → ℕ → List ℕ → Merged (Fsync × List ℕ)
  fsync_field m tag stream =
      if tag == 10
      then string_field (read_string stream) (λ s. record m { id = s })
      else if tag == 18
      then string_field (read_string stream) (λ s. record m { addr = s })
      else unknown_field (read_unknown_or_skip_group tag stream) m

  unfoldable pub request_field : Request → ℕ → List ℕ → Merged (Request × List ℕ)
  request_field m tag stream =
      if tag == 10
      then string_field (read_string stream) (λ s. record m { id = s })
      else if tag == 18
      then message_field (parse ping_field tt) (read_delimited stream)
          (λ v. record m { cmd = some ReqCmd.ping })
      else if tag == 26
      then message_field (parse isync_field new_isync) (read_delimited stream)
          (λ v. record m { cmd = some (ReqCmd.isync v) })
      else if tag == 34
      then message_field (parse fsync_field new_fsync) (read_delimited stream)
          (λ v. record m { cmd = some (ReqCmd.fsync v) })
      else if tag == 42
      then message_field (parse rsync_field new_rsync) (read_delimited stream)
          (λ v. record m { cmd = some (ReqCmd.rsync v) })
      else if tag == 50
      then message_field (parse ping_field tt) (read_delimited stream)
          (λ v. record m { cmd = some ReqCmd.bye })
      else unknown_field (read_unknown_or_skip_group tag stream) m

  unfoldable pub response_field : Response → ℕ → List ℕ → Merged (Response × List ℕ)
  response_field m tag stream =
      if tag == 10
      then string_field (read_string stream) (λ s. record m { id = s })
      else if tag == 18
      then message_field (parse ping_field tt) (read_delimited stream)
          (λ v. record m { cmd = some RespCmd.pong })
      else if tag == 26
      then message_field (parse redirect_field new_redirect) (read_delimited stream)
          (λ v. record m { cmd = some (RespCmd.redirect v) })
      else if tag == 34
      then message_field (parse fsync_field new_fsync) (read_delimited stream)
          (λ v. record m { cmd = some (RespCmd.fsync v) })
      else unknown_field (read_unknown_or_skip_group tag stream) m

  -- `parse_from_bytes`, whose error says nothing to its callers.
  unfoldable pub parse_request : List ℕ → Option Request
  parse_request bytes = elim (parse request_field new_request bytes) [
    | unfinished ↦ none
    | malformed ↦ none
    | done m ↦ some m
  ]

  unfoldable pub parse_response : List ℕ → Option Response
  parse_response bytes = elim (parse response_field new_response bytes) [
    | unfinished ↦ none
    | malformed ↦ none
    | done m ↦ some m
  ]
