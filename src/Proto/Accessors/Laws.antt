-- ===== src/Proto/Accessors/Laws.antt =====
-- The accessors of src/proto/rndz.rs behave as those of one field of a oneof.
use rndz.Base.{arith, ℕ, ◌+◌, ◌≡◌, refl, Bool, true, false, Option, none, some, if◌then◌else◌}
use rndz.Proto.{ReqCmd, RespCmd, new_isync, new_fsync, new_rsync, new_redirect}
use rndz.Proto.Accessors.{
  Field, oneof_field, request_ping, request_isync, request_fsync, request_rsync, request_bye,
  response_pong, response_redirect, response_fsync, request_ping_of, request_isync_of,
  request_fsync_of, request_rsync_of, request_bye_of, response_pong_of, response_redirect_of,
  response_fsync_of,
}

-- What is set is there, and can be got; what is cleared is not there; what is not there reads as
-- the default; taking gets the value and clears the oneof, if the field is there, and else
-- changes nothing; writing through the reference sets the changed value.
pub record IsField {C V : Type 0} (new : V) (x : Field C V) : Type 0 where
  pub get-set : (cmd : Option C) (v : V) → x.get (x.set cmd v) ≡ v
  pub has-set : (cmd : Option C) (v : V) → x.has (x.set cmd v) ≡ true
  pub has-clear : (cmd : Option C) → x.has (x.clear cmd) ≡ false
  pub get_absent : (cmd : Option C) → x.has cmd ≡ false → x.get cmd ≡ new
  pub take-eq :
      (cmd : Option C) → x.take cmd ≡ (if x.has cmd then (x.get cmd, x.clear cmd) else (new, cmd))
  pub mutate-eq : (f : V → V) (cmd : Option C) → x.mutate f cmd ≡ x.set cmd (f (x.get cmd))

oneof_field-IsField :
    {C V : Type 0} (field_of : Option C → Option V) (make : V → C) (new : V)
    → ((v : V) → field_of (some (make v)) ≡ some v)
    → field_of none ≡ none
    → IsField new (oneof_field field_of make new)
oneof_field-IsField field_of make new back absent = record {
  get-set = λ cmd v. rw (back v) refl;
  has-set = λ cmd v. rw (back v) refl;
  has-clear = λ cmd. rw absent refl;
  get_absent = λ cmd h. ground arith;
  take-eq = λ cmd. ground arith;
  mutate-eq = λ f cmd. ground arith;
}

abbrev one : Bool → ℕ
one true = 1
one false = 0

one_request_field :
    (c : ReqCmd)
    → one (request_ping.has (some c))
        + one (request_isync.has (some c))
        + one (request_fsync.has (some c))
        + one (request_rsync.has (some c))
        + one (request_bye.has (some c))
      ≡ 1
unfolding request_ping request_isync request_fsync request_rsync request_bye
one_request_field ReqCmd.ping = refl
one_request_field (ReqCmd.isync v) = refl
one_request_field (ReqCmd.fsync v) = refl
one_request_field (ReqCmd.rsync v) = refl
one_request_field ReqCmd.bye = refl

one_response_field :
    (c : RespCmd)
    → one (response_pong.has (some c))
        + one (response_redirect.has (some c))
        + one (response_fsync.has (some c))
      ≡ 1
unfolding response_pong response_redirect response_fsync
one_response_field RespCmd.pong = refl
one_response_field (RespCmd.redirect v) = refl
one_response_field (RespCmd.fsync v) = refl

-- The accessors of each of the five fields of a request behave as those of one field, whose default
-- is the new message; and a request has exactly one of the five fields if it has a command, and else
-- none.
abbrev RequestFields : Type 0
RequestFields =
    IsField tt request_ping
    × IsField new_isync request_isync
    × IsField new_fsync request_fsync
    × IsField new_rsync request_rsync
    × IsField tt request_bye
    × ((c : ReqCmd)
        → one (request_ping.has (some c))
            + one (request_isync.has (some c))
            + one (request_fsync.has (some c))
            + one (request_rsync.has (some c))
            + one (request_bye.has (some c))
          ≡ 1)
    × (one (request_ping.has none)
          + one (request_isync.has none)
          + one (request_fsync.has none)
          + one (request_rsync.has none)
          + one (request_bye.has none)
        ≡ 0)

-- The same of the three fields of a response.
abbrev ResponseFields : Type 0
ResponseFields =
    IsField tt response_pong
    × IsField new_redirect response_redirect
    × IsField new_fsync response_fsync
    × ((c : RespCmd)
        → one (response_pong.has (some c))
            + one (response_redirect.has (some c))
            + one (response_fsync.has (some c))
          ≡ 1)
    × (one (response_pong.has none)
          + one (response_redirect.has none)
          + one (response_fsync.has none)
        ≡ 0)

request_fields : RequestFields
unfolding request_ping request_isync request_fsync request_rsync request_bye
request_fields = (
  oneof_field-IsField request_ping_of (λ v. ReqCmd.ping) tt (λ v. refl) refl,
  oneof_field-IsField request_isync_of ReqCmd.isync new_isync (λ v. refl) refl,
  oneof_field-IsField request_fsync_of ReqCmd.fsync new_fsync (λ v. refl) refl,
  oneof_field-IsField request_rsync_of ReqCmd.rsync new_rsync (λ v. refl) refl,
  oneof_field-IsField request_bye_of (λ v. ReqCmd.bye) tt (λ v. refl) refl,
  one_request_field,
  refl,
)

response_fields : ResponseFields
unfolding response_pong response_redirect response_fsync
response_fields = (
  oneof_field-IsField response_pong_of (λ v. RespCmd.pong) tt (λ v. refl) refl,
  oneof_field-IsField response_redirect_of RespCmd.redirect new_redirect (λ v. refl) refl,
  oneof_field-IsField response_fsync_of RespCmd.fsync new_fsync (λ v. refl) refl,
  one_response_field,
  refl,
)

-- The accessors of each of the five fields of a request, and of the three fields of a response,
-- behave as those of one field, whose default is the new message; and a message has exactly one of
-- its fields if it has a command, and else none.
message_fields : RequestFields × ResponseFields
message_fields = (request_fields, response_fields)
