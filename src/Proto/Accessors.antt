-- ===== src/Proto/Accessors.antt =====
-- The accessors of the oneof fields in src/proto/rndz.rs. Each of them reads and writes the field `cmd`
-- of its message alone, so they are functions of a command. The six accessors of each field have
-- the same bodies but for the name of the field and its constructor.
pub mod Laws
use rndz.Base.{Bool, true, false, Option, none, some}
use rndz.Proto.{
  Isync, Redirect, Fsync, Rsync, ReqCmd, RespCmd, new_isync, new_fsync, new_rsync, new_redirect,
}

-- `x()`, `has_x`, `set_x`, `clear_x`, `mut_x` with the write through the reference that it gives, and
-- `take_x`, for a field `x` with values in `V` of the oneof `C`.
pub record Field (C V : Type 0) : Type 0 where
  pub get : Option C → V
  pub has : Option C → Bool
  pub set : Option C → V → Option C
  pub clear : Option C → Option C
  pub mutate : (V → V) → Option C → Option C
  pub take : Option C → V × Option C

-- `field_of` matches the field's constructor, `make` is the constructor, `new` the default instance.
module _ {C V : Type 0} (field_of : Option C → Option V) (make : V → C) (new : V) where
  abbrev value_or_new : Option V → V
  value_or_new none = new
  value_or_new (some v) = v

  abbrev is_some : Option V → Bool
  is_some none = false
  is_some (some v) = true

  abbrev mutated : (V → V) → Option V → Option C
  mutated f none = some (make (f new))
  mutated f (some v) = some (make (f v))

  abbrev taken : Option C → Option V → V × Option C
  taken cmd none = (new, cmd)
  taken cmd (some v) = (v, none)

  abbrev pub oneof_field : Field C V
  oneof_field = record {
    get = λ cmd. value_or_new (field_of cmd);
    has = λ cmd. is_some (field_of cmd);
    set = λ cmd v. some (make v);
    clear = λ cmd. none;
    mutate = λ f cmd. mutated f (field_of cmd);
    take = λ cmd. taken cmd (field_of cmd);
  }

abbrev pub request_ping_of : Option ReqCmd → Option (Unit {0})
request_ping_of (some ReqCmd.ping) = some tt
request_ping_of _ = none

abbrev pub request_isync_of : Option ReqCmd → Option Isync
request_isync_of (some (ReqCmd.isync v)) = some v
request_isync_of _ = none

abbrev pub request_fsync_of : Option ReqCmd → Option Fsync
request_fsync_of (some (ReqCmd.fsync v)) = some v
request_fsync_of _ = none

abbrev pub request_rsync_of : Option ReqCmd → Option Rsync
request_rsync_of (some (ReqCmd.rsync v)) = some v
request_rsync_of _ = none

abbrev pub request_bye_of : Option ReqCmd → Option (Unit {0})
request_bye_of (some ReqCmd.bye) = some tt
request_bye_of _ = none

abbrev pub response_pong_of : Option RespCmd → Option (Unit {0})
response_pong_of (some RespCmd.pong) = some tt
response_pong_of _ = none

abbrev pub response_redirect_of : Option RespCmd → Option Redirect
response_redirect_of (some (RespCmd.redirect v)) = some v
response_redirect_of _ = none

abbrev pub response_fsync_of : Option RespCmd → Option Fsync
response_fsync_of (some (RespCmd.fsync v)) = some v
response_fsync_of _ = none

unfoldable pub request_ping : Field ReqCmd (Unit {0})
request_ping = oneof_field request_ping_of (λ v. ReqCmd.ping) tt

unfoldable pub request_isync : Field ReqCmd Isync
request_isync = oneof_field request_isync_of ReqCmd.isync new_isync

unfoldable pub request_fsync : Field ReqCmd Fsync
request_fsync = oneof_field request_fsync_of ReqCmd.fsync new_fsync

unfoldable pub request_rsync : Field ReqCmd Rsync
request_rsync = oneof_field request_rsync_of ReqCmd.rsync new_rsync

unfoldable pub request_bye : Field ReqCmd (Unit {0})
request_bye = oneof_field request_bye_of (λ v. ReqCmd.bye) tt

unfoldable pub response_pong : Field RespCmd (Unit {0})
response_pong = oneof_field response_pong_of (λ v. RespCmd.pong) tt

unfoldable pub response_redirect : Field RespCmd Redirect
response_redirect = oneof_field response_redirect_of RespCmd.redirect new_redirect

unfoldable pub response_fsync : Field RespCmd Fsync
response_fsync = oneof_field response_fsync_of RespCmd.fsync new_fsync
