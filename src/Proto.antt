-- ===== src/Proto.antt =====
-- The messages of proto/rndz.proto, as src/proto/rndz.rs declares them. The special fields of a
-- message (unknown fields and a cached size, kept by the protobuf crate) are left out.
pub mod Wire
pub mod Parser
pub mod Printer
pub mod RoundTrip
pub mod Accessors
use rndz.Base.{String, Option, none, some}

pub record Isync : Type 0 where
  pub id : String

pub record Redirect : Type 0 where
  pub id : String
  pub addr : String

pub record Fsync : Type 0 where
  pub id : String
  pub addr : String

pub record Rsync : Type 0 where
  pub id : String

-- `Ping`, `Pong` and `Bye` have no fields: their constructors take none.
pub data ReqCmd : Type 0 where
  ping : ReqCmd
  isync : Isync → ReqCmd
  fsync : Fsync → ReqCmd
  rsync : Rsync → ReqCmd
  bye : ReqCmd

pub record Request : Type 0 where
  pub id : String
  pub cmd : Option ReqCmd

pub data RespCmd : Type 0 where
  pong : RespCmd
  redirect : Redirect → RespCmd
  fsync : Fsync → RespCmd

pub record Response : Type 0 where
  pub id : String
  pub cmd : Option RespCmd

-- `Request::new` and `Response::new`: every field at its default.
abbrev pub new_request : Request
new_request = record { id = ""; cmd = none }

abbrev pub new_response : Response
new_response = record { id = ""; cmd = none }

abbrev pub new_redirect : Redirect
new_redirect = record { id = ""; addr = "" }

abbrev pub new_isync : Isync
new_isync = record { id = "" }

abbrev pub new_fsync : Fsync
new_fsync = record { id = ""; addr = "" }

abbrev pub new_rsync : Rsync
new_rsync = record { id = "" }

-- `clear`: the command is set to `None` once for each of its fields.
abbrev pub clear_request : Request → Request
clear_request m = record m { id = ""; cmd = none }

abbrev pub clear_response : Response → Response
clear_response m = record m { id = ""; cmd = none }

-- A request with its identity and its command, and a response likewise.
abbrev pub request : String → ReqCmd → Request
request id cmd = record new_request { id = id; cmd = some cmd }

abbrev pub response : String → RespCmd → Response
response id cmd = record new_response { id = id; cmd = some cmd }
