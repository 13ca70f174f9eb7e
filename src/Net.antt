-- ===== src/Net.antt =====
-- std::net::SocketAddr, and its text form, which the standard library prints and parses.
use rndz.Base.{ℕ, String, Option, none, some, ◌≡◌, Bool, true, false}

-- An IPv6 address carries its flow information and its scope beside the address and the port.
pub data SocketAddr : Type 0 where
  v4 : ℕ → ℕ → SocketAddr
  v6 : ℕ → ℕ → ℕ → ℕ → SocketAddr

abbrev pub is_ipv6 : SocketAddr → Bool
is_ipv6 (v4 ip port) = false
is_ipv6 (v6 ip port flowinfo scope_id) = true

abbrev pub port : SocketAddr → ℕ
port (v4 ip p) = p
port (v6 ip p flowinfo scope_id) = p

abbrev pub flowinfo : SocketAddr → ℕ
flowinfo (v4 ip port) = 0
flowinfo (v6 ip port flow scope_id) = flow

-- `SocketAddr::to_string` and `str::parse::<SocketAddr>`: printing leaves out the flow information
-- and loses nothing else, and the empty text is no address.
pub record AddrText : Type 0 where
  pub to_string : SocketAddr → String
  pub parse : String → Option SocketAddr
  pub parse-to_string : (a : SocketAddr) → flowinfo a ≡ 0 → parse (to_string a) ≡ some a
  pub parse_empty : parse "" ≡ none
