-- ===== src/Udp/Connector.antt =====
-- `Connector` of src/udp/client.rs: its `connect` opens the sockets to the servers and goes through the
-- rounds.
pub mod Failing
use rndz.Base.{ℕ, String, Option, List, [], ◌∷◌, length}
use rndz.Net.{SocketAddr}
use rndz.Proto.{Response}
use rndz.Udp.Client.{Outcome, Poll}
use rndz.Udp.Client
use rndz.Udp.Sockets.{
  Os, Result, ok, try, CommonConfig, new_config, Socket, connect_multiple_servers,
}

pub record Connector : Type 0 where
  pub cfg : CommonConfig

unfoldable pub new_connector : List String → String → Option SocketAddr → Result Connector
unfolding new_config
new_connector server_addrs id local_addr =
    try (new_config server_addrs id local_addr) λ cfg. ok (record { cfg = cfg })

-- `set_nonblocking` on each socket.
unfoldable pub all_nonblocking : Os → List Socket → Result (Unit {0})
all_nonblocking os [] = ok tt
all_nonblocking os (sk ∷ sks) = try os.set_nonblocking λ _. all_nonblocking os sks

-- The parsers of responses and of addresses; and the error or the panic, if any, of opening the socket for the
-- peer, where one of these is bound.
module _ (parse_from_bytes : List ℕ → Option Response) (parse_addr : String → Option SocketAddr)
    (open_peer : List Socket → ℕ → SocketAddr → Option Client.Error) where
  abbrev pub search : Connector → List Socket → (ℕ → List Poll) → Outcome
  search cn sks polls =
      Client.connect cn.cfg.id parse_from_bytes parse_addr (open_peer sks) (length sks) polls

  -- `Connector::connect`: it fails before its rounds, or ends as they do.
  unfoldable pub connect : Os → Connector → (ℕ → List Poll) → Result Outcome
  connect os cn polls =
      try (connect_multiple_servers os cn.cfg.server_addrs cn.cfg.local_addr)
        λ opened. try (all_nonblocking os opened.0) λ _. ok (search cn opened.0 polls)
