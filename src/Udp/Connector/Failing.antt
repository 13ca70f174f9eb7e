-- ===== src/Udp/Connector/Failing.antt =====
-- What a server whose name cannot be resolved does to `Connector::connect` of src/udp/client.rs.
use rndz.Base.{ℕ, String, ◌≡◌, refl, sym, ap, subst, Option, none, some, List, [], ◌∷◌, ◌++◌, arith}
use rndz.Net.{SocketAddr}
use rndz.Proto.{Response}
use rndz.Udp.Client.{Poll}
use rndz.Udp.Client
use rndz.Udp.Sockets.{
  Os, Error, Result, failed, ok, try, new_config, first_of, Socket, or_else, share, server_for,
  bind_for, open_to, connect_server, connect_from, unwrap, connect_multiple_servers,
}
use rndz.Udp.Connector.{Connector, new_connector, connect}

abbrev pub IsFailed : {A : Type 0} → Result A → Type 0
IsFailed r = (e : Error) × (r ≡ failed e)

try-IsFailed :
    {A B : Type 0} (r : Result A) (next : A → Result B) → IsFailed r → IsFailed (try r next)
try-IsFailed r next (e, h) = (e, ap (λ x. try x next) h)

-- It fails if what is done next fails, whatever comes first.
next-IsFailed :
    {A B : Type 0} (r : Result A) (next : A → Result B)
    → ((a : A) → IsFailed (next a))
    → IsFailed (try r next)
next-IsFailed (failed e) next h = (e, refl)
next-IsFailed (ok a) next h = h a

-- The name has no address: it is not resolved, or to nothing.
abbrev pub HasNoAddress : Os → String → Type 0
HasNoAddress os name = IsFailed (try (os.resolve name) first_of)

module _ (os : Os) where
  resolve-IsFailed :
      {A : Type 0} (r : Result (List SocketAddr)) (next : SocketAddr → Result A)
      → IsFailed (try r first_of)
      → IsFailed (try r λ addrs. try (first_of addrs) next)
  resolve-IsFailed (failed e) next h = (e, refl)
  resolve-IsFailed (ok addrs) next h = try-IsFailed (first_of addrs) next h

  connect_server-IsFailed :
      (name : String) (o : Option SocketAddr)
      → HasNoAddress os name
      → IsFailed (connect_server os name o)
  unfolding connect_server
  connect_server-IsFailed name o h =
      resolve-IsFailed (os.resolve name)
        (λ found. let server = server_for o found in open_to os (bind_for o server) server) h

  connect_from-IsFailed :
      (before after : List String) (bad : String) (initial o : Option SocketAddr)
      → HasNoAddress os bad
      → IsFailed (connect_from os initial o (before ++ bad ∷ after))
  unfolding connect_from
  connect_from-IsFailed [] after bad initial o h =
      try-IsFailed (connect_server os bad (or_else o initial)) _
        (connect_server-IsFailed bad (or_else o initial) h)
  connect_from-IsFailed (server ∷ before) after bad initial o h =
      next-IsFailed (connect_server os server (or_else o initial)) _ λ sk.
        try-IsFailed (connect_from os initial (some (share o initial sk)) (before ++ bad ∷ after)) _
          (connect_from-IsFailed before after bad initial (some (share o initial sk)) h)

  connect_multiple-IsFailed :
      (before after : List String) (bad : String) (initial : Option SocketAddr)
      → HasNoAddress os bad
      → IsFailed (connect_multiple_servers os (before ++ bad ∷ after) initial)
  unfolding connect_multiple_servers
  connect_multiple-IsFailed before after bad initial h =
      try-IsFailed (connect_from os initial none (before ++ bad ∷ after)) unwrap
        (connect_from-IsFailed before after bad initial none h)

new_connector-keeps :
    (servers : List String) (id : String) (addr : Option SocketAddr) (cn : Connector)
    → new_connector servers id addr ≡ ok cn
    → cn.cfg.server_addrs ≡ servers
unfolding new_connector new_config
new_connector-keeps [] id addr cn h = cc
new_connector-keeps (server ∷ servers) id addr cn h = ground arith

-- When a single name among those that a connector was given has no address, `connect` fails as a whole,
-- whatever the other servers would answer.
pub bad_server :
    (parse_from_bytes : List ℕ → Option Response) (parse_addr : String → Option SocketAddr)
    (open_peer : List Socket → ℕ → SocketAddr → Option Client.Error) (os : Os)
    (before after : List String) (bad id : String) (addr : Option SocketAddr) (cn : Connector)
    (polls : ℕ → List Poll)
    → new_connector (before ++ bad ∷ after) id addr ≡ ok cn
    → HasNoAddress os bad
    → (e : Error) × (connect parse_from_bytes parse_addr open_peer os cn polls ≡ failed e)
unfolding connect
bad_server parse parse_addr open_peer os before after bad id addr cn polls h v =
    try-IsFailed (connect_multiple_servers os cn.cfg.server_addrs cn.cfg.local_addr) _ (
      subst (λ names. IsFailed (connect_multiple_servers os names cn.cfg.local_addr))
        (sym (new_connector-keeps (before ++ bad ∷ after) id addr cn h))
        (connect_multiple-IsFailed os before after bad cn.cfg.local_addr v))
