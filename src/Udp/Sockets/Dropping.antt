-- ===== src/Udp/Sockets/Dropping.antt =====
-- What a `Listener` of src/udp/client.rs says when it is dropped.
use rndz.Base.{String, ◌≡◌, refl, sym, subst, Option, none, List, [], ◌∷◌, arith}
use rndz.Net.{SocketAddr}
use rndz.Udp.Sockets.{
  Result, failed, ok, Socket, Listener, Listening, new_config, new_listener, listen, listen_first,
  listen_with, drop_listener,
}

-- The listener after these calls of `listen`, whatever came of them.
abbrev pub listens : Listener → List Listening → Listener
listens l [] = l
listens l (w ∷ ws) = listens (listen l w).1 ws

-- It holds no sockets and has sent no Bye.
record IsSilent (l : Listener) : Type 0 where
  holds : l.svr_sks ≡ none
  silent : l.byes ≡ []

listen_first-IsSilent :
    (l : Listener) (w : Listening) (r : Result (List Socket × SocketAddr))
    → IsSilent l
    → IsSilent (listen_first l w r).1
listen_first-IsSilent l w (failed e) v = v
listen_first-IsSilent l w (ok (sks, addr)) v = record { holds = refl; silent = v.silent }

listen-IsSilent : (l : Listener) (w : Listening) → IsSilent l → IsSilent (listen l w).1
unfolding listen
listen-IsSilent l w v =
    subst (λ o. IsSilent (listen_with l w o).1) (sym v.holds)
      (listen_first-IsSilent l w w.connecting v)

listens-IsSilent : (l : Listener) (ws : List Listening) → IsSilent l → IsSilent (listens l ws)
listens-IsSilent l [] v = v
listens-IsSilent l (w ∷ ws) v = listens-IsSilent (listen l w).1 ws (listen-IsSilent l w v)

new-IsSilent :
    (servers : List String) (id : String) (addr : Option SocketAddr) (l : Listener)
    → new_listener servers id addr ≡ ok l
    → IsSilent l
unfolding new_listener new_config
new-IsSilent [] id addr l h = cc
new-IsSilent (server ∷ servers) id addr l h = record { holds = ground arith; silent = ground arith }

-- A new listener that is dropped after any number of calls of `listen`, successful or not, sends no Bye
-- to any server, since each call takes the sockets away from the listener.
pub drop_silent :
    (servers : List String) (id : String) (addr : Option SocketAddr) (l : Listener)
    (ws : List Listening)
    → new_listener servers id addr ≡ ok l
    → (drop_listener (listens l ws)).byes ≡ []
unfolding drop_listener
drop_silent servers id addr l ws h =
    let v = listens-IsSilent l ws (new-IsSilent servers id addr l h) in rw v.holds v.silent
