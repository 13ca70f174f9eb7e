-- ===== src/Udp/Sockets/Shared.antt =====
-- Which addresses the sockets of a UDP client of src/udp/client.rs are bound to.
use rndz.Base.{
  ℕ, suc, String, ◌≡◌, refl, sym, ◌∙◌, ap, subst, true, Option, none, some, List, [], ◌∷◌, arith,
  length, All,
}
use rndz.Net.{SocketAddr, v4, v6, is_ipv6, port}
use rndz.Udp.Sockets.{
  Os, create_socket, Result, failed, ok, try, Socket, mapped, server_for, bind_for, first_of,
  shared_addr, open_to, connect_server, connect_from, unwrap, connect_multiple_servers,
}

try-ok :
    {A B : Type 0} (r : Result A) (next : A → Result B) {b : B}
    → try r next ≡ ok b
    → (a : A) × (r ≡ ok a) × (next a ≡ ok b)
try-ok (failed e) next h = cc
try-ok (ok a) next h = (a, refl, h)

unwrap-ok :
    (p : List Socket × Option SocketAddr) (sks : List Socket) (addr : SocketAddr)
    → unwrap p ≡ ok (sks, addr)
    → (p.0 ≡ sks) × (p.1 ≡ some addr)
unwrap-ok (ks, none) sks addr h = cc
unwrap-ok (ks, some a) sks addr h = ground arith

is_ipv6-mapped : (a : SocketAddr) → is_ipv6 (mapped a) ≡ true
is_ipv6-mapped (v4 ip port) = refl
is_ipv6-mapped (v6 ip port flowinfo scope_id) = refl

-- The socket goes to an IPv6 address if it is bound to one, and was bound to `addr` if that is given.
abbrev pub Reaches : Socket → Type 0
Reaches sk = is_ipv6 sk.bound ≡ true → is_ipv6 sk.peer_addr ≡ true

server_for-Reaches :
    (o : Option SocketAddr) (found : SocketAddr)
    → let server = server_for o found in is_ipv6 (bind_for o server) ≡ true → is_ipv6 server ≡ true
server_for-Reaches none (v4 ip port) h = cc
server_for-Reaches none (v6 ip port flowinfo scope_id) h = refl
server_for-Reaches (some addr) found h = rw h (is_ipv6-mapped found)

module _ (os : Os) where
  open os use {resolve, set_nonblocking, connect_to}

  open_to-ok :
      (bound server : SocketAddr) (sk : Socket)
      → open_to os bound server ≡ ok sk
      → (sk.bound ≡ bound) × (sk.peer_addr ≡ server)
  open_to-ok bound server sk h =
      let (u, e1, h1) = try-ok (create_socket os bound) _ h in
      let (v, e2, h2) = try-ok set_nonblocking _ h1 in
      let (addr, e, f) = try-ok (connect_to bound server) _ h2 in (ground arith, ground arith)

  connect_server-ok :
      (name : String) (o : Option SocketAddr) (sk : Socket)
      → connect_server os name o ≡ ok sk
      → Reaches sk × ((a : SocketAddr) → o ≡ some a → sk.bound ≡ a)
  unfolding connect_server
  connect_server-ok name o sk h =
      let (addrs, e1, h1) = try-ok (resolve name) _ h in
      let (found, e2, h2) = try-ok (first_of addrs) _ h1 in
      let server = server_for o found in
      let (bound, peer) = open_to-ok (bind_for o server) server sk h2 in
      (
        λ v6_. ap is_ipv6 peer ∙ server_for-Reaches o found (ap is_ipv6 (sym bound) ∙ v6_),
        λ a same. bound ∙ ap (λ x. bind_for x server) same,
      )

  -- Once an address is shared, all further sockets are bound to it.
  connect_from-ok :
      (initial : Option SocketAddr) (addr : SocketAddr) (servers : List String) (sks : List Socket)
      (o : Option SocketAddr)
      → connect_from os initial (some addr) servers ≡ ok (sks, o)
      → (o ≡ some addr)
        × (length sks ≡ length servers)
        × All (λ sk. (sk.bound ≡ addr) × Reaches sk) sks
  unfolding connect_from
  connect_from-ok initial addr [] sks o h = ground arith
  connect_from-ok initial addr (server ∷ servers) sks o h =
      let (sk, e1, h1) = try-ok (connect_server os server (some addr)) _ h in
      let ((more, o'), e2, h2) = try-ok (connect_from os initial (some addr) servers) _ h1 in
      let (same, len, all) = connect_from-ok initial addr servers more o' e2 in
      let (reaches, at) = connect_server-ok server (some addr) sk e1 in
      let cut : sks ≡ sk ∷ more = ground arith in
      let last : o ≡ o' = ground arith in
      (
        last ∙ same,
        ap length cut ∙ ap suc len,
        subst (All (λ k. (k.bound ≡ addr) × Reaches k)) (sym cut) ((at addr refl, reaches), all),
      )

  -- When the sockets of a client to its servers are opened, there is one for each server, the
  -- address that comes with them is that of the first socket, if none was asked for, and otherwise
  -- the one asked for (its IP address and, for IPv6, its flow information and scope) with the first
  -- socket's port; all sockets but the first are bound to it, and the first to the address asked
  -- for, if there is one. A socket bound to an IPv6 address is connected to an IPv6 address.
  pub sockets_share :
      (servers : List String) (initial : Option SocketAddr) (sks : List Socket) (addr : SocketAddr)
      → connect_multiple_servers os servers initial ≡ ok (sks, addr)
      → (length sks ≡ length servers)
        × ((first : Socket) × (rest : List Socket) × (sks ≡ first ∷ rest)
            × (initial ≡ none → addr ≡ first.local_addr)
            × ((ip p : ℕ) → initial ≡ some (v4 ip p) → addr ≡ v4 ip (port first.local_addr))
            × ((ip p flowinfo scope_id : ℕ)
                → initial ≡ some (v6 ip p flowinfo scope_id)
                → addr ≡ v6 ip (port first.local_addr) flowinfo scope_id)
            × ((a : SocketAddr) → initial ≡ some a → first.bound ≡ a)
            × Reaches first
            × All (λ sk. (sk.bound ≡ addr) × Reaches sk) rest)
  unfolding connect_multiple_servers connect_from
  sockets_share [] initial sks addr h = cc
  sockets_share (server ∷ servers) initial sks addr h =
      let ((more', o), e0, h0) =
        try-ok (connect_from os initial none (server ∷ servers)) unwrap h in
      let (sk, e1, h1) = try-ok (connect_server os server initial) _ e0 in
      let shared = shared_addr initial sk in
      let ((more, o'), e2, h2) = try-ok (connect_from os initial (some shared) servers) _ h1 in
      let (same, len, all) = connect_from-ok initial shared servers more o' e2 in
      let (reaches, at) = connect_server-ok server initial sk e1 in
      let (cut, last) = unwrap-ok (more', o) sks addr h0 in
      let whole : sks ≡ sk ∷ more = ground arith in
      let which : addr ≡ shared = ground arith in
      (
        ap length whole ∙ ap suc len,
        (
          sk,
          more,
          whole,
          (λ e. which ∙ ap (λ o. shared_addr o sk) e),
          (λ ip p e. which ∙ ap (λ o. shared_addr o sk) e),
          (λ ip p flowinfo scope_id e. which ∙ ap (λ o. shared_addr o sk) e),
          at,
          reaches,
          subst (λ a. All (λ k. (k.bound ≡ a) × Reaches k) more) (sym which) all,
        ),
      )
