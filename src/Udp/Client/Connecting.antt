-- ===== src/Udp/Client/Connecting.antt =====
-- Where `Connector::connect` of src/udp/client.rs ends, and how it reads the answers of the server of
-- src/udp/server.rs.
use rndz.Base.{
  ℕ, zero, suc, String, ◌≡◌, ◌≢◌, refl, ◌∙◌, ap, subst, inl, inr, Bool, true, false, Option, none,
  some, List, [], ◌∷◌, take, All, str_eq, eq_iff, Bool-cases, Option-cases,
}
use rndz.Net.{SocketAddr}
use rndz.Proto.{RespCmd, Redirect, Response, response}
use rndz.Udp.Client.{
  Recv, recv_error, datagram, Search, connected, failed_with, Step, goes_on, returns, then_step,
  unless_failed, after_poll, Poll, Polled, opened, redirected, answered, parsed, receive, serve,
  round, rounds, ended, give_up, start, connect, poll_sockets, all_failed, Error,
}

-- A step that returns a connection returns one of which `P` holds.
abbrev IsSound : (ℕ → SocketAddr → Type 0) → Step → Type 0
IsSound P (goes_on s) = Unit
IsSound P (returns (connected i addr)) = P i addr
IsSound P (returns (failed_with e)) = Unit

module _ (P : ℕ → SocketAddr → Type 0) where
  then_step-IsSound :
      (r : Step) (next : Search → Step)
      → IsSound P r
      → ((s : Search) → IsSound P (next s))
      → IsSound P (then_step r next)
  then_step-IsSound (goes_on s) next a b = b s
  then_step-IsSound (returns o) next a b = a

  unless-IsSound : (s : Search) (r : Step) → IsSound P r → IsSound P (unless_failed s r)
  unless-IsSound s r h = elim (Bool-cases (all_failed s.failed_servers)) [
    | inl e ↦ rw e tt
    | inr e ↦ rw e h
  ]

  after_poll-IsSound :
      (s : Search) (q : Polled) (next : List Bool → Step)
      → ((r : List Bool) → IsSound P (next r))
      → IsSound P (after_poll s q next)
  after_poll-IsSound s (Polled.err e) next h = tt
  after_poll-IsSound s (Polled.ok r) next h = h r

  give_up-fails : (e : Option Error) (i : ℕ) (addr : SocketAddr) → give_up e ≢ connected i addr
  give_up-fails none i addr h = cc
  give_up-fails (some e) i addr h = cc

  ended-IsSound :
      (r : Step) (i : ℕ) (addr : SocketAddr) → IsSound P r → ended r ≡ connected i addr → P i addr
  ended-IsSound (goes_on s) i addr a h = absurd (give_up-fails s.last_error i addr h)
  ended-IsSound (returns (connected j b)) i addr a h = subst (λ x. IsSound P (returns x)) h a
  ended-IsSound (returns (failed_with e)) i addr a h = cc

module _ (id : String) (parse_from_bytes : List ℕ → Option Response)
    (parse_addr : String → Option SocketAddr) (open_peer : ℕ → SocketAddr → Option Error) where
  -- Each Redirect under the client's name that some socket holds, with an address `addr`, has `P`.
  abbrev pub Tells : (ℕ → SocketAddr → Type 0) → (ℕ → Recv) → Type 0
  Tells P recv =
      (i : ℕ) (bytes : List ℕ) (rdr : Redirect) (addr : SocketAddr)
      → recv i ≡ datagram bytes
      → parse_from_bytes (take 1500 bytes) ≡ some (response id (RespCmd.redirect rdr))
      → parse_addr rdr.addr ≡ some addr
      → P i addr

  module _ (P : ℕ → SocketAddr → Type 0) where
    redirected-IsSound :
        (s : Search) (i : ℕ) (o : Option SocketAddr)
        → ((addr : SocketAddr) → o ≡ some addr → P i addr)
        → IsSound P (redirected id parse_from_bytes parse_addr open_peer s i o)
    redirected-IsSound s i none h = tt
    redirected-IsSound s i (some addr) h = elim (Option-cases (open_peer i addr)) [
      | inl e ↦ rw (e, opened) (h addr refl)
      | inr (c, e) ↦ rw (e, opened) tt
    ]

    answered-IsSound :
        (s : Search) (i : ℕ) (cmd : Option RespCmd)
        → ((rdr : Redirect) (addr : SocketAddr)
            → cmd ≡ some (RespCmd.redirect rdr)
            → parse_addr rdr.addr ≡ some addr
            → P i addr)
        → IsSound P (answered id parse_from_bytes parse_addr open_peer s i cmd)
    answered-IsSound s i none h = tt
    answered-IsSound s i (some RespCmd.pong) h = tt
    answered-IsSound s i (some (RespCmd.fsync f)) h = tt
    answered-IsSound s i (some (RespCmd.redirect rdr)) h = elim (Bool-cases (str_eq rdr.addr "")) [
      | inl e ↦ rw e tt
      | inr e ↦ rw e (redirected-IsSound s i (parse_addr rdr.addr) (λ addr. h rdr addr refl))
    ]

    parsed-IsSound :
        (s : Search) (i : ℕ) (o : Option Response)
        → ((rdr : Redirect) (addr : SocketAddr)
            → o ≡ some (response id (RespCmd.redirect rdr))
            → parse_addr rdr.addr ≡ some addr
            → P i addr)
        → IsSound P (parsed id parse_from_bytes parse_addr open_peer s i o)
    parsed-IsSound s i none h = tt
    parsed-IsSound s i (some resp) h = elim (Bool-cases (str_eq resp.id id)) [
      | inl e ↦ rw e (
          answered-IsSound s i resp.cmd (λ rdr addr c. h rdr addr (
            ap (λ x. some (record { id = x; cmd = resp.cmd })) ((eq_iff resp.id id).0 e)
            ∙ ap (λ x. some (record { id = id; cmd = x })) c)))
      | inr e ↦ rw e tt
    ]

    receive-IsSound :
        (s : Search) (i : ℕ) (recv : ℕ → Recv) (r : Recv)
        → recv i ≡ r
        → Tells P recv
        → IsSound P (receive id parse_from_bytes parse_addr open_peer s i r)
    unfolding receive
    receive-IsSound s i recv (recv_error e) at h = tt
    receive-IsSound s i recv (datagram bytes) at h =
        parsed-IsSound s i (parse_from_bytes (take 1500 bytes)) (λ rdr addr. h i bytes rdr addr at)

    serve-IsSound :
        (ready : List Bool) (s : Search) (i : ℕ) (recv : ℕ → Recv)
        → Tells P recv
        → IsSound P (serve id parse_from_bytes parse_addr open_peer s i ready recv)
    unfolding serve
    serve-IsSound [] s i recv h = tt
    serve-IsSound (false ∷ ready) s i recv h = serve-IsSound ready s (suc i) recv h
    serve-IsSound (true ∷ ready) s i recv h =
        then_step-IsSound P _ _ (receive-IsSound s i recv (recv i) refl h)
          (λ s'. serve-IsSound ready s' (suc i) recv h)

    round-IsSound :
        (polls : List Poll) (s : Search)
        → All (λ (p : Poll). Tells P p.recv) polls
        → IsSound P (round id parse_from_bytes parse_addr open_peer s polls)
    unfolding round
    round-IsSound [] s h = tt
    round-IsSound (p ∷ polls) s (first, others) = unless-IsSound P s _ (
        after_poll-IsSound P s (poll_sockets s.failed_servers p.result) _ (λ r.
          then_step-IsSound P _ _ (serve-IsSound r s 0 p.recv first)
            (λ s'. round-IsSound polls s' others)))

    rounds-IsSound :
        (n : ℕ) (s : Search) (polls : ℕ → List Poll)
        → ((k : ℕ) → All (λ (p : Poll). Tells P p.recv) (polls k))
        → IsSound P (rounds id parse_from_bytes parse_addr open_peer n s polls)
    unfolding rounds
    rounds-IsSound zero s polls h = tt
    rounds-IsSound (suc n) s polls h = unless-IsSound P s _ (
        then_step-IsSound P _ _ (round-IsSound (polls n) _ (h n))
          (λ s'. rounds-IsSound n s' polls h))

    -- If `connect` returns a socket, bound where that of a server is, and connected to an address, then
    -- `P` holds of the two, where `P` is any property that holds of each server and each address
    -- of which it tells by a Redirect under the client's own name, in any poll: the client
    -- connects to no address that some server did not give it.
    pub connect-Tells :
        (servers : ℕ) (polls : ℕ → List Poll) (i : ℕ) (addr : SocketAddr)
        → ((k : ℕ) → All (λ (p : Poll). Tells P p.recv) (polls k))
        → connect id parse_from_bytes parse_addr open_peer servers polls ≡ connected i addr
        → P i addr
    unfolding connect
    connect-Tells servers polls i addr h e =
        ended-IsSound P (rounds id parse_from_bytes parse_addr open_peer 3 (start servers) polls) i
          addr (rounds-IsSound 3 (start servers) polls h) e
