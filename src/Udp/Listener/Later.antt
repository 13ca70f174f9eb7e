-- ===== src/Udp/Listener/Later.antt =====
-- What a turn of the listener of src/udp/client.rs does after its pings leaves their times alone.
use mathlib.Core.List.{append-nil, append_assoc}
use rndz.Base.{
  ℕ, suc, String, Bool, true, false, ◌≡◌, refl, sym, ◌∙◌, ap, inl, inr, Option, none, some, List,
  [], ◌∷◌, ◌++◌, Bool-cases, str_eq, take,
}
use rndz.Net.{SocketAddr}
use rndz.Proto.{RespCmd, Response}
use rndz.Udp.Client.{Polled, Recv, recv_error, datagram}
use rndz.Udp.Listener.{Sent, State, Turn, respond, take_response, receive, serve, after_poll}

module _ (myid : String) (parse_from_bytes : List ℕ → Option Response)
    (parse_addr : String → Option SocketAddr) (would_block : ℕ → Bool) where
  -- What follows the pings in a turn leaves the recorded times, and adds to what is sent.
  pub record IsLater (s r : State) : Type 0 where
    pub times : r.ping_times ≡ s.ping_times
    pub more : List Sent
    pub sends : r.sent ≡ s.sent ++ more

  IsLater-refl : (s : State) → IsLater s s
  IsLater-refl s = record { times = refl; more = []; sends = sym (append-nil s.sent) }

  IsLater-trans : (s r q : State) → IsLater s r → IsLater r q → IsLater s q
  IsLater-trans s r q v w = record {
    times = w.times ∙ v.times;
    more = v.more ++ w.more;
    sends = w.sends ∙ ap (λ l. l ++ w.more) v.sends ∙ append_assoc s.sent v.more w.more;
  }

  respond-IsLater :
      (s : State) (i : ℕ) (addr : SocketAddr) (now : ℕ) (cmd : Option RespCmd)
      → IsLater s (respond myid parse_from_bytes parse_addr would_block s i addr now cmd)
  respond-IsLater s i addr now none = IsLater-refl s
  respond-IsLater s i addr now (some RespCmd.pong) = record {
    times = refl;
    more = [];
    sends = sym (append-nil s.sent);
  }
  respond-IsLater s i addr now (some (RespCmd.redirect r)) = IsLater-refl s
  respond-IsLater s i addr now (some (RespCmd.fsync f)) = record {
    times = refl;
    more = _;
    sends = refl;
  }

  take_response-IsLater :
      (s : State) (i : ℕ) (addr : SocketAddr) (now : ℕ) (o : Option Response)
      → IsLater s (take_response myid parse_from_bytes parse_addr would_block s i addr now o)
  take_response-IsLater s i addr now none = IsLater-refl s
  take_response-IsLater s i addr now (some resp) = elim (Bool-cases (str_eq resp.id myid)) [
    | inl e ↦ rw e (respond-IsLater s i addr now resp.cmd)
    | inr e ↦ rw e (IsLater-refl s)
  ]

  receive-IsLater :
      (s : State) (i : ℕ) (addr : SocketAddr) (now : ℕ) (r : Recv)
      → IsLater s (receive myid parse_from_bytes parse_addr would_block s i addr now r)
  unfolding receive
  receive-IsLater s i addr now (datagram bytes) =
      take_response-IsLater s i addr now (parse_from_bytes (take 1500 bytes))
  receive-IsLater s i addr now (recv_error e) = elim (Bool-cases (would_block e)) [
    | inl h ↦ rw h (IsLater-refl s)
    | inr h ↦ rw h (record { times = refl; more = []; sends = sym (append-nil s.sent) })
  ]

  serve-IsLater :
      (addrs : List SocketAddr) (s : State) (i : ℕ) (ready : List Bool) (turn : Turn)
      → IsLater s (serve myid parse_from_bytes parse_addr would_block s i addrs ready turn)
  unfolding serve
  serve-IsLater [] s i ready turn = IsLater-refl s
  serve-IsLater (addr ∷ addrs) s i [] turn = IsLater-refl s
  serve-IsLater (addr ∷ addrs) s i (false ∷ ready) turn = serve-IsLater addrs s (suc i) ready turn
  serve-IsLater (addr ∷ addrs) s i (true ∷ ready) turn =
      let s' =
        receive myid parse_from_bytes parse_addr would_block s i addr (turn.clock i)
          (turn.recv i) in
      IsLater-trans s s' _ (receive-IsLater s i addr (turn.clock i) (turn.recv i))
        (serve-IsLater addrs s' (suc i) ready turn)

  pub after_poll-IsLater :
      (s : State) (addrs : List SocketAddr) (turn : Turn) (p : Polled)
      → IsLater s (after_poll myid parse_from_bytes parse_addr would_block s addrs turn p)
  after_poll-IsLater s addrs turn (Polled.err e) = IsLater-refl s
  after_poll-IsLater s addrs turn (Polled.ok ready) = serve-IsLater addrs s 0 ready turn
