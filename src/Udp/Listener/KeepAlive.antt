-- ===== src/Udp/Listener/KeepAlive.antt =====
-- How often the listener of src/udp/client.rs pings each server.
use rndz.Base.{
  ℕ, zero, suc, ◌+◌, ◌≤◌, ◌<◌, String, Bool, true, false, ◌*◌, ◌≡◌, ◌≢◌, refl, sym, ◌∙◌, ap, subst,
  inl, inr, Option, none, some, List, [], ◌∷◌, arith, length, get_elem?, Any, Any-append_left,
  Any-append_right, Any-imp, Bool-cases, Option-cases,
}
use rndz.Net.{SocketAddr}
use rndz.Proto.{ReqCmd, Response, request}
use rndz.Udp.Client.{poll_sockets}
use rndz.Udp.Listener.{
  Sent, State, Tick, Turn, is_due, next_ping_time, next_ping_times, ping_of, ping_if, pings,
  after_pings, one_turn, run, start, no_times,
}
use rndz.Udp.Listener.Later.{IsLater, after_poll-IsLater}

-- A turn from `begin` to `end`, which takes at most `g`: the clock does not go back in it.
pub record InTime (g begin : ℕ) (turn : Turn) (end : ℕ) : Type 0 where
  pub begins : (i : ℕ) → begin ≤ (turn.ticks i).checked
  pub reads : (i : ℕ) → (turn.ticks i).checked ≤ (turn.ticks i).pinged
  pub ends : (i : ℕ) → (turn.ticks i).pinged ≤ end
  pub brief : end ≤ begin + g
  pub varied : (i : ℕ) → (turn.ticks i).variation < 5000

-- Turns one after another, from `begin` to `end`.
abbrev pub AllInTime : ℕ → ℕ → List Turn → ℕ → Type 0
AllInTime g begin [] end = begin ≡ end
AllInTime g begin (turn ∷ turns) end =
    (mid : ℕ) × InTime g begin turn mid × AllInTime g mid turns end

-- A ping to the server `i`, no more than `d` before `now`.
abbrev pub PingsSince : String → ℕ → ℕ → ℕ → Sent → Type 0
PingsSince myid i now d x =
    (x.socket ≡ i) × (x.message ≡ request myid ReqCmd.ping) × (now ≤ x.at + d)

-- The recorded time of a ping is that of one that was sent, give or take the variation.
abbrev Backed : String → ℕ → ℕ → List Sent → Option ℕ → Type 0
Backed myid g i sent none = Unit
Backed myid g i sent (some t) = Any (PingsSince myid i t (5000 + g)) sent

record IsBacked (myid : String) (g i : ℕ) (s : State) : Type 0 where
  entry : Option ℕ
  at : get_elem? s.ping_times i ≡ some entry
  backed : Backed myid g i s.sent entry

-- Since then less than ten seconds have passed before the turn that ends now.
record IsKept (myid : String) (g i now : ℕ) (s : State) : Type 0 where
  time : ℕ
  at : get_elem? s.ping_times i ≡ some (some time)
  backed : Any (PingsSince myid i time (5000 + g)) s.sent
  soon : now ≤ time + 10000 + g

get_elem?-next_ping_times :
    (ts : List (Option ℕ)) (j i : ℕ) (ticks : ℕ → Tick) (o : Option ℕ)
    → get_elem? ts i ≡ some o
    → get_elem? (next_ping_times j ticks ts) i ≡ some (next_ping_time (ticks (j + i)) o)
unfolding next_ping_times
get_elem?-next_ping_times [] j i ticks o e = cc
get_elem?-next_ping_times (t ∷ ts) j zero ticks o e = ground arith
get_elem?-next_ping_times (t ∷ ts) j (suc i) ticks o e =
    let same : suc j + i ≡ j + suc i = omega arith in
    subst (λ k. get_elem? (next_ping_times (suc j) ticks ts) i ≡ some (next_ping_time (ticks k) o))
      same (get_elem?-next_ping_times ts (suc j) i ticks o e)

-- A ping that is due is sent.
Any-pings :
    (myid : String) (addrs : List SocketAddr) (ts : List (Option ℕ)) (j i : ℕ) (ticks : ℕ → Tick)
    (o : Option ℕ)
    → get_elem? ts i ≡ some o
    → i < length addrs
    → is_due (ticks (j + i)) o ≡ true
    → Any (PingsSince myid (j + i) (ticks (j + i)).checked 0) (pings myid j ticks addrs ts)
unfolding pings
Any-pings myid [] ts j i ticks o e lt due = absurd (omega arith)
Any-pings myid (addr ∷ addrs) [] j i ticks o e lt due = cc
Any-pings myid (addr ∷ addrs) (t ∷ ts) j zero ticks o e lt due =
    let same : j ≡ j + 0 = omega arith in
    let due' : is_due (ticks (j + 0)) t ≡ true = ground arith in
    subst
      (λ k.
        Any (PingsSince myid k (ticks k).checked 0) (pings myid j ticks (addr ∷ addrs) (t ∷ ts)))
      same
      (rw (subst (λ k. is_due (ticks k) t ≡ true) (sym same) due') (inl (refl, refl, omega arith)))
Any-pings myid (addr ∷ addrs) (t ∷ ts) j (suc i) ticks o e lt due =
    let same : suc j + i ≡ j + suc i = omega arith in
    Any-append_right _ (ping_if (is_due (ticks j) t) (ping_of myid j addr (ticks j))) _ (
      subst (λ k. Any (PingsSince myid k (ticks k).checked 0) (pings myid (suc j) ticks addrs ts))
        same
        (Any-pings myid addrs ts (suc j) i ticks o e (omega arith)
          (subst (λ k. is_due (ticks k) o ≡ true) (sym same) due)))

-- Both at the first server.
entry_after :
    (ts : List (Option ℕ)) (i : ℕ) (ticks : ℕ → Tick) (o : Option ℕ)
    → get_elem? ts i ≡ some o
    → get_elem? (next_ping_times 0 ticks ts) i ≡ some (next_ping_time (ticks i) o)
entry_after ts i ticks o e =
    let same : 0 + i ≡ i = omega arith in
    subst (λ k. get_elem? (next_ping_times 0 ticks ts) i ≡ some (next_ping_time (ticks k) o)) same
      (get_elem?-next_ping_times ts 0 i ticks o e)

ping_sent :
    (myid : String) (addrs : List SocketAddr) (ts : List (Option ℕ)) (i : ℕ) (ticks : ℕ → Tick)
    (o : Option ℕ)
    → get_elem? ts i ≡ some o
    → i < length addrs
    → is_due (ticks i) o ≡ true
    → Any (PingsSince myid i (ticks i).checked 0) (pings myid 0 ticks addrs ts)
ping_sent myid addrs ts i ticks o e lt due =
    let same : 0 + i ≡ i = omega arith in
    subst (λ k. Any (PingsSince myid k (ticks k).checked 0) (pings myid 0 ticks addrs ts)) same
      (Any-pings myid addrs ts 0 i ticks o e lt
        (subst (λ k. is_due (ticks k) o ≡ true) (sym same) due))

not_early : (tick : Tick) (o : Option ℕ) → o ≡ none → is_due tick o ≢ false
not_early tick none e h = cc
not_early tick (some t) e h = cc

recent : (tick : Tick) (t : ℕ) → is_due tick (some t) ≡ false → tick.checked ≤ t + 10000
recent tick t h = ground arith

get_elem?-no_times : (n i : ℕ) → i < n → get_elem? (no_times n) i ≡ some none
get_elem?-no_times zero i lt = absurd (omega arith)
get_elem?-no_times (suc n) zero lt = refl
get_elem?-no_times (suc n) (suc i) lt = get_elem?-no_times n i (omega arith)

module _ (myid : String) (parse_from_bytes : List ℕ → Option Response)
    (parse_addr : String → Option SocketAddr) (would_block : ℕ → Bool) where
  later-IsKept :
      (g i now : ℕ) (s r : State)
      → IsLater myid parse_from_bytes parse_addr would_block s r
      → IsKept myid g i now s
      → IsKept myid g i now r
  later-IsKept g i now s r v w = record {
    time = w.time;
    at = ap (λ ts. get_elem? ts i) v.times ∙ w.at;
    backed =
        subst (Any (PingsSince myid i w.time (5000 + g))) (sym v.sends)
          (Any-append_left _ s.sent v.more w.backed);
    soon = w.soon;
  }

  IsKept-IsBacked : (g i now : ℕ) (s : State) → IsKept myid g i now s → IsBacked myid g i s
  IsKept-IsBacked g i now s v = record { entry = some v.time; at = v.at; backed = v.backed }

  after_pings-IsKept :
      (g i begin end : ℕ) (s : State) (addrs : List SocketAddr) (turn : Turn)
      → i < length addrs
      → InTime g begin turn end
      → IsBacked myid g i s
      → IsKept myid g i end (after_pings myid parse_from_bytes parse_addr would_block s addrs turn)
  after_pings-IsKept g i begin end s addrs turn lt v b =
      elim (Bool-cases (is_due (turn.ticks i) b.entry)) [
        | inl due ↦ record {
          time = (turn.ticks i).pinged + (turn.ticks i).variation;
          at = entry_after s.ping_times i turn.ticks b.entry b.at ∙ rw due refl;
          backed = Any-append_right _ s.sent _ (
              Any-imp _ _ (pings myid 0 turn.ticks addrs s.ping_times)
                (λ x p. (p.0, p.1, omega (arith, p.2, v.varied i, v.ends i, v.brief, v.begins i)))
                (ping_sent myid addrs s.ping_times i turn.ticks b.entry b.at lt due));
          soon = omega (arith, v.brief, v.begins i, v.reads i);
        }
        | inr early ↦ elim (Option-cases b.entry) [
          | inl e ↦ absurd (not_early (turn.ticks i) b.entry e early)
          | inr (t, e) ↦ record {
            time = t;
            at = entry_after s.ping_times i turn.ticks b.entry b.at ∙ rw early (ap some e);
            backed = Any-append_left _ s.sent _ (subst (Backed myid g i s.sent) e b.backed);
            soon = omega (
              arith,
              v.brief,
              v.begins i,
              recent (turn.ticks i) t (subst (λ o. is_due (turn.ticks i) o ≡ false) e early),
            );
          }
        ]
      ]

  one_turn-IsKept :
      (g i begin end : ℕ) (s : State) (addrs : List SocketAddr) (turn : Turn)
      → i < length addrs
      → InTime g begin turn end
      → IsBacked myid g i s
      → IsKept myid g i end (one_turn myid parse_from_bytes parse_addr would_block s addrs turn)
  unfolding one_turn
  one_turn-IsKept g i begin end s addrs turn lt v b =
      let s' = after_pings myid parse_from_bytes parse_addr would_block s addrs turn in
      later-IsKept g i end s' _
        (after_poll-IsLater myid parse_from_bytes parse_addr would_block s' addrs turn
          (poll_sockets s.failed_servers turn.result))
        (after_pings-IsKept g i begin end s addrs turn lt v b)

  run-IsKept :
      (g i begin end : ℕ) (turns : List Turn) (s : State) (addrs : List SocketAddr)
      → i < length addrs
      → AllInTime g begin turns end
      → IsKept myid g i begin s
      → IsKept myid g i end (run myid parse_from_bytes parse_addr would_block s addrs turns)
  unfolding run
  run-IsKept g i begin end [] s addrs lt e v = subst (λ n. IsKept myid g i n s) e v
  run-IsKept g i begin end (turn ∷ turns) s addrs lt (mid, v, rest) k =
      run-IsKept g i mid end turns _ addrs lt rest
        (one_turn-IsKept g i begin mid s addrs turn lt v (IsKept-IsBacked g i begin s k))

  -- When a listener has run for some turns, of which each takes at most `g`, it has pinged each
  -- server, by a request under its name, no longer ago than fifteen seconds and twice `g`. (The
  -- clock does not go back, and the variation of a ping is below five seconds.)
  pub pinged_recently :
      (g i begin end : ℕ) (turn : Turn) (turns : List Turn) (addrs : List SocketAddr)
      → i < length addrs
      → AllInTime g begin (turn ∷ turns) end
      → Any
          (PingsSince myid i end (15000 + 2 * g))
          (run myid parse_from_bytes parse_addr would_block
            (start (length addrs))
            addrs
            (turn ∷ turns)).sent
  unfolding run
  pinged_recently g i begin end turn turns addrs lt (mid, v, rest) =
      let k = run-IsKept g i mid end turns _ addrs lt rest (
        one_turn-IsKept g i begin mid (start (length addrs)) addrs turn lt v
          (record { entry = none; at = get_elem?-no_times (length addrs) i lt; backed = tt })) in
      Any-imp _ _ _ (λ x p. (p.0, p.1, omega (arith, p.2, k.soon))) k.backed
