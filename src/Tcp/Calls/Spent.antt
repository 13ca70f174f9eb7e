-- ===== src/Tcp/Calls/Spent.antt =====
-- What the threads of a client of src/tcp/client.rs do when `exit` is set.
use rndz.Base.{
  ℕ, zero, suc, String, ◌≡◌, refl, sym, ap, subst, ◌⊎◌, inl, inr, Bool, true, Option, none, some,
  List, [], ◌∷◌, ◌++◌, length,
}
use rndz.Net.{SocketAddr}
use rndz.Tcp.Link
use rndz.Tcp.Signal.{
  Listening, at_head, returned, Loops, running, ended, told, crashed, starting, gone, rouse,
  notified, timed_out, spurious,
}
use rndz.Tcp.Session.{
  rouse_connection, gone_on, Connection, Session, Event, listens, times_out, wakes_up, shuts_down,
  tells, closes, stirs, works, rouse_connections, notify_connections, at_connection, go_on,
  tell_joined, close_connection, work, step, run,
}

-- The last connection is the one at this index, and `P` holds of it.
abbrev pub Last : (Connection → Type 0) → ℕ → List Connection → Type 0
Last P i [] = ⊥
Last P zero (c ∷ cs) = P c × (cs ≡ [])
Last P (suc i) (c ∷ cs) = Last P i cs

-- The thread of `listen` has not looked at `signal` yet, or has ended.
abbrev pub IsIdle : Listening → Type 0
IsIdle l = (l ≡ at_head) ⊎ (l ≡ returned)

-- The connection has been shut down; or its thread has not looked at `signal` yet.
abbrev pub IsShut : Connection → Type 0
IsShut c = (c.closer ≡ gone) × (c.shut ≡ true)

abbrev pub IsClosing : Connection → Type 0
IsClosing c = (c.closer ≡ starting) ⊎ IsShut c

Last-at :
    (P : Connection → Type 0) (f : Connection → Connection) (i n : ℕ) (cs : List Connection)
    → ((c : Connection) → P c → P (f c))
    → Last P n cs
    → Last P n (at_connection f i cs)
unfolding at_connection
Last-at P f i n [] keeps v = v
Last-at P f zero zero (c ∷ cs) keeps (p, e) = (keeps c p, e)
Last-at P f zero (suc n) (c ∷ cs) keeps v = v
Last-at P f (suc i) zero (c ∷ cs) keeps (p, e) = (p, rw (e, at_connection) refl)
Last-at P f (suc i) (suc n) (c ∷ cs) keeps v = Last-at P f i n cs keeps v

pub Last-change :
    (P Q : Connection → Type 0) (f : Connection → Connection) (n : ℕ) (cs : List Connection)
    → ((c : Connection) → P c → Q (f c))
    → Last P n cs
    → Last Q n (at_connection f n cs)
unfolding at_connection
Last-change P Q f n [] turns v = v
Last-change P Q f zero (c ∷ cs) turns (p, e) = (turns c p, e)
Last-change P Q f (suc n) (c ∷ cs) turns v = Last-change P Q f n cs turns v

Last-rouse :
    (P : Connection → Type 0) (n : ℕ) (cs : List Connection)
    → ((c : Connection) → P c → P (record c { closer = rouse c.closer }))
    → Last P n cs
    → Last P n (rouse_connections cs)
unfolding rouse_connections
Last-rouse P n [] keeps v = v
Last-rouse P zero (c ∷ cs) keeps (p, e) = (keeps c p, rw (e, rouse_connections) refl)
Last-rouse P (suc n) (c ∷ cs) keeps v = Last-rouse P n cs keeps v

pub Last-new :
    (P : Connection → Type 0) (cs : List Connection) (c : Connection)
    → P c
    → Last P (length cs) (cs ++ c ∷ [])
Last-new P [] c p = (p, refl)
Last-new P (k ∷ cs) c p = Last-new P cs c p

pub length-Last :
    (P : Connection → Type 0) (n : ℕ) (cs : List Connection) → Last P n cs → length cs ≡ suc n
length-Last P n [] v = absurd v
length-Last P zero (c ∷ cs) (p, e) = ap (λ x. suc (length x)) e
length-Last P (suc n) (c ∷ cs) v = ap suc (length-Last P n cs v)

-- `P` outlasts the steps of a connection of a client that has been shut down.
pub record IsKept (P : Connection → Type 0) : Type 0 where
  pub roused : (c : Connection) → P c → P (record c { closer = rouse c.closer })
  pub joined : (c : Connection) → P c → P (record c { joined = true })
  pub linked : (c : Connection) (l : Link.Link) → P c → P (record c { link = l })
  pub closed : (c : Connection) → P c → P (close_connection true c)

closed-IsShut : (c : Connection) → IsShut c → IsShut (close_connection true c)
closed-IsShut c p = rw p.0 (refl, p.1)

pub closed-IsClosing : (c : Connection) → IsClosing c → IsShut (close_connection true c)
closed-IsClosing c (inl e) = rw e (refl, refl)
closed-IsClosing c (inr p) = closed-IsShut c p

pub IsShut-IsKept : IsKept IsShut
IsShut-IsKept = record {
  roused = λ c p. (ap rouse p.0, p.1);
  joined = λ c p. p;
  linked = λ c l p. p;
  closed = closed-IsShut;
}

pub IsClosing-IsKept : IsKept IsClosing
IsClosing-IsKept = record {
  roused = λ c p. elim p [ inl e ↦ inl (ap rouse e) | inr q ↦ inr (ap rouse q.0, q.1) ];
  joined = λ c p. p;
  linked = λ c l p. p;
  closed = λ c p. inr (closed-IsClosing c p);
}

-- The client has been shut down, and its last connection, with this index, has `P`.
pub record IsSpent (P : Connection → Type 0) (n : ℕ) (s : Session) : Type 0 where
  pub exits : s.exit ≡ true
  pub stops : IsIdle s.listening
  pub last : Last P n s.connections

module _ (P : Connection → Type 0) (k : IsKept P) (n : ℕ) where
  notify-IsSpent : (s : Session) → IsSpent P n s → IsSpent P n (notify_connections s)
  notify-IsSpent s v = record {
    exits = v.exits;
    stops = elim v.stops [ inl e ↦ inl (ap notified e) | inr e ↦ inr (ap notified e) ];
    last = Last-rouse P n s.connections k.roused v.last;
  }

  at-IsSpent :
      (s : Session) (f : Connection → Connection) (i : ℕ)
      → ((c : Connection) → P c → P (f c))
      → IsSpent P n s
      → IsSpent P n (record s { connections = at_connection f i s.connections })
  at-IsSpent s f i keeps v = record {
    exits = v.exits;
    stops = v.stops;
    last = Last-at P f i n s.connections keeps v.last;
  }

  tell-IsSpent :
      (s : Session) (i : ℕ) (o : Option Loops) → IsSpent P n s → IsSpent P n (tell_joined s i o)
  tell-IsSpent s i none v = v
  tell-IsSpent s i (some running) v = v
  tell-IsSpent s i (some told) v = v
  tell-IsSpent s i (some crashed) v = v
  tell-IsSpent s i (some ended) v = notify-IsSpent _ (record {
    exits = v.exits;
    stops = v.stops;
    last = Last-at P (λ c. record c { joined = true }) i n s.connections k.joined v.last;
  })

  go_on-IsSpent : (s : Session) (success : Bool) → IsSpent P n s → IsSpent P n (go_on s success)
  go_on-IsSpent s success v = elim v.stops [
    | inl e ↦
        subst (λ l. IsSpent P n (gone_on s success l)) (sym e)
          (record { exits = v.exits; stops = inr (rw v.exits refl); last = v.last })
    | inr e ↦
        subst (λ l. IsSpent P n (gone_on s success l)) (sym e)
          (record { exits = v.exits; stops = v.stops; last = v.last })
  ]

  module _ (id : String) (parse_addr : String → Option SocketAddr) where
    pub step-IsSpent :
        (s : Session) (e : Event) → IsSpent P n s → IsSpent P n (step id parse_addr s e)
    unfolding step
    step-IsSpent s (listens success) v = go_on-IsSpent s success v
    step-IsSpent s times_out v = record {
      exits = v.exits;
      stops = elim v.stops [ inl e ↦ inl (ap timed_out e) | inr e ↦ inr (ap timed_out e) ];
      last = v.last;
    }
    step-IsSpent s wakes_up v = record {
      exits = v.exits;
      stops = elim v.stops [ inl e ↦ inl (ap spurious e) | inr e ↦ inr (ap spurious e) ];
      last = v.last;
    }
    step-IsSpent s shuts_down v =
        notify-IsSpent (record s { exit = true })
          (record { exits = refl; stops = v.stops; last = v.last })
    step-IsSpent s (tells i) v = tell-IsSpent s i _ v
    step-IsSpent s (closes i) v =
        at-IsSpent s (close_connection s.exit) i
          (λ c p. subst (λ b. P (close_connection b c)) (sym v.exits) (k.closed c p)) v
    step-IsSpent s (stirs i) v = at-IsSpent s rouse_connection i k.roused v
    step-IsSpent s (works i e) v = at-IsSpent s (work id parse_addr e) i (λ c p. k.linked c _ p) v

    pub run-IsSpent :
        (es : List Event) (s : Session) → IsSpent P n s → IsSpent P n (run id parse_addr s es)
    unfolding run
    run-IsSpent [] s v = v
    run-IsSpent (e ∷ es) s v = run-IsSpent es _ (step-IsSpent s e v)
