-- ===== src/Tcp/Session/Reconnects.antt =====
-- How a client of src/tcp/client.rs takes up the end of a connection.
use mathlib.Core.Option.{some-injective}
use rndz.Base.{
  ℕ, zero, suc, String, ◌≡◌, refl, sym, ◌∙◌, ap, subst, Bool, true, false, Option, some, List, [],
  ◌∷◌, ◌++◌, length, All,
}
use rndz.Net.{SocketAddr}
use rndz.Tcp.Link.{returned, over}
use rndz.Tcp.Signal.{
  Listening, at_head, connecting, woken, ended, notified, timed_out, spurious, loops_at,
}
use rndz.Tcp.Session.{
  gone_on, Connection, Session, new_connection, shown, all_shown, Event, listens, times_out,
  wakes_up, shuts_down, tells, closes, stirs, works, rouse_connections, at_connection, go_on,
  tell_joined, step, run,
}
use rndz.Tcp.Session.Shows.{connection_at}

-- Neither the thread of `listen` nor a joining thread goes on, and the client is not shut down.
abbrev pub IsLocal : Event → Type 0
IsLocal (works i e) = Unit
IsLocal (closes i) = Unit
IsLocal (stirs i) = Unit
IsLocal times_out = Unit
IsLocal wakes_up = Unit
IsLocal (listens success) = ⊥
IsLocal (tells i) = ⊥
IsLocal shuts_down = ⊥

-- The client is not shut down; where its thread stands, `broken`, and the number of its connections.
record IsAt (l : Listening) (b : Bool) (n : ℕ) (s : Session) : Type 0 where
  is_open : s.exit ≡ false
  stands : s.listening ≡ l
  broke : s.broken ≡ b
  many : length s.connections ≡ n

length-at_connection :
    (f : Connection → Connection) (i : ℕ) (cs : List Connection)
    → length (at_connection f i cs) ≡ length cs
unfolding at_connection
length-at_connection f i [] = refl
length-at_connection f zero (c ∷ cs) = refl
length-at_connection f (suc i) (c ∷ cs) = ap suc (length-at_connection f i cs)

length-rouse : (cs : List Connection) → length (rouse_connections cs) ≡ length cs
unfolding rouse_connections
length-rouse [] = refl
length-rouse (c ∷ cs) = ap suc (length-rouse cs)

length-append_new :
    (cs : List Connection) (c : Connection) → length (cs ++ c ∷ []) ≡ suc (length cs)
length-append_new [] c = refl
length-append_new (k ∷ cs) c = ap suc (length-append_new cs c)

loops_at-connection :
    (i : ℕ) (cs : List Connection) (c : Connection)
    → connection_at i cs ≡ some c
    → loops_at i (all_shown cs) ≡ some (shown c).loops
unfolding loops_at all_shown connection_at
loops_at-connection i [] c h = cc
loops_at-connection zero (k ∷ cs) c h = ap (λ x. some (shown x).loops) (some-injective k c h)
loops_at-connection (suc i) (k ∷ cs) c h = loops_at-connection i cs c h

shown-ended :
    (c : Connection)
    → c.joined ≡ false
    → c.link.reader ≡ returned
    → c.link.writer ≡ over
    → (shown c).loops ≡ ended
shown-ended c j r w = rw (j, r, w) refl

tell-IsAt :
    (s : Session) (i : ℕ) (n : ℕ)
    → IsAt Listening.waiting s.broken n s
    → IsAt woken true n (tell_joined s i (some ended))
tell-IsAt s i n v = record {
  is_open = v.is_open;
  stands = ap notified v.stands;
  broke = refl;
  many = length-rouse _ ∙ length-at_connection _ i s.connections ∙ v.many;
}

wake-IsAt :
    (s : Session) (success : Bool) (n : ℕ)
    → IsAt woken true n s
    → IsAt connecting false n (go_on s success)
wake-IsAt s success n v =
    subst (λ l. IsAt connecting false n (gone_on s success l)) (sym v.stands)
      (rw v.is_open
        (rw v.broke (record { is_open = refl; stands = refl; broke = refl; many = v.many })))

connect-IsAt :
    (s : Session) (n : ℕ) → IsAt connecting false n s → IsAt at_head false (suc n) (go_on s true)
connect-IsAt s n v =
    subst (λ l. IsAt at_head false (suc n) (gone_on s true l)) (sym v.stands)
      (record {
        is_open = v.is_open;
        stands = refl;
        broke = v.broke;
        many = length-append_new s.connections new_connection ∙ ap suc v.many;
      })

-- Where the thread does not go on, it stays where it is.
record IsDeaf (l : Listening) : Type 0 where
  same_timed_out : timed_out l ≡ l
  same_spurious : spurious l ≡ l

module _ (id : String) (parse_addr : String → Option SocketAddr) (l : Listening)
    (d : IsDeaf l) where
  step-IsAt :
      (b : Bool) (n : ℕ) (s : Session) (e : Event)
      → IsLocal e
      → IsAt l b n s
      → IsAt l b n (step id parse_addr s e)
  unfolding step
  step-IsAt b n s (listens success) h v = absurd h
  step-IsAt b n s (tells i) h v = absurd h
  step-IsAt b n s shuts_down h v = absurd h
  step-IsAt b n s times_out h v = record {
    is_open = v.is_open;
    stands = ap timed_out v.stands ∙ d.same_timed_out;
    broke = v.broke;
    many = v.many;
  }
  step-IsAt b n s wakes_up h v = record {
    is_open = v.is_open;
    stands = ap spurious v.stands ∙ d.same_spurious;
    broke = v.broke;
    many = v.many;
  }
  step-IsAt b n s (closes i) h v = record {
    is_open = v.is_open;
    stands = v.stands;
    broke = v.broke;
    many = length-at_connection _ i s.connections ∙ v.many;
  }
  step-IsAt b n s (stirs i) h v = record {
    is_open = v.is_open;
    stands = v.stands;
    broke = v.broke;
    many = length-at_connection _ i s.connections ∙ v.many;
  }
  step-IsAt b n s (works i e) h v = record {
    is_open = v.is_open;
    stands = v.stands;
    broke = v.broke;
    many = length-at_connection _ i s.connections ∙ v.many;
  }

  run-IsAt :
      (b : Bool) (n : ℕ) (es : List Event) (s : Session)
      → All IsLocal es
      → IsAt l b n s
      → IsAt l b n (run id parse_addr s es)
  unfolding run
  run-IsAt b n [] s h v = v
  run-IsAt b n (e ∷ es) s (h, hs) v = run-IsAt b n es _ hs (step-IsAt b n s e h v)

-- When both loops of a connection have ended, none by a panic, while the thread of `listen` waits,
-- and the client has not been shut down, the client connects again: as soon as the joining thread
-- has told it, and the thread of `listen` has gone on twice, where its `start_background` succeeds,
-- there is one connection more, `broken` is reset, and the thread is at the head of its loop.
-- Between these steps the loops and the closing threads may do anything, and time-outs and idle
-- wakeups may come.
pub reconnects :
    (id : String) (parse_addr : String → Option SocketAddr) (s : Session) (i : ℕ) (c : Connection)
    (es fs : List Event) (success : Bool)
    → s.exit ≡ false
    → s.listening ≡ Listening.waiting
    → connection_at i s.connections ≡ some c
    → c.joined ≡ false
    → c.link.reader ≡ returned
    → c.link.writer ≡ over
    → All IsLocal es
    → All IsLocal fs
    → let woken = run id parse_addr s (tells i ∷ es) in
      let redone = run id parse_addr woken (listens success ∷ fs) in
      let t = run id parse_addr redone (listens true ∷ []) in
      (length t.connections ≡ suc (length s.connections))
      × (t.broken ≡ false)
      × (t.listening ≡ at_head)
unfolding run step
reconnects id parse_addr s i c es fs success o w at j r h local local' =
    let n = length s.connections in
    let told =
      subst (λ x. IsAt woken true n (tell_joined s i x))
        (sym (loops_at-connection i s.connections c at ∙ ap some (shown-ended c j r h)))
        (tell-IsAt s i n (record { is_open = o; stands = w; broke = refl; many = refl })) in
    let awake =
      run-IsAt id parse_addr woken (record { same_timed_out = refl; same_spurious = refl }) true n
        es _ local told in
    let going =
      run-IsAt id parse_addr connecting (record { same_timed_out = refl; same_spurious = refl })
        false n fs _ local' (wake-IsAt _ success n awake) in
    let v = connect-IsAt _ n going in (v.many, v.broke, v.stands)
