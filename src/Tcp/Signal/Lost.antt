-- ===== src/Tcp/Signal/Lost.antt =====
-- What becomes of a client of src/tcp/client.rs that has not seen its connection break.
use rndz.Base.{
  ℕ, zero, suc, ◌≡◌, ◌≢◌, refl, sym, subst, Bool, true, false, Option, none, some, List, [], ◌∷◌,
  arith, All, length, if◌then◌else◌,
}
use mathlib.Core.Option.{some-injective}
use rndz.Tcp.Signal.{
  Closer, starting, sleeping, roused, gone, Listening, at_head, waiting, woken, connecting,
  retrying, resting, rested, returned, panicked, Loops, running, ended, told, crashed, Link, State,
  Event, listens, times_out, wakes_up, shuts_down, ends, crashes, tells, closes, stirs, listen_step,
  tell, step, run, timed_out, at_link, end_loops, crash_loops, close_link, close_step, loops_at,
}

-- Nobody is left to tell of these loops.
abbrev pub IsMute : Loops → Type 0
IsMute told = Unit
IsMute crashed = Unit
IsMute running = ⊥
IsMute ended = ⊥

-- The thread of `listen` is about to wait, or waits.
abbrev pub IsWaiting : Listening → Type 0
IsWaiting at_head = Unit
IsWaiting waiting = Unit
IsWaiting woken = ⊥
IsWaiting connecting = ⊥
IsWaiting retrying = ⊥
IsWaiting resting = ⊥
IsWaiting rested = ⊥
IsWaiting returned = ⊥
IsWaiting panicked = ⊥

-- The client has not been shut down, its thread waits for a signal, and all its connections are mute.
pub record IsLost (s : State) : Type 0 where
  pub is_open : s.exit ≡ false
  pub waits : IsWaiting s.listening
  pub mute : All (λ k. IsMute k.loops) s.links

pub timed_out-IsWaiting : (l : Listening) → IsWaiting l → IsWaiting (timed_out l)
timed_out-IsWaiting at_head w = w
timed_out-IsWaiting waiting w = w
timed_out-IsWaiting woken w = absurd w
timed_out-IsWaiting connecting w = absurd w
timed_out-IsWaiting retrying w = absurd w
timed_out-IsWaiting resting w = absurd w
timed_out-IsWaiting rested w = absurd w
timed_out-IsWaiting returned w = absurd w
timed_out-IsWaiting panicked w = absurd w

end_loops-IsMute : (l : Loops) → IsMute l → IsMute (end_loops l)
end_loops-IsMute told w = w
end_loops-IsMute crashed w = w
end_loops-IsMute running w = absurd w
end_loops-IsMute ended w = absurd w

crash_loops-IsMute : (l : Loops) → IsMute l → IsMute (crash_loops l)
crash_loops-IsMute told w = w
crash_loops-IsMute crashed w = w
crash_loops-IsMute running w = absurd w
crash_loops-IsMute ended w = absurd w

pub close_step-loops : (b : Bool) (k : Link) (c : Closer) → (close_step b k c).loops ≡ k.loops
close_step-loops true k starting = refl
close_step-loops false k starting = refl
close_step-loops b k sleeping = refl
close_step-loops true k roused = refl
close_step-loops false k roused = refl
close_step-loops b k gone = refl

close_link-IsMute : (b : Bool) (k : Link) → IsMute k.loops → IsMute (close_link b k).loops
close_link-IsMute b k w = subst IsMute (sym (close_step-loops b k k.closer)) w

at_link-IsMute :
    (f : Link → Link) (i : ℕ) (links : List Link)
    → ((k : Link) → IsMute k.loops → IsMute (f k).loops)
    → All (λ k. IsMute k.loops) links
    → All (λ k. IsMute k.loops) (at_link f i links) × (length (at_link f i links) ≡ length links)
unfolding at_link
at_link-IsMute f i [] keeps v = (v, refl)
at_link-IsMute f zero (k ∷ links) keeps (w, v) = ((keeps k w, v), refl)
at_link-IsMute f (suc i) (k ∷ links) keeps (w, v) =
    let (u, e) = at_link-IsMute f i links keeps v in ((w, u), omega (arith, e))

loops_at-IsMute :
    (i : ℕ) (links : List Link) (l : Loops)
    → All (λ k. IsMute k.loops) links
    → loops_at i links ≡ some l
    → IsMute l
unfolding loops_at
loops_at-IsMute i [] l v h = cc
loops_at-IsMute zero (k ∷ links) l (w, v) h = subst IsMute (some-injective k.loops l h) w
loops_at-IsMute (suc i) (k ∷ links) l (w, v) h = loops_at-IsMute i links l v h

-- The state is lost, and no connection has been made.
abbrev IsLostWith : ℕ → State → Type 0
IsLostWith n s = IsLost s × (length s.links ≡ n)

tell-IsLost :
    (s : State) (i : ℕ) (o : Option Loops) → loops_at i s.links ≡ o → IsLost s → tell s i o ≡ s
tell-IsLost s i none h v = refl
tell-IsLost s i (some told) h v = refl
tell-IsLost s i (some crashed) h v = refl
tell-IsLost s i (some running) h v = refl
tell-IsLost s i (some ended) h v = absurd (loops_at-IsMute i s.links ended v.mute h)

at_link-IsLostWith :
    (n : ℕ) (s : State) (f : Link → Link) (i : ℕ)
    → ((k : Link) → IsMute k.loops → IsMute (f k).loops)
    → IsLostWith n s
    → IsLostWith n (record s { links = at_link f i s.links })
at_link-IsLostWith n s f i keeps (v, e) =
    let (u, d) = at_link-IsMute f i s.links keeps v.mute in
    (record { is_open = v.is_open; waits = v.waits; mute = u }, omega (arith, d, e))

listen_step-IsLostWith :
    (n : ℕ) (s : State) (success : Bool) (l : Listening)
    → s.listening ≡ l
    → IsLostWith n s
    → IsLostWith n (listen_step s success l)
listen_step-IsLostWith n s success at_head h (v, e) = (
  record {
    is_open = v.is_open;
    waits = subst (λ b. IsWaiting (if b then returned else waiting)) (sym v.is_open) tt;
    mute = v.mute;
  },
  e,
)
listen_step-IsLostWith n s success waiting h v = v
listen_step-IsLostWith n s success resting h v = v
listen_step-IsLostWith n s success returned h v = v
listen_step-IsLostWith n s success panicked h v = v
listen_step-IsLostWith n s success woken h (v, e) = absurd (subst IsWaiting h v.waits)
listen_step-IsLostWith n s success connecting h (v, e) = absurd (subst IsWaiting h v.waits)
listen_step-IsLostWith n s success retrying h (v, e) = absurd (subst IsWaiting h v.waits)
listen_step-IsLostWith n s success rested h (v, e) = absurd (subst IsWaiting h v.waits)

step-IsLostWith :
    (n : ℕ) (s : State) (e : Event)
    → e ≢ wakes_up
    → e ≢ shuts_down
    → IsLostWith n s
    → IsLostWith n (step s e)
unfolding step
step-IsLostWith n s (listens success) h g v = listen_step-IsLostWith n s success s.listening refl v
step-IsLostWith n s times_out h g (v, e) = (
  record { is_open = v.is_open; waits = timed_out-IsWaiting s.listening v.waits; mute = v.mute },
  e,
)
step-IsLostWith n s wakes_up h g v = absurd (h refl)
step-IsLostWith n s shuts_down h g v = absurd (g refl)
step-IsLostWith n s (ends i) h g v = at_link-IsLostWith n s _ i (λ k. end_loops-IsMute k.loops) v
step-IsLostWith n s (crashes i) h g v =
    at_link-IsLostWith n s _ i (λ k. crash_loops-IsMute k.loops) v
step-IsLostWith n s (tells i) h g v = subst (IsLostWith n) (sym (tell-IsLost s i _ refl v.0)) v
step-IsLostWith n s (closes i) h g v = at_link-IsLostWith n s _ i (close_link-IsMute s.exit) v
step-IsLostWith n s (stirs i) h g v = at_link-IsLostWith n s _ i (λ k w. w) v

run-IsLostWith :
    (n : ℕ) (s : State) (es : List Event)
    → All (λ e. (e ≢ wakes_up) × (e ≢ shuts_down)) es
    → IsLostWith n s
    → IsLostWith n (run s es)
unfolding run
run-IsLostWith n s [] h v = v
run-IsLostWith n s (e ∷ es) ((w, d), h) v =
    run-IsLostWith n (step s e) es h (step-IsLostWith n s e w d v)

-- When all connections have ended and nobody is left to tell of it, because that was told, or the
-- thread to tell it has panicked, while the thread of `listen` was not waiting, or is waiting now,
-- the client never connects again: without a `shutdown`, and without a wait of that thread that
-- ends for no reason, no connection is added, all stay ended, and the thread of `listen` waits.
pub lost_wakeup :
    (s : State) (es : List Event)
    → IsLost s
    → All (λ e. (e ≢ wakes_up) × (e ≢ shuts_down)) es
    → (length (run s es).links ≡ length s.links)
      × All (λ k. IsMute k.loops) (run s es).links
      × IsWaiting (run s es).listening
lost_wakeup s es v h =
    let (u, e) = run-IsLostWith (length s.links) s es h (v, refl) in (e, u.mute, u.waits)
