-- ===== src/Tcp/Signal/Exit.antt =====
-- How the thread of `listen` in src/tcp/client.rs ends after a `shutdown`.
use rndz.Base.{
  ℕ, suc, ◌≤◌, ◌≡◌, ◌≢◌, refl, sym, subst, ap, Bool, true, false, Option, none, some, List, [], ◌∷◌,
  arith, if◌then◌else◌,
}
use rndz.Tcp.Signal.{
  Listening, at_head, waiting, woken, connecting, retrying, resting, rested, returned, panicked,
  Loops, running, ended, told, crashed, State, Event, listens, times_out, wakes_up, shuts_down,
  ends, crashes, tells, closes, stirs, listen_step, tell, step, run, timed_out, spurious, notified,
  notify_all,
}

-- How many steps of the thread are left, at most, once the client has been shut down.
abbrev pub steps_left : Listening → ℕ
steps_left at_head = 1
steps_left waiting = 0
steps_left woken = 1
steps_left connecting = 2
steps_left retrying = 1
steps_left resting = 0
steps_left rested = 1
steps_left returned = 0
steps_left panicked = 0

-- The thread waits for nothing, and has not panicked.
abbrev pub IsAwake : Listening → Type 0
IsAwake at_head = Unit
IsAwake waiting = ⊥
IsAwake woken = Unit
IsAwake connecting = Unit
IsAwake retrying = Unit
IsAwake resting = ⊥
IsAwake rested = Unit
IsAwake returned = Unit
IsAwake panicked = ⊥

-- How often the thread goes on.
unfoldable pub goes : List Event → ℕ
goes [] = 0
goes (listens success ∷ es) = suc (goes es)
goes (times_out ∷ es) = goes es
goes (wakes_up ∷ es) = goes es
goes (shuts_down ∷ es) = goes es
goes (ends i ∷ es) = goes es
goes (crashes i ∷ es) = goes es
goes (tells i ∷ es) = goes es
goes (closes i ∷ es) = goes es
goes (stirs i ∷ es) = goes es

notified-IsAwake :
    (l : Listening) → l ≢ panicked → IsAwake (notified l) × (steps_left (notified l) ≤ 2)
notified-IsAwake at_head h = (tt, omega arith)
notified-IsAwake waiting h = (tt, omega arith)
notified-IsAwake woken h = (tt, omega arith)
notified-IsAwake connecting h = (tt, omega arith)
notified-IsAwake retrying h = (tt, omega arith)
notified-IsAwake resting h = (tt, omega arith)
notified-IsAwake rested h = (tt, omega arith)
notified-IsAwake returned h = (tt, omega arith)
notified-IsAwake panicked h = absurd (h refl)

-- An awake thread is neither notified nor timed out, and is not woken.
awake_same : (l : Listening) → IsAwake l → (notified l ≡ l) × (timed_out l ≡ l) × (spurious l ≡ l)
awake_same at_head w = (refl, refl, refl)
awake_same waiting w = absurd w
awake_same woken w = (refl, refl, refl)
awake_same connecting w = (refl, refl, refl)
awake_same retrying w = (refl, refl, refl)
awake_same resting w = absurd w
awake_same rested w = (refl, refl, refl)
awake_same returned w = (refl, refl, refl)
awake_same panicked w = absurd w

awake_ended : (l : Listening) → IsAwake l → steps_left l ≤ 0 → l ≡ returned
awake_ended at_head w h = absurd (omega arith)
awake_ended waiting w h = absurd w
awake_ended woken w h = absurd (omega arith)
awake_ended connecting w h = absurd (omega arith)
awake_ended retrying w h = absurd (omega arith)
awake_ended resting w h = absurd w
awake_ended rested w h = absurd (omega arith)
awake_ended returned w h = refl
awake_ended panicked w h = absurd w

-- The client has been shut down, and its thread is awake with at most `n` steps left.
record IsLeaving (n : ℕ) (s : State) : Type 0 where
  exits : s.exit ≡ true
  awake : IsAwake s.listening
  left : steps_left s.listening ≤ n

same-IsLeaving :
    (n : ℕ) (s t : State)
    → t.exit ≡ true
    → t.listening ≡ s.listening
    → IsLeaving n s
    → IsLeaving n t
same-IsLeaving n s t e h v = record {
  exits = e;
  awake = subst IsAwake (sym h) v.awake;
  left = subst (λ l. steps_left l ≤ n) (sym h) v.left;
}

returns : (n : ℕ) (s : State) → s.exit ≡ true → IsLeaving n (record s { listening = returned })
returns n s e = record { exits = e; awake = tt; left = omega arith }

returns_if :
    (n : ℕ) (s : State) (l : Listening)
    → s.exit ≡ true
    → IsLeaving n (record s { listening = if s.exit then returned else l })
returns_if n s l e =
    same-IsLeaving n (record s { listening = returned }) _ e (ap (λ b. if b then returned else l) e)
      (returns n s e)

chosen-IsLeaving :
    (n : ℕ) (b : Bool) (s t : State) → b ≡ true → IsLeaving n s → IsLeaving n (if b then s else t)
chosen-IsLeaving n b s t e v = subst (λ c. IsLeaving n (if c then s else t)) (sym e) v

steps_left-connecting : (n : ℕ) (s : State) → s.listening ≡ connecting → IsLeaving (suc n) s → 1 ≤ n
steps_left-connecting n s h v =
    let d : 2 ≤ suc n = subst (λ l. steps_left l ≤ suc n) h v.left in omega (arith, d)

listen_step-IsLeaving :
    (n : ℕ) (s : State) (success : Bool) (l : Listening)
    → s.listening ≡ l
    → IsLeaving (suc n) s
    → IsLeaving n (listen_step s success l)
listen_step-IsLeaving n s success at_head h v = returns_if n s waiting v.exits
listen_step-IsLeaving n s success waiting h v = absurd (subst IsAwake h v.awake)
listen_step-IsLeaving n s success woken h v =
    chosen-IsLeaving n s.exit _ _ v.exits (returns n s v.exits)
listen_step-IsLeaving n s true connecting h v = record {
  exits = v.exits;
  awake = tt;
  left = steps_left-connecting n s h v;
}
listen_step-IsLeaving n s false connecting h v = record {
  exits = v.exits;
  awake = tt;
  left = steps_left-connecting n s h v;
}
listen_step-IsLeaving n s success retrying h v = returns_if n s resting v.exits
listen_step-IsLeaving n s success resting h v = absurd (subst IsAwake h v.awake)
listen_step-IsLeaving n s success rested h v = returns_if n s connecting v.exits
listen_step-IsLeaving n s success returned h v =
    same-IsLeaving n (record s { listening = returned }) s v.exits h (returns n s v.exits)
listen_step-IsLeaving n s success panicked h v = absurd (subst IsAwake h v.awake)

tell-IsLeaving :
    (n : ℕ) (s : State) (i : ℕ) (o : Option Loops) → IsLeaving n s → IsLeaving n (tell s i o)
tell-IsLeaving n s i none v = v
tell-IsLeaving n s i (some running) v = v
tell-IsLeaving n s i (some told) v = v
tell-IsLeaving n s i (some crashed) v = v
tell-IsLeaving n s i (some ended) v =
    same-IsLeaving n s _ v.exits (awake_same s.listening v.awake).0 v

run-IsLeaving :
    (es : List Event) (s : State) → IsLeaving (goes es) s → (run s es).listening ≡ returned
unfolding run step goes
run-IsLeaving [] s v = awake_ended s.listening v.awake v.left
run-IsLeaving (listens success ∷ es) s v =
    run-IsLeaving es _ (listen_step-IsLeaving (goes es) s success s.listening refl v)
run-IsLeaving (times_out ∷ es) s v =
    run-IsLeaving es _ (same-IsLeaving _ s _ v.exits (awake_same s.listening v.awake).1 v)
run-IsLeaving (wakes_up ∷ es) s v =
    run-IsLeaving es _ (same-IsLeaving _ s _ v.exits (awake_same s.listening v.awake).2 v)
run-IsLeaving (shuts_down ∷ es) s v =
    run-IsLeaving es _ (same-IsLeaving _ s _ refl (awake_same s.listening v.awake).0 v)
run-IsLeaving (ends i ∷ es) s v = run-IsLeaving es _ (same-IsLeaving _ s _ v.exits refl v)
run-IsLeaving (crashes i ∷ es) s v = run-IsLeaving es _ (same-IsLeaving _ s _ v.exits refl v)
run-IsLeaving (tells i ∷ es) s v = run-IsLeaving es _ (tell-IsLeaving _ s i _ v)
run-IsLeaving (closes i ∷ es) s v = run-IsLeaving es _ (same-IsLeaving _ s _ v.exits refl v)
run-IsLeaving (stirs i ∷ es) s v = run-IsLeaving es _ (same-IsLeaving _ s _ v.exits refl v)

-- After a `shutdown`, in whatever state it finds the client, the thread of `listen` returns within
-- two of its own steps, whatever else happens in between and after, unless its assertion had failed
-- before.
pub shutdown_ends :
    (s : State) (es : List Event)
    → s.listening ≢ panicked
    → 2 ≤ goes es
    → (run s (shuts_down ∷ es)).listening ≡ returned
unfolding run step
shutdown_ends s es h g =
    let (w, d) = notified-IsAwake s.listening h in
    run-IsLeaving es (notify_all (record s { exit = true }))
      (record { exits = refl; awake = w; left = omega (arith, d, g) })
