-- ===== src/Tcp/Signal/Waking.antt =====
-- Why the thread of `listen` in src/tcp/client.rs wakes up.
use rndz.Base.{
  ℕ, ◌≡◌, ◌≢◌, refl, ◌⊎◌, inl, inr, Bool, true, false, Option, none, some, List, [], ◌∷◌, arith,
  All,
}
use rndz.Tcp.Signal.{
  Listening, at_head, waiting, woken, connecting, retrying, resting, rested, returned, panicked,
  Loops, running, ended, told, crashed, State, Event, listens, times_out, wakes_up, shuts_down,
  ends, crashes, tells, closes, stirs, listen_step, tell, step, run, start, timed_out, notified,
  notify_all, loops_at,
}

-- When the thread has been woken, there is a reason; and its assertion has not failed.
pub record HasReason (s : State) : Type 0 where
  pub reason : s.listening ≡ woken → (s.exit ≡ true) ⊎ (s.broken ≡ true)
  pub asserted : s.listening ≢ panicked

listen_step-HasReason :
    (s : State) (success : Bool) (l : Listening)
    → s.listening ≡ l
    → HasReason s
    → HasReason (listen_step s success l)
listen_step-HasReason s success at_head e v = record {
  reason = ground arith;
  asserted = ground arith;
}
listen_step-HasReason s success waiting e v = v
listen_step-HasReason s success woken e v =
    let r = v.reason e in record { reason = ground arith; asserted = ground arith }
listen_step-HasReason s true connecting e v = record {
  reason = ground arith;
  asserted = ground arith;
}
listen_step-HasReason s false connecting e v = record {
  reason = ground arith;
  asserted = ground arith;
}
listen_step-HasReason s success retrying e v = record {
  reason = ground arith;
  asserted = ground arith;
}
listen_step-HasReason s success resting e v = v
listen_step-HasReason s success rested e v = record {
  reason = ground arith;
  asserted = ground arith;
}
listen_step-HasReason s success returned e v = v
listen_step-HasReason s success panicked e v = v

timed_out-woken : (l : Listening) → timed_out l ≡ woken → l ≡ woken
timed_out-woken l h = ground arith

timed_out-panicked : (l : Listening) → timed_out l ≡ panicked → l ≡ panicked
timed_out-panicked l h = ground arith

notified-panicked : (l : Listening) → notified l ≡ panicked → l ≡ panicked
notified-panicked l h = ground arith

notify_all-HasReason :
    (s : State)
    → (s.exit ≡ true) ⊎ (s.broken ≡ true)
    → s.listening ≢ panicked
    → HasReason (notify_all s)
notify_all-HasReason s r v = record {
  reason = λ h. r;
  asserted = λ h. v (notified-panicked s.listening h);
}

tell-HasReason : (s : State) (i : ℕ) (o : Option Loops) → HasReason s → HasReason (tell s i o)
tell-HasReason s i (some ended) v = notify_all-HasReason _ (inr refl) v.asserted
tell-HasReason s i (some running) v = v
tell-HasReason s i (some told) v = v
tell-HasReason s i (some crashed) v = v
tell-HasReason s i none v = v

step-HasReason : (s : State) (e : Event) → e ≢ wakes_up → HasReason s → HasReason (step s e)
unfolding step
step-HasReason s (listens success) h v = listen_step-HasReason s success s.listening refl v
step-HasReason s times_out h v = record {
  reason = λ e. v.reason (timed_out-woken s.listening e);
  asserted = λ e. v.asserted (timed_out-panicked s.listening e);
}
step-HasReason s wakes_up h v = absurd (h refl)
step-HasReason s shuts_down h v = notify_all-HasReason _ (inl refl) v.asserted
step-HasReason s (ends i) h v = record { reason = v.reason; asserted = v.asserted }
step-HasReason s (crashes i) h v = record { reason = v.reason; asserted = v.asserted }
step-HasReason s (tells i) h v = tell-HasReason s i (loops_at i s.links) v
step-HasReason s (closes i) h v = record { reason = v.reason; asserted = v.asserted }
step-HasReason s (stirs i) h v = record { reason = v.reason; asserted = v.asserted }

run-HasReason :
    (s : State) (es : List Event) → All (λ e. e ≢ wakes_up) es → HasReason s → HasReason (run s es)
unfolding run
run-HasReason s [] h v = v
run-HasReason s (e ∷ es) (h, hs) v = run-HasReason (step s e) es hs (step-HasReason s e h v)

-- Whatever the threads and the callers do after `listen` has started them, in whichever order, the
-- assertion of the thread of `listen` does not fail, provided that its wait never ends for no reason.
pub assertion_holds :
    (es : List Event) → All (λ e. e ≢ wakes_up) es → (run start es).listening ≢ panicked
assertion_holds es h =
    (run-HasReason start es h
      (record { reason = λ h. ground arith; asserted = ground arith })).asserted
