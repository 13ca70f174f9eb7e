-- ===== src/Tcp/Signal/Single.antt =====
-- How many connections with the server the client of src/tcp/client.rs has at a time.
use mathlib.Core.Bool.{false≢true}
use rndz.Base.{
  ℕ, ◌≤◌, ◌≡◌, refl, sym, ◌∙◌, ap, Bool, true, false, Option, none, some, List, [], ◌∷◌, arith,
  if◌then◌else◌,
}
use rndz.Tcp.Signal.{
  Listening, at_head, waiting, woken, connecting, retrying, resting, rested, returned, panicked,
  Loops, running, ended, told, crashed, State, Event, listens, times_out, wakes_up, shuts_down,
  ends, crashes, tells, closes, stirs, listen_step, tell, step, run, start, at_link, loops_at,
}
use rndz.Tcp.Signal.Live.{
  redoing, live, live-append_new, live-at_link, live-close, live-crash, live-end, live-rouse_all,
  live-tell, redoing-notified, redoing-spurious, redoing-timed_out,
}

-- At most one connection is live, none when a break is pending or the thread is on its way to a new
-- one.
record IsSingle (s : State) : Type 0 where
  few : live s.links ≤ 1
  pending : s.broken ≡ true → live s.links ≡ 0
  redone : redoing s.listening ≡ true → live s.links ≡ 0
  settled : redoing s.listening ≡ true → s.broken ≡ false

fewer-IsSingle :
    (s t : State)
    → t.broken ≡ s.broken
    → redoing t.listening ≡ redoing s.listening
    → live t.links ≤ live s.links
    → IsSingle s
    → IsSingle t
fewer-IsSingle s t b l n v = record {
  few = omega (arith, n, v.few);
  pending = λ h. omega (arith, n, v.pending (sym b ∙ h));
  redone = λ h. omega (arith, n, v.redone (sym l ∙ h));
  settled = λ h. b ∙ v.settled (sym l ∙ h);
}

tell-IsSingle :
    (s : State) (i : ℕ) (o : Option Loops)
    → loops_at i s.links ≡ o
    → IsSingle s
    → IsSingle (tell s i o)
tell-IsSingle s i none h v = v
tell-IsSingle s i (some running) h v = v
tell-IsSingle s i (some told) h v = v
tell-IsSingle s i (some crashed) h v = v
tell-IsSingle s i (some ended) h v =
    let d = live-tell i s.links h in
    let e = live-rouse_all (at_link (λ k. record k { loops = told }) i s.links) in
    record {
      few = omega (arith, d, e, v.few);
      pending = λ _. omega (arith, d, e, v.few);
      redone = λ _. omega (arith, d, e, v.few);
      settled = λ g. absurd (omega (arith, d, v.redone (sym (redoing-notified s.listening) ∙ g)));
    }

idle-IsSingle :
    (s : State) (l : Listening)
    → redoing l ≡ false
    → IsSingle s
    → IsSingle (record s { listening = l })
idle-IsSingle s l e v = record {
  few = v.few;
  pending = v.pending;
  redone = λ h. absurd (false≢true (sym e ∙ h));
  settled = λ h. absurd (false≢true (sym e ∙ h));
}

redo-IsSingle :
    (s : State) (l : Listening)
    → redoing s.listening ≡ true
    → IsSingle s
    → IsSingle (record s { listening = l })
redo-IsSingle s l e v = record {
  few = v.few;
  pending = v.pending;
  redone = λ _. v.redone e;
  settled = λ _. v.settled e;
}

woken-IsSingle :
    (s : State) (exit broken : Bool)
    → s.broken ≡ broken
    → IsSingle s
    → IsSingle (
        if exit
        then record s { listening = returned }
        else if broken
        then record s { broken = false; listening = connecting }
        else record s { listening = panicked })
woken-IsSingle s true broken e v = idle-IsSingle s returned refl v
woken-IsSingle s false false e v = idle-IsSingle s panicked refl v
woken-IsSingle s false true e v = record {
  few = v.few;
  pending = λ _. v.pending e;
  redone = λ _. v.pending e;
  settled = λ _. refl;
}

connected-IsSingle :
    (s : State) → redoing s.listening ≡ true → IsSingle s → IsSingle (listen_step s true connecting)
connected-IsSingle s e v =
    let d = live-append_new s.links in
    record {
      few = omega (arith, d, v.redone e);
      pending = λ h. absurd (false≢true (sym (v.settled e) ∙ h));
      redone = λ h. absurd (false≢true h);
      settled = λ h. v.settled e;
    }

listen_step-IsSingle :
    (s : State) (success : Bool) (l : Listening)
    → s.listening ≡ l
    → IsSingle s
    → IsSingle (listen_step s success l)
listen_step-IsSingle s success at_head h v = idle-IsSingle s _ (ground arith) v
listen_step-IsSingle s success waiting h v = v
listen_step-IsSingle s success woken h v = woken-IsSingle s s.exit s.broken refl v
listen_step-IsSingle s true connecting h v = connected-IsSingle s (ap redoing h) v
listen_step-IsSingle s false connecting h v = redo-IsSingle s retrying (ap redoing h) v
listen_step-IsSingle s success retrying h v = redo-IsSingle s _ (ap redoing h) v
listen_step-IsSingle s success resting h v = v
listen_step-IsSingle s success rested h v = redo-IsSingle s _ (ap redoing h) v
listen_step-IsSingle s success returned h v = v
listen_step-IsSingle s success panicked h v = v

step-IsSingle : (s : State) (e : Event) → IsSingle s → IsSingle (step s e)
unfolding step
step-IsSingle s (listens success) v = listen_step-IsSingle s success s.listening refl v
step-IsSingle s times_out v =
    fewer-IsSingle s _ refl (redoing-timed_out s.listening) (omega arith) v
step-IsSingle s wakes_up v = fewer-IsSingle s _ refl (redoing-spurious s.listening) (omega arith) v
step-IsSingle s shuts_down v =
    fewer-IsSingle s _ refl (redoing-notified s.listening) (omega (arith, live-rouse_all s.links)) v
step-IsSingle s (ends i) v =
    fewer-IsSingle s _ refl refl (live-at_link _ i s.links (λ k. live-end k.loops)) v
step-IsSingle s (crashes i) v =
    fewer-IsSingle s _ refl refl (live-at_link _ i s.links (λ k. live-crash k.loops)) v
step-IsSingle s (tells i) v = tell-IsSingle s i _ refl v
step-IsSingle s (closes i) v =
    fewer-IsSingle s _ refl refl (live-at_link _ i s.links (λ k. live-close s.exit k k.closer)) v
step-IsSingle s (stirs i) v =
    fewer-IsSingle s _ refl refl (live-at_link _ i s.links (λ k. omega arith)) v

run-IsSingle : (s : State) (es : List Event) → IsSingle s → IsSingle (run s es)
unfolding run
run-IsSingle s [] v = v
run-IsSingle s (e ∷ es) v = run-IsSingle (step s e) es (step-IsSingle s e v)

-- Whatever the threads and the callers do after `listen`, in whichever order, at most one
-- connection with the server is live at a time; and none is while a break is pending that the
-- thread of `listen` has not yet taken up.
pub one_connection :
    (es : List Event)
    → (live (run start es).links ≤ 1)
      × ((run start es).broken ≡ true → live (run start es).links ≡ 0)
one_connection es =
    let v = run-IsSingle start es (record {
      few = omega arith;
      pending = λ h. ground arith;
      redone = λ h. ground arith;
      settled = λ h. refl;
    }) in
    (v.few, v.pending)
