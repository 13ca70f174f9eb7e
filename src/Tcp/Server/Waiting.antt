-- ===== src/Tcp/Server/Waiting.antt =====
-- A task of src/tcp/server.rs that sends into its own full channel waits for itself.
use rndz.Base.{
  ℕ, ◌+◌, ◌^◌, ◌≤◌, ◌<◌, ◌≡◌, refl, sym, ◌∙◌, ap, ◌≢◌, inl, inr, Option, none, some, List, [], ◌∷◌,
  arith, subst, length, Bool-cases, Option-cases, All, ◌==◌,
}
use mathlib.Core.Option.{some-injective}
use rndz.Net.{AddrText}
use rndz.Proto.{Request}
use rndz.Tcp.Handler.{Proc}
use rndz.Tcp.Server.{
  PeerHandler, Server, Event, accepted, received, acted, broken, closed, capacity, accept, next_id,
  disconnect, send_to, take_request, act, receive, fail_write, with_handler, step, run,
}
use rndz.Tcp.Server.Calls.{Has}
use rndz.Tcp.Server.Routing.{IsRouted}
use rndz.Tcp.Server.Routing.Runs.{step-IsRouted, count-step}

-- The task waits to send into its own channel, which is full.
pub record IsWaiting (s : Server) (h : PeerHandler) (req : Request) (rest : Proc) : Type 0 where
  pub at : Has s h
  pub sending : h.running ≡ Proc.send h.id req rest
  pub full : capacity ≤ length h.queue

-- Another task's action leaves a task alone whose channel is full.
module _ (t : AddrText) (s : Server) (h g : PeerHandler) (at : Has s h)
    (full : capacity ≤ length h.queue) (other : h.id ≢ g.id) where
  send_to-Has :
      (tx : ℕ) (req : Request) (rest : Proc) (o : Option PeerHandler)
      → s.handlers tx ≡ o
      → Has (send_to s g tx req rest o) h
  unfolding send_to
  send_to-Has tx req rest none e = ground arith
  send_to-Has tx req rest (some target) e = ground arith

  take_request-Has : (queue : List Request) → Has (take_request t s g queue) h
  unfolding take_request
  take_request-Has [] = at
  take_request-Has (req ∷ rest) = ground arith

  act-Has : (now : ℕ) (p : Proc) → Has (act t s g now p) h
  unfolding act disconnect
  act-Has now Proc.ok = take_request-Has g.queue
  act-Has now Proc.err = ground arith
  act-Has now (Proc.lookup k f) = ground arith
  act-Has now (Proc.insert_peerstate k rest) = ground arith
  act-Has now (Proc.send tx req rest) = send_to-Has tx req rest (s.handlers tx) refl
  act-Has now (Proc.write r rest) = ground arith

  fail_write-Has : (p : Proc) → Has (fail_write s g p) h
  fail_write-Has (Proc.write r rest) = ground arith
  fail_write-Has _ = at

module _ (t : AddrText) where
  -- Its own actions change nothing.
  act_waits :
      (s : Server) (h : PeerHandler) (req : Request) (rest : Proc) (now : ℕ)
      → IsWaiting s h req rest
      → act t s h now h.running ≡ s
  unfolding act send_to
  act_waits s h req rest now w =
      ap (act t s h now) w.sending ∙ ap (send_to s h h.id req rest) w.at ∙ ground (arith, w.full)

  receive-eq :
      (s : Server) (r : Request) (o : Option PeerHandler)
      → with_handler s (λ g. receive s r (some g)) o ≡ receive s r o
  receive-eq s r none = refl
  receive-eq s r (some g) = refl

  -- An event at one task leaves `h` alone if it does so at `h` and at each other task.
  with_handler-Has :
      (s : Server) (h : PeerHandler) (i : ℕ) (f : PeerHandler → Server)
      → Has s h
      → IsRouted s
      → ((g : PeerHandler) → h.id ≢ g.id → Has (f g) h)
      → Has (f h) h
      → Has (with_handler s f (s.handlers i)) h
  with_handler-Has s h i f at v others own = elim (Option-cases (s.handlers i)) [
    | inl e ↦ rw (e, with_handler) at
    | inr (g, e) ↦
        rw (e, with_handler)
          (elim (Bool-cases (h.id == g.id)) [
            | inl q ↦
                let same : h.id ≡ g.id = ground arith in
                let one : h ≡ g =
                  some-injective h g
                    (sym at ∙ ap s.handlers (same ∙ (v.tasks i g e).numbered) ∙ e) in
                subst (λ x. Has (f x) h) one own
            | inr q ↦ others g (ground arith)
          ])
  ]

  -- No event but the end of its reader changes a waiting task.
  step-Has :
      (s : Server) (h : PeerHandler) (req : Request) (rest : Proc) (e : Event)
      → IsWaiting s h req rest
      → IsRouted s
      → s.count + 1 < 2 ^ 64
      → e ≢ closed h.id
      → Has (step t s e) h
  unfolding step accept next_id
  step-Has s h req rest (accepted addr) w v fits open_ =
      let counted = (v.tasks h.id h w.at).counted in ground (arith, w.at, counted)
  step-Has s h req rest (received i r) w v fits open_ =
      subst (λ x. Has x h) (receive-eq s r (s.handlers i))
        (with_handler-Has s h i (λ g. receive s r (some g)) w.at v (λ g other. ground (arith, w.at))
          (ground (arith, w.full, w.at)))
  step-Has s h req rest (acted i now) w v fits open_ =
      with_handler-Has s h i (λ g. act t s g now g.running) w.at v
        (λ g other. act-Has t s h g w.at w.full other now g.running)
        (subst (λ x. Has x h) (sym (act_waits s h req rest now w)) w.at)
  step-Has s h req rest (broken i) w v fits open_ =
      with_handler-Has s h i (λ g. fail_write s g g.running) w.at v
        (λ g other. fail_write-Has t s h g w.at w.full other g.running)
        (subst (λ x. Has (fail_write s h x) h) (sym w.sending) w.at)
  step-Has s h req rest (closed i) w v fits open_ = elim (Option-cases (s.handlers i)) [
    | inl e ↦ rw (e, with_handler) w.at
    | inr (g, e) ↦
        rw (e, with_handler)
          (act-Has t s h g w.at w.full
            (λ same. open_ (ap closed (sym (v.tasks i g e).numbered ∙ sym same))) 0 Proc.err)
  ]

  -- In a routed state, once a task waits to send into its own full channel, it stays as it is, and its
  -- channel too, in every interleaving in which its reader does not end and the counter does not wrap.
  pub waits_forever :
      (es : List Event) (s : Server) (h : PeerHandler) (req : Request) (rest : Proc)
      → IsWaiting s h req rest
      → IsRouted s
      → s.count + length es < 2 ^ 64
      → All (λ e. e ≢ closed h.id) es
      → Has (run t s es) h
  unfolding run
  waits_forever [] s h req rest w v fits open_ = w.at
  waits_forever (e ∷ es) s h req rest w v fits (first, others) =
      waits_forever es (step t s e) h req rest
        (record {
          at = step-Has s h req rest e w v (omega arith) first;
          sending = w.sending;
          full = w.full;
        })
        (step-IsRouted t s e (omega arith) v) (omega (arith, count-step t s e)) others
