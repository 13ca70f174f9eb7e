-- ===== src/Tcp/Server/Routing/Runs.antt =====
-- The routing invariant of src/tcp/server.rs in every interleaving of the tasks.
use rndz.Base.{
  ℕ, ◌+◌, ◌^◌, ◌≤◌, ◌<◌, ◌≡◌, refl, ◌∙◌, ap, inl, inr, Option, none, some, List, [], ◌∷◌, arith,
  ltb, Bool-cases, Option-cases, length,
}
use rndz.Net.{AddrText}
use rndz.Proto.{Request}
use rndz.Tcp.Handler.{Proc}
use rndz.Tcp.Server.{
  PeerHandler, Server, Event, accepted, received, acted, broken, closed, new, next_id, accept,
  capacity, send_to, take_request, act, receive, fail_write, with_handler, step, run,
}
use rndz.Tcp.Server.Routing.{
  IsRouted, new-IsRouted, set_handler-IsRouted, table-IsRouted, register-AllValues, accept-IsRouted,
  disconnect-IsRouted, send_to-IsRouted, enqueue_bounded,
}

-- A task stands at its own number.
own :
    (s : Server) (i : ℕ) (h : PeerHandler)
    → s.handlers i ≡ some h
    → IsRouted s
    → s.handlers h.id ≡ some h
own s i h at v = ap s.handlers (v.tasks i h at).numbered ∙ at

fail_write-IsRouted :
    (s : Server) (h : PeerHandler) (p : Proc)
    → s.handlers h.id ≡ some h
    → IsRouted s
    → IsRouted (fail_write s h p)
fail_write-IsRouted s h (Proc.write r rest) at v =
    set_handler-IsRouted s h.id h _ at refl refl refl (v.tasks h.id h at).bounded v
fail_write-IsRouted s h _ at v = v

with_handler-IsRouted :
    (s : Server) (i : ℕ) (f : PeerHandler → Server) (o : Option PeerHandler)
    → s.handlers i ≡ o
    → ((h : PeerHandler) → s.handlers h.id ≡ some h → IsRouted (f h))
    → IsRouted s
    → IsRouted (with_handler s f o)
with_handler-IsRouted s i f none at keep v = v
with_handler-IsRouted s i f (some h) at keep v = keep h (own s i h at v)

receive-IsRouted :
    (s : Server) (i : ℕ) (req : Request) (o : Option PeerHandler)
    → s.handlers i ≡ o
    → IsRouted s
    → IsRouted (receive s req o)
receive-IsRouted s i req none at v = v
receive-IsRouted s i req (some h) at v = elim (Bool-cases (ltb (length h.queue) capacity)) [
  | inl room ↦ rw room (
      set_handler-IsRouted s h.id h _ (own s i h at v) refl refl refl (enqueue_bounded h req room)
        v)
  | inr full ↦ rw full v
]

count-send_to :
    (s : Server) (h : PeerHandler) (tx : ℕ) (req : Request) (rest : Proc) (o : Option PeerHandler)
    → (send_to s h tx req rest o).count ≡ s.count
unfolding send_to
count-send_to s h tx req rest none = refl
count-send_to s h tx req rest (some target) = ground arith

module _ (t : AddrText) where
  count-take_request :
      (s : Server) (h : PeerHandler) (queue : List Request)
      → (take_request t s h queue).count ≡ s.count
  unfolding take_request
  count-take_request s h [] = refl
  count-take_request s h (req ∷ rest) = refl

  take_request-IsRouted :
      (s : Server) (h : PeerHandler) (queue : List Request)
      → s.handlers h.id ≡ some h
      → length queue ≤ capacity
      → IsRouted s
      → IsRouted (take_request t s h queue)
  unfolding take_request
  take_request-IsRouted s h [] at room v = v
  take_request-IsRouted s h (req ∷ rest) at room v =
      set_handler-IsRouted s h.id h _ at refl refl refl (omega arith) v

  act-IsRouted :
      (s : Server) (h : PeerHandler) (now : ℕ) (p : Proc)
      → s.handlers h.id ≡ some h
      → IsRouted s
      → IsRouted (act t s h now p)
  unfolding act
  act-IsRouted s h now Proc.ok at v =
      take_request-IsRouted s h h.queue at (v.tasks h.id h at).bounded v
  act-IsRouted s h now Proc.err at v = disconnect-IsRouted s h v
  act-IsRouted s h now (Proc.lookup k f) at v =
      set_handler-IsRouted s h.id h _ at refl refl refl (v.tasks h.id h at).bounded v
  act-IsRouted s h now (Proc.insert_peerstate k rest) at v =
      set_handler-IsRouted _ h.id h _ at refl refl refl (v.tasks h.id h at).bounded (
        table-IsRouted s _
          (register-AllValues _ s.peers h k now
            (λ p r. record {
              channelled = r.channelled;
              counted = r.counted;
              addressed = r.addressed;
            })
            (record {
              channelled = (v.tasks h.id h at).channelled;
              counted = (v.tasks h.id h at).counted;
              addressed = λ g e. ground arith;
            })
            v.table)
          v)
  act-IsRouted s h now (Proc.send tx req rest) at v = send_to-IsRouted s h tx req rest _ refl v
  act-IsRouted s h now (Proc.write r rest) at v =
      set_handler-IsRouted s h.id h _ at refl refl refl (v.tasks h.id h at).bounded v

  pub step-IsRouted :
      (s : Server) (e : Event) → s.count + 1 < 2 ^ 64 → IsRouted s → IsRouted (step t s e)
  unfolding step
  step-IsRouted s (accepted addr) fits v = accept-IsRouted s addr fits v
  step-IsRouted s (received i req) fits v = receive-IsRouted s i req _ refl v
  step-IsRouted s (acted i now) fits v =
      with_handler-IsRouted s i _ _ refl (λ h at. act-IsRouted s h now h.running at v) v
  step-IsRouted s (broken i) fits v =
      with_handler-IsRouted s i _ _ refl (λ h at. fail_write-IsRouted s h h.running at v) v
  step-IsRouted s (closed i) fits v =
      with_handler-IsRouted s i _ _ refl (λ h at. disconnect-IsRouted s h v) v

  count-act :
      (s : Server) (h : PeerHandler) (now : ℕ) (p : Proc) → (act t s h now p).count ≡ s.count
  unfolding act
  count-act s h now Proc.ok = count-take_request s h h.queue
  count-act s h now Proc.err = refl
  count-act s h now (Proc.lookup k f) = refl
  count-act s h now (Proc.insert_peerstate k rest) = refl
  count-act s h now (Proc.send tx req rest) = count-send_to s h tx req rest (s.handlers tx)
  count-act s h now (Proc.write r rest) = refl

  pub count-step :
      (s : Server) (e : Event) → s.count + 1 < 2 ^ 64 → (step t s e).count ≤ s.count + 1
  unfolding step accept next_id
  count-step s (accepted addr) fits = omega arith
  count-step s (received i req) fits = ground arith
  count-step s (acted i now) fits = elim (Option-cases (s.handlers i)) [
    | inl e ↦ rw (e, with_handler) (omega arith)
    | inr (h, e) ↦ rw (e, with_handler) (omega (arith, count-act s h now h.running))
  ]
  count-step s (broken i) fits = ground arith
  count-step s (closed i) fits = ground arith

  run_from-IsRouted :
      (s : Server) (es : List Event)
      → s.count + length es < 2 ^ 64
      → IsRouted s
      → IsRouted (run t s es)
  unfolding run
  run_from-IsRouted s [] fits v = v
  run_from-IsRouted s (e ∷ es) fits v =
      run_from-IsRouted (step t s e) es (omega (arith, count-step s e))
        (step-IsRouted s e (omega arith) v)

  -- In every interleaving of fewer than 2 ^ 64 events, from the start of the server: each open
  -- connection has its own number, at most the counter, and its own channel, of at most ten requests;
  -- and each entry of the table has the channel of one connection and, while that is open, the
  -- address that the server observes there.
  pub run-IsRouted : (es : List Event) → length es < 2 ^ 64 → IsRouted (run t new es)
  unfolding new
  run-IsRouted es fits = run_from-IsRouted new es (omega arith) new-IsRouted
