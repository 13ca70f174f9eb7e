-- ===== src/Tcp/Session/Fatal.antt =====
-- What an Fsync that a client of src/tcp/client.rs cannot read does to the client.
use rndz.Base.{
  ℕ, suc, ◌≡◌, ◌≢◌, refl, sym, ◌∙◌, ap, subst, inr, String, Bool, false, Option, none, some, List,
  [], ◌∷◌, ◌++◌, if◌then◌else◌, All, length,
}
use rndz.Net.{SocketAddr}
use rndz.Proto.{RespCmd, Response, Fsync}
use rndz.Tcp.Link.{
  Reader, reading, returned, panicked, sending, Writer, waiting, over, writing, reader_gone,
  get_response, end_stream, send, write, time_out, take_command,
}
use rndz.Tcp.Link
use rndz.Tcp.Signal.{Listening, at_head, connecting, retrying, resting, rested, woken}
use rndz.Tcp.Signal.Lost.{IsWaiting, timed_out-IsWaiting}
use rndz.Tcp.Session.{
  rouse_connection, gone_on, Connection, Session, Event, listens, times_out, wakes_up, shuts_down,
  tells, closes, stirs, works, at_connection, close_connection, work, step, run,
}
use rndz.Tcp.Session.Dead.{
  IsDead, tell_joined-same, loops_at-IsDead, at_connection-IsDead, work-IsDead,
}

-- The client has not been shut down, its thread waits for a signal, and all its connections are dead.
record IsStuck (n : ℕ) (s : Session) : Type 0 where
  is_open : s.exit ≡ false
  waits : IsWaiting s.listening
  dead : All IsDead s.connections
  many : length s.connections ≡ n

gone_on-IsStuck :
    (n : ℕ) (s : Session) (success : Bool) (l : Listening)
    → s.listening ≡ l
    → IsStuck n s
    → IsStuck n (gone_on s success l)
gone_on-IsStuck n s success at_head h v = record {
  is_open = v.is_open;
  waits =
      subst (λ b. IsWaiting (if b then Listening.returned else Listening.waiting)) (sym v.is_open)
        tt;
  dead = v.dead;
  many = v.many;
}
gone_on-IsStuck n s success Listening.waiting h v = v
gone_on-IsStuck n s success woken h v = absurd (subst IsWaiting h v.waits)
gone_on-IsStuck n s success connecting h v = absurd (subst IsWaiting h v.waits)
gone_on-IsStuck n s success retrying h v = absurd (subst IsWaiting h v.waits)
gone_on-IsStuck n s success resting h v = absurd (subst IsWaiting h v.waits)
gone_on-IsStuck n s success rested h v = absurd (subst IsWaiting h v.waits)
gone_on-IsStuck n s success Listening.returned h v = absurd (subst IsWaiting h v.waits)
gone_on-IsStuck n s success Listening.panicked h v = absurd (subst IsWaiting h v.waits)

at-IsStuck :
    (n : ℕ) (s : Session) (f : Connection → Connection) (i : ℕ)
    → ((c : Connection) → IsDead c → IsDead (f c))
    → IsStuck n s
    → IsStuck n (record s { connections = at_connection f i s.connections })
at-IsStuck n s f i keeps v =
    let (u, e) = at_connection-IsDead f i s.connections keeps v.dead in
    record { is_open = v.is_open; waits = v.waits; dead = u; many = e ∙ v.many }

module _ (id : String) (parse_addr : String → Option SocketAddr) where
  step-IsStuck :
      (n : ℕ) (s : Session) (e : Event)
      → e ≢ wakes_up
      → e ≢ shuts_down
      → IsStuck n s
      → IsStuck n (step id parse_addr s e)
  unfolding step
  step-IsStuck n s (listens success) h g v = gone_on-IsStuck n s success s.listening refl v
  step-IsStuck n s times_out h g v = record {
    is_open = v.is_open;
    waits = timed_out-IsWaiting s.listening v.waits;
    dead = v.dead;
    many = v.many;
  }
  step-IsStuck n s wakes_up h g v = absurd (h refl)
  step-IsStuck n s shuts_down h g v = absurd (g refl)
  step-IsStuck n s (tells i) h g v =
      subst (IsStuck n) (sym (tell_joined-same s i _ (loops_at-IsDead i s.connections v.dead))) v
  step-IsStuck n s (closes i) h g v = at-IsStuck n s (close_connection s.exit) i (λ c d. d) v
  step-IsStuck n s (stirs i) h g v = at-IsStuck n s rouse_connection i (λ c d. d) v
  step-IsStuck n s (works i e) h g v =
      at-IsStuck n s (work id parse_addr e) i (work-IsDead id parse_addr e) v

  run-IsStuck :
      (n : ℕ) (es : List Event) (s : Session)
      → All (λ e. (e ≢ wakes_up) × (e ≢ shuts_down)) es
      → IsStuck n s
      → IsStuck n (run id parse_addr s es)
  unfolding run
  run-IsStuck n [] s h v = v
  run-IsStuck n (e ∷ es) s ((w, d), h) v =
      run-IsStuck n es (step id parse_addr s e) h (step-IsStuck n s e w d v)

  bad_fsync-IsDead :
      (c : Connection) (resp : Response) (f : Fsync)
      → c.link.reader ≡ reading
      → resp.cmd ≡ some (RespCmd.fsync f)
      → parse_addr f.addr ≡ none
      → IsDead (work id parse_addr (Link.Event.gets resp) c)
  unfolding Link.step
  bad_fsync-IsDead c resp f h g p = inr (rw h (rw g (rw p refl)))

  last-IsDead :
      (f : Connection → Connection) (old : List Connection) (c : Connection)
      → All IsDead old
      → IsDead (f c)
      → All IsDead (at_connection f (length old) (old ++ c ∷ []))
        × (length (at_connection f (length old) (old ++ c ∷ [])) ≡ suc (length old))
  unfolding at_connection
  last-IsDead f [] c v d = ((d, tt), refl)
  last-IsDead f (k ∷ old) c (u, v) d = let (w, e) = last-IsDead f old c v d in ((u, w), ap suc e)

  -- When the read loop of the last connection of a client that has not been shut down, and whose
  -- thread of `listen` waits for a signal, gets an Fsync whose address cannot be read, and the end
  -- of each of the other connections has been told, or its read loop has panicked, the client never
  -- connects again: whatever happens afterwards, but a `shutdown` or a wait of that thread that
  -- ends for no reason, no connection is added, of each connection the end has been told or the
  -- read loop has panicked, and the thread of `listen` waits.
  pub bad_fsync :
      (s : Session) (old : List Connection) (c : Connection) (resp : Response) (f : Fsync)
      (es : List Event)
      → s.exit ≡ false
      → IsWaiting s.listening
      → s.connections ≡ old ++ c ∷ []
      → All IsDead old
      → c.link.reader ≡ reading
      → resp.cmd ≡ some (RespCmd.fsync f)
      → parse_addr f.addr ≡ none
      → All (λ e. (e ≢ wakes_up) × (e ≢ shuts_down)) es
      → let t = run id parse_addr s (works (length old) (Link.Event.gets resp) ∷ es) in
        (length t.connections ≡ suc (length old)) × All IsDead t.connections × IsWaiting t.listening
  unfolding run step
  bad_fsync s old c resp f es o w those d h g p quiet =
      let change = work id parse_addr (Link.Event.gets resp) in
      let (dead, many) = last-IsDead change old c d (bad_fsync-IsDead c resp f h g p) in
      let v = run-IsStuck (suc (length old)) es _ quiet (record {
        is_open = o;
        waits = w;
        dead = subst (λ cs. All IsDead (at_connection change (length old) cs)) (sym those) dead;
        many = ap (λ cs. length (at_connection change (length old) cs)) those ∙ many;
      }) in
      (v.many, v.dead, v.waits)
