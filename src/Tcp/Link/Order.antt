-- ===== src/Tcp/Link/Order.antt =====
-- What a connection of src/tcp/client.rs writes, in which order.
use mathlib.Core.List.{append_assoc}
use rndz.Base.{
  ◌≤◌, ◌≡◌, ◌≢◌, refl, sym, ◌∙◌, ap, subst, ◌⊎◌, inl, inr, String, Bool, true, false, Option, List,
  [], ◌∷◌, ◌++◌, arith, length, Bool-cases,
}
use rndz.Net.{SocketAddr}
use rndz.Proto.{ReqCmd, Request, request}
use rndz.Tcp.Link.{
  Kind, blocking, asynchronous, exits_reading, exits_writing, exit_reading, exit_writing, Writer,
  waiting, over, writing, Link, start, Event, gets, stream_ends, sends, times_out, writes,
  reader_gone, take_command, write, ping_if_idle, time_out, step, run,
}
use rndz.Tcp.Link.Pending.{
  not_ping, no_pings, commands, reader_hand, writer_hand, Greets, answers, pending, StartsWithPing,
  IsOrdered, start-IsOrdered, commands-snoc, StartsWithPing-append,
}
use rndz.Tcp.Link.Reading.{get_response-IsOrdered, end_stream-IsOrdered, send-IsOrdered}

module _ (kind : Kind) (id : String) (parse_addr : String → Option SocketAddr) where
  -- The writer's hand and the channel, when they are known.
  waits_from :
      (l : Link) (w : Writer) (queue : List ReqCmd)
      → l.writer ≡ w
      → l.queue ≡ queue
      → w ≢ over
      → (v : IsOrdered kind id parse_addr l)
      → v.rest ≡ writer_hand w ++ (no_pings queue ++ reader_hand l.reader)
  waits_from l w queue e f h v =
      v.waits (λ x. h (sym e ∙ x))
      ∙ ap (λ x. writer_hand x ++ (no_pings l.queue ++ reader_hand l.reader)) e
      ∙ ap (λ x. writer_hand w ++ (no_pings x ++ reader_hand l.reader)) f

  Greets-from :
      (l : Link) (w : Writer) (queue : List ReqCmd)
      → l.writer ≡ w
      → l.queue ≡ queue
      → Greets l.writer l.queue
      → Greets w queue
  Greets-from l w queue e f g = subst (λ x. Greets w x) f (subst (λ x. Greets x l.queue) e g)

  ended-IsOrdered :
      (l : Link)
      → IsOrdered kind id parse_addr l
      → IsOrdered kind id parse_addr (record l { writer = over })
  ended-IsOrdered l v = record {
    fits = v.fits;
    rest = v.rest;
    order = v.order;
    waits = λ h. absurd (h refl);
    greets = elim v.greets [ inl (none_sent, g) ↦ inl (none_sent, tt) | inr g ↦ inr g ];
  }

  take_command-IsOrdered :
      (l : Link) (queue : List ReqCmd)
      → l.writer ≡ waiting
      → l.queue ≡ queue
      → IsOrdered kind id parse_addr l
      → IsOrdered kind id parse_addr (take_command kind id parse_addr l queue)
  take_command-IsOrdered l [] e f v = elim (Bool-cases (reader_gone l.reader)) [
    | inl gone ↦ rw gone (ended-IsOrdered l v)
    | inr here ↦ rw here v
  ]
  take_command-IsOrdered l (c ∷ queue) e f v = record {
    fits = let n = ap length f in omega (arith, n, v.fits);
    rest = v.rest;
    order = v.order;
    waits = λ h.
        waits_from l waiting (c ∷ queue) e f (λ x. cc) v
        ∙ append_assoc (not_ping c) (no_pings queue) (reader_hand l.reader);
    greets = elim v.greets [
      | inl (none_sent, g) ↦ inl (none_sent, Greets-from l waiting (c ∷ queue) e f g)
      | inr g ↦ inr g
    ];
  }

  sent_first :
      (sent : List Request) (c : ReqCmd)
      → sent ≡ []
      → c ≡ ReqCmd.ping
      → StartsWithPing kind id parse_addr (sent ++ request id c ∷ [])
  sent_first sent c e f = rw (e, f) refl

  written-IsOrdered :
      (l : Link) (c : ReqCmd)
      → l.writer ≡ writing c
      → IsOrdered kind id parse_addr l
      → IsOrdered kind id parse_addr
          (record l { writer = waiting; sent = l.sent ++ request id c ∷ [] })
  written-IsOrdered l c e v =
      let rest = no_pings l.queue ++ reader_hand l.reader in
      record {
        fits = v.fits;
        rest = rest;
        order =
            ap (λ x. x ++ rest) (commands-snoc kind id parse_addr l.sent c)
            ∙ append_assoc (commands l.sent) (not_ping c) rest
            ∙ ap (λ x. commands l.sent ++ x)
                (sym (waits_from l (writing c) l.queue e refl (λ x. cc) v))
            ∙ v.order;
        waits = λ h. refl;
        greets = elim v.greets [
          | inl (none_sent, g) ↦
              inr (sent_first l.sent c none_sent (Greets-from l (writing c) l.queue e refl g))
          | inr g ↦ inr (StartsWithPing-append kind id parse_addr l.sent (request id c) g)
        ];
      }

  write-IsOrdered :
      (l : Link) (success : Bool) (w : Writer)
      → l.writer ≡ w
      → IsOrdered kind id parse_addr l
      → IsOrdered kind id parse_addr (write kind id parse_addr l success w)
  write-IsOrdered l success waiting e v = take_command-IsOrdered l l.queue e refl v
  write-IsOrdered l true (writing c) e v = written-IsOrdered l c e v
  write-IsOrdered l false (writing c) e v = ended-IsOrdered l v
  write-IsOrdered l success over e v = v

  pinging-IsOrdered :
      (l : Link)
      → l.writer ≡ waiting
      → IsOrdered kind id parse_addr l
      → IsOrdered kind id parse_addr (record l { writer = writing ReqCmd.ping })
  pinging-IsOrdered l e v = record {
    fits = v.fits;
    rest = v.rest;
    order = v.order;
    waits = λ h. waits_from l waiting l.queue e refl (λ x. cc) v;
    greets = elim v.greets [ inl (none_sent, g) ↦ inl (none_sent, refl) | inr g ↦ inr g ];
  }

  ping_if_idle-IsOrdered :
      (k : Kind) (l : Link) (queue : List ReqCmd)
      → l.writer ≡ waiting
      → IsOrdered kind id parse_addr l
      → IsOrdered kind id parse_addr (ping_if_idle k l queue)
  ping_if_idle-IsOrdered asynchronous l queue e v = pinging-IsOrdered l e v
  ping_if_idle-IsOrdered blocking l [] e v = elim (Bool-cases (reader_gone l.reader)) [
    | inl gone ↦ rw gone v
    | inr here ↦ rw here (pinging-IsOrdered l e v)
  ]
  ping_if_idle-IsOrdered blocking l (c ∷ queue) e v = v

  exit_reading-IsOrdered :
      (k : Kind) (l : Link)
      → IsOrdered kind id parse_addr l
      → IsOrdered kind id parse_addr (record l { reader = exit_reading k l.reader })
  exit_reading-IsOrdered blocking l v = v
  exit_reading-IsOrdered asynchronous l v = end_stream-IsOrdered kind id parse_addr l v

  exit_waiting-IsOrdered :
      (l : Link) (w : Writer)
      → l.writer ≡ w
      → IsOrdered kind id parse_addr l
      → IsOrdered kind id parse_addr (record l { writer = exit_writing asynchronous w })
  exit_waiting-IsOrdered l waiting e v = ended-IsOrdered l v
  exit_waiting-IsOrdered l (writing c) e v =
      subst (λ x. IsOrdered kind id parse_addr (record l { writer = x })) e v
  exit_waiting-IsOrdered l over e v = ended-IsOrdered l v

  exit_writing-IsOrdered :
      (k : Kind) (l : Link)
      → IsOrdered kind id parse_addr l
      → IsOrdered kind id parse_addr (record l { writer = exit_writing k l.writer })
  exit_writing-IsOrdered blocking l v = v
  exit_writing-IsOrdered asynchronous l v = exit_waiting-IsOrdered l l.writer refl v

  time_out-IsOrdered :
      (l : Link) (w : Writer)
      → l.writer ≡ w
      → IsOrdered kind id parse_addr l
      → IsOrdered kind id parse_addr (time_out kind id parse_addr l w)
  time_out-IsOrdered l waiting e v = ping_if_idle-IsOrdered kind l l.queue e v
  time_out-IsOrdered l (writing c) e v = v
  time_out-IsOrdered l over e v = v

  run-IsOrdered :
      (es : List Event) (l : Link)
      → IsOrdered kind id parse_addr l
      → IsOrdered kind id parse_addr (run kind id parse_addr l es)
  unfolding run step
  run-IsOrdered [] l v = v
  run-IsOrdered (gets resp ∷ es) l v =
      run-IsOrdered es _ (get_response-IsOrdered kind id parse_addr l resp l.reader refl v)
  run-IsOrdered (stream_ends ∷ es) l v =
      run-IsOrdered es _ (end_stream-IsOrdered kind id parse_addr l v)
  run-IsOrdered (sends ∷ es) l v =
      run-IsOrdered es _ (send-IsOrdered kind id parse_addr l l.reader refl v)
  run-IsOrdered (writes success ∷ es) l v =
      run-IsOrdered es _ (write-IsOrdered l success l.writer refl v)
  run-IsOrdered (times_out ∷ es) l v = run-IsOrdered es _ (time_out-IsOrdered l l.writer refl v)
  run-IsOrdered (exits_reading ∷ es) l v = run-IsOrdered es _ (exit_reading-IsOrdered kind l v)
  run-IsOrdered (exits_writing ∷ es) l v = run-IsOrdered es _ (exit_writing-IsOrdered kind l v)

  pub answers_in_order :
      (es : List Event)
      → let l = run kind id parse_addr start es in
        (length l.queue ≤ 10)
        × ((l.sent ≡ []) ⊎ StartsWithPing kind id parse_addr l.sent)
        × ((rest : List ReqCmd) × (commands l.sent ++ rest ≡ answers kind id parse_addr l.received)
            × (l.writer ≢ over → rest ≡ pending kind id parse_addr l))
  answers_in_order es =
      let v = run-IsOrdered es start (start-IsOrdered kind id parse_addr) in
      (
        v.fits,
        elim v.greets [ inl (none_sent, g) ↦ inl none_sent | inr g ↦ inr g ],
        (v.rest, v.order, v.waits),
      )
