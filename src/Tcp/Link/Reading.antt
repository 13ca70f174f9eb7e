-- ===== src/Tcp/Link/Reading.antt =====
-- The steps of the read loop of src/tcp/client.rs keep what it writes in order.
use mathlib.Core.List.{append-nil, append_assoc}
use rndz.Base.{
  ◌≡◌, refl, sym, ◌∙◌, ap, inl, inr, String, Option, [], ◌∷◌, ◌++◌, arith, length, length-append,
  ltb, Bool-cases,
}
use rndz.Net.{SocketAddr}
use rndz.Proto.{ReqCmd, Response}
use rndz.Tcp.Link.{
  Kind, failure, Reader, reading, returned, panicked, sending, Writer, waiting, over, writing, Link,
  answer, get_response, end_stream, put, send_by, send, bound,
}
use rndz.Tcp.Link.Pending.{
  no_pings, commands, reader_hand, writer_hand, no_pings-append, IsOrdered, answers-snoc,
  Greets-append, waits_with,
}

module _ (kind : Kind) (id : String) (parse_addr : String → Option SocketAddr) where
  pub get_response-IsOrdered :
      (l : Link) (resp : Response) (r : Reader)
      → l.reader ≡ r
      → IsOrdered kind id parse_addr l
      → IsOrdered kind id parse_addr (get_response kind id parse_addr l resp r)
  get_response-IsOrdered l resp reading e v =
      let hand = reader_hand (answer kind id parse_addr resp.cmd) in
      record {
        fits = v.fits;
        rest = v.rest ++ hand;
        order =
            sym (append_assoc (commands l.sent) v.rest hand)
            ∙ ap (λ x. x ++ hand) v.order
            ∙ sym (answers-snoc kind id parse_addr l.received resp);
        waits = λ h.
            ap (λ x. x ++ hand) (waits_with kind id parse_addr l reading e v h)
            ∙ simp (append-nil, append_assoc) refl;
        greets = v.greets;
      }
  get_response-IsOrdered l resp (sending cmd) e v = v
  get_response-IsOrdered l resp returned e v = v
  get_response-IsOrdered l resp panicked e v = v

  pub reader_hand-end_stream : (r : Reader) → reader_hand r ≡ reader_hand (end_stream r)
  reader_hand-end_stream reading = refl
  reader_hand-end_stream (sending c) = refl
  reader_hand-end_stream returned = refl
  reader_hand-end_stream panicked = refl

  pub end_stream-IsOrdered :
      (l : Link)
      → IsOrdered kind id parse_addr l
      → IsOrdered kind id parse_addr (record l { reader = end_stream l.reader })
  end_stream-IsOrdered l v = record {
    fits = v.fits;
    rest = v.rest;
    order = v.order;
    waits = λ h.
        v.waits h
        ∙ ap (λ x. writer_hand l.writer ++ (no_pings l.queue ++ x))
            (reader_hand-end_stream l.reader);
    greets = v.greets;
  }

  pub put-IsOrdered :
      (l : Link) (c : ReqCmd)
      → l.reader ≡ sending c
      → IsOrdered kind id parse_addr l
      → IsOrdered kind id parse_addr (put kind id parse_addr l c)
  put-IsOrdered l c e v = elim (Bool-cases (ltb (length l.queue) bound)) [
    | inl room ↦ rw room (record {
      fits = ground (arith, length-append l.queue (c ∷ []));
      rest = v.rest;
      order = v.order;
      waits = λ h.
          waits_with kind id parse_addr l (sending c) e v h
          ∙ rw (no_pings-append l.queue (c ∷ [])) (simp append-nil refl);
      greets = elim v.greets [
        | inl (none_sent, g) ↦
            inl (none_sent, Greets-append kind id parse_addr l.writer l.queue c g)
        | inr g ↦ inr g
      ];
    })
    | inr full ↦ rw full v
  ]

  pub over_failed :
      (l : Link)
      → l.writer ≡ over
      → IsOrdered kind id parse_addr l
      → IsOrdered kind id parse_addr (record l { reader = failure kind })
  over_failed l e v = record {
    fits = v.fits;
    rest = v.rest;
    order = v.order;
    waits = λ h. absurd (h e);
    greets = v.greets;
  }

  pub send_by-IsOrdered :
      (l : Link) (c : ReqCmd) (w : Writer)
      → l.reader ≡ sending c
      → l.writer ≡ w
      → IsOrdered kind id parse_addr l
      → IsOrdered kind id parse_addr (send_by kind id parse_addr l c w)
  send_by-IsOrdered l c waiting e f v = put-IsOrdered l c e v
  send_by-IsOrdered l c (writing d) e f v = put-IsOrdered l c e v
  send_by-IsOrdered l c over e f v = over_failed l f v

  pub send-IsOrdered :
      (l : Link) (r : Reader)
      → l.reader ≡ r
      → IsOrdered kind id parse_addr l
      → IsOrdered kind id parse_addr (send kind id parse_addr l r)
  send-IsOrdered l reading e v = v
  send-IsOrdered l (sending c) e v = send_by-IsOrdered l c l.writer e refl v
  send-IsOrdered l returned e v = v
  send-IsOrdered l panicked e v = v
