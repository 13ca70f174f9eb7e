-- ===== src/Tcp/Link/Ends.antt =====
-- How the two loops of a connection of src/tcp/client.rs end.
use rndz.Base.{
  ℕ, suc, ◌+◌, ◌*◌, ◌≤◌, ◌≡◌, refl, sym, ◌∙◌, ap, subst, String, Bool, true, false, Option, List,
  [], ◌∷◌, arith, length,
}
use rndz.Net.{SocketAddr}
use rndz.Proto.{ReqCmd, Response}
use rndz.Tcp.Link.{
  blocking, exits_reading, exits_writing, Reader, reading, returned, panicked, sending, Writer,
  waiting, over, writing, Link, start, Event, gets, stream_ends, sends, times_out, writes,
  reader_gone, get_response, end_stream, send, take_command, write, ping_if_idle, time_out, step,
  run,
}
use rndz.Tcp.Link.Order.{answers_in_order}

-- How many steps the writer has left, at most, when the reader has ended.
abbrev pub steps_left : Writer → List ReqCmd → ℕ
steps_left over queue = 0
steps_left waiting queue = 2 * length queue + 1
steps_left (writing c) queue = 2 * length queue + 2

-- How often the writer goes on.
unfoldable pub goes : List Event → ℕ
goes [] = 0
goes (writes success ∷ es) = suc (goes es)
goes (gets resp ∷ es) = goes es
goes (stream_ends ∷ es) = goes es
goes (sends ∷ es) = goes es
goes (times_out ∷ es) = goes es
goes (exits_reading ∷ es) = goes es
goes (exits_writing ∷ es) = goes es

module _ (id : String) (parse_addr : String → Option SocketAddr) where
  -- The reader has ended as it ended before, and the writer has at most `n` steps left.
  record IsEnding (r : Reader) (n : ℕ) (l : Link) : Type 0 where
    reader : l.reader ≡ r
    left : steps_left l.writer l.queue ≤ n

  steps_left-take_command :
      (n : ℕ) (l : Link) (r : Reader) (queue : List ReqCmd)
      → reader_gone r ≡ true
      → l.queue ≡ queue
      → l.reader ≡ r
      → 2 * length queue + 1 ≤ suc n
      → IsEnding r n (take_command blocking id parse_addr l queue)
  steps_left-take_command n l r [] g e f h =
      rw (ap reader_gone f ∙ g) (record { reader = f; left = omega arith })
  steps_left-take_command n l r (c ∷ queue) g e f h = record { reader = f; left = omega (arith, h) }

  write-IsEnding :
      (n : ℕ) (l : Link) (r : Reader) (success : Bool) (w : Writer)
      → reader_gone r ≡ true
      → l.writer ≡ w
      → IsEnding r (suc n) l
      → IsEnding r n (write blocking id parse_addr l success w)
  write-IsEnding n l r success waiting g e v =
      steps_left-take_command n l r l.queue g refl v.reader
        (subst (λ x. steps_left x l.queue ≤ suc n) e v.left)
  write-IsEnding n l r true (writing c) g e v =
      let h : steps_left (writing c) l.queue ≤ suc n =
        subst (λ x. steps_left x l.queue ≤ suc n) e v.left in
      record { reader = v.reader; left = omega (arith, h) }
  write-IsEnding n l r false (writing c) g e v = record { reader = v.reader; left = omega arith }
  write-IsEnding n l r success over g e v = record { reader = v.reader; left = rw e (omega arith) }

  -- An ended reader does nothing, and its end lets no wait time out.
  pub get_response-same :
      (l : Link) (resp : Response) (r : Reader)
      → reader_gone r ≡ true
      → get_response blocking id parse_addr l resp r ≡ l
  get_response-same l resp reading g = cc
  get_response-same l resp (sending c) g = cc
  get_response-same l resp returned g = refl
  get_response-same l resp panicked g = refl

  pub end_stream-same : (r : Reader) → reader_gone r ≡ true → end_stream r ≡ r
  end_stream-same reading g = cc
  end_stream-same (sending c) g = cc
  end_stream-same returned g = refl
  end_stream-same panicked g = refl

  pub send-same :
      (l : Link) (r : Reader) → reader_gone r ≡ true → send blocking id parse_addr l r ≡ l
  send-same l reading g = cc
  send-same l (sending c) g = cc
  send-same l returned g = refl
  send-same l panicked g = refl

  ping_if_idle-same :
      (l : Link) (queue : List ReqCmd)
      → reader_gone l.reader ≡ true
      → ping_if_idle blocking l queue ≡ l
  ping_if_idle-same l [] g = rw g refl
  ping_if_idle-same l (c ∷ queue) g = refl

  pub time_out-same :
      (l : Link) (w : Writer)
      → reader_gone l.reader ≡ true
      → time_out blocking id parse_addr l w ≡ l
  time_out-same l waiting g = ping_if_idle-same l l.queue g
  time_out-same l (writing c) g = refl
  time_out-same l over g = refl

  gone_of :
      (l : Link) (r : Reader) (n : ℕ)
      → reader_gone r ≡ true
      → IsEnding r n l
      → reader_gone l.reader ≡ true
  gone_of l r n g v = ap reader_gone v.reader ∙ g

  run-IsEnding :
      (r : Reader) (es : List Event) (l : Link)
      → reader_gone r ≡ true
      → IsEnding r (goes es) l
      → IsEnding r 0 (run blocking id parse_addr l es)
  unfolding run step goes
  run-IsEnding r [] l g v = v
  run-IsEnding r (writes success ∷ es) l g v =
      run-IsEnding r es _ g (write-IsEnding (goes es) l r success l.writer g refl v)
  run-IsEnding r (gets resp ∷ es) l g v =
      run-IsEnding r es _ g (
        subst (IsEnding r (goes es)) (sym (get_response-same l resp l.reader (gone_of l r _ g v)))
          v)
  run-IsEnding r (stream_ends ∷ es) l g v =
      run-IsEnding r es _ g
        (record { reader = end_stream-same l.reader (gone_of l r _ g v) ∙ v.reader; left = v.left })
  run-IsEnding r (sends ∷ es) l g v =
      run-IsEnding r es _ g
        (subst (IsEnding r (goes es)) (sym (send-same l l.reader (gone_of l r _ g v))) v)
  run-IsEnding r (times_out ∷ es) l g v =
      run-IsEnding r es _ g
        (subst (IsEnding r (goes es)) (sym (time_out-same l l.writer (gone_of l r _ g v))) v)
  run-IsEnding r (exits_reading ∷ es) l g v = run-IsEnding r es l g v
  run-IsEnding r (exits_writing ∷ es) l g v = run-IsEnding r es l g v

  over_of : (w : Writer) (queue : List ReqCmd) → steps_left w queue ≤ 0 → w ≡ over
  over_of over queue h = refl
  over_of waiting queue h = absurd (omega arith)
  over_of (writing c) queue h = absurd (omega arith)

  max_left : (w : Writer) (queue : List ReqCmd) → length queue ≤ 10 → steps_left w queue ≤ 22
  max_left over queue h = omega arith
  max_left waiting queue h = omega arith
  max_left (writing c) queue h = omega arith

  -- When the read loop of a connection has returned, or its thread has panicked, whatever came
  -- before, the write loop ends within 22 of its own steps, of which each takes a command from the
  -- channel or writes one, also when no write fails; and the read loop stays as it ended.
  pub write_loop_ends :
      (before es : List Event)
      → reader_gone (run blocking id parse_addr start before).reader ≡ true
      → 22 ≤ goes es
      → let l = run blocking id parse_addr start before in
        ((run blocking id parse_addr l es).writer ≡ over)
        × ((run blocking id parse_addr l es).reader ≡ l.reader)
  write_loop_ends before es g h =
      let l = run blocking id parse_addr start before in
      let v = run-IsEnding l.reader es l g (record {
        reader = refl;
        left = omega (
          arith,
          max_left l.writer l.queue (answers_in_order blocking id parse_addr before).0,
          h,
        );
      }) in
      (over_of _ _ v.left, v.reader)
