-- ===== src/Udp/Server/Expiry.antt =====
-- The garbage collection of src/udp/server.rs: what `gc` keeps, and how old an entry can grow.
use rndz.Base.{
  ℕ, ◌+◌, ◌*◌, ◌≤◌, ◌<◌, String, ◌≡◌, refl, ◌⊎◌, inl, Option, none, some, List, [], ◌∷◌, arith, ◌↔◌,
}
use native.Mathlib.Nat.{le_refl}
use rndz.Map.{get}
use rndz.Net.{SocketAddr, AddrText}
use rndz.Proto.{ReqCmd, Request}
use rndz.Udp.Server.{
  Client, Server, Reads, Received, minute, handle_ping, handle_isync, handle_rsync, handle_bye,
  dispatch, handle_request, handle_incoming, incoming, gc, collect, turn, run, new,
}

-- A collection keeps exactly the clients whose last contact is less than a minute old, each as it
-- was, and puts off the next one by a minute.
gc_exact :
    (s : Server) (now later : ℕ) (k : String) (c : Client)
    → ((get (gc s now later).clients k ≡ some c)
        ↔ ((get s.clients k ≡ some c) × (now < c.last_ping + minute)))
      × ((gc s now later).next_gc ≡ later + minute)
unfolding gc
gc_exact s now later k c = ((λ h. (ground arith, ground arith), λ h. ground arith), refl)

-- The invariant of the loop between two turns, at time `now`: the next collection is at most a
-- minute ahead, and it is due before any entry is two minutes old. A collection takes at most
-- `d` between its two clock readings.
record IsFresh (d : ℕ) (s : Server) (now : ℕ) : Type 0 where
  soon : s.next_gc ≤ now + minute
  fresh :
      (k : String) (c : Client)
      → get s.clients k ≡ some c
      → s.next_gc ≤ c.last_ping + 2 * minute + d

-- The clock does not go back between the readings of a turn.
pub record InOrder (d now : ℕ) (reads : Reads) : Type 0 where
  pub starts : now ≤ reads.handled
  pub checks : reads.handled ≤ reads.checked
  pub expires : reads.checked ≤ reads.expiring
  pub renews : reads.expiring ≤ reads.renewed
  pub quick : reads.renewed ≤ reads.expiring + d

abbrev pub AllInOrder : ℕ → ℕ → List (Received × Reads) → Type 0
AllInOrder d now [] = Unit
AllInOrder d now ((received, reads) ∷ rest) = InOrder d now reads × AllInOrder d reads.renewed rest

abbrev pub last_checked : ℕ → List (Received × Reads) → ℕ
last_checked now [] = now
last_checked now ((received, reads) ∷ rest) = last_checked reads.checked rest

collect-IsFresh :
    (d : ℕ) (s : Server) (start : ℕ) (reads : Reads)
    → InOrder d start reads
    → IsFresh d s reads.handled
    → IsFresh d (collect s reads) reads.renewed
unfolding collect gc
collect-IsFresh d s start reads o v = record {
  soon = ground arith;
  fresh = λ k c h. ground (arith, v.fresh k c);
}

collect_young :
    (d : ℕ) (s : Server) (start : ℕ) (reads : Reads)
    → InOrder d start reads
    → IsFresh d s reads.handled
    → (k : String) (c : Client) → get (collect s reads).clients k ≡ some c
    → reads.checked ≤ c.last_ping + 2 * minute + d
unfolding collect gc
collect_young d s start reads o v k c h = ground (arith, v.fresh k c)

get-new : (start : ℕ) (k : String) (c : Client) → ¬ (get (new start).clients k ≡ some c)
unfolding new
get-new start k c h = cc

new-IsFresh : (d start : ℕ) → IsFresh d (new start) start
unfolding new
new-IsFresh d start = record { soon = le_refl _; fresh = λ k c h. absurd (get-new start k c h) }

module _ (t : AddrText) where
  dispatch-entry :
      (s : Server) (id : String) (cmd : Option ReqCmd) (addr : SocketAddr) (now : ℕ) (k : String)
      (c : Client)
      → get (dispatch t s id cmd addr now).clients k ≡ some c
      → (get s.clients k ≡ some c) ⊎ (c.last_ping ≡ now)
  unfolding dispatch handle_ping handle_isync handle_rsync handle_bye
  dispatch-entry s id (some ReqCmd.ping) addr now k c h = ground arith
  dispatch-entry s id (some (ReqCmd.isync i)) addr now k c h = ground arith
  dispatch-entry s id (some (ReqCmd.rsync r)) addr now k c h = ground arith
  dispatch-entry s id (some ReqCmd.bye) addr now k c h = ground arith
  dispatch-entry s id (some (ReqCmd.fsync f)) addr now k c h = inl h
  dispatch-entry s id none addr now k c h = inl h

  next_gc-dispatch :
      (s : Server) (id : String) (cmd : Option ReqCmd) (addr : SocketAddr) (now : ℕ)
      → (dispatch t s id cmd addr now).next_gc ≡ s.next_gc
  unfolding dispatch handle_ping handle_isync handle_rsync handle_bye
  next_gc-dispatch s id (some ReqCmd.ping) addr now = refl
  next_gc-dispatch s id (some (ReqCmd.isync i)) addr now = ground arith
  next_gc-dispatch s id (some (ReqCmd.rsync r)) addr now = ground arith
  next_gc-dispatch s id (some ReqCmd.bye) addr now = refl
  next_gc-dispatch s id (some (ReqCmd.fsync f)) addr now = refl
  next_gc-dispatch s id none addr now = refl

  handle_incoming-IsFresh :
      (d : ℕ) (s : Server) (input : Option (Request × SocketAddr)) (start now : ℕ)
      → start ≤ now
      → IsFresh d s start
      → IsFresh d (handle_incoming t s input now) now
  unfolding handle_request
  handle_incoming-IsFresh d s none start now le v = record {
    soon = omega (arith, v.soon);
    fresh = v.fresh;
  }
  handle_incoming-IsFresh d s (some (req, addr)) start now le v = record {
    soon = omega (arith, v.soon, next_gc-dispatch s req.id req.cmd addr now);
    fresh = λ k c h. ground (
      arith,
      next_gc-dispatch s req.id req.cmd addr now,
      dispatch-entry s req.id req.cmd addr now k c h,
      v.fresh k c,
      v.soon,
    );
  }

  turn-IsFresh :
      (d : ℕ) (s : Server) (input : Option (Request × SocketAddr)) (now : ℕ) (reads : Reads)
      → InOrder d now reads
      → IsFresh d s now
      → IsFresh d (turn t s input reads) reads.renewed
  unfolding turn
  turn-IsFresh d s input now reads o v =
      collect-IsFresh d _ now reads o
        (handle_incoming-IsFresh d s input now reads.handled o.starts v)

  -- What a turn leaves was in contact in the last two minutes, give or take `d`, by the clock
  -- reading of the turn.
  turn_young :
      (d : ℕ) (s : Server) (input : Option (Request × SocketAddr)) (now : ℕ) (reads : Reads)
      → InOrder d now reads
      → IsFresh d s now
      → (k : String) (c : Client) → get (turn t s input reads).clients k ≡ some c
      → reads.checked ≤ c.last_ping + 2 * minute + d
  unfolding turn
  turn_young d s input now reads o v k c h =
      collect_young d _ now reads o (handle_incoming-IsFresh d s input now reads.handled o.starts v)
        k c h

  module _ (parse_from_bytes : List ℕ → Option Request) where
    run_young_from :
        (d : ℕ) (turns : List (Received × Reads)) (s : Server) (now checked : ℕ)
        → AllInOrder d now turns
        → IsFresh d s now
        → ((k : String) (c : Client)
            → get s.clients k ≡ some c
            → checked ≤ c.last_ping + 2 * minute + d)
        → (k : String) (c : Client) → get (run t parse_from_bytes s turns).clients k ≡ some c
        → last_checked checked turns ≤ c.last_ping + 2 * minute + d
    unfolding run
    run_young_from d [] s now checked o v young k c h = young k c h
    run_young_from d ((received, reads) ∷ rest) s now checked o v young k c h =
        run_young_from d rest _ reads.renewed reads.checked o.1
          (turn-IsFresh d s (incoming parse_from_bytes received) now reads o.0 v)
          (turn_young d s (incoming parse_from_bytes received) now reads o.0 v) k c h

    -- Whatever a new server receives, no client is in its table whose last contact is more than two
    -- minutes (and the `d` that a collection may take between its two clock readings) older than the
    -- last test of the clock, if the clock does not go back.
    pub run_young :
        (d start : ℕ) (turns : List (Received × Reads)) (k : String) (c : Client)
        → AllInOrder d start turns
        → get (run t parse_from_bytes (new start) turns).clients k ≡ some c
        → last_checked start turns ≤ c.last_ping + 2 * minute + d
    run_young d start turns k c o h =
        run_young_from d turns (new start) start start o (new-IsFresh d start)
          (λ j b e. absurd (get-new start j b e)) k c h
