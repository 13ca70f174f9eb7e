-- ===== src/Tcp/Signal/Live.antt =====
-- The connections of the client of src/tcp/client.rs that are live, and when its thread is on its
-- way to a new one.
use rndz.Base.{
  ℕ, zero, suc, ◌+◌, ◌≤◌, ◌≡◌, refl, ap, Bool, true, false, some, List, [], ◌∷◌, ◌++◌, arith,
}
use rndz.Tcp.Signal.{
  Listening, at_head, waiting, woken, connecting, retrying, resting, rested, returned, panicked,
  Loops, running, ended, told, crashed, Link, new_link, Closer, timed_out, notified, spurious,
  at_link, loops_at, end_loops, crash_loops, close_step, rouse_all,
}

-- A connection counts until its end has been told, or one of its loops has panicked.
abbrev pub live_loops : Loops → ℕ
live_loops running = 1
live_loops ended = 1
live_loops told = 0
live_loops crashed = 0

abbrev pub live : List Link → ℕ
live [] = 0
live (k ∷ links) = live_loops k.loops + live links

-- The thread of `listen` is on its way to a new connection.
abbrev pub redoing : Listening → Bool
redoing at_head = false
redoing waiting = false
redoing woken = false
redoing connecting = true
redoing retrying = true
redoing resting = true
redoing rested = true
redoing returned = false
redoing panicked = false

pub redoing-notified : (l : Listening) → redoing (notified l) ≡ redoing l
redoing-notified l = ground arith

pub redoing-timed_out : (l : Listening) → redoing (timed_out l) ≡ redoing l
redoing-timed_out l = ground arith

pub redoing-spurious : (l : Listening) → redoing (spurious l) ≡ redoing l
redoing-spurious l = ground arith

pub live-rouse_all : (links : List Link) → live (rouse_all links) ≡ live links
unfolding rouse_all
live-rouse_all [] = refl
live-rouse_all (k ∷ links) = ap (λ n. live_loops k.loops + n) (live-rouse_all links)

pub live-append_new : (links : List Link) → live (links ++ new_link ∷ []) ≡ live links + 1
live-append_new [] = refl
live-append_new (k ∷ links) = omega (arith, live-append_new links)

-- A change that does not make a connection live leaves no more of them.
pub live-at_link :
    (f : Link → Link) (i : ℕ) (links : List Link)
    → ((k : Link) → live_loops (f k).loops ≤ live_loops k.loops)
    → live (at_link f i links) ≤ live links
unfolding at_link
live-at_link f i [] less = omega arith
live-at_link f zero (k ∷ links) less = omega (arith, less k)
live-at_link f (suc i) (k ∷ links) less = omega (arith, live-at_link f i links less)

pub live-end : (l : Loops) → live_loops (end_loops l) ≤ live_loops l
live-end l = ground arith

pub live-crash : (l : Loops) → live_loops (crash_loops l) ≤ live_loops l
live-crash l = ground arith

pub live-close :
    (b : Bool) (k : Link) (c : Closer) → live_loops (close_step b k c).loops ≤ live_loops k.loops
live-close b k c = ground arith

-- When the end of a connection is told, it counts no more.
pub live-tell :
    (i : ℕ) (links : List Link)
    → loops_at i links ≡ some ended
    → suc (live (at_link (λ k. record k { loops = told }) i links)) ≡ live links
unfolding at_link loops_at
live-tell i [] h = cc
live-tell zero (k ∷ links) h = ground arith
live-tell (suc i) (k ∷ links) h = omega (arith, live-tell i links h)
