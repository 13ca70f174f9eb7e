-- ===== src/Udp/Registration.antt =====
-- A listener of src/udp/client.rs and the server of src/udp/server.rs together: the pings of the
-- one keep the entry of the other.
use rndz.Base.{
  ℕ, ◌+◌, ◌*◌, ◌≤◌, ◌<◌, String, Bool, ◌≡◌, Option, List, [], ◌∷◌, ◌++◌, arith, length, Any, All,
  inl, inr,
}
use rndz.Net.{SocketAddr, AddrText}
use rndz.Proto.{ReqCmd, Request, Response, request}
use rndz.Udp.Listener.{Sent, Turn, start}
use rndz.Udp.Listener
use rndz.Udp.Listener.KeepAlive.{AllInTime, PingsSince, pinged_recently}
use rndz.Udp.Server.{Server, Reads, Received, incoming, minute}
use rndz.Udp.Server
use rndz.Udp.Server.Directory.{Registered, Loyal, contact, KeepsAlive, last_contact, run-Registered}

Any-All :
    {A C : Type 0} (P Q : A → Type 0) (xs : List A)
    → ((x : A) → P x → Q x → C)
    → Any P xs
    → All Q xs
    → C
Any-All P Q [] f any all = absurd any
Any-All P Q (x ∷ xs) f (inl p) (q, all) = f x p q
Any-All P Q (x ∷ xs) f (inr any) (q, all) = Any-All P Q xs f any all

-- What is sent is no ping of `k` to the server `i`, or the server has heard from `k` since.
abbrev pub IsHeard : String → ℕ → ℕ → Sent → Type 0
IsHeard k i contacted x = x.socket ≡ i → x.message ≡ request k ReqCmd.ping → x.at ≤ contacted

-- The listener: its name, its parsers, which errors are `WouldBlock`, its servers, the time when it
-- starts, the longest time that a turn of it takes, and its turns.
module _ (k : String) (parse_response : List ℕ → Option Response)
    (parse_addr : String → Option SocketAddr) (would_block : ℕ → Bool) (addrs : List SocketAddr)
    (begin g : ℕ) (turns : List Turn) where
  abbrev pub log : List Turn → List Sent
  log ts =
      (Listener.run k parse_response parse_addr would_block (start (length addrs)) addrs ts).sent

  -- Of the listener's turns, those up to a time that is at most `delay` before `now` have sent
  -- nothing to the server `i` that is still on its way.
  pub record Arrived (i delay now contacted : ℕ) : Type 0 where
    pub first : Turn
    pub before : List Turn
    pub after : List Turn
    pub until : ℕ
    pub split : turns ≡ first ∷ before ++ after
    pub timed : AllInTime g begin (first ∷ before) until
    pub late : now ≤ until + delay
    pub heard : All (IsHeard k i contacted) (log (first ∷ before))

  recent :
      (i delay now contacted : ℕ)
      → i < length addrs
      → 15000 + 2 * g + delay < minute
      → Arrived i delay now contacted
      → now < contacted + minute
  recent i delay now contacted lt fits v =
      Any-All (PingsSince k i v.until (15000 + 2 * g)) (IsHeard k i contacted)
        (log (v.first ∷ v.before))
        (λ x p h. let at : x.at ≤ contacted = h p.0 p.1 in omega (arith, at, p.2, v.late, fits))
        (pinged_recently k parse_response parse_addr would_block g i begin v.until v.first v.before
          addrs lt v.timed)
        v.heard

  module _ (parse_request : List ℕ → Option Request) (i delay : ℕ) (a : SocketAddr) where
    -- At each collection of the server, what the listener has sent to it until `delay` before has
    -- arrived; the requests under its name come from `a` and are no Bye; and the server's clock
    -- does not go back behind its last contact.
    abbrev pub AllArrive : ℕ → List (Received × Reads) → Type 0
    AllArrive p [] = Unit
    AllArrive p ((received, reads) ∷ rest) =
        let input = incoming parse_request received in
        let q = contact k input reads p in
        Loyal k a input × (p ≤ reads.handled) × Arrived i delay reads.expiring q × AllArrive q rest

    AllArrive-KeepsAlive :
        (t : AddrText) (served : List (Received × Reads)) (p : ℕ)
        → i < length addrs
        → 15000 + 2 * g + delay < minute
        → AllArrive p served
        → KeepsAlive t parse_request k a p served
    AllArrive-KeepsAlive t [] p lt fits v = tt
    AllArrive-KeepsAlive t ((received, reads) ∷ rest) p lt fits (loyal, ordered, arrived, more) = (
      loyal,
      ordered,
      recent i delay reads.expiring _ lt fits arrived,
      AllArrive-KeepsAlive t rest _ lt fits more,
    )

    -- A listener that is registered at a server stays registered there under its address while it
    -- runs, through any number of turns of the server, whatever others send, if its requests arrive
    -- from that address, within `delay`, are no Bye, and `delay`, twice the longest turn of the
    -- listener and fifteen seconds are less than a minute together. (The clocks do not go back, and
    -- the variation of a ping is below five seconds.)
    pub stays-Registered :
        (t : AddrText) (s : Server) (p : ℕ) (served : List (Received × Reads))
        → i < length addrs
        → 15000 + 2 * g + delay < minute
        → AllArrive p served
        → Registered s k a p
        → Registered
            (Server.run t parse_request s served)
            k
            a
            (last_contact t parse_request k p served)
    stays-Registered t s p served lt fits v =
        run-Registered t parse_request served s k a p (AllArrive-KeepsAlive t served p lt fits v)
