-- ===== src/Udp/Server/Directory.antt =====
-- The table of clients of src/udp/server.rs: who may change an entry, and what keeps one.
use rndz.Base.{
  ℕ, ◌+◌, ◌≤◌, ◌<◌, String, ◌≡◌, refl, sym, ap, ◌∙◌, subst, ◌≢◌, inl, inr, Bool, true, false,
  Option, none, some, List, [], ◌∷◌, arith, str_eq, eq_iff, ◌&&◌, Bool-cases, Option-cases,
  if◌then◌else◌,
}
use mathlib.Core.Bool.{false≢true}
use native.Mathlib.Nat.{le_refl}
use rndz.Map.{get}
use rndz.Net.{SocketAddr, AddrText}
use rndz.Proto.{ReqCmd, Request}
use rndz.Udp.Server.{
  Client, Server, Reads, Received, minute, touch, handle_ping, handle_isync, handle_rsync,
  handle_bye, dispatch, handle_request, handle_incoming, incoming, gc, collect, turn, run,
}

-- An entry for `k` with the address `a` and a last contact no older than `p`.
abbrev pub Registered : Server → String → SocketAddr → ℕ → Type 0
Registered s k a p = (c : Client) × (get s.clients k ≡ some c) × (c.addr ≡ a) × (p ≤ c.last_ping)

-- What one request may do to the entry of `k`, so that the entry stays: a request under that name
-- comes from the same address, and is no `Bye`.
abbrev pub Loyal : String → SocketAddr → Option (Request × SocketAddr) → Type 0
Loyal k a none = Unit
Loyal k a (some (req, addr)) = req.id ≡ k → (addr ≡ a) × (req.cmd ≢ some ReqCmd.bye)

abbrev is_ping : Option ReqCmd → Bool
is_ping (some ReqCmd.ping) = true
is_ping _ = false

-- The time of the last contact of `k`, after one more input.
abbrev pub contact : String → Option (Request × SocketAddr) → Reads → ℕ → ℕ
contact k none reads p = p
contact k (some (req, addr)) reads p =
    if str_eq req.id k && is_ping req.cmd then reads.handled else p

module _ (t : AddrText) where
  get-dispatch_ne :
      (s : Server) (id : String) (cmd : Option ReqCmd) (addr : SocketAddr) (now : ℕ) (k : String)
      → id ≢ k
      → get (dispatch t s id cmd addr now).clients k ≡ get s.clients k
  unfolding dispatch handle_ping handle_isync handle_rsync handle_bye
  get-dispatch_ne s id (some ReqCmd.ping) addr now k other = ground (arith, eq_iff id k)
  get-dispatch_ne s id (some (ReqCmd.isync i)) addr now k other = ground (arith, eq_iff id k)
  get-dispatch_ne s id (some (ReqCmd.rsync r)) addr now k other = ground arith
  get-dispatch_ne s id (some ReqCmd.bye) addr now k other = ground (arith, eq_iff id k)
  get-dispatch_ne s id (some (ReqCmd.fsync f)) addr now k other = refl
  get-dispatch_ne s id none addr now k other = refl

  -- Only a request under the name `k` changes the entry of `k`.
  pub get-handle_request_ne :
      (s : Server) (req : Request) (addr : SocketAddr) (now : ℕ) (k : String)
      → req.id ≢ k
      → get (handle_request t s req addr now).clients k ≡ get s.clients k
  unfolding handle_request
  get-handle_request_ne s req addr now k other = get-dispatch_ne s req.id req.cmd addr now k other

  touch-Registered :
      (s : Server) (id : String) (addr : SocketAddr) (now p : ℕ)
      → p ≤ now
      → Registered (touch s id addr now) id addr p
  touch-Registered s id addr now p h =
      (record { addr = addr; last_ping = now }, ground (arith, eq_iff id id), refl, h)

  dispatch-Registered :
      (s : Server) (k : String) (cmd : Option ReqCmd) (addr : SocketAddr) (now p : ℕ)
      → cmd ≢ some ReqCmd.bye
      → p ≤ now
      → Registered s k addr p
      → Registered (dispatch t s k cmd addr now) k addr p
  unfolding dispatch handle_ping handle_isync handle_rsync handle_bye
  dispatch-Registered s k (some ReqCmd.ping) addr now p stays h r =
      touch-Registered s k addr now p h
  dispatch-Registered s k (some (ReqCmd.isync i)) addr now p stays h r =
      elim (Option-cases (get s.clients i.id)) [
        | inl e ↦ rw (e, handle_isync) r
        | inr (c, e) ↦ rw (e, handle_isync) (touch-Registered s k addr now p h)
      ]
  dispatch-Registered s k (some (ReqCmd.rsync q)) addr now p stays h r =
      elim (Option-cases (get s.clients q.id)) [
        | inl e ↦ rw (e, handle_rsync) r
        | inr (c, e) ↦ rw (e, handle_rsync) r
      ]
  dispatch-Registered s k (some ReqCmd.bye) addr now p stays h r = absurd (stays refl)
  dispatch-Registered s k (some (ReqCmd.fsync f)) addr now p stays h r = r
  dispatch-Registered s k none addr now p stays h r = r

  -- A request under another name, or a loyal one under the name `k`, keeps the entry of `k`.
  handle_incoming-Registered :
      (s : Server) (input : Option (Request × SocketAddr)) (now : ℕ) (k : String) (a : SocketAddr)
      (p : ℕ)
      → Loyal k a input
      → p ≤ now
      → Registered s k a p
      → Registered (handle_incoming t s input now) k a p
  unfolding handle_request
  handle_incoming-Registered s none now k a p loyal h r = r
  handle_incoming-Registered s (some (req, addr)) now k a p loyal h (c, e, f, g) =
      elim (Bool-cases (str_eq req.id k)) [
        | inl own ↦
            let same : req.id ≡ k = (eq_iff req.id k).0 own in
            let from : addr ≡ a = (loyal same).0 in
            subst (λ j. Registered (handle_request t s req addr now) j a p) same
              (subst (λ b. Registered (handle_request t s req addr now) req.id b p) from
                (dispatch-Registered s req.id req.cmd addr now p (loyal same).1 h
                  (c, ap s.clients same ∙ e, f ∙ sym from, g)))
        | inr other ↦ (
          c,
          get-handle_request_ne s req addr now k
                (λ q. false≢true (sym other ∙ (eq_iff req.id k).1 q))
              ∙ e,
          f,
          g,
        )
      ]

  -- A garbage collection less than a minute after `p` keeps the entry.
  collect-Registered :
      (s : Server) (reads : Reads) (k : String) (a : SocketAddr) (p : ℕ)
      → reads.expiring < p + minute
      → Registered s k a p
      → Registered (collect s reads) k a p
  unfolding collect gc
  collect-Registered s reads k a p young (c, e, f, g) = (c, ground arith, f, g)

  dispatch-ping :
      (s : Server) (k : String) (cmd : Option ReqCmd) (addr : SocketAddr) (now : ℕ)
      → is_ping cmd ≡ true
      → Registered (dispatch t s k cmd addr now) k addr now
  unfolding dispatch handle_ping
  dispatch-ping s k (some ReqCmd.ping) addr now h = touch-Registered s k addr now now (le_refl now)
  dispatch-ping s k (some (ReqCmd.isync i)) addr now h = cc
  dispatch-ping s k (some (ReqCmd.fsync i)) addr now h = cc
  dispatch-ping s k (some (ReqCmd.rsync i)) addr now h = cc
  dispatch-ping s k (some ReqCmd.bye) addr now h = cc
  dispatch-ping s k none addr now h = cc

  -- A ping under the name `k` moves the contact to its time, and any other loyal input keeps it.
  handle_incoming-contact :
      (s : Server) (input : Option (Request × SocketAddr)) (reads : Reads) (k : String)
      (a : SocketAddr) (p : ℕ)
      → Loyal k a input
      → p ≤ reads.handled
      → Registered s k a p
      → Registered (handle_incoming t s input reads.handled) k a (contact k input reads p)
  unfolding handle_request
  handle_incoming-contact s none reads k a p loyal h r = r
  handle_incoming-contact s (some (req, addr)) reads k a p loyal h r =
      elim (Bool-cases (str_eq req.id k && is_ping req.cmd)) [
        | inl own ↦
            let same : req.id ≡ k = (eq_iff req.id k).0 (ground arith) in
            let from : addr ≡ a = (loyal same).0 in
            rw own (
              subst (λ j. Registered (handle_request t s req addr reads.handled) j a reads.handled)
                same
                (subst
                  (λ b.
                    Registered (handle_request t s req addr reads.handled) req.id b reads.handled)
                  from (dispatch-ping s req.id req.cmd addr reads.handled (ground arith))))
        | inr other ↦
            rw other (handle_incoming-Registered s (some (req, addr)) reads.handled k a p loyal h r)
      ]

  module _ (parse_from_bytes : List ℕ → Option Request) where
    -- The turns keep the entry of `k` alive, whose last contact was at `p`: its requests come from
    -- `a` and are no Bye, and each collection reads the clock less than a minute after the last ping.
    abbrev pub KeepsAlive : String → SocketAddr → ℕ → List (Received × Reads) → Type 0
    KeepsAlive k a p [] = Unit
    KeepsAlive k a p ((received, reads) ∷ rest) =
        let input = incoming parse_from_bytes received in
        let q = contact k input reads p in
        Loyal k a input
        × (p ≤ reads.handled)
        × (reads.expiring < q + minute)
        × KeepsAlive k a q rest

    abbrev pub last_contact : String → ℕ → List (Received × Reads) → ℕ
    last_contact k p [] = p
    last_contact k p ((received, reads) ∷ rest) =
        last_contact k (contact k (incoming parse_from_bytes received) reads p) rest

    -- A registered client that keeps pinging from its address, so that each collection comes less than
    -- a minute after its last ping, and that sends no Bye, stays registered under this address through
    -- any number of turns, whatever other clients send, if the clock does not go back behind its last
    -- ping.
    pub run-Registered :
        (turns : List (Received × Reads)) (s : Server) (k : String) (a : SocketAddr) (p : ℕ)
        → KeepsAlive k a p turns
        → Registered s k a p
        → Registered (run t parse_from_bytes s turns) k a (last_contact k p turns)
    unfolding run turn
    run-Registered [] s k a p safe r = r
    run-Registered ((received, reads) ∷ rest) s k a p safe r = run-Registered rest _ k a _ safe.3 (
        collect-Registered (handle_incoming t s (incoming parse_from_bytes received) reads.handled)
          reads k a _ safe.2
          (handle_incoming-contact s (incoming parse_from_bytes received) reads k a p safe.0 safe.1
            r))
