-- ===== src/Udp/Server/History.antt =====
-- The table of src/udp/server.rs as a view of what the server has received.
use rndz.Base.{
  ℕ, ◌+◌, ◌≤◌, ◌<◌, String, ◌≡◌, sym, ◌∙◌, subst, inl, inr, Option, none, some, List, [], ◌∷◌,
  arith, str_eq, eq_iff, Bool-cases, if◌then◌else◌,
}
use mathlib.Core.Bool.{false≢true}
use rndz.Map.{get}
use rndz.Net.{SocketAddr, AddrText}
use rndz.Proto.{ReqCmd, Request}
use rndz.Udp.Server.{
  Client, Server, Reads, Received, minute, handle_ping, handle_rsync, handle_bye, dispatch,
  handle_request, handle_incoming, incoming, gc, collect, turn, run, new,
}
use rndz.Udp.Server.Directory.{get-handle_request_ne}

-- What a request of a client says of it, given what was last heard of it.
abbrev pub said : Option ReqCmd → SocketAddr → ℕ → Option Client → Option Client
said (some ReqCmd.ping) addr now heard = some (record { addr = addr; last_ping = now })
said (some ReqCmd.bye) addr now heard = none
said (some (ReqCmd.isync i)) addr now heard = heard
said (some (ReqCmd.fsync f)) addr now heard = heard
said (some (ReqCmd.rsync r)) addr now heard = heard
said none addr now heard = heard

abbrev pub hear : String → Option (Request × SocketAddr) → ℕ → Option Client → Option Client
hear k none now heard = heard
hear k (some (req, addr)) now heard = if str_eq req.id k then said req.cmd addr now heard else heard

-- It does not ask for a peer, as a listener never does.
abbrev pub AsksNot : Option ReqCmd → Type 0
AsksNot (some (ReqCmd.isync i)) = ⊥
AsksNot (some ReqCmd.ping) = Unit
AsksNot (some ReqCmd.bye) = Unit
AsksNot (some (ReqCmd.fsync f)) = Unit
AsksNot (some (ReqCmd.rsync r)) = Unit
AsksNot none = Unit

abbrev pub Listens : String → Option (Request × SocketAddr) → Type 0
Listens k none = Unit
Listens k (some (req, addr)) = req.id ≡ k → AsksNot req.cmd

-- The entry of `k` is what was last heard of `k`, and it is there if that was less than a minute before
-- `last`.
record Shows (k : String) (last : ℕ) (s : Server) (heard : Option Client) : Type 0 where
  sound : (c : Client) → get s.clients k ≡ some c → heard ≡ some c
  fresh : (c : Client) → heard ≡ some c → last < c.last_ping + minute → get s.clients k ≡ some c

same-Shows :
    (k : String) (last : ℕ) (s r : Server) (heard : Option Client)
    → get r.clients k ≡ get s.clients k
    → Shows k last s heard
    → Shows k last r heard
same-Shows k last s r heard e v = record {
  sound = λ c h. v.sound c (sym e ∙ h);
  fresh = λ c h l. e ∙ v.fresh c h l;
}

collect-Shows :
    (k : String) (last : ℕ) (s : Server) (reads : Reads) (heard : Option Client)
    → reads.expiring ≤ last
    → Shows k last s heard
    → Shows k last (collect s reads) heard
unfolding collect gc
collect-Shows k last s reads heard le v = record {
  sound = λ c h. v.sound c (ground arith);
  fresh = λ c h l. let e = v.fresh c h l in ground arith;
}

module _ (t : AddrText) where
  get-ping :
      (s : Server) (k : String) (addr : SocketAddr) (now : ℕ)
      → get (handle_ping s k addr now).clients k ≡ some (record { addr = addr; last_ping = now })
  unfolding handle_ping
  get-ping s k addr now = ground (arith, eq_iff k k)

  get-bye : (s : Server) (k : String) → get (handle_bye s k).clients k ≡ none
  unfolding handle_bye
  get-bye s k = ground (arith, eq_iff k k)

  set-Shows :
      (k : String) (last : ℕ) (s : Server) (heard : Option Client)
      → get s.clients k ≡ heard
      → Shows k last s heard
  set-Shows k last s heard e = record { sound = λ c h. sym e ∙ h; fresh = λ c h l. e ∙ h }

  dispatch-Shows :
      (k : String) (last : ℕ) (s : Server) (cmd : Option ReqCmd) (addr : SocketAddr) (now : ℕ)
      (heard : Option Client)
      → AsksNot cmd
      → Shows k last s heard
      → Shows k last (dispatch t s k cmd addr now) (said cmd addr now heard)
  unfolding dispatch handle_rsync
  dispatch-Shows k last s (some ReqCmd.ping) addr now heard w v =
      set-Shows k last _ _ (get-ping s k addr now)
  dispatch-Shows k last s (some ReqCmd.bye) addr now heard w v = set-Shows k last _ _ (get-bye s k)
  dispatch-Shows k last s (some (ReqCmd.isync i)) addr now heard w v = absurd w
  dispatch-Shows k last s (some (ReqCmd.rsync r)) addr now heard w v =
      same-Shows k last s _ heard (ground arith) v
  dispatch-Shows k last s (some (ReqCmd.fsync f)) addr now heard w v = v
  dispatch-Shows k last s none addr now heard w v = v

  handle_incoming-Shows :
      (k : String) (last : ℕ) (s : Server) (input : Option (Request × SocketAddr)) (now : ℕ)
      (heard : Option Client)
      → Listens k input
      → Shows k last s heard
      → Shows k last (handle_incoming t s input now) (hear k input now heard)
  unfolding handle_request
  handle_incoming-Shows k last s none now heard w v = v
  handle_incoming-Shows k last s (some (req, addr)) now heard w v =
      elim (Bool-cases (str_eq req.id k)) [
        | inl own ↦
            let same : req.id ≡ k = (eq_iff req.id k).0 own in
            rw own (
              subst
                (λ j. Shows k last (dispatch t s j req.cmd addr now) (said req.cmd addr now heard))
                (sym same) (dispatch-Shows k last s req.cmd addr now heard (w same) v))
        | inr other ↦ rw other (
            same-Shows k last s _ heard
              (get-handle_request_ne t s req addr now k
                (λ q. false≢true (sym other ∙ (eq_iff req.id k).1 q)))
              v)
      ]

  module _ (parse_from_bytes : List ℕ → Option Request) where
    -- What was last heard of `k` in these turns, given what had been heard before.
    unfoldable pub last_heard : String → List (Received × Reads) → Option Client → Option Client
    last_heard k [] heard = heard
    last_heard k ((received, reads) ∷ rest) heard =
        last_heard k rest (hear k (incoming parse_from_bytes received) reads.handled heard)

    -- No request under the name `k` asks for a peer, and no collection starts after `last`.
    abbrev pub AllListen : String → ℕ → List (Received × Reads) → Type 0
    AllListen k last [] = Unit
    AllListen k last ((received, reads) ∷ rest) =
        Listens k (incoming parse_from_bytes received)
        × (reads.expiring ≤ last)
        × AllListen k last rest

    run-Shows :
        (k : String) (last : ℕ) (turns : List (Received × Reads)) (s : Server)
        (heard : Option Client)
        → AllListen k last turns
        → Shows k last s heard
        → Shows k last (run t parse_from_bytes s turns) (last_heard k turns heard)
    unfolding run turn last_heard
    run-Shows k last [] s heard w v = v
    run-Shows k last ((received, reads) ∷ rest) s heard (w, le, more) v =
        run-Shows k last rest _ _ more (
          collect-Shows k last _ reads _ le (
            handle_incoming-Shows k last s (incoming parse_from_bytes received) reads.handled heard
              w v))

    -- The table implements the history of a listener `k`: an entry that a new server has for `k` after
    -- any turns is the address and the time of the last ping of `k`, after which `k` has said no Bye;
    -- and the last ping of `k`, with no Bye after it, is in the table as long as it is less than a
    -- minute older than the last clock reading of a collection. (Requests under the name `k` ask
    -- for no peer.)
    pub run-last_heard :
        (k : String) (start last : ℕ) (turns : List (Received × Reads)) (c : Client)
        → AllListen k last turns
        → (get (run t parse_from_bytes (new start) turns).clients k ≡ some c
            → last_heard k turns none ≡ some c)
          × (last_heard k turns none ≡ some c
              → last < c.last_ping + minute
              → get (run t parse_from_bytes (new start) turns).clients k ≡ some c)
    unfolding new
    run-last_heard k start last turns c w =
        let v =
          run-Shows k last turns (new start) none w
            (record { sound = λ c h. h; fresh = λ c h l. h }) in
        (v.sound c, v.fresh c)
