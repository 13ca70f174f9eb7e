-- ===== src/Tests/UdpServer.antt =====
-- The server of src/udp/server.rs at concrete inputs.
use mathlib.Core.Bool.{false≢true}
use rndz.Base.{
  ℕ, zero, suc, ◌+◌, ◌*◌, ◌≤◌, ◌<◌, String, ◌≡◌, ◌≢◌, refl, Option, none, some, List, [], ◌∷◌, ◌++◌,
  arith, eq_iff,
}
use rndz.Map.{get, insert, empty}
use rndz.Net.{SocketAddr, v4}
use rndz.Proto.{ReqCmd, RespCmd, Fsync, Redirect, Request, request, response}
use rndz.Udp.Server.{Server, Reads, Received, minute, new, gc, handle_request, run, handle_ping}
use rndz.Udp.Server.Directory.{KeepsAlive}
use rndz.Udp.Server.Expiry.{AllInOrder, last_checked, run_young}
use rndz.Udp.Server.Replies.{IsAddressed, run-IsAddressed}
use rndz.Udp.Server.Rendezvous.{rendezvous}
use rndz.Udp.Server.History.{last_heard, AllListen, run-last_heard}
use rndz.Tests.Addresses.{strokes_text}

abbrev addr_j : SocketAddr
addr_j = v4 3 1

abbrev addr_k : SocketAddr
addr_k = v4 5 2

-- A parser for the tests: a message that begins with 0 is a ping of "j", any other an Isync of "i".
abbrev first_byte : List ℕ → Option Request
first_byte [] = none
first_byte (zero ∷ _) = some (request "j" ReqCmd.ping)
first_byte (suc _ ∷ _) = some (request "i" (ReqCmd.isync (record { id = "k" })))

-- "k" has pinged, at time 5.
abbrev with_k : Server
with_k = record {
  clients = insert empty "k" (record { addr = addr_k; last_ping = 5 });
  next_gc = 60000;
  sent = [];
}

abbrev with_j : Server
with_j = record with_k { clients = insert empty "j" (record { addr = addr_j; last_ping = 30 }) }

abbrev reads_at : ℕ → Reads
reads_at now = record { handled = now; checked = now; expiring = now; renewed = now + 1 }

-- A ping of "j", a message of no sense, a time-out, and a collection.
abbrev traffic : List (Received × Reads)
traffic =
    (some (0 ∷ [], addr_j), reads_at 30000)
    ∷ (some ([], addr_k), reads_at 40000)
    ∷ (none, reads_at 61000)
    ∷ []

j_not_k : ◌≢◌ {A = String} "j" "k"
j_not_k e = false≢true ((eq_iff "j" "k").1 e)

i_not_j : ◌≢◌ {A = String} "i" "j"
i_not_j e = false≢true ((eq_iff "i" "j").1 e)

ping_registers :
    get (handle_request strokes_text (new 0) (request "j" ReqCmd.ping) addr_j 7).clients "j"
    ≡ some (record { addr = addr_j; last_ping = 7 })
unfolding handle_request handle_ping new
ping_registers = refl

-- "j" pings while "k" and "i" are active, and a collection runs.
abbrev pings_of_j : List (Received × Reads)
pings_of_j =
    (some (0 ∷ [], addr_j), reads_at 40000)
    ∷ (some (1 ∷ [], addr_k), reads_at 70000)
    ∷ (none, reads_at 99000)
    ∷ []

pings_keep_j : KeepsAlive strokes_text first_byte "j" addr_j 30 pings_of_j
pings_keep_j = (
  (λ _. (refl, λ e. cc)),
  omega arith,
  omega arith,
  ((λ e. absurd (i_not_j e)), omega arith, omega arith, (tt, omega arith, omega arith, tt)),
)

gc_removes : get (gc with_k 60005 60006).clients "k" ≡ none
unfolding gc
gc_removes = refl

traffic_in_order : AllInOrder 1 0 traffic
traffic_in_order = omega arith

traffic_registers :
    get (run strokes_text first_byte (new 0) traffic).clients "j"
    ≡ some (record { addr = addr_j; last_ping = 30000 })
unfolding run new handle_request handle_ping gc
traffic_registers = refl

run_young_example : last_checked 0 traffic ≤ 30000 + 2 * minute + 1
run_young_example =
    run_young strokes_text first_byte 1 0 traffic "j" (record { addr = addr_j; last_ping = 30000 })
      traffic_in_order traffic_registers

run-IsAddressed_example :
    IsAddressed (λ a. a ≡ addr_j) (run strokes_text first_byte (new 0) (traffic))
unfolding new
run-IsAddressed_example =
    run-IsAddressed (λ a. a ≡ addr_j) strokes_text first_byte traffic (new 0) (refl, (tt, (tt, tt)))
      (record { table = λ k c e. cc; sends = tt })

rendezvous_example :
    let asked =
      handle_request strokes_text with_k
        (request "j" (ReqCmd.isync (record { id = "k" })))
        addr_j
        30 in
    let waited = run strokes_text first_byte asked pings_of_j in
    let answered =
      handle_request strokes_text waited
        (request "k" (ReqCmd.rsync (record { id = "j" })))
        addr_k
        99500 in
    ((f : Fsync) × (asked.sent ≡ (addr_k, response "k" (RespCmd.fsync f)) ∷ [])
      × (f.id ≡ "j")
      × (strokes_text.parse f.addr ≡ some addr_j))
    × ((r : Redirect) × (answered.sent
          ≡ waited.sent ++ (addr_j, response "j" (RespCmd.redirect r)) ∷ [])
        × (r.id ≡ "k")
        × (strokes_text.parse r.addr ≡ some addr_k))
rendezvous_example =
    rendezvous strokes_text first_byte pings_of_j with_k "j" "k" addr_k addr_j 30 99500
      (record { addr = addr_k; last_ping = 5 }) refl pings_keep_j refl refl

pings_of_j_listen : AllListen strokes_text first_byte "j" 99000 pings_of_j
pings_of_j_listen =
    ((λ _. tt), omega arith, ((λ e. absurd (i_not_j e)), omega arith, (tt, omega arith, tt)))

run-last_heard_example :
    (get (run strokes_text first_byte (new 0) pings_of_j).clients "j"
        ≡ some (record { addr = addr_j; last_ping = 40000 })
      → last_heard strokes_text first_byte "j" pings_of_j none
        ≡ some (record { addr = addr_j; last_ping = 40000 }))
    × (last_heard strokes_text first_byte "j" pings_of_j none
          ≡ some (record { addr = addr_j; last_ping = 40000 })
        → 99000 < 40000 + minute
        → get (run strokes_text first_byte (new 0) pings_of_j).clients "j"
          ≡ some (record { addr = addr_j; last_ping = 40000 }))
run-last_heard_example =
    run-last_heard strokes_text first_byte "j" 0 99000 pings_of_j
      (record { addr = addr_j; last_ping = 40000 }) pings_of_j_listen

j_heard :
    last_heard strokes_text first_byte "j" pings_of_j none
    ≡ some (record { addr = addr_j; last_ping = 40000 })
unfolding last_heard
j_heard = refl
