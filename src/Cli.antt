-- ===== src/Cli.antt =====
-- The servers that src/main.rs starts for the command line. What the operating system answers to
-- the opening of their sockets is an argument.
use mathlib.Core.Bool.{false≢true}
use rndz.Base.{
  ◌≡◌, ◌≢◌, ◌↔◌, refl, sym, ◌∙◌, subst, arith, ℕ, Bool, true, false, Option, none, some,
}
use rndz.Net.{SocketAddr, is_ipv6}
use rndz.Opening.{
  Call, Outcome, opened, not_supported, os_error, open_udp, open_tcp, ipv6_only_strict,
}

pub record ServerOpt : Type 0 where
  pub listen_addr : SocketAddr
  pub ipv6_only : Bool

-- Which of the two servers run, and the error with which `run_server` returns, if it does.
pub record Serving : Type 0 where
  pub udp : Bool
  pub tcp : Bool
  pub error : Option Outcome

abbrev pub run_tcp : Bool → Outcome → Serving
run_tcp udp opened = record { udp = udp; tcp = true; error = none }
run_tcp udp not_supported = record { udp = udp; tcp = false; error = some not_supported }
run_tcp udp (os_error e) = record { udp = udp; tcp = false; error = some (os_error e) }

-- Whether the thread of the UDP server goes on, or panics by the `unwrap` of its error, when its socket
-- gets a read time-out.
abbrev pub unwrapped : Option ℕ → Bool
unwrapped none = true
unwrapped (some e) = false

-- The UDP server is started on a thread of its own before the TCP server is opened.
abbrev pub run_udp : Outcome → Option ℕ → Outcome → Serving
run_udp opened timeout tcp = run_tcp (unwrapped timeout) tcp
run_udp not_supported timeout tcp = record { udp = false; tcp = false; error = some not_supported }
run_udp (os_error e) timeout tcp = record { udp = false; tcp = false; error = some (os_error e) }

-- `timeout` is the error of `set_read_timeout` in the `run` of the UDP server, if it fails.
unfoldable pub run_server :
    (Call → Option ℕ) → (timeout : Option ℕ) → (Call → Option ℕ) → ServerOpt → Serving
run_server answer_udp timeout answer_tcp opt =
    run_udp (open_udp answer_udp opt.ipv6_only opt.listen_addr).1 timeout
      (open_tcp answer_tcp opt.ipv6_only opt.listen_addr).1

-- What runs, given what came of opening the two sockets and of `set_read_timeout`.
abbrev pub Runs : Outcome → Option ℕ → Outcome → Serving → Type 0
Runs u timeout t s =
    ((s.error ≡ none) ↔ ((u ≡ opened) × (t ≡ opened)))
    × ((s.udp ≡ true) ↔ ((u ≡ opened) × (timeout ≡ none)))
    × ((s.tcp ≡ true) ↔ ((u ≡ opened) × (t ≡ opened)))

run_udp-Runs :
    (u : Outcome) (timeout : Option ℕ) (t : Outcome) → Runs u timeout t (run_udp u timeout t)
run_udp-Runs opened none opened = ground arith
run_udp-Runs opened none not_supported = ground arith
run_udp-Runs opened none (os_error e) = ground arith
run_udp-Runs opened (some c) opened = ground arith
run_udp-Runs opened (some c) not_supported = ground arith
run_udp-Runs opened (some c) (os_error e) = ground arith
run_udp-Runs not_supported timeout t = ground arith
run_udp-Runs (os_error e) timeout t = ground arith

not_opened :
    (u : Outcome) (timeout : Option ℕ) (t : Outcome)
    → u ≢ opened
    → let s = run_udp u timeout t in (s.udp ≡ false) × (s.tcp ≡ false) × (s.error ≢ none)
not_opened opened timeout t h = absurd (h refl)
not_opened not_supported timeout t h = (refl, refl, λ e. cc)
not_opened (os_error c) timeout t h = (refl, refl, λ e. cc)

-- `run_server` returns no error just when both sockets were opened, and then the TCP server runs. The
-- UDP server runs whenever its own socket was opened and got its read time-out, also when
-- `run_server` returns the error of the TCP server; it panics alone when its socket got no read
-- time-out. The TCP server runs only when both sockets were opened. In the IPv6-only mode with an
-- IPv4 address, as is the default one, neither runs, and an error is returned, whatever the
-- operating system answers.
pub run_server_decided :
    (answer_udp : Call → Option ℕ) (timeout : Option ℕ) (answer_tcp : Call → Option ℕ)
    (opt : ServerOpt)
    → let s = run_server answer_udp timeout answer_tcp opt in
      let u = (open_udp answer_udp opt.ipv6_only opt.listen_addr).1 in
      let t = (open_tcp answer_tcp opt.ipv6_only opt.listen_addr).1 in
      Runs u timeout t s
      × (opt.ipv6_only ≡ true
          → is_ipv6 opt.listen_addr ≡ false
          → (s.udp ≡ false) × (s.tcp ≡ false) × (s.error ≢ none))
unfolding run_server
run_server_decided answer_udp timeout answer_tcp opt = (
  run_udp-Runs _ timeout _,
  λ only four. not_opened _ timeout _ λ e.
      let six =
        (ipv6_only_strict answer_udp opt.listen_addr).2
          (subst (λ b. (open_udp answer_udp b opt.listen_addr).1 ≡ opened) only e) in
      false≢true (sym four ∙ six),
)
