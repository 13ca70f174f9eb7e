-- ===== src/Opening.antt =====
-- How Server::new of src/udp/server.rs and of src/tcp/server.rs open their sockets: the calls of the
-- operating system that they make, up to the first that fails, and what comes of them.
use rndz.Base.{ℕ, Bool, true, false, ◌≡◌, refl, Option, none, some, List, [], ◌∷◌}
use rndz.Net.{SocketAddr, v4, v6, is_ipv6}

-- `bind_new` makes a socket and binds it; `from_std` hands a socket to tokio.
pub data Call : Type 0 where
  new_socket set_nonblocking set_reuse_address set_reuse_port set_only_v6 from_std : Call
  bind bind_new : SocketAddr → Call
  backlog : ℕ → Call

pub data Outcome : Type 0 where
  opened not_supported : Outcome
  os_error : ℕ → Outcome

abbrev pub Opening : Type 0
Opening = List Call × Outcome

abbrev pub went : Call → Option ℕ → Opening → Opening
went c none rest = (c ∷ rest.0, rest.1)
went c (some e) rest = (c ∷ [], os_error e)

-- `answer` is the error of a call, if it fails.
module _ (answer : Call → Option ℕ) where
  -- A call with `?`, and what follows.
  abbrev pub call : Call → Opening → Opening
  call c rest = went c (answer c) rest

  abbrev pub bind_v6 : SocketAddr → Opening → Opening
  bind_v6 (v4 ip port) rest = ([], not_supported)
  bind_v6 (v6 ip port flowinfo scope_id) rest = call (bind (v6 ip port flowinfo scope_id)) rest

  unfoldable pub open_udp : Bool → SocketAddr → Opening
  open_udp true listen_addr = call new_socket (
      call set_reuse_address
        (call set_reuse_port (call set_only_v6 (bind_v6 listen_addr ([], opened)))))
  open_udp false listen_addr = call (bind_new listen_addr) ([], opened)

  unfoldable pub open_tcp : Bool → SocketAddr → Opening
  open_tcp true listen_addr = call new_socket (
      call set_nonblocking (
        call set_reuse_address (
          call set_reuse_port (
            call set_only_v6
              (bind_v6 listen_addr (call (backlog 1024) (call from_std ([], opened))))))))
  open_tcp false listen_addr = call (bind_new listen_addr) ([], opened)

-- Whether the socket has been made one for IPv6 only.
abbrev pub only_after : Bool → Call → Bool
only_after only set_only_v6 = true
only_after only new_socket = only
only_after only set_nonblocking = only
only_after only set_reuse_address = only
only_after only set_reuse_port = only
only_after only from_std = only
only_after only (bind a) = only
only_after only (bind_new a) = only
only_after only (backlog n) = only

-- A bind must go to this address, an IPv6 one, on a socket for IPv6 only.
abbrev pub IsAllowed : SocketAddr → Bool → Call → Type 0
IsAllowed addr only (bind a) = (only ≡ true) × (a ≡ addr) × (is_ipv6 a ≡ true)
IsAllowed addr only (bind_new a) = ⊥
IsAllowed addr only new_socket = Unit
IsAllowed addr only set_nonblocking = Unit
IsAllowed addr only set_reuse_address = Unit
IsAllowed addr only set_reuse_port = Unit
IsAllowed addr only set_only_v6 = Unit
IsAllowed addr only from_std = Unit
IsAllowed addr only (backlog n) = Unit

abbrev pub AreAllowed : SocketAddr → Bool → List Call → Type 0
AreAllowed addr only [] = Unit
AreAllowed addr only (c ∷ cs) = IsAllowed addr only c × AreAllowed addr (only_after only c) cs

-- The calls are allowed, and if they open a socket it is for an IPv6 address.
record IsStrict (addr : SocketAddr) (only : Bool) (o : Opening) : Type 0 where
  allowed : AreAllowed addr only o.0
  success : o.1 ≡ opened → is_ipv6 addr ≡ true

went-IsStrict :
    (addr : SocketAddr) (only : Bool) (c : Call) (o : Option ℕ) (rest : Opening)
    → IsAllowed addr only c
    → IsStrict addr (only_after only c) rest
    → IsStrict addr only (went c o rest)
went-IsStrict addr only c none rest a v = record { allowed = (a, v.allowed); success = v.success }
went-IsStrict addr only c (some e) rest a v = record { allowed = (a, tt); success = λ h. cc }

v6-IsStrict : (addr : SocketAddr) → is_ipv6 addr ≡ true → IsStrict addr true ([], opened)
v6-IsStrict addr e = record { allowed = tt; success = λ h. e }

module _ (answer : Call → Option ℕ) where
  bind_v6-IsStrict :
      (addr : SocketAddr) (rest : Opening)
      → (is_ipv6 addr ≡ true → IsStrict addr true rest)
      → IsStrict addr true (bind_v6 answer addr rest)
  bind_v6-IsStrict (v4 ip port) rest v = record { allowed = tt; success = λ h. cc }
  bind_v6-IsStrict (v6 ip port flowinfo scope_id) rest v =
      went-IsStrict (v6 ip port flowinfo scope_id) true (bind (v6 ip port flowinfo scope_id)) _ rest
        (refl, refl, refl) (v refl)

  -- In the IPv6-only mode both servers, whatever the operating system answers, bind their socket to the
  -- address asked for only, an IPv6 address, after it was made a socket for IPv6 only; and they open
  -- none for an IPv4 address.
  pub ipv6_only_strict :
      (addr : SocketAddr)
      → AreAllowed addr false (open_udp answer true addr).0
        × AreAllowed addr false (open_tcp answer true addr).0
        × ((open_udp answer true addr).1 ≡ opened → is_ipv6 addr ≡ true)
        × ((open_tcp answer true addr).1 ≡ opened → is_ipv6 addr ≡ true)
  unfolding open_udp open_tcp
  ipv6_only_strict addr =
      let step =
        λ (only : Bool) (c : Call) (rest : Opening) (a : IsAllowed addr only c)
            (v : IsStrict addr (only_after only c) rest).
          went-IsStrict addr only c (answer c) rest a v in
      let u = step false new_socket _ tt (
        step false set_reuse_address _ tt (
          step false set_reuse_port _ tt (
            step false set_only_v6 _ tt
              (bind_v6-IsStrict addr ([], opened) (v6-IsStrict addr))))) in
      let t = step false new_socket _ tt (
        step false set_nonblocking _ tt (
          step false set_reuse_address _ tt (
            step false set_reuse_port _ tt (
              step false set_only_v6 _ tt (
                bind_v6-IsStrict addr _ (λ e.
                  step true (backlog 1024) _ tt
                    (step true from_std _ tt (v6-IsStrict addr e)))))))) in
      (u.allowed, t.allowed, u.success, t.success)
