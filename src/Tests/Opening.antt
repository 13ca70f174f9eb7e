-- ===== src/Tests/Opening.antt =====
-- The opening of the servers' sockets at concrete inputs.
use rndz.Base.{◌≡◌, ◌≢◌, refl, true, false, none, [], ◌∷◌}
use rndz.Net.{v4, v6}
use rndz.Cli.{ServerOpt, Runs, run_server, run_server_decided}
use rndz.Opening.{
  new_socket, set_nonblocking, set_reuse_address, set_reuse_port, set_only_v6, from_std, bind,
  backlog, opened, not_supported, open_udp, open_tcp,
}

opens_tcp : open_tcp (λ c. none) true (v6 7 8 0 0) ≡ (
  new_socket
      ∷ set_nonblocking
      ∷ set_reuse_address
      ∷ set_reuse_port
      ∷ set_only_v6
      ∷ bind (v6 7 8 0 0)
      ∷ backlog 1024
      ∷ from_std
      ∷ [],
  opened,
)
unfolding open_tcp
opens_tcp = refl

refuses_udp :
    open_udp (λ c. none) true (v4 7 8)
    ≡ (new_socket ∷ set_reuse_address ∷ set_reuse_port ∷ set_only_v6 ∷ [], not_supported)
unfolding open_udp
refuses_udp = refl

-- The default address, in the IPv6-only mode.
abbrev default_only : ServerOpt
default_only = record { listen_addr = v4 0 8888; ipv6_only = true }

run_server_decided_example :
    let s = run_server (λ c. none) none (λ c. none) default_only in
    Runs not_supported none not_supported s
    × (true ≡ true → false ≡ false → (s.udp ≡ false) × (s.tcp ≡ false) × (s.error ≢ none))
unfolding open_udp open_tcp
run_server_decided_example = run_server_decided (λ c. none) none (λ c. none) default_only
