-- ===== src/Udp/Client/Polling.antt =====
-- What `poll_sockets` of src/udp/client.rs says of which socket.
use rndz.Base.{ℕ, suc, ◌≡◌, refl, ap, Bool, true, false, List, [], ◌∷◌, arith, length}
use rndz.Udp.Client.{Polled, scatter, all_failed, polled, poll_sockets}

-- The entries of a list at the sockets that have not failed.
abbrev pub select : List Bool → List Bool → List Bool
select [] entries = []
select (f ∷ failed) [] = []
select (true ∷ failed) (e ∷ entries) = select failed entries
select (false ∷ failed) (e ∷ entries) = e ∷ select failed entries

abbrev pub live : List Bool → ℕ
live [] = 0
live (true ∷ failed) = live failed
live (false ∷ failed) = suc (live failed)

-- Nothing is ready at a socket that has failed.
abbrev pub IsQuiet : List Bool → List Bool → Type 0
IsQuiet [] entries = Unit
IsQuiet (f ∷ failed) [] = Unit
IsQuiet (true ∷ failed) (e ∷ entries) = (e ≡ false) × IsQuiet failed entries
IsQuiet (false ∷ failed) (e ∷ entries) = IsQuiet failed entries

length-scatter : (failed events : List Bool) → length (scatter failed events) ≡ length failed
unfolding scatter
length-scatter [] events = refl
length-scatter (true ∷ failed) events = ap suc (length-scatter failed events)
length-scatter (false ∷ failed) [] = ap suc (length-scatter failed [])
length-scatter (false ∷ failed) (e ∷ events) = ap suc (length-scatter failed events)

select-scatter :
    (failed events : List Bool)
    → length events ≡ live failed
    → select failed (scatter failed events) ≡ events
unfolding scatter
select-scatter [] [] h = refl
select-scatter [] (e ∷ events) h = absurd (omega (arith, h))
select-scatter (true ∷ failed) events h = select-scatter failed events h
select-scatter (false ∷ failed) [] h = absurd (omega (arith, h))
select-scatter (false ∷ failed) (e ∷ events) h =
    ap (◌∷◌ e) (select-scatter failed events (omega (arith, h)))

scatter-IsQuiet : (failed events : List Bool) → IsQuiet failed (scatter failed events)
unfolding scatter
scatter-IsQuiet [] events = tt
scatter-IsQuiet (true ∷ failed) events = (refl, scatter-IsQuiet failed events)
scatter-IsQuiet (false ∷ failed) [] = scatter-IsQuiet failed []
scatter-IsQuiet (false ∷ failed) (e ∷ events) = scatter-IsQuiet failed events

-- If some server has not failed and `poll` gives an event for each of those, then `poll_sockets` gives
-- each its own event, in an answer with an entry for every server, where nothing is ready at a server
-- that has failed.
poll_sockets_exact :
    (failed events : List Bool)
    → all_failed failed ≡ false
    → length events ≡ live failed
    → (ready : List Bool) × (poll_sockets failed (polled events) ≡ Polled.ok ready)
      × (length ready ≡ length failed)
      × (select failed ready ≡ events)
      × IsQuiet failed ready
unfolding poll_sockets
poll_sockets_exact failed events some_live h = (
  scatter failed events,
  rw some_live,
  length-scatter failed events,
  select-scatter failed events h,
  scatter-IsQuiet failed events,
)
