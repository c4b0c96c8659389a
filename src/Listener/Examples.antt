-- ===== src/Listener/Examples.antt =====
-- listener.go: the theorems at concrete inputs.
use ssh_gate.Prelude.{◌≤◌, ◌≡◌, refl, false, List, [], ◌∷◌, ◌++◌, some, length, replicate}
use ssh_gate.Listener.Limit.{Limited, Event, accepts, closes, open_count, run, run_bounded}
use ssh_gate.Listener.Backoff.{Round, accept, storm, conn, returned, accept_survives}

abbrev events : List Event
events = accepts ∷ accepts ∷ accepts ∷ closes 0 ∷ closes 0 ∷ accepts ∷ []

run_bounded_example :
    (s : Limited) × (run (record { limit = record { slots = 2; taken = 0 }; conns = [] }) events
      ≡ some s)
    × (s.limit.taken ≡ open_count s.conns)
    × (open_count s.conns ≤ 2)
run_bounded_example = run_bounded 2 events

abbrev rounds : List Round
rounds = storm ∷ storm ∷ storm ∷ []

accept_survives_example :
    let r = accept (replicate 9 storm ++ record { closed = false; result = conn 4 } ∷ []) in
    (r.0 ≡ returned 4) × (length r.1 ≡ 9)
accept_survives_example = accept_survives 9 4 []

doubling :
    (accept (replicate 9 storm)).1
    ≡ 5000000 ∷ 10000000 ∷ 20000000 ∷ 40000000 ∷ 80000000 ∷ 160000000 ∷ 320000000 ∷ 640000000
      ∷ 1000000000 ∷ []
unfolding accept
doubling = refl
