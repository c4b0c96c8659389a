-- ===== src/Listener/Backoff.antt =====
-- listener.go: resilientListener.Accept. The inner listener's results are arguments; durations are
-- nanoseconds.
use ssh_gate.Prelude.{
  ℕ, zero, suc, ◌*◌, ◌^◌, ◌≤◌, ◌≡◌, refl, ap, ltb, Bool, false, List, [], ◌∷◌, ◌++◌, if◌then◌else◌,
  length, replicate, All, arith,
}

-- What the inner Accept returned.
pub data Accepted : Type 0 where
  conn : ℕ → Accepted
  net_closed : Accepted
  transient : Accepted

-- One round of the loop: the closed flag at its start, and the inner result.
pub record Round : Type 0 where
  pub closed : Bool
  pub result : Accepted

-- What Accept returns; `waiting` if the rounds end before the loop does.
pub data Outcome : Type 0 where
  returned : ℕ → Outcome
  closed_error : Outcome
  waiting : Outcome

abbrev pub first_delay : ℕ
first_delay = 5 * 10 ^ 6

abbrev pub second : ℕ
second = 10 ^ 9

-- `if delay *= 2; delay > time.Second { delay = time.Second }`.
abbrev pub next_delay : ℕ → ℕ
next_delay delay = if ltb second (delay * 2) then second else delay * 2

-- The loop, with the outcome and the times slept.
unfoldable pub accept_loop : ℕ → List Round → Outcome × List ℕ
accept_loop delay [] = (waiting, [])
accept_loop delay (r ∷ rs) =
    let (out, sleeps) = accept_loop (next_delay delay) rs in
    if r.closed then (closed_error, []) else elim r.result [
      | conn c ↦ (returned c, [])
      | net_closed ↦ (closed_error, [])
      | transient ↦ (out, delay ∷ sleeps)
    ]

unfoldable pub accept : List Round → Outcome × List ℕ
unfolding accept_loop
accept rounds = accept_loop first_delay rounds

abbrev pub storm : Round
storm = record { closed = false; result = transient }

abbrev pub InRange : ℕ → Type 0
InRange delay = (first_delay ≤ delay) × (delay ≤ second)

sleeps-InRange :
    (delay : ℕ) (rounds : List Round) → InRange delay → All InRange (accept_loop delay rounds).1
unfolding accept_loop
sleeps-InRange delay [] h = tt
sleeps-InRange delay (r ∷ rs) h =
    let rest = sleeps-InRange (next_delay delay) rs (ground arith) in ground arith

-- Every pause between two tries lasts from 5 ms to 1 s, whatever the inner listener does.
pub accept-InRange : (rounds : List Round) → All InRange (accept rounds).1
unfolding accept
accept-InRange rounds = sleeps-InRange first_delay rounds (omega arith)

loop_survives :
    (delay n c : ℕ) (rounds : List Round)
    → let r =
        accept_loop delay
          (replicate n storm ++ record { closed = false; result = conn c } ∷ rounds) in
      (r.0 ≡ returned c) × (length r.1 ≡ n)
unfolding accept_loop
loop_survives delay zero c rounds = (refl, refl)
loop_survives delay (suc n) c rounds =
    let rest = loop_survives (next_delay delay) n c rounds in (rest.0, ap suc rest.1)

-- Accept outlives any number of transient errors: it sleeps once for each, and returns the next
-- connection.
pub accept_survives :
    (n c : ℕ) (rounds : List Round)
    → let r = accept (replicate n storm ++ record { closed = false; result = conn c } ∷ rounds) in
      (r.0 ≡ returned c) × (length r.1 ≡ n)
unfolding accept
accept_survives n c rounds = loop_survives first_delay n c rounds
