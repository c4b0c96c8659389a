-- ===== src/Http/Guard.antt =====
-- httpproxy.go: idleGuard and the conns that report to it. The times of the ticks, of the progress
-- and of the stop are arguments, in nanoseconds.
use ssh_gate.Prelude.{
  ℕ, zero, suc, ◌+◌, ◌/◌, ◌≤◌, ◌<◌, ◌⊎◌, ltb, leb, Bool, true, false, List, [], ◌∷◌, Option, none,
  some, if◌then◌else◌,
}
use ssh_gate.Config.Values.{second}

-- `fired` is the time at which onIdle ran.
pub record Guard : Type 0 where
  pub last : ℕ
  pub stopped : Bool
  pub fired : Option ℕ

-- newIdleGuard, and the period of its ticker.
abbrev pub new_idle_guard : ℕ → Guard
new_idle_guard now = record { last = now; stopped = false; fired = none }

abbrev pub check_period : ℕ → ℕ
check_period timeout = if ltb second (timeout / 10) then second else timeout / 10

abbrev pub touch : ℕ → Guard → Guard
touch now g = record g { last = now }

abbrev pub is_over : Guard → Bool
is_over g = elim g.fired [ none ↦ g.stopped | some t ↦ true ]

-- One tick of the guard's goroutine, which is gone once it has run onIdle or was stopped.
abbrev pub tick : ℕ → ℕ → Guard → Guard
tick timeout now g =
    if is_over g then g else if leb (g.last + timeout) now then record g { fired = some now } else g

pub data Event : Type 0 where
  -- A Read or a Write of guardedConn, or a Read of guardedReader, with its time and its bytes.
  moves : ℕ → ℕ → Event
  ticks : ℕ → Event
  stops : Event

unfoldable pub handle : ℕ → Guard → Event → Guard
handle timeout g (moves now n) = if ltb 0 n then touch now g else g
handle timeout g (ticks now) = tick timeout now g
handle timeout g stops = record g { stopped = true }

unfoldable pub watch : ℕ → Guard → List Event → Guard
unfolding handle
watch timeout g [] = g
watch timeout g (e ∷ events) = watch timeout (handle timeout g e) events

-- Events that are in the order of time, from `now` on.
abbrev pub InOrder : ℕ → List Event → Type 0
InOrder now [] = Unit
InOrder now (moves at n ∷ events) = (now ≤ at) × InOrder at events
InOrder now (ticks at ∷ events) = (now ≤ at) × InOrder at events
InOrder now (stops ∷ events) = InOrder now events

-- No byte moved in the timeout before `t`.
abbrev pub IsIdle : ℕ → ℕ → Event → Type 0
IsIdle timeout t (moves at n) = 0 < n → (at + timeout ≤ t) ⊎ (t ≤ at)
IsIdle timeout t (ticks at) = Unit
IsIdle timeout t stops = Unit

-- A ticker: `n` ticks from `first` on.
abbrev pub ticker : ℕ → ℕ → ℕ → List Event
ticker period first zero = []
ticker period first (suc n) = ticks first ∷ ticker period (first + period) n
