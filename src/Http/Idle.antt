-- ===== src/Http/Idle.antt =====
-- httpproxy.go: when an idle guard runs onIdle.
use ssh_gate.Prelude.{
  ℕ, zero, suc, ◌+◌, ◌*◌, ◌≤◌, ◌<◌, ◌≡◌, refl, inl, inr, ltb, leb, sym, ap, ◌∙◌, true, false, List,
  [], ◌∷◌, none, some, All, Bool-cases, arith,
}
use ssh_gate.Http.Guard.{
  Guard, touch, is_over, tick, Event, moves, ticks, stops, handle, watch, InOrder, IsIdle, ticker,
}

module _ (timeout : ℕ) where
  stop_over : (g : Guard) → is_over (record g { stopped = true }) ≡ true
  stop_over g = ground arith

  -- What has fired stays, and a guard that is stopped never fires.
  watch_over :
      (g : Guard) (events : List Event)
      → is_over g ≡ true
      → (watch timeout g events).fired ≡ g.fired
  unfolding watch handle
  watch_over g [] h = refl
  watch_over g (moves now n ∷ events) h = elim (Bool-cases (ltb 0 n)) [
    | inl e ↦ rw (e, watch, handle) (watch_over (touch now g) events h)
    | inr e ↦ rw (e, watch, handle) (watch_over g events h)
  ]
  watch_over g (ticks now ∷ events) h = rw (h, watch, handle) (watch_over g events h)
  watch_over g (stops ∷ events) h = watch_over (record g { stopped = true }) events (stop_over g)

  later :
      (now t : ℕ) (events : List Event)
      → InOrder now events
      → t ≤ now
      → All (IsIdle timeout t) events
  later now t [] h early = tt
  later now t (moves at n ∷ events) (h, hs) early =
      (λ some_bytes. inr (omega arith), later at t events hs (omega arith))
  later now t (ticks at ∷ events) (h, hs) early = (tt, later at t events hs (omega arith))
  later now t (stops ∷ events) h early = (tt, later now t events h early)

  not_over : (g : Guard) → is_over g ≡ false → g.fired ≡ none
  not_over g h = ground arith

  tick_fires :
      (now : ℕ) (g : Guard)
      → is_over g ≡ false
      → g.last + timeout ≤ now
      → tick timeout now g ≡ record g { fired = some now }
  tick_fires now g h late = let e : leb (g.last + timeout) now ≡ true = ground arith in rw (h, e)

  tick_waits :
      (now : ℕ) (g : Guard) → is_over g ≡ false → now < g.last + timeout → tick timeout now g ≡ g
  tick_waits now g h early = let e : leb (g.last + timeout) now ≡ false = ground arith in rw (h, e)

  -- A guard that fired at a tick keeps the time of the tick.
  watch_fired :
      (now : ℕ) (g : Guard) (events : List Event)
      → is_over g ≡ false
      → g.last + timeout ≤ now
      → (watch timeout g (ticks now ∷ events)).fired ≡ some now
  unfolding watch handle
  watch_fired now g events h late =
      ap (λ g'. (watch timeout g' events).fired) (tick_fires now g h late)
      ∙ watch_over (record g { fired = some now }) events refl

  watch_waits :
      (now : ℕ) (g : Guard) (events : List Event)
      → is_over g ≡ false
      → now < g.last + timeout
      → (watch timeout g (ticks now ∷ events)).fired ≡ (watch timeout g events).fired
  unfolding watch handle
  watch_waits now g events h early =
      ap (λ g'. (watch timeout g' events).fired) (tick_waits now g h early)

  -- onIdle runs only when no byte moved for the whole timeout: whatever the reads, writes, ticks and
  -- stops were, in the order of their times, every one that moved a byte lies at least a timeout
  -- before the time at which it runs, or not before it.
  pub watch-IsIdle :
      (now t : ℕ) (g : Guard) (events : List Event)
      → is_over g ≡ false
      → g.last ≤ now
      → InOrder now events
      → (watch timeout g events).fired ≡ some t
      → (g.last + timeout ≤ t) × All (IsIdle timeout t) events
  unfolding watch handle
  watch-IsIdle now t g [] h past order fired = absurd (ground (arith, not_over g h))
  watch-IsIdle now t g (moves at n ∷ events) h past (o, order) fired = elim (Bool-cases (ltb 0 n)) [
    | inl e ↦
        let (gap, rest) =
          watch-IsIdle at t (touch at g) events h (omega arith) order
            (rw (e, watch, handle) at fired) in
        (omega (arith, gap, past, o), ((λ some_bytes. inl (omega (arith, gap))), rest))
    | inr e ↦
        let (gap, rest) =
          watch-IsIdle at t g events h (omega (arith, past, o)) order
            (rw (e, watch, handle) at fired) in
        (gap, ((λ some_bytes. absurd (ground arith)), rest))
  ]
  watch-IsIdle now t g (ticks at ∷ events) h past (o, order) fired =
      elim (Bool-cases (leb (g.last + timeout) at)) [
        | inl e ↦
            let late : g.last + timeout ≤ at = ground arith in
            let same : some at ≡ some t = sym (watch_fired at g events h late) ∙ fired in
            let one : at ≡ t = cc in
            (omega (arith, late, one), (tt, later at t events order (omega (arith, one))))
        | inr e ↦
            let early : at < g.last + timeout = ground arith in
            let (gap, rest) =
              watch-IsIdle at t g events h (omega (arith, past, o)) order
                (sym (watch_waits at g events h early) ∙ fired) in
            (gap, (tt, rest))
      ]
  watch-IsIdle now t g (stops ∷ events) h past order fired = absurd (
      none_fired (
        sym (watch_over (record g { stopped = true }) events (stop_over g) ∙ not_over g h) ∙ fired))
    where
      none_fired : none ≡ some t → ⊥
      none_fired e = ground arith

  -- A connection that stays silent is ended: if no byte moves any more and nobody stops the guard,
  -- then onIdle runs, not before the timeout is over and less than one period of the ticker later,
  -- once the ticks have come that far.
  pub watch-ticker :
      (period first n : ℕ) (g : Guard)
      → is_over g ≡ false
      → first < g.last + timeout + period
      → g.last + timeout ≤ first + n * period
      → (t : ℕ) × ((watch timeout g (ticker period first (suc n))).fired ≡ some t)
        × (g.last + timeout ≤ t)
        × (t < g.last + timeout + period)
  watch-ticker period first zero g h early far =
      let late : g.last + timeout ≤ first = omega (arith, far) in
      (first, watch_fired first g [] h late, late, early)
  watch-ticker period first (suc m) g h early far =
      elim (Bool-cases (leb (g.last + timeout) first)) [
        | inl e ↦
            let late : g.last + timeout ≤ first = ground arith in
            (
              first,
              watch_fired first g (ticker period (first + period) (suc m)) h late,
              late,
              early,
            )
        | inr e ↦
            let soon : first < g.last + timeout = ground arith in
            let (t, fired, gap, bound) =
              watch-ticker period (first + period) m g h (omega (arith, soon))
                (omega (arith, far)) in
            (
              t,
              watch_waits first g (ticker period (first + period) (suc m)) h soon ∙ fired,
              gap,
              bound,
            )
      ]
