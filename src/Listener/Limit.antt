-- ===== src/Listener/Limit.antt =====
-- listener.go: connLimiter, limitListener and limitedConn. A channel of `n` slots is the number of
-- taken ones; connections that were let in are numbered in the order of their acceptance.
use ssh_gate.Prelude.{
  ℕ, zero, suc, ◌+◌, ◌-◌, ◌≤◌, ◌<◌, ◌≡◌, refl, ◌∙◌, ◌↔◌, ltb, ◌==◌, Bool, true, false, List, [],
  ◌∷◌, Option, none, some, if◌then◌else◌, inl, inr, Option-cases, arith,
}

pub record ConnLimiter : Type 0 where
  pub slots : ℕ
  pub taken : ℕ

-- newConnLimiter; 0 stands for every limit that is not positive, and `none` for nil: no limit.
unfoldable pub new_conn_limiter : ℕ → Option ConnLimiter
new_conn_limiter n = if n == 0 then none else some (record { slots = n; taken = 0 })

unfoldable pub try_acquire : ConnLimiter → ConnLimiter × Bool
try_acquire l = if ltb l.taken l.slots then (record l { taken = l.taken + 1 }, true) else (l, false)

-- release receives from the channel; `none` is a receive from an empty channel, which blocks.
unfoldable pub release : ConnLimiter → Option ConnLimiter
release l = if l.taken == 0 then none else some (record l { taken = l.taken - 1 })

-- The limiter with the connections let in so far, newest first: `true` once its `once` has run. A
-- refused connection is closed at once and leaves nothing.
pub record Limited : Type 0 where
  pub limit : ConnLimiter
  pub conns : List Bool

-- One round of limitListener.Accept on an accepted connection: the new state, and whether the
-- connection is returned (else it is closed and the loop goes on).
unfoldable pub accept_one : Limited → Limited × Bool
unfolding try_acquire
accept_one s =
    let (l, got) = try_acquire s.limit in
    if got then (record { limit = l; conns = false ∷ s.conns }, true) else (s, false)

-- limitedConn.Close of the `i`-th connection of the list; `none` means that release blocked.
unfoldable pub close_nth : ConnLimiter → List Bool → ℕ → Option Limited
unfolding release
close_nth l [] i = some (record { limit = l; conns = [] })
close_nth l (true ∷ cs) zero = some (record { limit = l; conns = true ∷ cs })
close_nth l (false ∷ cs) zero = elim (release l) [
  | none ↦ none
  | some l' ↦ some (record { limit = l'; conns = true ∷ cs })
]
close_nth l (c ∷ cs) (suc i) = elim (close_nth l cs i) [
  | none ↦ none
  | some s ↦ some (record s { conns = c ∷ s.conns })
]

unfoldable pub close_conn : Limited → ℕ → Option Limited
unfolding close_nth
close_conn s i = close_nth s.limit s.conns i

pub data Event : Type 0 where
  accepts : Event
  closes : ℕ → Event

unfoldable pub step : Limited → Event → Option Limited
unfolding accept_one
step s accepts = some (accept_one s).0
step s (closes i) = close_conn s i

unfoldable pub run : Limited → List Event → Option Limited
unfolding step
run s [] = some s
run s (e ∷ es) = elim (step s e) [ none ↦ none | some s' ↦ run s' es ]

-- The connections that are open.
abbrev pub open_count : List Bool → ℕ
open_count [] = 0
open_count (true ∷ cs) = open_count cs
open_count (false ∷ cs) = suc (open_count cs)

pub record IsValid (s : Limited) : Type 0 where
  pub counted : s.limit.taken ≡ open_count s.conns
  pub bounded : s.limit.taken ≤ s.limit.slots

close_nth-IsValid :
    (l : ConnLimiter) (cs : List Bool) (i : ℕ) (extra : ℕ)
    → l.taken ≡ open_count cs + extra
    → (s : Limited) × (close_nth l cs i ≡ some s)
      × (s.limit.taken ≡ open_count s.conns + extra)
      × (s.limit.taken ≤ l.taken)
      × (s.limit.slots ≡ l.slots)
unfolding close_nth
close_nth-IsValid l [] i extra h = (record { limit = l; conns = [] }, refl, h, omega arith, refl)
close_nth-IsValid l (true ∷ cs) zero extra h =
    (record { limit = l; conns = true ∷ cs }, refl, h, omega arith, refl)
close_nth-IsValid l (false ∷ cs) zero extra h = (
  record { limit = record l { taken = l.taken - 1 }; conns = true ∷ cs },
  ground arith,
  ground arith,
  ground arith,
  refl,
)
close_nth-IsValid l (true ∷ cs) (suc i) extra h =
    let (s, e, counted, fewer, same) = close_nth-IsValid l cs i extra h in
    (record s { conns = true ∷ s.conns }, rw e, counted, fewer, same)
close_nth-IsValid l (false ∷ cs) (suc i) extra h =
    let (s, e, counted, fewer, same) = close_nth-IsValid l cs i (suc extra) (omega arith) in
    (record s { conns = false ∷ s.conns }, rw e, omega arith, fewer, same)

step-IsValid :
    (s : Limited) (e : Event)
    → IsValid s
    → (s' : Limited) × (step s e ≡ some s') × IsValid s' × (s'.limit.slots ≡ s.limit.slots)
unfolding step close_conn
step-IsValid s accepts v =
    ((accept_one s).0, refl, ground (arith, v.counted, v.bounded), ground arith)
step-IsValid s (closes i) v =
    let (s', e, counted, fewer, same) =
      close_nth-IsValid s.limit s.conns i 0 (omega (arith, v.counted)) in
    (s', e, record { counted = omega arith; bounded = omega (arith, v.bounded) }, same)

run-IsValid :
    (s : Limited) (es : List Event)
    → IsValid s
    → (s' : Limited) × (run s es ≡ some s') × IsValid s' × (s'.limit.slots ≡ s.limit.slots)
unfolding run
run-IsValid s [] v = (s, refl, v, refl)
run-IsValid s (e ∷ es) v =
    let (s', stepped, v', same) = step-IsValid s e v in
    let (last, ran, valid, same') = run-IsValid s' es v' in
    (last, rw (stepped, run) ran, valid, same' ∙ same)

-- With a limit of `n`, after any accepts and closes in any order, also repeated closes of one
-- connection: no release ever blocks, the taken slots are the open connections, and at most `n` are
-- open.
pub run_bounded :
    (n : ℕ) (es : List Event)
    → (s : Limited) × (run (record { limit = record { slots = n; taken = 0 }; conns = [] }) es
        ≡ some s)
      × (s.limit.taken ≡ open_count s.conns)
      × (open_count s.conns ≤ n)
run_bounded n es =
    let (s, ran, v, same) =
      run-IsValid (record { limit = record { slots = n; taken = 0 }; conns = [] }) es
        (record { counted = refl; bounded = omega arith }) in
    (s, ran, v.counted, omega (arith, v.counted, v.bounded))

-- A connection is let in exactly when fewer than the limit are open, and one that is refused changes
-- nothing.
pub accept_one_iff :
    (s : Limited)
    → IsValid s
    → (((accept_one s).1 ≡ true) ↔ (open_count s.conns < s.limit.slots))
      × ((accept_one s).1 ≡ false → (accept_one s).0 ≡ s)
unfolding accept_one
accept_one_iff s v = ground (arith, v.counted)

close_nth_again :
    (l : ConnLimiter) (cs : List Bool) (i : ℕ) (s : Limited)
    → close_nth l cs i ≡ some s
    → close_nth s.limit s.conns i ≡ some s
unfolding close_nth
close_nth_again l [] i s h = ground arith
close_nth_again l (true ∷ cs) zero s h = ground arith
close_nth_again l (false ∷ cs) zero s h = ground arith
close_nth_again l (true ∷ cs) (suc i) s h = elim (Option-cases (close_nth l cs i)) [
  | inl e ↦ ground arith
  | inr (s', e) ↦ ground (arith, close_nth_again l cs i s' e)
]
close_nth_again l (false ∷ cs) (suc i) s h = elim (Option-cases (close_nth l cs i)) [
  | inl e ↦ ground arith
  | inr (s', e) ↦ ground (arith, close_nth_again l cs i s' e)
]

-- A second Close of a connection changes nothing: its slot is given back once.
pub close_conn_twice :
    (s s' : Limited) (i : ℕ) → close_conn s i ≡ some s' → close_conn s' i ≡ some s'
unfolding close_conn
close_conn_twice s s' i h = close_nth_again s.limit s.conns i s' h
