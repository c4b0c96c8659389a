-- ===== src/Http/Serving.antt =====
-- httpproxy.go: the accept loop of the HTTP proxy, and the WaitGroup that Shutdown waits for, as steps.
-- A connection is its number; `true` while its handleConn runs.
use ssh_gate.Prelude.{
  ℕ, zero, suc, ◌+◌, ◌-◌, ◌≡◌, refl, ap, ◌∙◌, ◌==◌, Bool, true, false, List, [], ◌∷◌, Option, none,
  some, if◌then◌else◌, arith,
}

-- HTTPProxyServer: `wg` is its count, `accepting` whether the loop runs; the newest connection first.
pub record HttpProxyServer : Type 0 where
  pub conns : List Bool
  pub wg : ℕ
  pub shut : Bool
  pub accepting : Bool

abbrev pub new_http_proxy_server : HttpProxyServer
new_http_proxy_server = record { conns = []; wg = 0; shut = false; accepting = true }

-- A round of the loop of Start: a connection, or the error that ends the loop, whether Shutdown has
-- closed the listener or not.
unfoldable pub accept_round : Bool → HttpProxyServer → HttpProxyServer
accept_round accepted s =
    if s.accepting
    then (if accepted
        then record s { conns = true ∷ s.conns; wg = s.wg + 1 }
        else record s { accepting = false })
    else s

-- wg.Done; `none` is the panic of a counter below zero.
abbrev pub wg_done : ℕ → Option ℕ
wg_done wg = if wg == 0 then none else some (wg - 1)

-- The `i`-th handleConn returns; its deferred Done runs once, whatever path it takes.
unfoldable pub return_nth : List Bool → ℕ → ℕ → Option (List Bool × ℕ)
return_nth [] i wg = some ([], wg)
return_nth (true ∷ cs) zero wg = elim (wg_done wg) [ none ↦ none | some n ↦ some (false ∷ cs, n) ]
return_nth (false ∷ cs) zero wg = some (false ∷ cs, wg)
return_nth (c ∷ cs) (suc i) wg = elim (return_nth cs i wg) [
  | none ↦ none
  | some (cs', n) ↦ some (c ∷ cs', n)
]

unfoldable pub handler_returns : ℕ → HttpProxyServer → Option HttpProxyServer
unfolding return_nth
handler_returns i s = elim (return_nth s.conns i s.wg) [
  | none ↦ none
  | some (cs, n) ↦ some (record s { conns = cs; wg = n })
]

-- Shutdown closes the channel and the listener.
abbrev pub shut_down : HttpProxyServer → HttpProxyServer
shut_down s = record s { shut = true }

pub data Event : Type 0 where
  accepted failed shuts : Event
  returns : ℕ → Event

unfoldable pub step : HttpProxyServer → Event → Option HttpProxyServer
unfolding accept_round handler_returns
step s accepted = some (accept_round true s)
step s failed = some (accept_round false s)
step s shuts = some (shut_down s)
step s (returns i) = handler_returns i s

unfoldable pub run : HttpProxyServer → List Event → Option HttpProxyServer
unfolding step
run s [] = some s
run s (e ∷ events) = elim (step s e) [ none ↦ none | some s' ↦ run s' events ]

-- The handlers that run.
abbrev pub running : List Bool → ℕ
running [] = 0
running (true ∷ cs) = suc (running cs)
running (false ∷ cs) = running cs

return_nth-running :
    (cs : List Bool) (i extra : ℕ)
    → (cs' : List Bool) × (n : ℕ) × (return_nth cs i (running cs + extra) ≡ some (cs', n))
      × (n ≡ running cs' + extra)
unfolding return_nth
return_nth-running [] i extra = ([], 0 + extra, refl, refl)
return_nth-running (true ∷ cs) zero extra = (false ∷ cs, running cs + extra, ground arith, refl)
return_nth-running (false ∷ cs) zero extra = (false ∷ cs, running cs + extra, refl, refl)
return_nth-running (true ∷ cs) (suc i) extra =
    let (cs', n, e, counted) = return_nth-running cs i (suc extra) in
    let moved : running (true ∷ cs) + extra ≡ running cs + suc extra = omega arith in
    (true ∷ cs', n, rw (moved, e) refl, omega (arith, counted))
return_nth-running (false ∷ cs) (suc i) extra =
    let (cs', n, e, counted) = return_nth-running cs i extra in (false ∷ cs', n, rw e refl, counted)

step-running :
    (s : HttpProxyServer) (e : Event)
    → s.wg ≡ running s.conns
    → (s' : HttpProxyServer) × (step s e ≡ some s') × (s'.wg ≡ running s'.conns)
unfolding step accept_round handler_returns
step-running s accepted h = (accept_round true s, refl, ground (arith, h))
step-running s failed h = (accept_round false s, refl, ground (arith, h))
step-running s shuts h = (shut_down s, refl, h)
step-running s (returns i) h =
    let (cs', n, e, counted) = return_nth-running s.conns i 0 in
    let same : s.wg ≡ running s.conns + 0 = omega (arith, h) in
    (
      record s { conns = cs'; wg = n },
      rw (ap (return_nth s.conns i) same ∙ e, step, handler_returns) refl,
      omega (arith, counted),
    )

run-running :
    (s : HttpProxyServer) (events : List Event)
    → s.wg ≡ running s.conns
    → (s' : HttpProxyServer) × (run s events ≡ some s') × (s'.wg ≡ running s'.conns)
unfolding run
run-running s [] h = (s, refl, h)
run-running s (e ∷ events) h =
    let (s', stepped, h') = step-running s e h in
    let (last, ran, counted) = run-running s' events h' in (last, rw (stepped, run) ran, counted)

-- However connections come, end and fail around a shutdown: the counter never falls below zero, so
-- nothing panics, and what Shutdown waits for is the number of handlers that still run.
pub run-counts :
    (events : List Event)
    → (s : HttpProxyServer) × (run new_http_proxy_server events ≡ some s) × (s.wg ≡ running s.conns)
run-counts events = run-running new_http_proxy_server events refl
