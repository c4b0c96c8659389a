-- ===== src/Listener/Closing.antt =====
-- listener.go: what wraps a listener and its connections: keepAliveListener, resilientListener.Close,
-- limitListener.Accept with its log, limitConns, and the half-closes of limitedConn.
use ssh_gate.Prelude.{
  ℕ, zero, suc, ◌+◌, ◌*◌, ◌^◌, ◌≡◌, refl, ap, Bool, true, false, not, ◌∙◌, List, [], ◌∷◌, Option,
  none, some, if◌then◌else◌, length, replicate, Bool-cases, inl, inr, arith,
}
use ssh_gate.Listener.Limit.{ConnLimiter, Limited, accept_one}
use ssh_gate.Listener.Backoff.{Round, accept, closed_error}

-- keepAliveListener.Accept: what the inner listener returns, with the keepalive period of a TCP
-- connection.
pub record Accepted : Type 0 where
  pub is_tcp : Bool
  pub keep_alive : Option ℕ

abbrev pub keep_alive_period : ℕ
keep_alive_period = 30 * 10 ^ 9

abbrev pub accept_keep_alive : Option Accepted → Option Accepted
accept_keep_alive none = none
accept_keep_alive (some c) =
    some (if c.is_tcp then record c { keep_alive = some keep_alive_period } else c)

-- resilientListener: its flag, and the calls of the inner Close.
pub record Resilient : Type 0 where
  pub closed : Bool
  pub inner_closes : ℕ

-- Close; `fails` is whether the inner one does. It tells whether an error is returned.
unfoldable pub close_listener : Bool → Resilient → Resilient × Bool
close_listener fails l =
    if l.closed
    then (l, false)
    else (record { closed = true; inner_closes = l.inner_closes + 1 }, fails)

unfoldable pub close_all : List Bool → Resilient → Resilient × List Bool
unfolding close_listener
close_all [] l = (l, [])
close_all (fails ∷ more) l =
    let (l', error) = close_listener fails l in
    let (end, errors) = close_all more l' in (end, error ∷ errors)

close_again : (fails : Bool) (l : Resilient) → l.closed ≡ true → close_listener fails l ≡ (l, false)
unfolding close_listener
close_again fails l h = rw (h, close_listener) refl

close_all_closed :
    (more : List Bool) (l : Resilient)
    → l.closed ≡ true
    → close_all more l ≡ (l, replicate (length more) false)
unfolding close_all
close_all_closed [] l h = refl
close_all_closed (fails ∷ more) l h =
    let again = close_again fails l h in
    let rest = close_all_closed more l h in rw (again, close_all) (rw rest refl)

-- A listener can be closed again and again: only the first Close reaches the inner listener and only
-- its error is returned, and from then on Accept returns the closed error at once, without a try and
-- without a pause, whatever the inner listener would do.
pub close_all_once :
    (fails : Bool) (more : List Bool) (rounds : List Round) (r : Round)
    → let (l, errors) = close_all (fails ∷ more) (record { closed = false; inner_closes = 0 }) in
      (l.inner_closes ≡ 1)
      × (errors ≡ fails ∷ replicate (length more) false)
      × (r.closed ≡ l.closed → accept (r ∷ rounds) ≡ (closed_error, []))
unfolding close_all close_listener accept
close_all_once fails more rounds r =
    let rest = close_all_closed more (record { closed = true; inner_closes = 1 }) refl in
    rw rest (refl, refl, (λ h. rw h refl))

-- limitConns: the listener itself, or one with the limit around it.
pub data Listening : Type 0 where
  unlimited : Listening
  limited : ConnLimiter → Listening

abbrev pub limit_conns : Option ConnLimiter → Listening
limit_conns none = unlimited
limit_conns (some limit) = limited limit

-- What limitListener.Accept returns: a connection, the inner error, or it still waits.
pub data Returned : Type 0 where
  connection inner_error waiting : Returned

-- A refusal is logged; `true` for a warning, `false` for debug.
pub record Result : Type 0 where
  pub state : Limited
  pub refused : Bool
  pub returned : Returned
  pub logs : List Bool

-- limitListener.Accept, over what the inner Accept returns: `true` for a connection. `refused` is the
-- flag of a burst.
unfoldable pub limit_accept : Limited → Bool → List Bool → Result
unfolding accept_one
limit_accept s refused [] = record { state = s; refused = refused; returned = waiting; logs = [] }
limit_accept s refused (false ∷ rounds) = record {
  state = s;
  refused = refused;
  returned = inner_error;
  logs = [];
}
limit_accept s refused (true ∷ rounds) =
    let (s', got) = accept_one s in
    let rest = limit_accept s' true rounds in
    if got
    then record { state = s'; refused = false; returned = connection; logs = [] }
    else record rest { logs = not refused ∷ rest.logs }

abbrev pub burst_logs : Bool → ℕ → List Bool
burst_logs refused zero = []
burst_logs true (suc n) = false ∷ replicate n false
burst_logs false (suc n) = true ∷ replicate n false

burst_again : (n : ℕ) → burst_logs true n ≡ replicate n false
burst_again zero = refl
burst_again (suc n) = refl

-- A burst of refusals is warned of once: of the connections that a call refuses, only the first one is
-- logged as a warning, and none if the burst began in an earlier call; a connection that is let in
-- ends the burst.
pub limit_accept-burst :
    (s : Limited) (refused : Bool) (rounds : List Bool)
    → let r = limit_accept s refused rounds in
      (r.logs ≡ burst_logs refused (length r.logs)) × (r.returned ≡ connection → r.refused ≡ false)
unfolding limit_accept
limit_accept-burst s refused [] = (refl, λ h. absurd (ground arith))
limit_accept-burst s refused (false ∷ rounds) = (refl, λ h. absurd (ground arith))
limit_accept-burst s refused (true ∷ rounds) =
    let (logs, ends) = limit_accept-burst (accept_one s).0 true rounds in
    elim (Bool-cases (accept_one s).1) [
      | inl e ↦ rw (e, limit_accept) (refl, λ h. refl)
      | inr e ↦ rw (e, limit_accept) (logs_of refused _ logs, ends)
    ]
  where
    logs_of :
        (refused : Bool) (logs : List Bool)
        → logs ≡ burst_logs true (length logs)
        → not refused ∷ logs ≡ burst_logs refused (suc (length logs))
    logs_of true logs h = ap (◌∷◌ false) (h ∙ burst_again (length logs))
    logs_of false logs h = ap (◌∷◌ true) (h ∙ burst_again (length logs))
