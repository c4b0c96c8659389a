-- ===== src/Socks/Drain.antt =====
-- httpproxy.go and socks5.go: Shutdown of a proxy server, and the count of relays that it waits for.
use ssh_gate.Prelude.{
  ℕ, ◌+◌, ◌≤◌, ◌≡◌, ◌≢◌, refl, sym, ap, ◌∙◌, ◌⊎◌, ltb, leb, ◌==◌, Bool, true, false, List, [], ◌∷◌,
  Option, none, some, if◌then◌else◌, inl, inr, arith,
}

-- How Shutdown returns.
pub data ShutdownResult : Type 0 where
  drained close_failed timed_out : ShutdownResult

-- The server at shutdown: whether closeOnce has run, and the sockets' close.
pub record Server : Type 0 where
  pub shut : Bool
  pub closes : ℕ

-- The select of Shutdown. The call's own goroutine closes `done` at `ended`, behind the end of the
-- last relay, or never; the context is done at `deadline`, or was when the call came; `picks_done` is
-- the choice that select makes when both are ready.
abbrev pub await : Option ℕ → ℕ → Bool → ShutdownResult
await none deadline picks_done = timed_out
await (some ended) deadline picks_done =
    if ltb ended deadline
    then drained
    else if ended == deadline
    then (if picks_done then drained else recheck (leb ended deadline))
    else timed_out
  where
    -- The inner select, behind the done context.
    recheck : Bool → ShutdownResult
    recheck true = drained
    recheck false = timed_out

-- Shutdown; `fails` is whether the listener's Close does. It is called once.
unfoldable pub shutdown : Bool → Option ℕ → ℕ → Bool → Server → Server × ShutdownResult
shutdown fails ended deadline picks_done s =
    if s.shut then (s, await ended deadline picks_done) else (
      record s { shut = true; closes = s.closes + 1 },
      if fails then close_failed else await ended deadline picks_done,
    )

-- A sequence of calls.
pub record Attempt : Type 0 where
  pub fails : Bool
  pub ended : Option ℕ
  pub deadline : ℕ
  pub picks_done : Bool

unfoldable pub attempt : Server → Attempt → Server × ShutdownResult
unfolding shutdown
attempt s a = shutdown a.fails a.ended a.deadline a.picks_done s

unfoldable pub attempts : Server → List Attempt → Server
unfolding attempt
attempts s [] = s
attempts s (a ∷ more) = attempts (attempt s a).0 more

-- `done` is closed by the deadline.
abbrev pub EndsBy : Option ℕ → ℕ → Type 0
EndsBy none deadline = ⊥
EndsBy (some ended) deadline = ended ≤ deadline

pub await_iff :
    (ended : Option ℕ) (deadline : ℕ) (picks_done : Bool)
    → (await ended deadline picks_done ≡ drained → EndsBy ended deadline)
      × (EndsBy ended deadline → await ended deadline picks_done ≡ drained)
await_iff none deadline picks_done = ((λ e. ground arith), (λ h. absurd h))
await_iff (some ended) deadline picks_done = ground arith

abbrev pub new_server : Server
new_server = record { shut = false; closes = 0 }

attempt_shut :
    (s : Server) (a : Attempt)
    → s.shut ≡ true
    → ((attempt s a).0 ≡ s) × ((attempt s a).1 ≡ await a.ended a.deadline a.picks_done)
unfolding attempt shutdown
attempt_shut s a h = rw (h, attempt, shutdown) (refl, refl)

attempts_shut :
    (s : Server) (more : List Attempt)
    → s.shut ≡ true
    → s.closes ≡ 1
    → ((attempts s more).shut ≡ true) × ((attempts s more).closes ≡ 1)
unfolding attempts
attempts_shut s [] h k = (h, k)
attempts_shut s (a ∷ more) h k =
    let (same, result) = attempt_shut s a h in
    attempts_shut (attempt s a).0 more (ap (λ r. r.shut) same ∙ h) (ap (λ r. r.closes) same ∙ k)

first_shut :
    (s : Server) (a : Attempt)
    → s.shut ≡ false
    → s.closes ≡ 0
    → ((attempt s a).0.shut ≡ true)
      × ((attempt s a).0.closes ≡ 1)
      × (a.fails ≡ false → (attempt s a).1 ≡ await a.ended a.deadline a.picks_done)
unfolding attempt shutdown
first_shut s a h k = ground arith

-- Shutdown can be repeated: its sockets are closed once over all calls, and a call that does not fail
-- to close them reports success exactly if `done` is closed by its deadline, also at the very deadline,
-- and whatever case its select picks.
pub attempt-drained :
    (before : List Attempt) (a : Attempt)
    → (before ≢ []) ⊎ (a.fails ≡ false)
    → let r = attempt (attempts new_server before) a in
      (r.0.closes ≡ 1)
      × (r.1 ≡ drained → EndsBy a.ended a.deadline)
      × (EndsBy a.ended a.deadline → r.1 ≡ drained)
unfolding attempts
attempt-drained [] a h =
    let (shut, once, result) = first_shut new_server a refl refl in
    let works : a.fails ≡ false = elim h [ inl e ↦ absurd (e refl) | inr e ↦ e ] in
    let (into, from) = await_iff a.ended a.deadline a.picks_done in
    (once, (λ e. into (sym (result works) ∙ e)), (λ e. result works ∙ from e))
attempt-drained (b ∷ before) a h =
    let (shut, once, result) = first_shut new_server b refl refl in
    let s = attempts (attempt new_server b).0 before in
    let (still, one) = attempts_shut (attempt new_server b).0 before shut once in
    let (same, answer) = attempt_shut s a still in
    let (into, from) = await_iff a.ended a.deadline a.picks_done in
    (ap (λ r. r.closes) same ∙ one, (λ e. into (sym answer ∙ e)), (λ e. answer ∙ from e))
