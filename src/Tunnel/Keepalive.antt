-- ===== src/Tunnel/Keepalive.antt =====
-- dialer.go: keepalive, the probes of one client, on a clock. The ticks come a period apart; `world`
-- is what the loop finds at each of them: the dialer, and the reply to the probe that it sends.
use ssh_gate.Prelude.{
  ℕ, zero, suc, ◌+◌, ◌*◌, ◌≤◌, ◌<◌, ◌≡◌, ◌≢◌, refl, sym, subst, ◌∙◌, ltb, ◌==◌, Bool, true, false,
  ◌||◌, not, Option, none, some, if◌then◌else◌, ◌⊎◌, inl, inr, Bool-cases, Option-cases, leb,
  leb→le, arith,
}
use ssh_gate.Tunnel.Monitor.{SshDialer}

-- What SendRequest returns, and how long after the tick: `true` for no error, whether the peer
-- accepts the request or not.
pub record Reply : Type 0 where
  pub after : ℕ
  pub fine : Bool

-- `picks_reply` is the choice of the select when the reply comes at the very end of the period.
pub record Round : Type 0 where
  pub dialer : SshDialer
  pub reply : Option Reply
  pub picks_reply : Bool

-- The test at the tick: the client was replaced, or the dialer stops.
abbrev pub is_client : ℕ → Option ℕ → Bool
is_client c none = false
is_client c (some cur) = cur == c

abbrev pub is_replaced : ℕ → SshDialer → Bool
is_replaced c d = not (is_client c d.client) || d.done

-- The select: whether the loop goes on, and when it was left.
abbrev pub is_answered : ℕ → Round → Bool
is_answered period r = elim r.reply [
  | none ↦ false
  | some y ↦
      if ltb y.after period
      then y.fine
      else if y.after == period
      then (if r.picks_reply then y.fine else false)
      else false
]

abbrev pub wait_time : ℕ → Round → ℕ
wait_time period r = elim r.reply [
  | none ↦ period
  | some y ↦ if ltb y.after period then y.after else period
]

-- A reply that says that the peer lives, within the period, and one that does not come in time or is
-- an error; at the very end of the period it may be taken as either.
abbrev pub IsPrompt : ℕ → Option Reply → Type 0
IsPrompt period none = ⊥
IsPrompt period (some y) = (y.after ≤ period) × (y.fine ≡ true)

abbrev pub IsMissed : ℕ → Option Reply → Type 0
IsMissed period none = Unit
IsMissed period (some y) = (period ≤ y.after) ⊎ (y.fine ≡ false)

abbrev pub IsMute : ℕ → Option Reply → Type 0
IsMute period none = Unit
IsMute period (some y) = period < y.after

is_answered-IsPrompt :
    (period : ℕ) (r : Round) → is_answered period r ≡ true → IsPrompt period r.reply
is_answered-IsPrompt period r h = elim (Option-cases r.reply) [
  | inl e ↦ absurd (not_answered (rw e at h))
  | inr (y, e) ↦ rw e (ground (arith, rw e at h))
]
  where
    not_answered : false ≢ true
    not_answered h = ground arith

is_answered-IsMissed :
    (period : ℕ) (r : Round) → is_answered period r ≡ false → IsMissed period r.reply
is_answered-IsMissed period r h = elim (Option-cases r.reply) [
  | inl e ↦ rw e tt
  | inr (y, e) ↦ rw e (ground (arith, rw e at h))
]

is_answered-IsMute : (period : ℕ) (r : Round) → IsMute period r.reply → is_answered period r ≡ false
is_answered-IsMute period r h = elim (Option-cases r.reply) [
  | inl e ↦ rw e refl
  | inr (y, e) ↦ let late : period < y.after = rw e at h in rw e (ground arith)
]

-- How the loop ends: the time, and the client that it closes. After `fuel` ticks it may still run.
pub data End : Type 0 where
  running : End
  retires : ℕ → End
  closes : ℕ → End

conflict : (b : Bool) → b ≡ true → b ≢ false
conflict b h h' = ground arith

not_closes : (a b : ℕ) → retires a ≢ closes b
not_closes a b h = ground arith

same_end : (a b : ℕ) → closes a ≡ closes b → a ≡ b
same_end a b h = cc

module _ (period : ℕ) (c : ℕ) (world : ℕ → Round) where
  -- The loop from a tick on, at the time `now`.
  unfoldable pub keepalive : ℕ → ℕ → End
  keepalive zero now = running
  keepalive (suc fuel) now =
      let rest = keepalive fuel (now + period) in
      let r = world now in
      if is_replaced c r.dialer
      then retires now
      else if is_answered period r
      then rest
      else closes (now + wait_time period r)

  wait_time_le : (r : Round) → wait_time period r ≤ period
  wait_time_le r = elim (Option-cases r.reply) [
    | inl e ↦ rw e (omega arith)
    | inr (y, e) ↦ rw e (ground arith)
  ]

  keepalive_retires :
      (fuel now : ℕ)
      → is_replaced c (world now).dialer ≡ true
      → keepalive (suc fuel) now ≡ retires now
  unfolding keepalive
  keepalive_retires fuel now h = rw (h, keepalive) refl

  keepalive_answered :
      (fuel now : ℕ)
      → is_replaced c (world now).dialer ≡ false
      → is_answered period (world now) ≡ true
      → keepalive (suc fuel) now ≡ keepalive fuel (now + period)
  unfolding keepalive
  keepalive_answered fuel now own h = rw (own, h, keepalive) refl

  keepalive_closes :
      (fuel now : ℕ)
      → is_replaced c (world now).dialer ≡ false
      → is_answered period (world now) ≡ false
      → keepalive (suc fuel) now ≡ closes (now + wait_time period (world now))
  unfolding keepalive
  keepalive_closes fuel now own h = rw (own, h, keepalive) refl

  -- A peer that answers no probe within its period from the time `t` on, while its client stays the
  -- dialer's, is given up before two periods have passed, whatever it answered earlier; the fuel
  -- covers the ticks up to one period after `t`.
  pub keepalive_stuck :
      (t fuel now : ℕ)
      → ((at : ℕ) → is_replaced c (world at).dialer ≡ false)
      → ((at : ℕ) → t ≤ at → IsMute period (world at).reply)
      → now < t + period
      → t + period ≤ now + fuel * period
      → (end : ℕ) × (keepalive fuel now ≡ closes end) × (end < t + 2 * period)
  keepalive_stuck t zero now own stuck before enough = absurd (omega arith)
  keepalive_stuck t (suc fuel) now own stuck before enough =
      elim (Bool-cases (is_answered period (world now))) [
        | inl e ↦
            let early : now < t = elim (Bool-cases (leb t now)) [
              | inl late ↦ absurd (
                  conflict _ e
                    (is_answered-IsMute period (world now) (stuck now (leb→le t now late))))
              | inr early ↦ ground arith
            ] in
            let (end, closed, soon) =
              keepalive_stuck t fuel (now + period) own stuck (omega arith) (omega arith) in
            (end, keepalive_answered fuel now (own now) e ∙ closed, soon)
        | inr e ↦ (
          now + wait_time period (world now),
          keepalive_closes fuel now (own now) e,
          omega (arith, wait_time_le (world now)),
        )
      ]

  -- What the loop saw when it closes the client: at some tick, the client still the dialer's and a
  -- probe unanswered, each tick before it an answered probe.
  abbrev pub IsHealthy : ℕ → ℕ → Type 0
  IsHealthy now zero = Unit
  IsHealthy now (suc n) =
      (is_replaced c (world now).dialer ≡ false)
      × (IsPrompt period (world now).reply × IsHealthy (now + period) n)

  abbrev pub HasSilence : ℕ → ℕ → Type 0
  HasSilence end at =
      (is_replaced c (world at).dialer ≡ false)
      × (IsMissed period (world at).reply × (end ≡ at + wait_time period (world at)))

  -- A client is closed only on a probe whose reply was an error or did not come before the period was
  -- over: at that tick and at every tick before it the client was the dialer's and the dialer was not
  -- stopping, and every earlier probe had its reply within the period.
  pub keepalive_closes_only :
      (fuel now end : ℕ)
      → keepalive fuel now ≡ closes end
      → (n : ℕ) × IsHealthy now n × HasSilence end (now + n * period)
  unfolding keepalive
  keepalive_closes_only zero now end h = absurd (ground arith)
  keepalive_closes_only (suc fuel) now end h =
      elim (Bool-cases (is_replaced c (world now).dialer)) [
        | inl e ↦ absurd (not_closes now end (sym (keepalive_retires fuel now e) ∙ h))
        | inr own ↦ elim (Bool-cases (is_answered period (world now))) [
          | inl e ↦
              let (n, healthy, silent) =
                keepalive_closes_only fuel (now + period) end
                  (sym (keepalive_answered fuel now own e) ∙ h) in
              let shift : now + period + n * period ≡ now + suc n * period = omega arith in
              (
                suc n,
                (own, (is_answered-IsPrompt period (world now) e, healthy)),
                subst (HasSilence end) shift silent,
              )
          | inr e ↦ (
            0,
            tt,
            subst (HasSilence end) (omega arith) (
              own,
              (
                is_answered-IsMissed period (world now) e,
                same_end _ _ (sym h ∙ keepalive_closes fuel now own e),
              ),
            ),
          )
        ]
      ]
