-- ===== src/Tunnel/Lifecycle.antt =====
-- dialer.go: what holds in every state that the monitor reaches.
use native.Mathlib.Nat.{mod-lt}
use ssh_gate.Prelude.{
  ℕ, ◌+◌, ◌*◌, ◌^◌, ◌%◌, suc, zero, ◌≤◌, ◌<◌, ◌≡◌, ◌≢◌, refl, ◌⊎◌, inl, inr, true, false, [], none,
  some, Text, text_beq_iff, Bool-cases, Option-cases, arith,
}
use ssh_gate.Tunnel.Status.{connected, SshError}
use ssh_gate.Tunnel.Monitor.{
  second, reconnect_delay, waiting, sleeping, dialing, retired, publishing, SshDialer,
  new_ssh_dialer, lose, wake, connect_failed, connect_done, publish, stop, drop_client,
  is_connected, Step, lost, woke, failed, succeeded, published, stopped, unanswered, Reaches, here,
  then_step,
}

-- The delay doubles from one second with each attempt and stops at sixty seconds, for any number of
-- attempts.
pub reconnect_delay_bounds :
    (n : ℕ)
    → (second ≤ reconnect_delay n)
      × (reconnect_delay n ≤ 60 * second)
      × (n < 6 → reconnect_delay n ≡ second * 2 ^ n)
      × (6 ≤ n → reconnect_delay n ≡ 60 * second)
unfolding reconnect_delay
reconnect_delay_bounds zero = ground arith
reconnect_delay_bounds (suc zero) = ground arith
reconnect_delay_bounds (suc (suc zero)) = ground arith
reconnect_delay_bounds (suc (suc (suc zero))) = ground arith
reconnect_delay_bounds (suc (suc (suc (suc zero)))) = ground arith
reconnect_delay_bounds (suc (suc (suc (suc (suc zero))))) = ground arith
reconnect_delay_bounds (suc (suc (suc (suc (suc (suc zero)))))) = ground arith
reconnect_delay_bounds (suc (suc (suc (suc (suc (suc (suc n))))))) = ground arith

-- What holds between two steps of the monitor.
pub record IsMonitor (d : SshDialer) : Type 0 where
  -- A client is published exactly while the monitor waits on it.
  pub connected_iff : is_connected d ≡ true → (d.phase ≡ waiting) ⊎ (d.phase ≡ retired)
  pub waits : d.phase ≡ waiting → is_connected d ≡ true
  -- The tunnel is reported as connected exactly then.
  pub reported : d.phase ≡ waiting → d.status.state ≡ connected
  -- The first attempt comes at once; a later one after the backoff of the failures so far.
  pub first : d.attempt ≡ 0 → d.delay ≡ 0
  pub later :
      d.attempt ≢ 0
      → (reconnect_delay d.attempt ≤ d.delay) × (d.delay < reconnect_delay d.attempt + second)

start-IsMonitor : (fingerprint : Text) → IsMonitor (new_ssh_dialer fingerprint)
start-IsMonitor fingerprint = record {
  connected_iff = λ h. cc;
  waits = λ h. cc;
  reported = λ h. cc;
  first = λ h. refl;
  later = λ h. absurd (h refl);
}

lose-IsMonitor : (d : SshDialer) → d.phase ≡ waiting → IsMonitor d → IsMonitor (lose d)
unfolding lose
lose-IsMonitor d p h = elim (Bool-cases d.done) [
  | inl e ↦
      rw (e, lose)
        (record {
          connected_iff = λ c. inr refl;
          waits = λ c. cc;
          reported = λ c. cc;
          first = h.first;
          later = h.later;
        })
  | inr e ↦
      rw (e, lose)
        (record {
          connected_iff = λ c. cc;
          waits = λ c. cc;
          reported = λ c. cc;
          first = h.first;
          later = h.later;
        })
]

-- While the monitor sleeps or dials there is no client.
no_client :
    (d : SshDialer) → IsMonitor d → d.phase ≢ waiting → d.phase ≢ retired → is_connected d ≡ false
no_client d h w r = elim (Bool-cases (is_connected d)) [
  | inl c ↦ elim (h.connected_iff c) [ inl e ↦ absurd (w e) | inr e ↦ absurd (r e) ]
  | inr c ↦ c
]

wake-IsMonitor : (d : SshDialer) → d.phase ≡ sleeping → IsMonitor d → IsMonitor (wake d)
unfolding wake
wake-IsMonitor d p h =
    let none_yet : is_connected d ≡ false = no_client d h (λ e. cc) (λ e. cc) in
    elim (Bool-cases d.done) [
      | inl e ↦
          rw (e, wake)
            (record {
              connected_iff = λ c. inr refl;
              waits = λ c. cc;
              reported = λ c. cc;
              first = h.first;
              later = h.later;
            })
      | inr e ↦
          rw (e, wake)
            (record {
              connected_iff = λ c. cc;
              waits = λ c. cc;
              reported = λ c. cc;
              first = h.first;
              later = h.later;
            })
    ]

connect_failed-IsMonitor :
    (e : SshError) (jitter : ℕ) (d : SshDialer)
    → d.phase ≡ dialing
    → IsMonitor d
    → IsMonitor (connect_failed e jitter d)
unfolding connect_failed
connect_failed-IsMonitor e jitter d p h =
    let small : jitter % 500 < 500 = mod-lt jitter (omega arith) in
    let none_yet : is_connected d ≡ false = no_client d h (λ x. cc) (λ x. cc) in
    record {
      connected_iff = λ c. cc;
      waits = λ c. cc;
      reported = λ c. cc;
      first = λ c. absurd (omega arith);
      later = λ c. (omega arith, omega (arith, small));
    }

connect_done-IsMonitor :
    (c : ℕ) (fp : Text) (d : SshDialer)
    → d.phase ≡ dialing
    → IsMonitor d
    → IsMonitor (connect_done c fp d)
unfolding connect_done
connect_done-IsMonitor c fp d p h =
    let none_yet : is_connected d ≡ false = no_client d h (λ x. cc) (λ x. cc) in
    elim (Bool-cases d.done) [
      | inl e ↦
          rw (e, connect_done)
            (record {
              connected_iff = λ x. inr refl;
              waits = λ x. cc;
              reported = λ x. cc;
              first = h.first;
              later = h.later;
            })
      | inr e ↦
          rw (e, connect_done)
            (record {
              connected_iff = λ x. cc;
              waits = λ x. cc;
              reported = λ x. cc;
              first = h.first;
              later = h.later;
            })
    ]

publish-IsMonitor : (c : ℕ) (fp : Text) (d : SshDialer) → IsMonitor (publish c fp d)
unfolding publish
publish-IsMonitor c fp d = record {
  connected_iff = λ h. inl refl;
  waits = λ h. refl;
  reported = λ h. refl;
  first = λ h. refl;
  later = λ h. absurd (h refl);
}

stop-IsMonitor : (d : SshDialer) → IsMonitor d → IsMonitor (stop d)
unfolding stop
stop-IsMonitor d h = record {
  connected_iff = h.connected_iff;
  waits = h.waits;
  reported = h.reported;
  first = h.first;
  later = h.later;
}

drop_client-IsMonitor : (c : ℕ) (d : SshDialer) → IsMonitor d → IsMonitor (drop_client c d)
drop_client-IsMonitor c d h = record {
  connected_iff = h.connected_iff;
  waits = h.waits;
  reported = h.reported;
  first = h.first;
  later = h.later;
}

Step-IsMonitor : (d e : SshDialer) → Step d e → IsMonitor d → IsMonitor e
Step-IsMonitor d _ (lost p) h = lose-IsMonitor d p h
Step-IsMonitor d _ (woke p) h = wake-IsMonitor d p h
Step-IsMonitor d _ (failed x jitter p) h = connect_failed-IsMonitor x jitter d p h
Step-IsMonitor d _ (succeeded c fp p) h = connect_done-IsMonitor c fp d p h
Step-IsMonitor d _ (published c fp p) h = publish-IsMonitor c fp d
Step-IsMonitor d _ stopped h = stop-IsMonitor d h
Step-IsMonitor d _ (unanswered c) h = drop_client-IsMonitor c d h

-- In every state that the monitor reaches: a published client means that the monitor waits on it or
-- has ended, a waiting monitor has a client and reports the tunnel as connected, and the delay is zero
-- before a first attempt and the backoff with less than a second of jitter before a later one.
pub Reaches-IsMonitor :
    (fingerprint : Text) (d : SshDialer) → Reaches (new_ssh_dialer fingerprint) d → IsMonitor d
Reaches-IsMonitor fingerprint _ here = start-IsMonitor fingerprint
Reaches-IsMonitor fingerprint _ (then_step d e r s) =
    Step-IsMonitor d e s (Reaches-IsMonitor fingerprint d r)

-- A pinned fingerprint stays: no reconnect, whatever key the server shows, changes it.
pub Step-pinned : (d e : SshDialer) → Step d e → d.pinned ≢ [] → e.pinned ≡ d.pinned
unfolding lose wake connect_failed connect_done publish stop
Step-pinned d _ (lost p) h = ground arith
Step-pinned d _ (woke p) h = ground arith
Step-pinned d _ (failed x jitter p) h = refl
Step-pinned d _ (succeeded c fp p) h = ground arith
Step-pinned d _ (published c fp p) h = ground (arith, text_beq_iff d.pinned [])
Step-pinned d _ stopped h = refl
Step-pinned d _ (unanswered c) h = refl

client_none : (d : SshDialer) → is_connected d ≡ false → d.client ≡ none
client_none d h = elim (Option-cases d.client) [ inl e ↦ e | inr (c, e) ↦ absurd (ground arith) ]

-- In every state that the monitor reaches between its check of `done` and the publication of a client,
-- a stop finds no client to close; the monitor then reaches the state in which it is stopped, and yet
-- publishes the new client, reports the tunnel as connected and waits on it, with nothing closed.
pub stop-publish :
    (fingerprint : Text) (c : ℕ) (fp : Text) (d : SshDialer)
    → Reaches (new_ssh_dialer fingerprint) d
    → d.phase ≡ publishing c fp
    → let e : SshDialer = publish c fp (stop d) in
      Reaches (new_ssh_dialer fingerprint) e
      × (e.done ≡ true)
      × (e.client ≡ some c)
      × (e.status.state ≡ connected)
      × (e.phase ≡ waiting)
      × (e.closed ≡ d.closed)
unfolding stop publish
stop-publish fingerprint c fp d r p =
    let none_yet =
      client_none d (no_client d (Reaches-IsMonitor fingerprint d r) (λ e. cc) (λ e. cc)) in
    (
      then_step (stop d) (publish c fp (stop d)) (then_step d (stop d) r stopped)
          (published c fp p),
      refl,
      refl,
      refl,
      refl,
      rw none_yet refl,
    )
