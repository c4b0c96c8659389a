-- ===== src/Tunnel/Monitor.antt =====
-- dialer.go: the monitor of the tunnel and stop, as steps. A client is its number. The check of `done`
-- after a connect and the publication of the client are two steps, since stop may come between them.
use ssh_gate.Prelude.{
  ℕ, ◌+◌, ◌*◌, ◌^◌, ◌%◌, suc, ◌≡◌, Bool, true, false, List, [], ◌∷◌, Option, none, some, Text,
  text_beq, ltb, if◌then◌else◌,
}
use ssh_gate.Tunnel.Status.{
  connected, connecting, reconnecting, SshError, TunnelStatus, plain_status, fail_state,
}

abbrev pub second : ℕ
second = 1000000000

abbrev pub millisecond : ℕ
millisecond = 1000000

-- reconnectDelay, for an attempt that is not negative.
unfoldable pub reconnect_delay : ℕ → ℕ
reconnect_delay attempt =
    let shift = if ltb 6 attempt then 6 else attempt in
    let delay = second * 2 ^ shift in if ltb (60 * second) delay then 60 * second else delay

-- Where the monitor's goroutine stands.
pub data Phase : Type 0 where
  waiting sleeping dialing retired : Phase
  -- A connect has succeeded, and `done` was not set.
  publishing : ℕ → Text → Phase

-- sshDialer, with the monitor's locals and the clients that were closed.
pub record SshDialer : Type 0 where
  pub client : Option ℕ
  pub done : Bool
  pub status : TunnelStatus
  pub attempt : ℕ
  pub delay : ℕ
  pub pinned : Text
  pub phase : Phase
  pub closed : List ℕ

-- newSSHDialer: the monitor starts without a client, and its first delay is zero.
abbrev pub new_ssh_dialer : Text → SshDialer
new_ssh_dialer fingerprint = record {
  client = none;
  done = false;
  status = plain_status connecting;
  attempt = 0;
  delay = 0;
  pinned = fingerprint;
  phase = sleeping;
  closed = [];
}

-- client.Wait has returned.
unfoldable pub lose : SshDialer → SshDialer
lose d =
    if d.done
    then record d { phase = retired }
    else record d { client = none; status = plain_status reconnecting; phase = sleeping }

-- time.Sleep has returned.
unfoldable pub wake : SshDialer → SshDialer
wake d = if d.done then record d { phase = retired } else record d { phase = dialing }

-- connect has failed; `jitter` is the result of rand.Intn.
unfoldable pub connect_failed : SshError → ℕ → SshDialer → SshDialer
unfolding reconnect_delay
connect_failed e jitter d =
    let attempt = suc d.attempt in
    let delay = reconnect_delay attempt + (jitter % 500) * millisecond in
    record d {
      attempt = attempt;
      delay = delay;
      status = record { state = fail_state e; err = some e; attempt = attempt; retry = delay };
      phase = sleeping;
    }

-- connect has succeeded: the check of `done`.
unfoldable pub connect_done : ℕ → Text → SshDialer → SshDialer
connect_done c fp d =
    if d.done
    then record d { closed = c ∷ d.closed; phase = retired }
    else record d { phase = publishing c fp }

abbrev pub close_client : Option ℕ → List ℕ → List ℕ
close_client none closed = closed
close_client (some c) closed = c ∷ closed

-- The rest of the round.
unfoldable pub publish : ℕ → Text → SshDialer → SshDialer
publish c fp d = record d {
  closed = close_client d.client d.closed;
  client = some c;
  pinned = if text_beq d.pinned [] then fp else d.pinned;
  attempt = 0;
  delay = 0;
  status = plain_status connected;
  phase = waiting;
}

-- stop.
unfoldable pub stop : SshDialer → SshDialer
stop d = record d { done = true; closed = close_client d.client d.closed }

-- keepalive closes the client whose probe was not answered.
abbrev pub drop_client : ℕ → SshDialer → SshDialer
drop_client c d = record d { closed = c ∷ d.closed }

-- Connected.
abbrev pub is_connected : SshDialer → Bool
is_connected d = elim d.client [ none ↦ false | some c ↦ true ]

-- What can happen next.
pub data Step (d : SshDialer) : SshDialer → Type 0 where
  lost : d.phase ≡ waiting → Step d (lose d)
  woke : d.phase ≡ sleeping → Step d (wake d)
  failed : (e : SshError) (jitter : ℕ) → d.phase ≡ dialing → Step d (connect_failed e jitter d)
  succeeded : (c : ℕ) (fp : Text) → d.phase ≡ dialing → Step d (connect_done c fp d)
  published : (c : ℕ) (fp : Text) → d.phase ≡ publishing c fp → Step d (publish c fp d)
  stopped : Step d (stop d)
  unanswered : (c : ℕ) → Step d (drop_client c d)

pub data Reaches (start : SshDialer) : SshDialer → Type 0 where
  here : Reaches start start
  then_step : (d e : SshDialer) → Reaches start d → Step d e → Reaches start e
