-- ===== src/Tunnel/ProbeTests.antt =====
-- dialer.go: the theorems on keepalive at a peer that gets stuck.
use ssh_gate.Prelude.{
  ℕ, ◌+◌, ◌*◌, ◌<◌, ◌≡◌, refl, leb, false, true, [], Option, none, some, codes, if◌then◌else◌,
  arith,
}
use ssh_gate.Tunnel.Status.{connected, plain_status}
use ssh_gate.Tunnel.Monitor.{waiting, SshDialer}
use ssh_gate.Tunnel.Keepalive.{
  Reply, Round, IsMute, closes, keepalive, keepalive_stuck, IsHealthy, HasSilence,
  keepalive_closes_only,
}

abbrev up : SshDialer
up = record {
  client = some 1;
  done = false;
  status = plain_status connected;
  attempt = 0;
  delay = 0;
  pinned = codes "SHA256:abc";
  phase = waiting;
  closed = [];
}

-- The peer answers within 2 up to the time 25, and nothing later.
abbrev reply_at : ℕ → Option Reply
reply_at now = if leb 25 now then none else some (record { after = 2; fine = true })

abbrev world : ℕ → Round
world now = record { dialer = up; reply = reply_at now; picks_reply = false }

silent : (now : ℕ) → leb 25 now ≡ true → IsMute 10 (world now).reply
silent now h = rw h tt

keepalive_stuck_example : (end : ℕ) × (keepalive 10 1 world 5 10 ≡ closes end) × (end < 25 + 2 * 10)
keepalive_stuck_example =
    keepalive_stuck 10 1 world 25 5 10 (λ at. refl) (λ at late. silent at (ground arith))
      (omega arith) (omega arith)

dropped : keepalive 10 1 world 5 10 ≡ closes 40
unfolding keepalive
dropped = refl

keepalive_closes_only_example :
    (n : ℕ) × IsHealthy 10 1 world 10 n × HasSilence 10 1 world 40 (10 + n * 10)
keepalive_closes_only_example = keepalive_closes_only 10 1 world 5 10 40 dropped
