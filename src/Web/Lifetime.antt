-- ===== src/Web/Lifetime.antt =====
-- health.go: Start, Shutdown and probeLoop of the health server. srv.Serve and srv.Shutdown are
-- net/http.
use ssh_gate.Prelude.{
  ℕ, ◌+◌, ◌≡◌, refl, Bool, true, false, List, [], ◌∷◌, Option, none, some, Text, text_beq,
  if◌then◌else◌, arith,
}
use ssh_gate.Web.Status.{Report, SshProbe, run_probe}

-- The flag `started`, the goroutines that were started, and how often `done` was closed: a second
-- close of a channel panics.
pub record HealthServer : Type 0 where
  pub ssh_host : Text
  pub started : Bool
  pub serving : ℕ
  pub probing : ℕ
  pub closed_once : Bool
  pub done_closes : ℕ

abbrev pub new_health_server : Text → HealthServer
new_health_server host = record {
  ssh_host = host;
  started = false;
  serving = 0;
  probing = 0;
  closed_once = false;
  done_closes = 0;
}

-- Start.
unfoldable pub start : HealthServer → HealthServer
start h = if h.started then h else record h {
  started = true;
  probing = if text_beq h.ssh_host [] then h.probing else h.probing + 1;
  serving = h.serving + 1;
}

-- Shutdown; `fails` is the result of srv.Shutdown, which is passed on.
unfoldable pub shutdown : Bool → HealthServer → HealthServer × Bool
shutdown fails h = (
  if h.closed_once then h else record h { closed_once = true; done_closes = h.done_closes + 1 },
  fails,
)

pub data Call : Type 0 where
  starts : Call
  shuts_down : Bool → Call

abbrev pub call : HealthServer → Call → HealthServer
call h starts = start h
call h (shuts_down fails) = (shutdown fails h).0

unfoldable pub calls : HealthServer → List Call → HealthServer
calls h [] = h
calls h (c ∷ more) = calls (call h c) more

-- What the probe loop is woken by: its ticker, with the time, the dialer's report and the result of
-- the dial at that time, or the closed channel.
pub record Look : Type 0 where
  pub report : Report
  pub now : ℕ
  pub dial : Option ℕ

-- probeLoop, on the ticks up to the close of `done`: the probes, newest first.
abbrev pub probe_at : Look → SshProbe
probe_at l = (run_probe l.report l.now l.dial).0

unfoldable pub probe_loop : Look → List (Option Look) → SshProbe
probe_loop first [] = probe_at first
probe_loop first (none ∷ more) = probe_at first
probe_loop first (some tick ∷ more) = probe_loop tick more

pub record IsRunning (host : Text) (h : HealthServer) : Type 0 where
  pub host_kept : h.ssh_host ≡ host
  pub unstarted : h.started ≡ false → (h.serving ≡ 0) × (h.probing ≡ 0)
  pub started :
      h.started ≡ true → (h.serving ≡ 1) × (h.probing ≡ (if text_beq host [] then 0 else 1))
  pub unclosed : h.closed_once ≡ false → h.done_closes ≡ 0
  pub closed : h.closed_once ≡ true → h.done_closes ≡ 1

call-IsRunning :
    (host : Text) (h : HealthServer) (c : Call) → IsRunning host h → IsRunning host (call h c)
unfolding start shutdown
call-IsRunning host h starts v = record {
  host_kept = ground (arith, v.host_kept);
  unstarted = ground (arith, v.unstarted);
  started = ground (arith, v.started, v.unstarted, v.host_kept);
  unclosed = ground (arith, v.unclosed);
  closed = ground (arith, v.closed);
}
call-IsRunning host h (shuts_down fails) v = record {
  host_kept = ground (arith, v.host_kept);
  unstarted = ground (arith, v.unstarted);
  started = ground (arith, v.started);
  unclosed = ground (arith, v.unclosed);
  closed = ground (arith, v.closed, v.unclosed);
}

-- However often Start and Shutdown are called, and in whatever order: the server is served by one
-- goroutine and the SSH port probed by one loop, by none before the first Start or without a host to
-- probe, and `done` is closed at most once, so that no Shutdown panics.
pub calls-IsRunning :
    (host : Text) (cs : List Call) → IsRunning host (calls (new_health_server host) cs)
unfolding calls
calls-IsRunning host cs = from (new_health_server host) cs (record {
  host_kept = refl;
  unstarted = λ e. (refl, refl);
  started = λ e. absurd (ground arith);
  unclosed = λ e. refl;
  closed = λ e. absurd (ground arith);
})
  where
    from : (h : HealthServer) (more : List Call) → IsRunning host h → IsRunning host (calls h more)
    from h [] v = v
    from h (c ∷ more) v = from (call h c) more (call-IsRunning host h c v)
