-- ===== src/Dns/Upstream.antt =====
-- dns.go: one tunnel resolver, with its pause and its probe, and the status of all.
use ssh_gate.Prelude.{
  ℕ, ◌+◌, ◌*◌, ◌/◌, suc, Bool, true, false, not, ◌||◌, List, [], ◌∷◌, Option, none, some, Text,
  codes, ltb, if◌then◌else◌,
}
use ssh_gate.Dns.Cache.{second}

abbrev pub upstream_pause : ℕ
upstream_pause = 10 * second

abbrev pub dns_degraded_window : ℕ
dns_degraded_window = 60 * second

-- The errors of a lookup: errNotFound, errUnreachable with the text, and any other.
pub data QueryError : Type 0 where
  not_found : QueryError
  unreachable : Text → QueryError
  other_error : Text → QueryError

abbrev pub is_unreachable : QueryError → Bool
is_unreachable not_found = false
is_unreachable (unreachable t) = true
is_unreachable (other_error t) = false

abbrev pub error_text : QueryError → Text
error_text not_found = codes "no answer"
error_text (unreachable t) = t
error_text (other_error t) = t

-- upstream; the zero time is `none`.
pub record Upstream : Type 0 where
  pub name : Text
  pub paused_until : Option ℕ
  pub probing : Bool
  pub ok : ℕ
  pub fail : ℕ
  pub last_ok_at : Option ℕ
  pub last_rtt : ℕ
  pub last_failed : Bool
  pub last_err : Text

-- claim.
unfoldable pub claim : ℕ → Upstream → Upstream × Bool
claim now u = elim u.paused_until [
  | none ↦ (u, true)
  | some until ↦
      if u.probing || ltb now until then (u, false) else (record u { probing = true }, true)
]

-- A round of releaseProbes.
abbrev pub release_probe : Upstream → Upstream
release_probe u = record u { probing = false }

-- upstreamAnswered.
abbrev pub upstream_answered : ℕ → ℕ → Upstream → Upstream
upstream_answered now rtt u = record u {
  paused_until = none;
  ok = suc u.ok;
  last_ok_at = some now;
  last_rtt = rtt;
  last_failed = false;
}

-- upstreamFailed, with whether the tunnel is up and the time of the pause.
unfoldable pub upstream_failed : Bool → ℕ → QueryError → Upstream → Upstream
upstream_failed tunnel_up now e u = if not tunnel_up then u else record u {
  fail = suc u.fail;
  last_failed = true;
  last_err = error_text e;
  paused_until = if is_unreachable e then some (now + upstream_pause) else none;
}

pub record ServerStatus : Type 0 where
  pub name : Text
  pub ok : ℕ
  pub fail : ℕ
  pub rtt_ms : ℕ
  pub last_ok_at : ℕ
  pub last_failed : Bool
  pub paused : Bool
  pub error : Text

-- upstream.status; the times of the view are in seconds.
abbrev pub server_status : ℕ → Upstream → ServerStatus
server_status now u = record {
  name = u.name;
  ok = u.ok;
  fail = u.fail;
  rtt_ms = u.last_rtt / 1000000;
  last_ok_at = elim u.last_ok_at [ none ↦ 0 | some t ↦ t / second ];
  last_failed = u.last_failed;
  paused = elim u.paused_until [ none ↦ false | some until ↦ ltb now until ];
  error = u.last_err;
}

pub record DnsStatus : Type 0 where
  pub mode : Text
  pub degraded : Bool
  pub local_fallbacks : ℕ
  pub last_fallback_at : ℕ
  pub servers : List ServerStatus

-- The loop of DNSStatus over the resolvers.
abbrev pub add_servers : ℕ → List Upstream → DnsStatus → DnsStatus
add_servers now [] st = st
add_servers now (u ∷ us) st =
    let s = server_status now u in
    let servers = add_servers now us st in
    record servers { degraded = servers.degraded || s.paused; servers = s ∷ servers.servers }

-- DNSStatus; no fallback yet is `none`.
unfoldable pub dns_status : Bool → ℕ → ℕ → Option ℕ → List Upstream → DnsStatus
dns_status doh now fallbacks last_fallback tunnel = add_servers now tunnel (record {
  mode = if doh then codes "doh" else codes "servers";
  local_fallbacks = fallbacks;
  last_fallback_at = elim last_fallback [ none ↦ 0 | some at ↦ at / second ];
  degraded = elim last_fallback [ none ↦ false | some at ↦ ltb now (at + dns_degraded_window) ];
  servers = [];
})
