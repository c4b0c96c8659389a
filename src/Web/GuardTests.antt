-- ===== src/Web/GuardTests.antt =====
-- health.go: the theorem on rebinding at a concrete request.
use ssh_gate.Prelude.{
  ◌≡◌, ◌≢◌, ◌⊎◌, inl, inr, refl, Bool, true, false, List, [], Option, none, some, Text, codes,
  has_suffix, if◌then◌else◌, Bool-cases, arith,
}
use ssh_gate.Syntax.HostPort.{split_host_port}
use ssh_gate.Config.Values.{contains}
use ssh_gate.Rules.Engine.{normalize_host}
use ssh_gate.Conntrack.Records.{ConnTracker}
use ssh_gate.Conntrack.Ring.{new_conn_tracker}
use ssh_gate.Web.Hosts.{ui_guard, ui_name, allow_hosts, new_allowed_hosts}
use ssh_gate.Web.Access.{guarded, ui_guard_iff}
use ssh_gate.Web.Status.{run_probe}
use ssh_gate.Web.Routes.{Request, Moment, routes, patterns, serve, ServeMux}
use ssh_gate.Web.Guarding.{IsClosed, serve_rebinding}

-- The registered path, or else the subtree of the root.
abbrev find : List Text → Text → Option Text
find registered path = if contains registered path then some path else some (codes "/")

find_exact :
    (registered : List Text) (path pattern : Text)
    → find registered path ≡ some pattern
    → (pattern ≡ path) ⊎ (has_suffix pattern (codes "/") ≡ true)
find_exact registered path pattern h = elim (Bool-cases (contains registered path)) [
  | inl e ↦ let same : some path ≡ some pattern = rw e at h in inl cc
  | inr e ↦
      let same : some (codes "/") ≡ some pattern = rw e at h in
      let root : codes "/" ≡ pattern = cc in inr (rw⁻¹ root refl)
]

abbrev mux : ServeMux
mux = record {
  pattern_of = find;
  clean = λ path. path;
  exact = find_exact;
  finds = λ registered path known same. rw known refl;
}

abbrev no_address : Text → Option Bool
no_address t = none

abbrev moment : Moment
moment = record {
  counters = λ conn. (0, 0);
  now = 60;
  stalled = [];
  visits = [];
  dialer = record { is_up = true; status = none; tcp_rtt = some 12 };
  probe = (run_probe (record { is_up = true; status = none; tcp_rtt = some 12 }) 50 none).0;
}

abbrev rebound : Request
rebound = record {
  path = codes "/api/connections";
  host = codes "evil.example:9090";
  method = codes "GET";
  query = λ key. [];
}

abbrev no_files : Text → Option Text
no_files name = none

abbrev quiet : Option ConnTracker
quiet = some (new_conn_tracker 2 1000)

guarded_off : guarded no_address (codes "127.0.0.1:9090") [] rebound.host ≡ false
unfolding ui_guard new_allowed_hosts allow_hosts ui_name normalize_host split_host_port
guarded_off = refl

conflict : (b : Bool) → b ≡ true → b ≢ false
conflict b h h' = ground arith

serve_rebinding_example : IsClosed no_files moment quiet (
    serve no_files moment
      (allow_hosts [] (new_allowed_hosts no_address (codes "127.0.0.1:9090")))
      (mux.pattern_of (patterns routes) rebound.path)
      rebound
      quiet)
serve_rebinding_example =
    serve_rebinding no_files moment quiet mux no_address (codes "127.0.0.1:9090") [] rebound
      (λ e. ground arith) (λ e. ground arith)
      (λ h.
        conflict _ ((ui_guard_iff no_address (codes "127.0.0.1:9090") [] rebound.host).1 h)
          guarded_off)
