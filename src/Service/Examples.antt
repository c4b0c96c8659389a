-- ===== src/Service/Examples.antt =====
-- journal.go and notify.go: the theorems at concrete inputs.
use ssh_gate.Prelude.{
  ◌≡◌, ◌≤◌, ◌<◌, refl, true, false, map, [], ◌∷◌, ◌++◌, none, some, Text, codes, arith,
}
use ssh_gate.Config.Values.{LogLevel}
use ssh_gate.Tunnel.Status.{SshError, plain_error}
use ssh_gate.Tunnel.Monitor.{
  SshDialer, new_ssh_dialer, wake, connect_failed, woke, failed, Reaches, here, then_step,
}
use ssh_gate.Service.Notify.{new_sd_status, message, run}
use ssh_gate.Service.Texts.{Endpoint, Texts}
use ssh_gate.Service.Reporting.{statuses, last_of, on_status, run-statuses}
use ssh_gate.Service.Logging.{
  setup_logging, rank, threshold, log_line, service_line, access_line, Arrives, journal_ident,
  journal_access_ident, log_line-Arrives,
}
use ssh_gate.Service.Journal.{Level}

-- A line that itself holds a newline and a field.
abbrev line : Text
line = codes "a" ++ (10 ∷ codes "PRIORITY=0")

abbrev texts : Texts
texts = record {
  duration = λ n. codes "1s";
  known_hosts_of = λ path. codes "/data/ssh_known_hosts";
  op_error = λ e. none;
}

abbrev gate : Endpoint
gate = record {
  host = codes "gate.example";
  port = 22;
  user = codes "me";
  key_path = codes "/data/ssh_key";
}

abbrev start : SshDialer
start = new_ssh_dialer []

abbrev refused : SshError
refused = plain_error (codes "refused")

abbrev after_failure : SshDialer
after_failure = connect_failed refused 1234 (wake start)

one_failure : Reaches start after_failure
unfolding wake
one_failure =
    then_step (wake start) after_failure (then_step start (wake start) here (woke refl))
      (failed refused 1234 refl)

run-statuses_example :
    last_of
      (run new_sd_status
        (map (on_status texts gate) (statuses start after_failure one_failure))).sent
    ≡ some (message (on_status texts gate after_failure.status))
run-statuses_example = run-statuses texts gate [] after_failure one_failure

log_line-Arrives_example :
    let l = setup_logging true LogLevel.warn true in
    (true ≡ true
      → Arrives journal_access_ident Level.info line (log_line l false (access_line line)))
    × (true ≡ false → log_line l false (access_line line) ≡ none)
    × ((at : Level)
        → threshold LogLevel.warn ≤ rank at
        → Arrives journal_ident at line (log_line l false (service_line at line)))
    × ((at : Level)
        → rank at < threshold LogLevel.warn
        → log_line l false (service_line at line) ≡ none)
log_line-Arrives_example = log_line-Arrives true true false LogLevel.warn line (omega arith)
