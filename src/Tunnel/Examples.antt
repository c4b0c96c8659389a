-- ===== src/Tunnel/Examples.antt =====
-- dialer.go: the theorems at concrete servers and runs.
use ssh_gate.Prelude.{◌≡◌, refl, inr, true, [], none, some, Text, codes}
use ssh_gate.Tunnel.Status.{connected, SshError, plain_error}
use ssh_gate.Tunnel.Connect.{
  Connect, connect_ssh, trust, client_conn, check_host_key, IsTrusted, connect_ssh-IsTrusted,
}
use ssh_gate.Tunnel.Monitor.{
  SshDialer, new_ssh_dialer, wake, connect_failed, publish, stop, woke, succeeded, connect_done,
  waiting, failed, Reaches, here, then_step,
}
use ssh_gate.Tunnel.Lifecycle.{IsMonitor, Reaches-IsMonitor, stop-publish}

abbrev key : Text
key = codes "SHA256:abc"

abbrev server : Connect
server = record {
  read_key = none;
  parse_key = none;
  dial = none;
  set_deadline = none;
  offered = some key;
  handshake = none;
  clear_deadline = none;
  save = none;
}

first_connect : (connect_ssh [] server none).1 ≡ inr key
unfolding connect_ssh client_conn check_host_key trust
first_connect = refl

connect_ssh-IsTrusted_example : IsTrusted [] server none (connect_ssh [] server none).0 key
connect_ssh-IsTrusted_example = connect_ssh-IsTrusted [] server key key none refl first_connect

abbrev start : SshDialer
start = new_ssh_dialer []

abbrev refused : SshError
refused = plain_error (codes "refused")

abbrev after_failure : SshDialer
after_failure = connect_failed refused 1234 (wake start)

one_failure : Reaches start after_failure
unfolding wake
one_failure =
    then_step (wake start) after_failure (then_step start (wake start) here (woke refl))
      (failed refused 1234 refl)

Reaches-IsMonitor_example : IsMonitor after_failure
Reaches-IsMonitor_example = Reaches-IsMonitor [] after_failure one_failure

abbrev dialed : SshDialer
dialed = connect_done 1 key (wake start)

dialed_reached : Reaches start dialed
unfolding wake connect_done
dialed_reached =
    then_step (wake start) dialed (then_step start (wake start) here (woke refl))
      (succeeded 1 key refl)

stop-publish_example :
    let e : SshDialer = publish 1 key (stop dialed) in
    Reaches start e
    × (e.done ≡ true)
    × (e.client ≡ some 1)
    × (e.status.state ≡ connected)
    × (e.phase ≡ waiting)
    × (e.closed ≡ dialed.closed)
unfolding wake connect_done
stop-publish_example = stop-publish [] 1 key dialed dialed_reached refl
