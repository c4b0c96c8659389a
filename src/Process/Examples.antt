-- ===== src/Process/Examples.antt =====
-- main.go: the theorems at a concrete start and shutdown.
use ssh_gate.Prelude.{
  ℕ, ◌+◌, ◌≤◌, ◌≡◌, refl, true, false, List, [], ◌∷◌, ◌++◌, none, some, codes, arith,
}
use ssh_gate.Rules.Engine.{new_rule_engine}
use ssh_gate.Config.Load.{ok}
use ssh_gate.Config.Settings.{small_parsers, small_env, defaults, loaded}
use ssh_gate.Storage.Keys.{KeyLibrary, missing, ensure_ssh_key_pair}
use ssh_gate.Tunnel.Connect.{FileRead, read_known_host_fingerprint}
use ssh_gate.Tunnel.Monitor.{SshDialer, new_ssh_dialer}
use ssh_gate.Service.Notify.{new_sd_status, Call, sets, stops, message, run}
use ssh_gate.Process.Startup.{World, absent, Process, start_up}
use ssh_gate.Process.Started.{IsStarted, start_up-IsStarted}
use ssh_gate.Process.Starting.{IsUsable, start_up_ok}
use ssh_gate.Process.Shutdown.{
  shutdown_drain_timeout, Draining, shutdown_servers, leave, AreReports, shutdown_servers_by,
  leave_through,
}

abbrev library : KeyLibrary
library = record {
  parse_private = λ t. some (codes "ssh-ed25519 AAAA");
  generate = some (codes "PEM");
  new_signer = λ t. some (codes "ssh-ed25519 AAAA");
  parse_generated = λ pem line made signed. signed;
}

abbrev world : World
world = record {
  settings = small_parsers;
  parsers = record { parse_addr = λ t. none; parse_prefix = λ t. none; compile = λ t. none };
  texts = record {
    duration = λ n. codes "0s";
    known_hosts_of = λ path. codes "/data/ssh_known_hosts";
    op_error = λ e. none;
  };
  env = small_env;
  make_dir = true;
  library = library;
  writes_private = true;
  writes_public = true;
  keys = record { private_file = missing; public_file = missing };
  marker = absent;
  known_hosts = FileRead.content (codes "SHA256:abc");
  key_path = codes "/data/ssh_key";
  listens = λ used addr. true;
}

usable : IsUsable world defaults
unfolding ensure_ssh_key_pair read_known_host_fingerprint new_rule_engine
usable = record {
  loads = loaded;
  access = (true, refl);
  dir = refl;
  key = (codes "ssh-ed25519 AAAA ssh-gate", refl);
  ports = λ used addr. refl;
  known = (codes "SHA256:abc", refl);
  parsed = ([], refl);
}

starts : (p : Process) × (start_up world ≡ ok p)
starts = start_up_ok world defaults usable

start_up-IsStarted_example : IsStarted world (start_up_ok world defaults usable).0
start_up-IsStarted_example =
    start_up-IsStarted world (start_up_ok world defaults usable).0
      (start_up_ok world defaults usable).1

-- A stuck relay on the first server, a late one on the second, an idle third.
abbrev draining : List Draining
draining =
    record { name = codes "SOCKS5 :1080"; fails = false; ended = none; lag = 0; picks_done = false }
    ∷ record {
      name = codes "HTTP :3128";
      fails = false;
      ended = some 9;
      lag = 0;
      picks_done = false;
    }
    ∷ record { name = codes "health"; fails = false; ended = some 0; lag = 0; picks_done = true }
    ∷ []

shutdown_servers_by_example :
    ((shutdown_servers 15 10 draining).1 ≤ 15)
    × AreReports 15 draining (shutdown_servers 15 10 draining).0
shutdown_servers_by_example = shutdown_servers_by 15 10 draining (omega arith)

abbrev late : List Call
late = sets (codes "Tunnel to me@gate.example:22 lost, reconnecting") ∷ []

abbrev dialer : SshDialer
dialer = new_ssh_dialer (codes "SHA256:abc")

leave_through_example :
    let r = leave 10 draining new_sd_status dialer in
    ((run r.0 late).sent ≡ [] ++ message (stops (codes "Stopping, draining connections")) ∷ [])
    × (r.1.0.done ≡ true)
    × ((c : ℕ) → dialer.client ≡ some c → (more : List ℕ) × (r.1.0.closed ≡ c ∷ more))
    × (r.1.1.1 ≤ 10 + shutdown_drain_timeout)
leave_through_example = leave_through 10 draining new_sd_status dialer late (tt, tt)
