-- ===== src/Config/Examples.antt =====
-- main.go: the theorems at concrete settings.
use ssh_gate.Prelude.{◌*◌, ◌≡◌, refl, [], ◌∷◌, some, lookup, nat_eq, arith}
use ssh_gate.Conntrack.Records.{ConnRecord, ConnTracker, ConnState, zero_record}
use ssh_gate.Conntrack.Tracker.{drop_stalled}
use ssh_gate.Config.Values.{second}
use ssh_gate.Config.Load.{conn_history_max_age}
use ssh_gate.Config.Checks.{IsConfig}
use ssh_gate.Config.Sound.{load_config-IsConfig}
use ssh_gate.Config.Window.{drop_stalled-load_config}
use ssh_gate.Config.Settings.{small_parsers, small_env, defaults, loaded}

load_config-IsConfig_example : IsConfig small_parsers defaults
load_config-IsConfig_example = load_config-IsConfig small_parsers small_env defaults loaded

abbrev dial_record : ConnRecord
dial_record = record zero_record { id = 1; status = ConnState.dialing; started_at = 5 }

abbrev dialing_tracker : ConnTracker
dialing_tracker = record {
  active = (1, dial_record) ∷ [];
  ring = zero_record ∷ [];
  ring_head = 0;
  ring_count = 0;
  capacity = 1;
  max_age = conn_history_max_age;
  next_id = 1;
}

drop_stalled-load_config_example :
    lookup 1 (drop_stalled (30 * second) ((1, 30 * second) ∷ []) dialing_tracker).active
    ≡ some dial_record
drop_stalled-load_config_example =
    drop_stalled-load_config small_parsers small_env defaults dialing_tracker (30 * second) 1
      ((1, 30 * second) ∷ []) dial_record loaded refl refl (omega arith)
