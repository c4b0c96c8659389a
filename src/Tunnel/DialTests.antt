-- ===== src/Tunnel/DialTests.antt =====
-- dialer.go: the theorems on dials at concrete inputs.
use ssh_gate.Prelude.{refl, false, [], ◌∷◌, some, codes}
use ssh_gate.Conntrack.Records.{ConnMeta, ConnTracker}
use ssh_gate.Conntrack.Ring.{new_conn_tracker}
use ssh_gate.Conntrack.History.{begins}
use ssh_gate.Tunnel.Dials.{DialContext, failed, track_dial}
use ssh_gate.Tunnel.Tracked.{IsSettled, track_dial-IsSettled}

abbrev web : ConnMeta
web = record {
  proto = codes "http";
  src = codes "10.0.0.5:50000";
  host = codes "site.example";
  dst_ip = [];
}

abbrev from_proxy : DialContext
from_proxy = record { no_track = false; meta = some web }

abbrev fresh_tracker : ConnTracker
fresh_tracker = new_conn_tracker 2 1000

-- The dial is refused, and another connection begins meanwhile.
track_dial-IsSettled_example :
    IsSettled 1
      (track_dial
        (λ host. some host)
        (some 7)
        (failed (codes "refused"))
        10
        12
        13
        (begins 11 web (codes "other.example") 80 ∷ [])
        from_proxy
        (codes "8.8.8.8:443")
        fresh_tracker).0
unfolding new_conn_tracker
track_dial-IsSettled_example =
    track_dial-IsSettled (λ host. some host) (some 7) (failed (codes "refused")) 10 12 13
      (begins 11 web (codes "other.example") 80 ∷ []) from_proxy (codes "8.8.8.8:443") fresh_tracker
      refl
