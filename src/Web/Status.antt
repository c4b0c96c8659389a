-- ===== src/Web/Status.antt =====
-- health.go: the probe, the readiness and the status page. The dialer is what its interfaces return;
-- encoding the page is encoding/json.
use ssh_gate.Prelude.{
  ℕ, ◌+◌, ◌/◌, ◌^◌, Bool, true, false, List, [], ◌∷◌, ◌++◌, Option, none, some, Text, codes,
  text_beq, if◌then◌else◌,
}
use ssh_gate.Config.Values.{contains}
use ssh_gate.Conntrack.Records.{ConnRecord, ConnTracker}
use ssh_gate.Conntrack.Listing.{active_by_proto}
use ssh_gate.Tunnel.Status.{
  TunnelState, not_configured, connecting, connected, reconnecting, key_rejected, unreachable,
  host_key_mismatch, ssh_error, TunnelStatus, SshError, plain_status,
}

-- sshProbe; the zero time is `none`.
pub record SshProbe : Type 0 where
  pub reachable : Bool
  pub rtt_ms : ℕ
  pub at : Option ℕ
  pub from_session : Bool

-- What a dialer reports: Connected, Status, if it has a state, and TunnelTCPStats, as its RTT in
-- milliseconds, rounded.
pub record Report : Type 0 where
  pub is_up : Bool
  pub status : Option TunnelStatus
  pub tcp_rtt : Option ℕ

-- liveSessionStats.
abbrev pub live_session_stats : Report → Option ℕ
live_session_stats d = if d.is_up then d.tcp_rtt else none

-- runProbe, with the time and, where it dials, the RTT of a dial that succeeds. It tells whether it
-- dialed.
abbrev pub probe_with : Option ℕ → ℕ → Option ℕ → SshProbe × Bool
probe_with (some rtt) now dial =
    (record { reachable = true; rtt_ms = 0; at = some now; from_session = true }, false)
probe_with none now (some ms) =
    (record { reachable = true; rtt_ms = ms; at = some now; from_session = false }, true)
probe_with none now none =
    (record { reachable = false; rtt_ms = 0; at = some now; from_session = false }, true)

abbrev pub run_probe : Report → ℕ → Option ℕ → SshProbe × Bool
run_probe d now dial = probe_with (live_session_stats d) now dial

-- tunnelStatus.
abbrev pub tunnel_status : Report → TunnelStatus
tunnel_status d = elim d.status [
  | some st ↦ st
  | none ↦ if d.is_up then plain_status connected else plain_status connecting
]

abbrev pub state_text : TunnelState → Text
state_text not_configured = codes "not_configured"
state_text connecting = codes "connecting"
state_text connected = codes "connected"
state_text reconnecting = codes "reconnecting"
state_text key_rejected = codes "key_rejected"
state_text unreachable = codes "unreachable"
state_text host_key_mismatch = codes "host_key_mismatch"
state_text ssh_error = codes "ssh_error"

-- readyHandler: the code and the text.
abbrev pub ready_text : TunnelState → Text
ready_text not_configured = codes "not configured: SSH_HOST and SSH_USER are required"
ready_text state = codes "SSH not connected: " ++ state_text state

abbrev pub ready_handler : Report → ℕ × Text
ready_handler d = if d.is_up then (200, codes "ok") else (503, ready_text (tunnel_status d).state)

-- The keys of the map of ActiveByProto.
unfoldable pub protos : List (ℕ × ConnRecord) → List Text
protos [] = []
protos ((id, r) ∷ m) = let rest = protos m in if contains rest r.proto then rest else r.proto ∷ rest

abbrev pub sum_active : (Text → ℕ) → List Text → ℕ
sum_active counts [] = 0
sum_active counts (proto ∷ keys) = counts proto + sum_active counts keys

abbrev pub err_text : Option SshError → Text
err_text none = []
err_text (some e) = e.text

-- The fields of the answer that are computed.
pub record StatusPage : Type 0 where
  pub is_up : Bool
  pub state : TunnelState
  pub error : Text
  pub reachable : Bool
  pub rtt_ms : ℕ
  pub checked_at : ℕ
  pub active : List (Text × ℕ)
  pub active_total : ℕ

abbrev pub probe_rtt : SshProbe → Option ℕ → ℕ
probe_rtt probe none = probe.rtt_ms
probe_rtt probe (some rtt) = if probe.from_session then rtt else probe.rtt_ms

abbrev pub unix_of : Option ℕ → ℕ
unix_of none = 0
unix_of (some at) = at / 10 ^ 9

abbrev pub entries_of : (Text → ℕ) → List Text → List (Text × ℕ)
entries_of counts [] = []
entries_of counts (proto ∷ keys) = (proto, counts proto) ∷ entries_of counts keys

module _ (now : ℕ) (stalled : List (ℕ × ℕ)) (d : Report) (probe : SshProbe) where
  abbrev pub page_with : (Text → ℕ) → List Text → StatusPage
  page_with counts keys =
      let st = tunnel_status d in
      record {
        is_up = d.is_up;
        state = st.state;
        error = err_text st.err;
        reachable = probe.reachable;
        rtt_ms = probe_rtt probe d.tcp_rtt;
        checked_at = unix_of probe.at;
        active = entries_of counts keys;
        active_total = sum_active counts keys;
      }

  -- statusHandler; `none` is the answer to another method than GET.
  unfoldable pub status_handler : Text → Option ConnTracker → Option ConnTracker × Option StatusPage
  unfolding protos
  status_handler method none =
      if text_beq method (codes "GET")
      then (none, some (page_with (λ proto. 0) []))
      else (none, none)
  status_handler method (some t) =
      let (t', counts) = active_by_proto now stalled t in
      if text_beq method (codes "GET")
      then (some t', some (page_with counts (protos t'.active)))
      else (some t, none)
