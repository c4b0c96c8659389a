-- ===== src/Service/Texts.antt =====
-- status.go: the status lines of the service manager. The texts of package time and of path/filepath
-- are parameters, as is what errors.As finds of a net.OpError.
use ssh_gate.Prelude.{ℕ, ◌+◌, ◌*◌, ◌/◌, false, List, [], ◌∷◌, ◌++◌, Option, none, some, Text, codes}
use ssh_gate.Syntax.Decimal.{itoa}
use ssh_gate.Syntax.HostPort.{join_host_port}
use ssh_gate.Tunnel.Status.{
  TunnelState, not_configured, connecting, connected, reconnecting, key_rejected, unreachable,
  host_key_mismatch, ssh_error, SshError, TunnelStatus, plain_status,
}
use ssh_gate.Tunnel.Monitor.{second}
use ssh_gate.Web.Status.{Report}

-- What statusText reads of sshDialerCfg.
pub record Endpoint : Type 0 where
  pub host : Text
  pub port : ℕ
  pub user : Text
  pub key_path : Text

-- The library's part: Duration.String, the path of ssh_known_hosts beside a key, and the error
-- inside a net.OpError.
pub record Texts : Type 0 where
  pub duration : ℕ → Text
  pub known_hosts_of : Text → Text
  pub op_error : SshError → Option Text

-- Duration.Round to seconds, half up.
abbrev pub round_second : ℕ → ℕ
round_second d = (d + second / 2) / second * second

abbrev pub endpoint : Endpoint → Text
endpoint cfg = cfg.user ++ (codes "@" ++ join_host_port cfg.host (itoa cfg.port))

module _ (ts : Texts) where
  -- dialCause.
  abbrev pub cause_of : SshError → Option Text → Text
  cause_of e (some text) = text
  cause_of e none = e.text

  abbrev pub dial_cause : Option SshError → Text
  dial_cause none = codes "unknown error"
  dial_cause (some e) = cause_of e (ts.op_error e)

  abbrev pub retry_text : TunnelStatus → Text
  retry_text st =
      codes "retry in "
      ++ (ts.duration (round_second st.retry)
          ++ (codes " (attempt " ++ (itoa st.attempt ++ codes ")")))

  -- The case of a changed host key.
  abbrev pub changed_text : Endpoint → Option (Text × Text) → Text
  changed_text cfg none =
      codes "Host key of "
      ++ (endpoint cfg
          ++ (codes " changed: delete "
              ++ (ts.known_hosts_of cfg.key_path ++ codes " to trust the new key")))
  changed_text cfg (some (want, got)) =
      codes "Host key of "
      ++ (endpoint cfg
          ++ (codes " changed (expected "
              ++ (want
                  ++ (codes ", got "
                      ++ (got
                          ++ (codes "): delete "
                              ++ (ts.known_hosts_of cfg.key_path
                                  ++ codes " to trust the new key")))))))

  abbrev pub mismatch_of : Option SshError → Option (Text × Text)
  mismatch_of none = none
  mismatch_of (some e) = e.mismatch

  -- The case behind the switch; `%v` prints a nil error as "<nil>".
  abbrev pub error_text : Option SshError → Text
  error_text none = codes "<nil>"
  error_text (some e) = e.text

  abbrev pub other_text : TunnelStatus → Text
  other_text st = codes "SSH error: " ++ (error_text st.err ++ (codes "; " ++ retry_text st))

  -- statusText.
  abbrev pub text_of : Endpoint → TunnelStatus → TunnelState → Text
  text_of cfg st connecting = codes "Connecting to " ++ endpoint cfg
  text_of cfg st connected = codes "Connected to " ++ endpoint cfg
  text_of cfg st reconnecting = codes "Tunnel to " ++ (endpoint cfg ++ codes " lost, reconnecting")
  text_of cfg st key_rejected =
      codes "Key not accepted by "
      ++ (endpoint cfg
          ++ (codes ": add "
              ++ (cfg.key_path ++ (codes ".pub to authorized_keys; " ++ retry_text st))))
  text_of cfg st unreachable =
      codes "Cannot reach "
      ++ (endpoint cfg ++ (codes ": " ++ (dial_cause st.err ++ (codes "; " ++ retry_text st))))
  text_of cfg st host_key_mismatch = changed_text cfg (mismatch_of st.err)
  text_of cfg st not_configured = other_text st
  text_of cfg st ssh_error = other_text st

  unfoldable pub status_text : Endpoint → TunnelStatus → Text
  status_text cfg st = text_of cfg st st.state

-- strings.Join.
abbrev pub join_with : Text → List Text → Text
join_with sep [] = []
join_with sep (t ∷ []) = t
join_with sep (t ∷ u ∷ more) = t ++ (sep ++ join_with sep (u ∷ more))

-- notConfiguredText.
abbrev pub not_configured_text : List Text → Text
not_configured_text missing =
    codes "Not configured: set "
    ++ (join_with (codes " and ") missing
        ++ codes " in /etc/default/ssh-gate, then restart the service")

-- unconfiguredDialer, as the health server sees it.
abbrev pub unconfigured_dialer : Report
unconfigured_dialer = record {
  is_up = false;
  status = some (plain_status not_configured);
  tcp_rtt = none;
}
