-- ===== src/Tunnel/Sockets.antt =====
-- dialer.go: the keepalive of the tunnel's socket. The socket options are syscalls; each has an error
-- or not.
use ssh_gate.Prelude.{
  ℕ, ◌*◌, ◌/◌, ◌≡◌, ltb, ◌==◌, ◌&&◌, Bool, true, false, List, [], ◌∷◌, ◌++◌, Option, none, some,
  Text, if◌then◌else◌, arith,
}
use ssh_gate.Tunnel.Monitor.{second, millisecond}

pub data SocketOption : Type 0 where
  keep_alive : Bool → SocketOption
  keep_alive_period keep_interval keep_count : ℕ → SocketOption

-- keepaliveIntervalUnit.
abbrev pub keepalive_interval_unit : Bool → ℕ
keepalive_interval_unit darwin = if darwin then millisecond else second

-- The errors of the syscalls: of raw.Control, and of the two SetsockoptInt.
pub record Syscalls : Type 0 where
  pub control : Option Text
  pub interval : Option Text
  pub count : Option Text

-- setErr.
abbrev pub first_error : Option Text → Option Text → Option Text
first_error none next = next
first_error (some e) next = some e

-- A step inside Control: the option is tried where its value is positive.
abbrev pub try_option :
    ℕ
    → SocketOption
    → Option Text
    → List SocketOption × Option Text
    → List SocketOption × Option Text
try_option value option error (tried, first) =
    if ltb 0 value then (tried ++ option ∷ [], first_error first error) else (tried, first)

-- setKeepaliveProbeOpts: the options that it tries, in order, and its error.
abbrev pub interval_value : Bool → ℕ → ℕ
interval_value darwin interval_secs = interval_secs * second / keepalive_interval_unit darwin

abbrev pub in_control : Bool → Syscalls → ℕ → ℕ → List SocketOption × Option Text
in_control darwin sys interval_secs probes = try_option probes (keep_count probes) sys.count (
    try_option interval_secs (keep_interval (interval_value darwin interval_secs)) sys.interval
      ([], none))

unfoldable pub set_keepalive_probe_opts : Bool → Syscalls → ℕ → ℕ → List SocketOption × Option Text
set_keepalive_probe_opts darwin sys interval_secs probes =
    let inner = in_control darwin sys interval_secs probes in
    if (interval_secs == 0) && (probes == 0)
    then ([], none)
    else elim sys.control [ some e ↦ ([], some e) | none ↦ inner ]

-- The socket options of connectSSH, for a TCP connection; errors are only logged.
unfoldable pub tune_socket : Bool → Syscalls → ℕ → ℕ → ℕ → List SocketOption
unfolding set_keepalive_probe_opts
tune_socket darwin sys period interval_secs probes =
    if ltb 0 period
    then keep_alive true
      ∷ keep_alive_period period
      ∷ (set_keepalive_probe_opts darwin sys interval_secs probes).0
    else keep_alive false ∷ []

-- The unit of the interval: the number of seconds on Linux, of milliseconds on macOS.
interval_value_lem : (n : ℕ) → (interval_value false n ≡ n) × (interval_value true n ≡ 1000 * n)
interval_value_lem n = (omega arith, omega arith)

-- Both parameters are tried, also when the first one fails, a zero one is left to the kernel, and the
-- error is that of the first that failed.
pub set_keepalive_probe_opts_lem :
    (darwin : Bool) (sys : Syscalls) (interval_secs probes : ℕ)
    → sys.control ≡ none
    → let r = set_keepalive_probe_opts darwin sys interval_secs probes in
      (r.0
        ≡ (if ltb 0 interval_secs
            then keep_interval (if darwin then 1000 * interval_secs else interval_secs) ∷ []
            else [])
          ++ (if ltb 0 probes then keep_count probes ∷ [] else []))
      × (r.1
          ≡ first_error
              (if ltb 0 interval_secs then sys.interval else none)
              (if ltb 0 probes then sys.count else none))
unfolding set_keepalive_probe_opts
set_keepalive_probe_opts_lem true sys interval_secs probes h =
    ground (arith, (interval_value_lem interval_secs).1)
set_keepalive_probe_opts_lem false sys interval_secs probes h =
    ground (arith, (interval_value_lem interval_secs).0)
