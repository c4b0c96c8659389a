-- ===== src/Web/Hosts.antt =====
-- health.go: the Host names that the Web UI and the API answer to. `unspecified` is net.ParseIP with
-- IsUnspecified; it is `none` for a text that is no address.
use ssh_gate.Prelude.{
  Bool, true, false, not, List, [], ◌∷◌, Option, none, some, Text, codes, text_beq, trim_prefix,
  trim_last, if◌then◌else◌,
}
use ssh_gate.Rules.Engine.{normalize_host}
use ssh_gate.Syntax.HostPort.{split_host_port}
use ssh_gate.Config.Values.{contains}

-- The keys of allowedHosts; every value in it is true.
abbrev pub loopback_hosts : List Text
loopback_hosts = codes "localhost" ∷ codes "127.0.0.1" ∷ codes "::1" ∷ []

abbrev pub names_host : (Text → Option Bool) → Text → Bool
names_host unspecified host =
    if text_beq host []
    then false
    else elim (unspecified host) [ none ↦ true | some all_zero ↦ not all_zero ]

-- NewHealthServer, on what net.SplitHostPort makes of the listen address.
abbrev pub with_listen : (Text → Option Bool) → Option (Text × Text) → List Text
with_listen unspecified none = loopback_hosts
with_listen unspecified (some (host, port)) =
    if names_host unspecified host then normalize_host host ∷ loopback_hosts else loopback_hosts

unfoldable pub new_allowed_hosts : (Text → Option Bool) → Text → List Text
new_allowed_hosts unspecified listen = with_listen unspecified (split_host_port listen)

-- AllowHosts.
unfoldable pub allow_hosts : List Text → List Text → List Text
allow_hosts [] allowed = allowed
allow_hosts (host ∷ hosts) allowed = allow_hosts hosts (normalize_host host ∷ allowed)

-- The name that uiGuard looks up for a Host header.
abbrev pub header_host : Text → Option (Text × Text) → Text
header_host header none = header
header_host header (some (host, port)) = host

abbrev pub clean_host : Text → Text
clean_host host = normalize_host (trim_last (trim_prefix host (codes "[")) b']')

unfoldable pub ui_name : Text → Text
ui_name header = clean_host (header_host header (split_host_port header))

-- uiGuard serves the request.
unfoldable pub ui_guard : List Text → Text → Bool
unfolding ui_name
ui_guard allowed header = contains allowed (ui_name header)
