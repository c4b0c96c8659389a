-- ===== src/Process/Startup.antt =====
-- main.go: main up to the signal, with configureDNS and startProxies. Every log.Fatal exits the
-- process at once; it is told by its stage.
use ssh_gate.Prelude.{
  ℕ, Bool, not, List, [], ◌∷◌, ◌++◌, map, Option, none, some, ◌⊎◌, inl, inr, Text, codes, text_beq,
  if◌then◌else◌,
}
use ssh_gate.Syntax.Decimal.{ℤ, pos, negsuc}
use ssh_gate.Rules.Engine.{Parsers, RuleEntry, Result, new_rule_engine}
use ssh_gate.Config.Values.{SettingParsers, contains, get_env, parse_on_off}
use ssh_gate.Config.Lists.{first_run_ports}
use ssh_gate.Config.Load.{
  Config, Loaded, invalid, ok, ◌>>=◌, ◌>>◌, refuse_if, read_as, missing, load_config,
}
use ssh_gate.Storage.Keys.{KeyLibrary, KeyPair, ensure_ssh_key_pair}
use ssh_gate.Listener.Limit.{ConnLimiter, new_conn_limiter}
use ssh_gate.Dns.Upstream.{Upstream}
use ssh_gate.Dns.Servers.{set_doh, set_tunnel_dns}
use ssh_gate.Tunnel.Status.{SshError, plain_status, connecting}
use ssh_gate.Tunnel.Connect.{FileRead, read_known_host_fingerprint}
use ssh_gate.Tunnel.Monitor.{SshDialer, new_ssh_dialer}
use ssh_gate.Service.Notify.{Call, sets, readies}
use ssh_gate.Service.Texts.{Endpoint, Texts, status_text, not_configured_text}

-- exitConfig.
abbrev pub exit_config : ℕ
exit_config = 78

pub data Kind : Type 0 where
  socks5 http health : Kind

pub record Server : Type 0 where
  pub kind : Kind
  pub listen : Text

-- os.Stat of the first-run marker.
pub data Marker : Type 0 where
  done_before absent unknown : Marker

-- What the process finds: its environment and the libraries' parsers, and its files. `listens` is
-- whether net.Listen succeeds, behind the addresses that the process listens on already.
pub record World : Type 0 where
  pub settings : SettingParsers
  pub parsers : Parsers
  pub texts : Texts
  pub env : Text → Text
  pub make_dir : Bool
  pub library : KeyLibrary
  pub writes_private : Bool
  pub writes_public : Bool
  pub keys : KeyPair
  pub marker : Marker
  pub known_hosts : FileRead
  pub key_path : Text
  pub listens : List Text → Text → Bool

-- startProxies' results; nothing of it where the process is not configured.
pub record Proxies : Type 0 where
  pub dialer : SshDialer
  pub rules : List RuleEntry
  pub upstreams : List Upstream
  pub local_on_nxdomain : Bool
  pub limit : Option ConnLimiter
  pub servers : List Server

-- The process when it waits for the signal. `hint` are the lines of printFirstRun with a port.
pub record Process : Type 0 where
  pub config : Config
  pub proxies : Option Proxies
  pub servers : List Server
  pub calls : List Call
  pub hint : Option (List Text × List Text)

-- configureDNS.
abbrev pub configure_dns : Config → List Upstream
configure_dns c = if text_beq c.doh_host [] then set_tunnel_dns c.tunnel_dns else set_doh c.doh_host

abbrev pub proxies_with : Config → Text → List RuleEntry → List Server → Proxies
proxies_with c fingerprint rules servers = record {
  dialer = new_ssh_dialer fingerprint;
  rules = rules;
  upstreams = configure_dns c;
  local_on_nxdomain = c.local_on_nxdomain;
  limit = new_conn_limiter c.max_connections;
  servers = servers;
}

-- What statusText reads; a port that loadConfig accepts is positive.
abbrev pub port_number : ℤ → ℕ
port_number (pos n) = n
port_number (negsuc n) = 0

abbrev pub endpoint_of : Text → Config → Endpoint
endpoint_of key_path c = record {
  host = c.ssh_host;
  port = port_number c.ssh_port;
  user = c.ssh_user;
  key_path = key_path;
}

abbrev pub fingerprint_of : SshError ⊎ Text → Option Text
fingerprint_of (inl e) = none
fingerprint_of (inr fp) = some fp

abbrev pub rules_of : Result (List RuleEntry) → Option (List RuleEntry)
rules_of (Result.ok rules) = some rules
rules_of (Result.err e) = none

abbrev pub addresses : List Server → List Text
addresses servers = map (λ s. s.listen) servers

-- printFirstRun, once per installation: the ports of its lines.
abbrev pub ports_shown : Text → Text → List Text → Config → List Text
ports_shown mode port addrs c =
    if contains c.proxy_modes mode then first_run_ports addrs port else []

abbrev pub print_first_run : Config → List Text × List Text
print_first_run c = (
  ports_shown (codes "socks5") (codes "1080") c.socks5_addrs c,
  ports_shown (codes "http") (codes "3128") c.http_addrs c,
)

abbrev pub hint_of : Marker → Config → Option (List Text × List Text)
hint_of absent c = some (print_first_run c)
hint_of done_before c = none
hint_of unknown c = none

module _ (w : World) where
  -- The loops of startProxies: one server per address, each behind the ones that are open.
  unfoldable pub start_servers : Kind → List Text → List Server → Loaded (List Server)
  start_servers kind [] servers = ok servers
  start_servers kind (addr ∷ addrs) servers =
      refuse_if (not (w.listens (addresses servers) addr)) addr
      >> start_servers kind addrs (servers ++ record { kind = kind; listen = addr } ∷ [])

  abbrev pub start_mode : Text → Kind → List Text → Config → List Server → Loaded (List Server)
  start_mode mode kind addrs c servers =
      if contains c.proxy_modes mode then start_servers kind addrs servers else ok servers

  -- startProxies.
  unfoldable pub start_proxies : Config → Loaded Proxies
  start_proxies c = do
    fingerprint ←
        read_as (codes "SSH dialer") (fingerprint_of (read_known_host_fingerprint w.known_hosts))
    rules ← read_as (codes "rule engine") (rules_of (new_rule_engine w.parsers c.direct_rules))
    first ← start_mode (codes "socks5") socks5 c.socks5_addrs c []
    servers ← start_mode (codes "http") http c.http_addrs c first
    ok (proxies_with c fingerprint rules servers)

  -- The branch on missing: the proxies, or none, with the first status line.
  abbrev pub start_or_wait : Config → List Text → Loaded (Option Proxies × List Call)
  start_or_wait c [] = do
    p ← start_proxies c
    ok (
      some p,
      sets (status_text w.texts (endpoint_of w.key_path c) (plain_status connecting)) ∷ [],
    )
  start_or_wait c (name ∷ names) = ok (none, sets (not_configured_text (name ∷ names)) ∷ [])

  abbrev pub servers_of : Option Proxies → List Server
  servers_of none = []
  servers_of (some p) = p.servers

  abbrev pub process_with : Config → Option Proxies → List Call → Process
  process_with c proxies calls = record {
    config = c;
    proxies = proxies;
    servers = servers_of proxies ++ record { kind = health; listen = c.health_addr } ∷ [];
    calls = calls ++ readies ∷ [];
    hint = hint_of w.marker c;
  }

  -- The health server is the last to start.
  abbrev pub serve_all : Config → Option Proxies × List Call → Loaded Process
  serve_all c (proxies, calls) =
      refuse_if (not (w.listens (addresses (servers_of proxies)) c.health_addr))
        (codes "health server")
      >> ok (process_with c proxies calls)

  -- main.
  unfoldable pub start_up : Loaded Process
  start_up = do
    access ←
        read_as (codes "ACCESS_LOG")
          (parse_on_off (get_env w.env (codes "ACCESS_LOG") (codes "on")))
    c ← load_config w.settings w.env
    refuse_if (not w.make_dir) (codes "DATA_DIR")
    key ←
        read_as (codes "SSH key")
          (ensure_ssh_key_pair w.library w.writes_private w.writes_public w.keys).1
    ready ← start_or_wait c (missing c)
    serve_all c ready

-- The exit code of a start that fails.
abbrev pub exit_code : Loaded Process → Option ℕ
exit_code (invalid stage) = some exit_config
exit_code (ok p) = none
