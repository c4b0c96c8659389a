-- ===== src/Config/Load.antt =====
-- main.go: config, missing and loadConfig. The environment is a function, empty on what is not set.
use mathlib.Core.List.{reverse}
use ssh_gate.Prelude.{
  ℕ, ◌*◌, ◌==◌, leb, Bool, true, false, ◌||◌, ◌&&◌, not, List, [], ◌∷◌, ◌++◌, Option, none, some,
  Text, codes, text_beq, if◌then◌else◌,
}
use ssh_gate.Net.Addr.{has_to4}
use ssh_gate.Opener.Candidates.{IpFamily, parse_ip_family}
use ssh_gate.Syntax.Decimal.{ℤ, atoi}
use ssh_gate.Syntax.HostPort.{has_byte, split_host_port}
use ssh_gate.Config.Values.{
  SettingParsers, second, validate_port, validate_host_port, get_env, parse_on_off,
  parse_keepalive_period, parse_keepalive_interval, parse_keepalive_probes, parse_dial_timeout,
  parse_max_connections,
}
use ssh_gate.Config.Lists.{parse_modes, parse_listen_list, parse_host_list, parse_tunnel_dns}

pub record Config : Type 0 where
  pub ssh_host : Text
  pub ssh_port : ℤ
  pub ssh_user : Text
  pub data_dir : Text
  pub proxy_modes : List Text
  pub socks5_addrs : List Text
  pub http_addrs : List Text
  pub direct_rules : Text
  pub direct_ip_family : IpFamily
  pub doh_host : Text
  pub tunnel_dns : List Text
  pub local_on_nxdomain : Bool
  pub health_addr : Text
  pub ssh_keepalive_period : ℕ
  pub ssh_keepalive_interval : ℕ
  pub ssh_keepalive_probes : ℕ
  pub dial_timeout : ℕ
  pub max_connections : ℕ
  pub ui_allowed_hosts : List Text

-- The settings, in the three groups in which loadConfig reads them.
pub record SshSettings : Type 0 where
  pub port : ℤ
  pub modes : List Text
  pub family : IpFamily
  pub period : ℕ
  pub interval : ℕ
  pub probes : ℕ
  pub timeout : ℕ

pub record ListenSettings : Type 0 where
  pub limit : ℕ
  pub socks5 : List Text
  pub http : List Text
  pub health : Text
  pub hosts : List Text
  pub dir : Text

pub record DnsSettings : Type 0 where
  pub doh : Text
  pub dns : List Text
  pub local : Bool

-- What a step of loadConfig returns: an error is told by the setting that its message names.
infixl 5 ◌>>◌ ◌>>=◌
pub data Loaded (A : Type 0) : Type 0 where
  invalid : Text → Loaded A
  ok : A → Loaded A

unfoldable pub ◌>>=◌ : {A B : Type 0} → Loaded A → (A → Loaded B) → Loaded B
invalid setting >>= next = invalid setting
ok value >>= next = next value

abbrev pub ◌>>◌ : {B : Type 0} → Loaded (Unit {0}) → Loaded B → Loaded B
check >> next = check >>= λ passed. next

abbrev pub refuse_if : Bool → Text → Loaded (Unit {0})
refuse_if true setting = invalid setting
refuse_if false setting = ok tt

abbrev pub read_as : {A : Type 0} → Text → Option A → Loaded A
read_as setting none = invalid setting
read_as setting (some a) = ok a

-- connHistoryMaxAge.
abbrev pub conn_history_max_age : ℕ
conn_history_max_age = 600 * second

-- missing.
abbrev pub missing : Config → List Text
missing c =
    (if text_beq c.ssh_host [] then codes "SSH_HOST" ∷ [] else [])
    ++ (if text_beq c.ssh_user [] then codes "SSH_USER" ∷ [] else [])

-- strings.Trim(s, "[]").
abbrev pub trim_brackets : Text → Text
trim_brackets s = reverse (left (reverse (left s)))
  where
    left : Text → Text
    left [] = []
    left (c ∷ t) = if c == b'[' || c == b']' then left t else c ∷ t

abbrev pub default_tunnel_dns : Text
default_tunnel_dns = codes "1.1.1.1,8.8.8.8"

module _ (ps : SettingParsers) (env : Text → Text) where
  abbrev pub is_ipv6_literal : Text → Bool
  is_ipv6_literal host = elim (ps.parse_ip (trim_brackets host)) [
    | none ↦ false
    | some ip ↦ not (has_to4 ip)
  ]

  abbrev pub is_ip_literal : Text → Bool
  is_ip_literal host = elim (ps.parse_ip host) [ none ↦ false | some ip ↦ true ]

  -- The checks of DOH_HOST: a slash, a port other than 443, an IP literal.
  abbrev pub doh_refused : Text → Bool
  doh_refused doh =
      not (text_beq doh [])
      && (has_byte b'/' doh || elim (split_host_port doh) [
        | none ↦ is_ip_literal doh
        | some (host, port) ↦ not (text_beq port (codes "443")) || is_ip_literal host
      ])

  abbrev pub resolvers : Text → Loaded (List Text)
  resolvers doh =
      if text_beq doh []
      then read_as (codes "TUNNEL_DNS")
          (parse_tunnel_dns ps (get_env env (codes "TUNNEL_DNS") default_tunnel_dns))
      else ok []

  -- loadConfig up to SSH_DIAL_TIMEOUT.
  unfoldable pub load_ssh : Loaded SshSettings
  load_ssh = do
    port ← read_as (codes "SSH_PORT") (atoi (get_env env (codes "SSH_PORT") (codes "22")))
    refuse_if (not (validate_port port)) (codes "SSH_PORT")
    modes ←
        read_as (codes "PROXY_MODES")
          (parse_modes (get_env env (codes "PROXY_MODES") (codes "socks5")))
    refuse_if (is_ipv6_literal (env (codes "SSH_HOST"))) (codes "SSH_HOST")
    family ←
        read_as (codes "DIRECT_IP_FAMILY")
          (parse_ip_family (get_env env (codes "DIRECT_IP_FAMILY") (codes "both")))
    period ←
        read_as (codes "SSH_KEEPALIVE_PERIOD")
          (parse_keepalive_period ps (get_env env (codes "SSH_KEEPALIVE_PERIOD") (codes "10s")))
    interval ←
        read_as (codes "SSH_KEEPALIVE_INTERVAL")
          (parse_keepalive_interval ps (get_env env (codes "SSH_KEEPALIVE_INTERVAL") (codes "1s")))
    probes ←
        read_as (codes "SSH_KEEPALIVE_PROBES")
          (parse_keepalive_probes (get_env env (codes "SSH_KEEPALIVE_PROBES") (codes "5")))
    timeout ←
        read_as (codes "SSH_DIAL_TIMEOUT")
          (parse_dial_timeout ps (get_env env (codes "SSH_DIAL_TIMEOUT") (codes "30s")))
    refuse_if (leb conn_history_max_age timeout) (codes "SSH_DIAL_TIMEOUT")
    ok (record {
      port = port;
      modes = modes;
      family = family;
      period = period;
      interval = interval;
      probes = probes;
      timeout = timeout;
    })

  -- From MAX_CONNECTIONS to DATA_DIR.
  unfoldable pub load_listen : Loaded ListenSettings
  load_listen = do
    limit ←
        read_as (codes "MAX_CONNECTIONS")
          (parse_max_connections (get_env env (codes "MAX_CONNECTIONS") (codes "4096")))
    socks5 ←
        read_as (codes "SOCKS5_LISTEN")
          (parse_listen_list (get_env env (codes "SOCKS5_LISTEN") (codes ":1080")))
    http ←
        read_as (codes "HTTP_LISTEN")
          (parse_listen_list (get_env env (codes "HTTP_LISTEN") (codes ":3128")))
    let health = get_env env (codes "HEALTH_LISTEN") (codes "127.0.0.1:9090")
    refuse_if (not (validate_host_port health)) (codes "HEALTH_LISTEN")
    hosts ←
        read_as (codes "UI_ALLOWED_HOSTS")
          (parse_host_list (get_env env (codes "UI_ALLOWED_HOSTS") []))
    let dir = get_env env (codes "DATA_DIR") (codes "/data")
    refuse_if (text_beq dir []) (codes "DATA_DIR")
    ok (record {
      limit = limit;
      socks5 = socks5;
      http = http;
      health = health;
      hosts = hosts;
      dir = dir;
    })

  -- From DOH_HOST on.
  unfoldable pub load_dns : Loaded DnsSettings
  load_dns = do
    let doh = env (codes "DOH_HOST")
    refuse_if (doh_refused doh) (codes "DOH_HOST")
    refuse_if (not (text_beq doh []) && not (text_beq (env (codes "TUNNEL_DNS")) []))
        (codes "TUNNEL_DNS")
    dns ← resolvers doh
    local ←
        read_as (codes "LOCAL_DNS_ON_NXDOMAIN")
          (parse_on_off (get_env env (codes "LOCAL_DNS_ON_NXDOMAIN") (codes "off")))
    ok (record { doh = doh; dns = dns; local = local })

  abbrev pub assemble : SshSettings → ListenSettings → DnsSettings → Config
  assemble a b d = record {
    ssh_host = env (codes "SSH_HOST");
    ssh_port = a.port;
    ssh_user = env (codes "SSH_USER");
    data_dir = b.dir;
    proxy_modes = a.modes;
    socks5_addrs = b.socks5;
    http_addrs = b.http;
    direct_rules = get_env env (codes "DIRECT_RULES") [];
    direct_ip_family = a.family;
    doh_host = d.doh;
    tunnel_dns = d.dns;
    local_on_nxdomain = d.local;
    health_addr = b.health;
    ssh_keepalive_period = a.period;
    ssh_keepalive_interval = a.interval;
    ssh_keepalive_probes = a.probes;
    dial_timeout = a.timeout;
    max_connections = b.limit;
    ui_allowed_hosts = b.hosts;
  }

  -- loadConfig.
  unfoldable pub load_config : Loaded Config
  load_config = do a ← load_ssh; b ← load_listen; d ← load_dns; ok (assemble a b d)
