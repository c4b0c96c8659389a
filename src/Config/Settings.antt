-- ===== src/Config/Settings.antt =====
-- main.go: concrete settings, for the examples.
use ssh_gate.Prelude.{
  ◌*◌, ◌≡◌, refl, [], ◌∷◌, none, some, Text, codes, text_beq, false, if◌then◌else◌, nat_eq,
}
use ssh_gate.Net.Addr.{ip4}
use ssh_gate.Syntax.Decimal.{pos, atoi}
use ssh_gate.Opener.Candidates.{both, parse_ip_family}
use ssh_gate.Syntax.HostPort.{split_host_port}
use ssh_gate.Config.Lists.{parse_modes, parse_listen_list, parse_host_list, parse_tunnel_dns}
use ssh_gate.Config.Values.{SettingParsers, second}
use ssh_gate.Config.Load.{Config, ok, load_config, load_ssh, load_listen, load_dns, ◌>>=◌}

abbrev pub small_parsers : SettingParsers
small_parsers = record {
  parse_addr = λ t.
      if text_beq t (codes "1.1.1.1")
      then some (ip4 1 1 1 1)
      else if text_beq t (codes "8.8.8.8")
      then some (ip4 8 8 8 8)
      else none;
  parse_ip = λ t. none;
  parse_duration = λ t.
      if text_beq t (codes "10s")
      then some (pos (10 * second))
      else if text_beq t (codes "1s")
      then some (pos second)
      else some (pos (30 * second));
}

-- The host, the user and the allowed hosts, the rest by default.
abbrev pub small_env : Text → Text
small_env key =
    if text_beq key (codes "SSH_HOST")
    then codes "gate.example"
    else if text_beq key (codes "SSH_USER")
    then codes "me"
    else if text_beq key (codes "UI_ALLOWED_HOSTS")
    then codes "gate.lan,fd00::1"
    else []

abbrev pub defaults : Config
defaults = record {
  ssh_host = codes "gate.example";
  ssh_port = pos 22;
  ssh_user = codes "me";
  data_dir = codes "/data";
  proxy_modes = codes "socks5" ∷ [];
  socks5_addrs = codes ":1080" ∷ [];
  http_addrs = codes ":3128" ∷ [];
  direct_rules = [];
  direct_ip_family = both;
  doh_host = [];
  tunnel_dns = codes "1.1.1.1:53" ∷ codes "8.8.8.8:53" ∷ [];
  local_on_nxdomain = false;
  health_addr = codes "127.0.0.1:9090";
  ssh_keepalive_period = 10 * second;
  ssh_keepalive_interval = 1;
  ssh_keepalive_probes = 5;
  dial_timeout = 30 * second;
  max_connections = 4096;
  ui_allowed_hosts = codes "gate.lan" ∷ codes "fd00::1" ∷ [];
}

pub loaded : load_config small_parsers small_env ≡ ok defaults
unfolding load_config load_ssh load_listen load_dns ◌>>=◌ atoi parse_modes parse_ip_family
    parse_listen_list split_host_port parse_host_list parse_tunnel_dns
loaded = refl
