-- ===== src/Config/Sound.antt =====
-- main.go: what loadConfig guarantees of the settings that it returns.
use ssh_gate.Prelude.{
  ℕ, ◌<◌, ◌≡◌, ◌≢◌, refl, subst, leb, Bool, true, false, not, List, [], ◌∷◌, some, Text, codes, All,
  Option-cases, inl, inr, arith,
}
use ssh_gate.Syntax.Decimal.{pos, negsuc}
use ssh_gate.Config.Values.{SettingParsers, contains, parse_dial_timeout}
use ssh_gate.Config.Lists.{valid_modes}
use ssh_gate.Config.Load.{
  Config, ok, conn_history_max_age, resolvers, SshSettings, ListenSettings, DnsSettings, load_ssh,
  load_listen, load_dns, load_config,
}
use ssh_gate.Config.Checks.{
  IsPort, IsListen, IsHost, IsConfig, IsServer, >>=-eq-ok, refuse_if-eq-ok, read_as-eq-ok,
  validate_port-IsPort, validate_host_port-IsListen, parse_listen_list-All, parse_host_list-All,
  parse_modes-All, parse_tunnel_dns-All,
}

module _ (ps : SettingParsers) (env : Text → Text) where
  resolvers-All :
      (doh : Text) (dns : List Text)
      → resolvers ps env doh ≡ ok dns
      → (doh ≡ [] → (dns ≢ []) × All (IsServer ps) dns) × (doh ≢ [] → dns ≡ [])
  resolvers-All [] dns h = (
    λ e. parse_tunnel_dns-All ps _ dns (read_as-eq-ok (codes "TUNNEL_DNS") _ h),
    λ e. absurd (e refl),
  )
  resolvers-All (c ∷ doh) dns h = (λ e. absurd (ground arith), λ e. cc)

  dial_timeout_pos : (raw : Text) (t : ℕ) → parse_dial_timeout ps raw ≡ some t → 0 < t
  dial_timeout_pos raw t h = elim (Option-cases (ps.parse_duration raw)) [
    | inl e ↦ absurd (ground arith)
    | inr (pos d, e) ↦ ground arith
    | inr (negsuc d, e) ↦ absurd (ground arith)
  ]

  moved {κ} : {A : Type 0} (P : A → Type κ) {x a : A} → ok x ≡ ok a → P x → P a
  moved {A} P {x} {a} e h = let same : x ≡ a = cc in subst P same h

  true_of : (b : Bool) → not b ≡ false → b ≡ true
  true_of b h = ground arith

  lt_of_leb : (a b : ℕ) → leb a b ≡ false → b < a
  lt_of_leb a b h = ground arith

  abbrev IsSsh : SshSettings → Type 0
  IsSsh a =
      IsPort a.port
      × ((a.modes ≢ []) × All (λ m. contains valid_modes m ≡ true) a.modes)
      × (0 < a.timeout)
      × (a.timeout < conn_history_max_age)

  abbrev IsListens : ListenSettings → Type 0
  IsListens b =
      ((b.socks5 ≢ []) × All IsListen b.socks5)
      × ((b.http ≢ []) × All IsListen b.http)
      × IsListen b.health
      × All IsHost b.hosts

  abbrev IsDns : DnsSettings → Type 0
  IsDns d = (d.doh ≡ [] → (d.dns ≢ []) × All (IsServer ps) d.dns) × (d.doh ≢ [] → d.dns ≡ [])

  load_ssh-IsSsh : (a : SshSettings) → load_ssh ps env ≡ ok a → IsSsh a
  unfolding load_ssh
  load_ssh-IsSsh a h0 =
      let (port, p, h1) = >>=-eq-ok _ _ _ h0 in
      let (u1, valid_port, h2) = >>=-eq-ok _ _ _ h1 in
      let (modes, m, h3) = >>=-eq-ok _ _ _ h2 in
      let (u2, ipv6, h4) = >>=-eq-ok _ _ _ h3 in
      let (family, f, h5) = >>=-eq-ok _ _ _ h4 in
      let (period, kp, h6) = >>=-eq-ok _ _ _ h5 in
      let (interval, ki, h7) = >>=-eq-ok _ _ _ h6 in
      let (probes, kn, h8) = >>=-eq-ok _ _ _ h7 in
      let (timeout, t, h9) = >>=-eq-ok _ _ _ h8 in
      let (u3, window, h10) = >>=-eq-ok _ _ _ h9 in
      moved IsSsh h10 (
        validate_port-IsPort port (refuse_if-eq-ok _ (codes "SSH_PORT") valid_port),
        parse_modes-All _ modes (read_as-eq-ok (codes "PROXY_MODES") _ m),
        dial_timeout_pos _ timeout (read_as-eq-ok (codes "SSH_DIAL_TIMEOUT") _ t),
        lt_of_leb _ _ (refuse_if-eq-ok _ (codes "SSH_DIAL_TIMEOUT") window),
      )

  load_listen-IsListens : (b : ListenSettings) → load_listen ps env ≡ ok b → IsListens b
  unfolding load_listen
  load_listen-IsListens b h0 =
      let (limit, l, h1) = >>=-eq-ok _ _ _ h0 in
      let (socks5, s5, h2) = >>=-eq-ok _ _ _ h1 in
      let (http, ht, h3) = >>=-eq-ok _ _ _ h2 in
      let (u4, health, h4) = >>=-eq-ok _ _ _ h3 in
      let (hosts, ho, h5) = >>=-eq-ok _ _ _ h4 in
      let (u5, dir, h6) = >>=-eq-ok _ _ _ h5 in
      moved IsListens h6 (
        parse_listen_list-All _ socks5 (read_as-eq-ok (codes "SOCKS5_LISTEN") _ s5),
        parse_listen_list-All _ http (read_as-eq-ok (codes "HTTP_LISTEN") _ ht),
        validate_host_port-IsListen _
            (true_of _ (refuse_if-eq-ok _ (codes "HEALTH_LISTEN") health)),
        parse_host_list-All _ hosts (read_as-eq-ok (codes "UI_ALLOWED_HOSTS") _ ho),
      )

  load_dns-IsDns : (d : DnsSettings) → load_dns ps env ≡ ok d → IsDns d
  unfolding load_dns
  load_dns-IsDns d h0 =
      let (u6, doh, h1) = >>=-eq-ok _ _ _ h0 in
      let (u7, alone, h2) = >>=-eq-ok _ _ _ h1 in
      let (dns, found, h3) = >>=-eq-ok _ _ _ h2 in
      let (local, lo, h4) = >>=-eq-ok _ _ _ h3 in
      moved IsDns h4 (resolvers-All (env (codes "DOH_HOST")) dns found)

  -- A configuration that loadConfig accepts is sound: the port of SSH_PORT is in 1..65535, there is a proxy
  -- mode and all are known, each list of listen addresses has an address and each address a port that is
  -- not empty, and need not be a number, the dial
  -- timeout is positive and below the history window, allowed hosts have no port, and there is exactly
  -- one kind of tunnel resolver, DNS servers being IP addresses with a port in 1..65535.
  pub load_config-IsConfig : (c : Config) → load_config ps env ≡ ok c → IsConfig ps c
  unfolding load_config
  load_config-IsConfig c h0 =
      let (a, ssh, h1) = >>=-eq-ok _ _ _ h0 in
      let (b, listen, h2) = >>=-eq-ok _ _ _ h1 in
      let (d, dns, h3) = >>=-eq-ok _ _ _ h2 in
      let (port, modes, pos_timeout, small) = load_ssh-IsSsh a ssh in
      let (socks5, http, health, hosts) = load_listen-IsListens b listen in
      let (servers, doh_alone) = load_dns-IsDns d dns in
      moved (IsConfig ps) h3 (record {
        port = port;
        some_mode = modes.0;
        modes = modes.1;
        some_socks5 = socks5.0;
        socks5 = socks5.1;
        some_http = http.0;
        http = http.1;
        health = health;
        timeout_pos = pos_timeout;
        timeout_small = small;
        hosts = hosts;
        servers = servers;
        doh_alone = doh_alone;
      })
