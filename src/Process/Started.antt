-- ===== src/Process/Started.antt =====
-- main.go: what a process that has started serves.
use ssh_gate.Prelude.{
  ◌≡◌, ◌≢◌, refl, sym, ap, subst, ◌∙◌, Bool, true, false, not, ◌&&◌, List, [], ◌∷◌, ◌++◌, map,
  Option, none, some, ◌⊎◌, inl, inr, Text, codes, text_beq, text_beq_iff, if◌then◌else◌, Bool-cases,
  arith,
}
use ssh_gate.Rules.Engine.{RuleEntry, Result, new_rule_engine}
use ssh_gate.Config.Values.{SettingParsers, contains}
use ssh_gate.Config.Load.{Config, ok, missing, load_config}
use ssh_gate.Config.Checks.{IsConfig, >>=-eq-ok, read_as-eq-ok}
use ssh_gate.Config.Sound.{load_config-IsConfig}
use ssh_gate.Dns.Servers.{set_tunnel_dns}
use ssh_gate.Tunnel.Status.{plain_status, connecting, SshError}
use ssh_gate.Tunnel.Connect.{read_known_host_fingerprint}
use ssh_gate.Tunnel.Monitor.{new_ssh_dialer}
use ssh_gate.Service.Notify.{Call, sets, readies}
use ssh_gate.Service.Texts.{status_text, not_configured_text}
use ssh_gate.Process.Startup.{
  Kind, socks5, http, health, Server, World, Proxies, Process, configure_dns, endpoint_of,
  proxies_with, fingerprint_of, rules_of, start_servers, start_mode, start_proxies, start_or_wait,
  serve_all, servers_of, start_up,
}

-- The servers of the addresses.
abbrev pub servers_on : Kind → List Text → List Server
servers_on kind addrs = map (λ a. record { kind = kind; listen = a }) addrs

-- The addresses of a mode that is on.
abbrev pub mode_servers : Text → Kind → List Text → Config → List Server
mode_servers mode kind addrs c = if contains c.proxy_modes mode then servers_on kind addrs else []

abbrev pub health_server : Config → Server
health_server c = record { kind = health; listen = c.health_addr }

abbrev pub proxy_servers : Config → List Server
proxy_servers c =
    mode_servers (codes "socks5") socks5 c.socks5_addrs c
    ++ mode_servers (codes "http") http c.http_addrs c

append_move :
    (xs : List Server) (x : Server) (ys : List Server) → (xs ++ x ∷ []) ++ ys ≡ xs ++ x ∷ ys
append_move [] x ys = refl
append_move (y ∷ xs) x ys = ap (◌∷◌ y) (append_move xs x ys)

append_nil : (xs : List Server) → xs ++ [] ≡ xs
append_nil [] = refl
append_nil (x ∷ xs) = ap (◌∷◌ x) (append_nil xs)

moved {κ} : {A : Type 0} (P : A → Type κ) {x a : A} → ok x ≡ ok a → P x → P a
moved {A} P {x} {a} e h = let same : x ≡ a = cc in subst P same h

fingerprint_of-eq-some : (r : SshError ⊎ Text) (fp : Text) → fingerprint_of r ≡ some fp → r ≡ inr fp
fingerprint_of-eq-some (inl e) fp h = absurd (ground arith)
fingerprint_of-eq-some (inr a) fp h = let same : a ≡ fp = cc in ap inr same

rules_of-eq-some :
    (r : Result (List RuleEntry)) (rules : List RuleEntry)
    → rules_of r ≡ some rules
    → r ≡ Result.ok rules
rules_of-eq-some (Result.err e) rules h = absurd (ground arith)
rules_of-eq-some (Result.ok a) rules h = let same : a ≡ rules = cc in ap Result.ok same

-- Neither SSH_HOST nor SSH_USER is empty.
abbrev pub is_configured : Config → Bool
is_configured c = not (text_beq c.ssh_host []) && not (text_beq c.ssh_user [])

is_configured-true : (c : Config) → missing c ≡ [] → is_configured c ≡ true
is_configured-true c h = elim (Bool-cases (text_beq c.ssh_host [])) [
  | inl e ↦ absurd (ground (arith, e, h))
  | inr e ↦ elim (Bool-cases (text_beq c.ssh_user [])) [
    | inl k ↦ absurd (ground (arith, e, k, h))
    | inr k ↦ rw (e, k) refl
  ]
]

clash : (name : Text) (names : List Text) → name ∷ names ≢ []
clash name names e = ground arith

is_configured-false :
    (c : Config) (name : Text) (names : List Text)
    → missing c ≡ name ∷ names
    → is_configured c ≡ false
is_configured-false c name names h = elim (Bool-cases (text_beq c.ssh_host [])) [
  | inl e ↦ rw e refl
  | inr e ↦ elim (Bool-cases (text_beq c.ssh_user [])) [
    | inl k ↦ rw (e, k) refl
    | inr k ↦ absurd (clash name names (sym h ∙ rw (e, k) refl))
  ]
]

-- A sound configuration has a tunnel resolver.
configure_dns-ne : {ps : SettingParsers} (c : Config) → IsConfig ps c → configure_dns c ≢ []
configure_dns-ne c sound = elim (Bool-cases (text_beq c.doh_host [])) [
  | inl e ↦ λ h.
      let no_doh = (text_beq_iff c.doh_host []).0 e in
      (sound.servers no_doh).0 (map_nil c.tunnel_dns (rw e at h))
  | inr e ↦ λ h. absurd (ground (arith, rw e at h))
]
  where
    map_nil : (servers : List Text) → set_tunnel_dns servers ≡ [] → servers ≡ []
    map_nil [] h = refl
    map_nil (s ∷ servers) h = absurd (ground arith)

module _ (w : World) where
  start_servers-eq-ok :
      (kind : Kind) (addrs : List Text) (before after : List Server)
      → start_servers w kind addrs before ≡ ok after
      → after ≡ before ++ servers_on kind addrs
  unfolding start_servers
  start_servers-eq-ok kind [] before after h =
      let same : before ≡ after = cc in sym same ∙ sym (append_nil before)
  start_servers-eq-ok kind (addr ∷ addrs) before after h =
      let (u, listens, rest) = >>=-eq-ok _ _ _ h in
      start_servers-eq-ok kind addrs (before ++ record { kind = kind; listen = addr } ∷ []) after
        rest
      ∙ append_move before (record { kind = kind; listen = addr }) (servers_on kind addrs)

  start_mode-eq-ok :
      (mode : Text) (kind : Kind) (addrs : List Text) (c : Config) (before after : List Server)
      → start_mode w mode kind addrs c before ≡ ok after
      → after ≡ before ++ mode_servers mode kind addrs c
  start_mode-eq-ok mode kind addrs c before after h =
      elim (Bool-cases (contains c.proxy_modes mode)) [
        | inl e ↦ rw e (start_servers-eq-ok kind addrs before after (rw e at h))
        | inr e ↦
            let kept : ok before ≡ ok after = rw e at h in
            let same : before ≡ after = cc in rw e (sym same ∙ sym (append_nil before))
      ]

  -- The proxies of a configuration.
  pub record IsProxies (c : Config) (p : Proxies) : Type 0 where
    pub served : p.servers ≡ proxy_servers c
    pub upstreams_from : p.upstreams ≡ configure_dns c
    pub local_lookup : p.local_on_nxdomain ≡ c.local_on_nxdomain
    pub trusts :
        (fp : Text) × (read_known_host_fingerprint w.known_hosts ≡ inr fp)
        × (p.dialer ≡ new_ssh_dialer fp)
    pub rules_of_config : new_rule_engine w.parsers c.direct_rules ≡ Result.ok p.rules

  proxies_with-IsProxies :
      (c : Config) (fp : Text) (rules : List RuleEntry) (first servers : List Server)
      → fingerprint_of (read_known_host_fingerprint w.known_hosts) ≡ some fp
      → rules_of (new_rule_engine w.parsers c.direct_rules) ≡ some rules
      → start_mode w (codes "socks5") socks5 c.socks5_addrs c [] ≡ ok first
      → start_mode w (codes "http") http c.http_addrs c first ≡ ok servers
      → IsProxies c (proxies_with c fp rules servers)
  proxies_with-IsProxies c fp rules first servers known parsed socks both = record {
    served =
        start_mode-eq-ok (codes "http") http c.http_addrs c first servers both
        ∙ ap (λ l. l ++ mode_servers (codes "http") http c.http_addrs c)
            (start_mode-eq-ok (codes "socks5") socks5 c.socks5_addrs c [] first socks);
    upstreams_from = refl;
    local_lookup = refl;
    trusts = (fp, fingerprint_of-eq-some _ fp known, refl);
    rules_of_config = rules_of-eq-some _ rules parsed;
  }

  start_proxies-IsProxies : (c : Config) (p : Proxies) → start_proxies w c ≡ ok p → IsProxies c p
  unfolding start_proxies
  start_proxies-IsProxies c p h0 =
      let (fp, known, h1) = >>=-eq-ok _ _ _ h0 in
      let (rules, parsed, h2) = >>=-eq-ok _ _ _ h1 in
      let (first, socks, h3) = >>=-eq-ok _ _ _ h2 in
      let (servers, both, h4) = >>=-eq-ok _ _ _ h3 in
      moved (IsProxies c) h4 (
        proxies_with-IsProxies c fp rules first servers (read_as-eq-ok (codes "SSH dialer") _ known)
          (read_as-eq-ok (codes "rule engine") _ parsed) socks both)

  -- The status line before the tunnel's own.
  abbrev pub call_of : Config → List Text → Call
  call_of c [] = sets (status_text w.texts (endpoint_of w.key_path c) (plain_status connecting))
  call_of c (name ∷ names) = sets (not_configured_text (name ∷ names))

  abbrev pub first_call : Config → Call
  first_call c = call_of c (missing c)

  abbrev pub HasProxies : Config → Option Proxies → Type 0
  HasProxies c none = missing c ≢ []
  HasProxies c (some q) = (missing c ≡ []) × (IsProxies c q × (q.upstreams ≢ []))

  pub record IsStarted (p : Process) : Type 0 where
    pub loads : load_config w.settings w.env ≡ ok p.config
    pub proxied : HasProxies p.config p.proxies
    pub served :
        p.servers
        ≡ (if is_configured p.config then proxy_servers p.config else [])
          ++ health_server p.config ∷ []
    pub told : p.calls ≡ first_call p.config ∷ readies ∷ []

  abbrev IsReady : Config → Option Proxies × List Call → Type 0
  IsReady c ready =
      HasProxies c ready.0
      × ((servers_of w ready.0 ≡ (if is_configured c then proxy_servers c else []))
          × (ready.1 ≡ first_call c ∷ []))

  start_or_wait-IsReady :
      (c : Config) (names : List Text) (ready : Option Proxies × List Call)
      → load_config w.settings w.env ≡ ok c
      → missing c ≡ names
      → start_or_wait w c names ≡ ok ready
      → IsReady c ready
  start_or_wait-IsReady c [] ready loaded none_missing h =
      let (p, started, made) = >>=-eq-ok _ _ _ h in
      let fine = start_proxies-IsProxies c p started in
      let on = is_configured-true c none_missing in
      let some_resolver = configure_dns-ne c (load_config-IsConfig w.settings w.env c loaded) in
      moved (IsReady c) made (
        (none_missing, (fine, λ e. some_resolver (sym fine.upstreams_from ∙ e))),
        (rw on fine.served, ap (λ names. call_of c names ∷ []) (sym none_missing)),
      )
  start_or_wait-IsReady c (name ∷ names) ready loaded some_missing h =
      let off = is_configured-false c name names some_missing in
      moved (IsReady c) h (
        (λ e. absurd (clash name names (sym some_missing ∙ e))),
        (rw off refl, ap (λ names. call_of c names ∷ []) (sym some_missing)),
      )

  serve_all-IsStarted :
      (c : Config) (ready : Option Proxies × List Call) (p : Process)
      → load_config w.settings w.env ≡ ok c
      → IsReady c ready
      → serve_all w c ready ≡ ok p
      → IsStarted p
  serve_all-IsStarted c (proxies, calls) p loaded (proxied, (served, told)) h =
      let (u, listens, made) = >>=-eq-ok _ _ _ h in
      moved IsStarted made (record {
        loads = loaded;
        proxied = proxied;
        served = ap (λ l. l ++ health_server c ∷ []) served;
        told = ap (λ l. l ++ readies ∷ []) told;
      })

  -- A process that starts runs on the configuration that loadConfig accepts. It serves, in this order,
  -- each SOCKS5 and each HTTP address of the modes that are on, and the health address; without
  -- SSH_HOST or SSH_USER only the last, with no tunnel. With a tunnel, the dialer is pinned to the
  -- known host, the rules are those of DIRECT_RULES, and there is at least one tunnel resolver. The
  -- service manager is told the state of the tunnel, or what is missing, and then that it is ready.
  pub start_up-IsStarted : (p : Process) → start_up w ≡ ok p → IsStarted p
  unfolding start_up
  start_up-IsStarted p h0 =
      let (access, a, h1) = >>=-eq-ok _ _ _ h0 in
      let (c, loaded, h2) = >>=-eq-ok _ _ _ h1 in
      let (u, dir, h3) = >>=-eq-ok _ _ _ h2 in
      let (key, pair, h4) = >>=-eq-ok _ _ _ h3 in
      let (ready, waited, h5) = >>=-eq-ok _ _ _ h4 in
      serve_all-IsStarted c ready p loaded
        (start_or_wait-IsReady c (missing c) ready loaded refl waited) h5
