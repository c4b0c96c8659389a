-- ===== src/Process/Starting.antt =====
-- main.go: nothing but its own checks and the world keeps the process from starting.
use ssh_gate.Prelude.{
  ◌≡◌, refl, ap, Bool, true, not, List, [], ◌∷◌, ◌++◌, Option, none, some, inl, inr, Text, codes,
  Bool-cases,
}
use ssh_gate.Rules.Engine.{RuleEntry, Result, new_rule_engine}
use ssh_gate.Config.Values.{contains, get_env, parse_on_off}
use ssh_gate.Config.Load.{Config, ok, ◌>>=◌, refuse_if, missing, load_config}
use ssh_gate.Storage.Keys.{ensure_ssh_key_pair}
use ssh_gate.Tunnel.Status.{plain_status, connecting}
use ssh_gate.Tunnel.Connect.{read_known_host_fingerprint}
use ssh_gate.Service.Notify.{Call, sets}
use ssh_gate.Service.Texts.{status_text, not_configured_text}
use ssh_gate.Process.Startup.{
  Kind, socks5, http, Server, World, Proxies, Process, endpoint_of, addresses, proxies_with,
  start_servers, start_mode, start_proxies, start_or_wait, servers_of, process_with, start_up,
}

module _ (w : World) where
  -- What a start needs of the world, for a configuration: the libraries' parts and the files work.
  pub record IsUsable (c : Config) : Type 0 where
    pub loads : load_config w.settings w.env ≡ ok c
    pub access :
        (on : Bool) × (parse_on_off (get_env w.env (codes "ACCESS_LOG") (codes "on")) ≡ some on)
    pub dir : w.make_dir ≡ true
    pub key :
        (line : Text) × ((ensure_ssh_key_pair w.library w.writes_private w.writes_public w.keys).1
          ≡ some line)
    pub ports : (used : List Text) (addr : Text) → w.listens used addr ≡ true
    pub known : (fp : Text) × (read_known_host_fingerprint w.known_hosts ≡ inr fp)
    pub parsed :
        (rules : List RuleEntry) × (new_rule_engine w.parsers c.direct_rules ≡ Result.ok rules)

  module _ (c : Config) (u : IsUsable c) where
    start_servers_ok :
        (kind : Kind) (addrs : List Text) (before : List Server)
        → (after : List Server) × (start_servers w kind addrs before ≡ ok after)
    unfolding start_servers ◌>>=◌
    start_servers_ok kind [] before = (before, refl)
    start_servers_ok kind (addr ∷ addrs) before =
        let (after, rest) =
          start_servers_ok kind addrs (before ++ record { kind = kind; listen = addr } ∷ []) in
        (after, rw (u.ports (addresses before) addr) rest)

    start_mode_ok :
        (mode : Text) (kind : Kind) (addrs : List Text) (before : List Server)
        → (after : List Server) × (start_mode w mode kind addrs c before ≡ ok after)
    start_mode_ok mode kind addrs before = elim (Bool-cases (contains c.proxy_modes mode)) [
      | inl e ↦ let (after, h) = start_servers_ok kind addrs before in (after, rw e h)
      | inr e ↦ (before, rw e refl)
    ]

    start_proxies_ok : (p : Proxies) × (start_proxies w c ≡ ok p)
    unfolding start_proxies ◌>>=◌
    start_proxies_ok =
        let (fp, known) = u.known in
        let (rules, parsed) = u.parsed in
        let (first, socks) = start_mode_ok (codes "socks5") socks5 c.socks5_addrs [] in
        let (servers, both) = start_mode_ok (codes "http") http c.http_addrs first in
        (proxies_with c fp rules servers, rw (known, parsed, socks, both) refl)

    start_or_wait_ok :
        (names : List Text)
        → (ready : Option Proxies × List Call) × (start_or_wait w c names ≡ ok ready)
    unfolding ◌>>=◌
    start_or_wait_ok [] =
        let (p, h) = start_proxies_ok in
        (
          (
            some p,
            sets (status_text w.texts (endpoint_of w.key_path c) (plain_status connecting)) ∷ [],
          ),
          rw h refl,
        )
    start_or_wait_ok (name ∷ names) = ((none, sets (not_configured_text (name ∷ names)) ∷ []), refl)

    -- Where the settings are accepted, the files of the keys and of the known host are in order, the
    -- direct rules parse and every address can be listened on, the process starts.
    pub start_up_ok : (p : Process) × (start_up w ≡ ok p)
    unfolding start_up ◌>>=◌
    start_up_ok =
        let (on, access) = u.access in
        let (line, key) = u.key in
        let ((proxies, calls), waits) = start_or_wait_ok (missing c) in
        let listens = u.ports (addresses (servers_of w proxies)) c.health_addr in
        let made = ap (λ b. refuse_if (not b) (codes "DATA_DIR")) u.dir in
        (process_with w c proxies calls, rw (access, u.loads, made, key, waits, listens) refl)
