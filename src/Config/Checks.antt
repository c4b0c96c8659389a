-- ===== src/Config/Checks.antt =====
-- main.go: what a valid configuration is, and what each parser lets through.
use ssh_gate.Prelude.{
  ℕ, ◌≤◌, ◌<◌, ◌≡◌, ◌≢◌, refl, subst, Bool, true, false, not, List, [], ◌∷◌, Option, none, some,
  Text, codes, text_beq, text_beq_iff, to_lower, trim_space, split, All, Bool-cases, Option-cases,
  inl, inr, arith,
}
use ssh_gate.Net.Addr.{Addr}
use ssh_gate.Syntax.Decimal.{ℤ, pos, negsuc, atoi}
use ssh_gate.Syntax.HostPort.{split_host_port, join_host_port}
use ssh_gate.Config.Values.{SettingParsers, validate_port, validate_host_port, contains}
use ssh_gate.Config.Lists.{
  add, or_default, or_error, parse_entries, valid_modes, check_mode, parse_modes, check_listen,
  parse_listen_list, has_host_delimiter, check_host, parse_host_list, check_server_parts,
  check_server, parse_tunnel_dns,
}
use ssh_gate.Config.Load.{
  Config, Loaded, ok, invalid, ◌>>=◌, refuse_if, read_as, conn_history_max_age,
}

abbrev pub IsPort : ℤ → Type 0
IsPort port = (n : ℕ) × (port ≡ pos n) × (1 ≤ n) × (n ≤ 65535)

-- A listen address: host:port with a port.
abbrev pub IsListen : Text → Type 0
IsListen addr =
    (host : Text) × (port : Text) × (split_host_port addr ≡ some (host, port)) × (port ≢ [])

abbrev pub IsHost : Text → Type 0
IsHost h = (split_host_port h ≡ none) × (has_host_delimiter h ≡ false)

-- A DNS server: an IP address and a port, joined.
abbrev pub IsServer : SettingParsers → Text → Type 0
IsServer ps s =
    (host : Text) × (port : Text) × (ip : Addr) × (n : ℤ) × (s ≡ join_host_port host port)
    × (ps.parse_addr host ≡ some ip)
    × (atoi port ≡ some n)
    × IsPort n

pub record IsConfig (ps : SettingParsers) (c : Config) : Type 0 where
  pub port : IsPort c.ssh_port
  pub some_mode : c.proxy_modes ≢ []
  pub modes : All (λ m. contains valid_modes m ≡ true) c.proxy_modes
  pub some_socks5 : c.socks5_addrs ≢ []
  pub socks5 : All IsListen c.socks5_addrs
  pub some_http : c.http_addrs ≢ []
  pub http : All IsListen c.http_addrs
  pub health : IsListen c.health_addr
  pub timeout_pos : 0 < c.dial_timeout
  -- A dial in flight is younger than the history window.
  pub timeout_small : c.dial_timeout < conn_history_max_age
  pub hosts : All IsHost c.ui_allowed_hosts
  -- Exactly one kind of tunnel resolver.
  pub servers : c.doh_host ≡ [] → (c.tunnel_dns ≢ []) × All (IsServer ps) c.tunnel_dns
  pub doh_alone : c.doh_host ≢ [] → c.tunnel_dns ≡ []

pub >>=-eq-ok :
    {A B : Type 0} (next : A → Loaded B) (b : B) (m : Loaded A)
    → (m >>= next) ≡ ok b
    → (a : A) × (m ≡ ok a) × (next a ≡ ok b)
unfolding ◌>>=◌
>>=-eq-ok next b (invalid setting) h = cc
>>=-eq-ok next b (ok a) h = (a, refl, h)

pub refuse_if-eq-ok :
    (refused : Bool) (setting : Text) {u : Unit {0}}
    → refuse_if refused setting ≡ ok u
    → refused ≡ false
refuse_if-eq-ok true setting h = cc
refuse_if-eq-ok false setting h = refl

pub read_as-eq-ok :
    {A : Type 0} (setting : Text) (read : Option A) {a : A}
    → read_as setting read ≡ ok a
    → read ≡ some a
read_as-eq-ok setting none h = cc
read_as-eq-ok setting (some a) h = cc

pub validate_port-IsPort : (n : ℤ) → not (validate_port n) ≡ false → IsPort n
validate_port-IsPort (pos n) h = (n, refl, ground arith, ground arith)
validate_port-IsPort (negsuc n) h = absurd (ground arith)

pub validate_host_port-IsListen : (s : Text) → validate_host_port s ≡ true → IsListen s
validate_host_port-IsListen s h = elim (Option-cases (split_host_port s)) [
  | inl e ↦ absurd (ground arith)
  | inr ((host, port), e) ↦ (host, port, e, λ empty. ground (arith, text_beq_iff port []))
]

module _ {ℓ κ} {A : Type ℓ} (P : A → Type κ) (clean : Text → Text) (check : Text → Option A)
    (holds : (e : Text) (a : A) → check e ≡ some a → P a) where
  add-All :
      (e : Text) (o : Option A) (rest : Option (List A)) (out : List A)
      → check e ≡ o
      → ((r : List A) → rest ≡ some r → All P r)
      → add o rest ≡ some out
      → All P out
  add-All e none rest out c h same = cc
  add-All e (some a) none out c h same = cc
  add-All e (some a) (some r) out c h same =
      let eq : a ∷ r ≡ out = cc in subst (All P) eq (holds e a c, h r refl)

  parse_entries-All :
      (entries : List Text) (out : List A)
      → parse_entries clean check entries ≡ some out
      → All P out
  unfolding parse_entries
  parse_entries-All [] out h = let eq : [] ≡ out = cc in subst (All P) eq tt
  parse_entries-All (entry ∷ entries) out h = elim (Bool-cases (text_beq (clean entry) [])) [
    | inl empty ↦ parse_entries-All entries out (rw (empty, parse_entries) at h)
    | inr given ↦
        add-All (clean entry) (check (clean entry)) (parse_entries clean check entries) out refl
          (λ r. parse_entries-All entries r) (rw (given, parse_entries) at h)
  ]

or_error-eq-some {ℓ} :
    {A : Type ℓ} (o : Option (List A)) (out : List A)
    → or_error o ≡ some out
    → (o ≡ some out) × (out ≢ [])
or_error-eq-some none out h = cc
or_error-eq-some (some []) out h = cc
or_error-eq-some (some (a ∷ r)) out h = (h, λ empty. cc)

check_listen-IsListen : (e a : Text) → check_listen e ≡ some a → IsListen a
check_listen-IsListen e a h = elim (Bool-cases (validate_host_port e)) [
  | inl v ↦ let same : e ≡ a = ground arith in subst IsListen same (validate_host_port-IsListen e v)
  | inr v ↦ absurd (ground arith)
]

pub parse_listen_list-All :
    (raw : Text) (out : List Text)
    → parse_listen_list raw ≡ some out
    → (out ≢ []) × All IsListen out
unfolding parse_listen_list
parse_listen_list-All raw out h =
    let (parsed, given) = or_error-eq-some _ out h in
    (
      given,
      parse_entries-All IsListen trim_space check_listen check_listen-IsListen (split b',' raw) out
          parsed,
    )

check_host-IsHost : (e a : Text) → check_host e ≡ some a → IsHost a
check_host-IsHost e a h = elim (Option-cases (split_host_port e)) [
  | inr (hp, s) ↦ absurd (ground arith)
  | inl s ↦ let same : e ≡ a = ground arith in subst IsHost same (s, ground arith)
]

pub parse_host_list-All :
    (raw : Text) (out : List Text) → parse_host_list raw ≡ some out → All IsHost out
unfolding parse_host_list
parse_host_list-All raw out h =
    parse_entries-All IsHost trim_space check_host check_host-IsHost (split b',' raw) out h

check_mode_valid : (e a : Text) → check_mode e ≡ some a → contains valid_modes a ≡ true
check_mode_valid e a h = elim (Bool-cases (contains valid_modes e)) [
  | inl v ↦ let same : e ≡ a = ground arith in subst (λ x. contains valid_modes x ≡ true) same v
  | inr v ↦ absurd (ground arith)
]

or_default-All {κ} :
    (P : Text → Type κ) (a : Text) (o : Option (List Text)) (out : List Text)
    → P a
    → ((r : List Text) → o ≡ some r → All P r)
    → or_default (a ∷ []) o ≡ some out
    → (out ≢ []) × All P out
or_default-All P a none out p h e = cc
or_default-All P a (some []) out p h e =
    let same : a ∷ [] ≡ out = cc in subst (λ r. (r ≢ []) × All P r) same (λ x. cc, (p, tt))
or_default-All P a (some (x ∷ r)) out p h e =
    let same : x ∷ r ≡ out = cc in subst (λ l. (l ≢ []) × All P l) same (λ y. cc, h (x ∷ r) refl)

pub parse_modes-All :
    (raw : Text) (out : List Text)
    → parse_modes raw ≡ some out
    → (out ≢ []) × All (λ m. contains valid_modes m ≡ true) out
unfolding parse_modes
parse_modes-All raw out h =
    or_default-All (λ m. contains valid_modes m ≡ true) (codes "socks5") _ out refl
      (parse_entries-All (λ m. contains valid_modes m ≡ true) (λ m. trim_space (to_lower m))
        check_mode check_mode_valid (split b',' raw))
      h

module _ (ps : SettingParsers) where
  check_server_parts-IsServer :
      (host port a : Text) → check_server_parts ps (host, port) ≡ some a → IsServer ps a
  check_server_parts-IsServer host port a h = elim (Option-cases (ps.parse_addr host)) [
    | inl e ↦ absurd (ground (arith, e))
    | inr (ip, e) ↦ elim (Option-cases (atoi port)) [
      | inl f ↦ absurd (ground (arith, e, f))
      | inr (n, f) ↦ elim (Bool-cases (validate_port n)) [
        | inr v ↦ absurd (ground (arith, e, f, v))
        | inl v ↦ (
          host,
          port,
          ip,
          n,
          ground (arith, e, f, v),
          e,
          f,
          validate_port-IsPort n (ground arith),
        )
      ]
    ]
  ]

  check_server-IsServer : (e a : Text) → check_server ps e ≡ some a → IsServer ps a
  check_server-IsServer e a h = elim (Option-cases (ps.parse_addr e)) [
    | inr (ip, p) ↦ check_server_parts-IsServer e (codes "53") a (rw (p, check_server) at h)
    | inl p ↦ elim (Option-cases (split_host_port e)) [
      | inl s ↦ absurd (ground (arith, p, s))
      | inr ((host, port), s) ↦
          check_server_parts-IsServer host port a (rw s at (rw (p, check_server) at h))
    ]
  ]

  pub parse_tunnel_dns-All :
      (raw : Text) (out : List Text)
      → parse_tunnel_dns ps raw ≡ some out
      → (out ≢ []) × All (IsServer ps) out
  unfolding parse_tunnel_dns
  parse_tunnel_dns-All raw out h =
      let (parsed, given) = or_error-eq-some _ out h in
      (
        given,
        parse_entries-All (IsServer ps) trim_space (check_server ps) check_server-IsServer
            (split b',' raw) out parsed,
      )
