-- ===== src/Web/Access.antt =====
-- health.go: who may use the Web UI.
use ssh_gate.Prelude.{
  ℕ, ◌≡◌, ◌≢◌, ◌↔◌, ◌⊎◌, inl, inr, refl, sym, ap, subst, ◌∙◌, Bool, true, false, List, [], ◌∷◌,
  Option, none, some, Text, codes, text_beq_iff, trim_prefix, trim_last, All, Bool-cases, arith,
}
use ssh_gate.Rules.Engine.{normalize_host}
use ssh_gate.Syntax.Decimal.{itoa}
use ssh_gate.Syntax.HostPort.{has_byte, split_host_port, join_host_port}
use ssh_gate.Syntax.RoundTrip.{NoBrackets, itoa-IsPlain, split_host_port-join_host_port}
use ssh_gate.Config.Values.{SettingParsers, contains}
use ssh_gate.Config.Lists.{has_host_delimiter}
use ssh_gate.Config.Load.{Config, ok, load_config}
use ssh_gate.Config.Checks.{IsHost}
use ssh_gate.Config.Sound.{load_config-IsConfig}
use ssh_gate.Web.Hosts.{
  loopback_hosts, names_host, new_allowed_hosts, allow_hosts, header_host, clean_host, with_listen,
  ui_name, ui_guard,
}

-- Some host of the list has that name.
abbrev pub IsListed : Text → List Text → Type 0
IsListed name [] = ⊥
IsListed name (host ∷ hosts) = (normalize_host host ≡ name) ⊎ IsListed name hosts

-- The names of the loopback.
abbrev pub IsLoopback : Text → Type 0
IsLoopback name = (name ≡ codes "localhost") ⊎ ((name ≡ codes "127.0.0.1") ⊎ (name ≡ codes "::1"))

-- The name of the listen address, if it has one.
abbrev pub IsListen : (Text → Option Bool) → Option (Text × Text) → Text → Type 0
IsListen unspecified listen name =
    (host : Text) × (port : Text) × (listen ≡ some (host, port))
    × (names_host unspecified host ≡ true)
    × (normalize_host host ≡ name)

contains-head :
    (v : Text) (slice : List Text) (s : Text)
    → (contains (v ∷ slice) s ≡ true) ↔ ((v ≡ s) ⊎ (contains slice s ≡ true))
contains-head v slice s = ground (arith, text_beq_iff v s)

allow_hosts-contains :
    (hosts allowed : List Text) (name : Text)
    → (contains (allow_hosts hosts allowed) name ≡ true)
      ↔ (IsListed name hosts ⊎ (contains allowed name ≡ true))
unfolding allow_hosts
allow_hosts-contains [] allowed name =
    ((λ h. inr h), (λ h. elim h [ inl e ↦ absurd e | inr e ↦ e ]))
allow_hosts-contains (host ∷ hosts) allowed name =
    let (into, from) = allow_hosts-contains hosts (normalize_host host ∷ allowed) name in
    let (first, rest) = contains-head (normalize_host host) allowed name in
    (
      (λ h. elim (into h) [
        | inl e ↦ inl (inr e)
        | inr e ↦ elim (first e) [ inl same ↦ inl (inl same) | inr old ↦ inr old ]
      ]),
      (λ h. from (elim h [
        | inl (inl same) ↦ inr (rest (inl same))
        | inl (inr later) ↦ inl later
        | inr old ↦ inr (rest (inr old))
      ])),
    )

loopback_hosts-contains : (name : Text) → (contains loopback_hosts name ≡ true) ↔ IsLoopback name
loopback_hosts-contains name = (
  (λ h. elim ((contains-head (codes "localhost") (codes "127.0.0.1" ∷ codes "::1" ∷ []) name).0 h) [
    | inl e ↦ inl (sym e)
    | inr h' ↦ elim ((contains-head (codes "127.0.0.1") (codes "::1" ∷ []) name).0 h') [
      | inl e ↦ inr (inl (sym e))
      | inr h'' ↦ elim ((contains-head (codes "::1") [] name).0 h'') [
        | inl e ↦ inr (inr (sym e))
        | inr e ↦ absurd (ground (arith, e))
      ]
    ]
  ]),
  (λ h. elim h [ inl e ↦ rw e | inr (inl e) ↦ rw e | inr (inr e) ↦ rw e ]),
)

-- A listed host.
contains-IsListed :
    (hosts : List Text) (host : Text)
    → contains hosts host ≡ true
    → IsListed (normalize_host host) hosts
contains-IsListed [] host h = absurd (ground arith)
contains-IsListed (v ∷ hosts) host h = elim ((contains-head v hosts host).0 h) [
  | inl e ↦ inl (ap normalize_host e)
  | inr later ↦ inr (contains-IsListed hosts host later)
]

All-contains :
    (P : Text → Type 0) (hosts : List Text) (host : Text)
    → All P hosts
    → contains hosts host ≡ true
    → P host
All-contains P [] host all h = absurd (ground arith)
All-contains P (v ∷ hosts) host (p, ps) h = elim ((contains-head v hosts host).0 h) [
  | inl e ↦ subst P e p
  | inr later ↦ All-contains P hosts host ps later
]

not_none : (hp : Text × Text) → none ≢ some hp
not_none hp e = ground arith

same_host :
    (host port host' port' : Text)
    → ◌≡◌ {A = Option (Text × Text)} (some (host, port)) (some (host', port'))
    → host ≡ host'
same_host host port host' port' e = cc

conflict : (b : Bool) → b ≡ true → b ≢ false
conflict b h h' = ground arith

with_listen-contains :
    (unspecified : Text → Option Bool) (listen : Option (Text × Text)) (name : Text)
    → (contains (with_listen unspecified listen) name ≡ true)
      ↔ (IsListen unspecified listen name ⊎ IsLoopback name)
with_listen-contains unspecified none name =
    let (into, from) = loopback_hosts-contains name in
    (
      (λ h. inr (into h)),
      (λ h. from (elim h [ inl (host, port, e, named, same) ↦ absurd (not_none _ e) | inr e ↦ e ])),
    )
with_listen-contains unspecified (some (host, port)) name =
    let (into, from) = loopback_hosts-contains name in
    elim (Bool-cases (names_host unspecified host)) [
      | inl named ↦ rw named (
        (λ h. elim ((contains-head (normalize_host host) loopback_hosts name).0 h) [
          | inl same ↦ inl (host, port, refl, named, same)
          | inr e ↦ inr (into e)
        ]),
        (λ h. (contains-head (normalize_host host) loopback_hosts name).1 (elim h [
          | inl (host', port', e, named', same) ↦
              inl (ap normalize_host (same_host host port host' port' e) ∙ same)
          | inr e ↦ inr (from e)
        ])),
      )
      | inr unnamed ↦ rw unnamed (
        (λ h. inr (into h)),
        (λ h. from (elim h [
          | inl (host', port', e, named', same) ↦ absurd (
              conflict (names_host unspecified host') named'
                (sym (ap (names_host unspecified) (same_host host port host' port' e)) ∙ unnamed))
          | inr e ↦ e
        ])),
      )
    ]

module _ (unspecified : Text → Option Bool) (listen : Text) (hosts : List Text) where
  abbrev pub guarded : Text → Bool
  guarded header = ui_guard (allow_hosts hosts (new_allowed_hosts unspecified listen)) header

  -- A request reaches the Web UI or the API exactly if the name in its Host header is one of the
  -- loopback, the host of the listen address, where that is a specific one, or listed in
  -- UI_ALLOWED_HOSTS, so that a page under any other name, whatever address it resolves to, is kept
  -- out.
  pub ui_guard_iff :
      (header : Text)
      → (guarded header ≡ true) ↔ (
          IsListed (ui_name header) hosts
          ⊎ (IsListen unspecified (split_host_port listen) (ui_name header)
              ⊎ IsLoopback (ui_name header)))
  unfolding ui_guard new_allowed_hosts
  ui_guard_iff header =
      let (into, from) =
        allow_hosts-contains hosts (new_allowed_hosts unspecified listen) (ui_name header) in
      let (own, known) =
        with_listen-contains unspecified (split_host_port listen) (ui_name header) in
      (
        (λ h. elim (into h) [ inl e ↦ inl e | inr e ↦ inr (own e) ]),
        (λ h. from (elim h [ inl e ↦ inl e | inr e ↦ inr (known e) ])),
      )

has_host_delimiter-NoBrackets : (h : Text) → has_host_delimiter h ≡ false → NoBrackets h
has_host_delimiter-NoBrackets [] e = (refl, refl)
has_host_delimiter-NoBrackets (c ∷ h) e =
    let rest = has_host_delimiter-NoBrackets h (ground arith) in ground arith

trim_prefix_lem : (h : Text) → has_byte b'[' h ≡ false → trim_prefix h (codes "[") ≡ h
trim_prefix_lem [] e = refl
trim_prefix_lem (c ∷ h) e = ground arith

trim_last_lem : (h : Text) → has_byte b']' h ≡ false → trim_last h b']' ≡ h
trim_last_lem [] e = refl
trim_last_lem (c ∷ []) e = ground arith
trim_last_lem (c ∷ d ∷ h) e = ap (◌∷◌ c) (trim_last_lem (d ∷ h) (ground arith))

trim_brackets : (h : Text) → NoBrackets h → trim_last (trim_prefix h (codes "[")) b']' ≡ h
trim_brackets h (opened, closed) =
    ap (λ t. trim_last t b']') (trim_prefix_lem h opened) ∙ trim_last_lem h closed

-- What the guard looks up, for a host alone and for a host with a port.
ui_name-host : (h : Text) → IsHost h → NoBrackets h → ui_name h ≡ normalize_host h
unfolding ui_name
ui_name-host h (alone, clean) plain =
    ap (λ o. clean_host (header_host h o)) alone ∙ ap normalize_host (trim_brackets h plain)

ui_name-join_host_port :
    (h : Text) (port : ℕ) → NoBrackets h → ui_name (join_host_port h (itoa port)) ≡ normalize_host h
unfolding ui_name
ui_name-join_host_port h port plain =
    ap (λ o. clean_host (header_host (join_host_port h (itoa port)) o))
      (split_host_port-join_host_port h (itoa port) plain (itoa-IsPlain port))
    ∙ ap normalize_host (trim_brackets h plain)

-- A host that loadConfig takes from UI_ALLOWED_HOSTS reaches the Web UI under its name, and under
-- its name with any port, also an IPv6 address, whose brackets the guard takes off.
pub load_config-ui_guard :
    (ps : SettingParsers) (env : Text → Text) (c : Config) (unspecified : Text → Option Bool)
    (host : Text) (port : ℕ)
    → load_config ps env ≡ ok c
    → contains c.ui_allowed_hosts host ≡ true
    → (guarded unspecified c.health_addr c.ui_allowed_hosts host ≡ true)
      × (guarded unspecified c.health_addr c.ui_allowed_hosts (join_host_port host (itoa port))
          ≡ true)
load_config-ui_guard ps env c unspecified host port loaded listed =
    let sound = load_config-IsConfig ps env c loaded in
    let alone : IsHost host = All-contains IsHost c.ui_allowed_hosts host sound.hosts listed in
    let plain = has_host_delimiter-NoBrackets host alone.1 in
    let known = contains-IsListed c.ui_allowed_hosts host listed in
    (
      (ui_guard_iff unspecified c.health_addr c.ui_allowed_hosts host).1 (
          inl (
            subst (λ name. IsListed name c.ui_allowed_hosts) (sym (ui_name-host host alone plain))
              known)),
      (ui_guard_iff unspecified c.health_addr c.ui_allowed_hosts
            (join_host_port host (itoa port))).1
          (inl (
            subst (λ name. IsListed name c.ui_allowed_hosts)
              (sym (ui_name-join_host_port host port plain)) known)),
    )
