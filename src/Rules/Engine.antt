-- ===== src/Rules/Engine.antt =====
-- rules.go: parsing DIRECT_RULES, and the decision. The parsers of net/netip and of regexp are
-- parameters; a compiled pattern is its MatchString.
use ssh_gate.Prelude.{
  Bool, true, false, not, ◌&&◌, ◌||◌, List, [], ◌∷◌, ◌++◌, Option, none, some, Text, codes,
  if◌then◌else◌, any, text_beq, to_lower, has_prefix, has_suffix, trim_prefix, trim_last,
  trim_space, split, drop,
}
use ssh_gate.Net.Addr.{Addr, Prefix, prefix_contains}
use ssh_gate.Net.Private.{is_private}
use ssh_gate.Resolver.{Resolver}

pub record Parsers : Type 0 where
  -- netip.ParseAddr, netip.ParsePrefix, regexp.Compile.
  pub parse_addr : Text → Option Addr
  pub parse_prefix : Text → Option Prefix
  pub compile : Text → Option (Text → Bool)

pub data Route : Type 0 where
  direct tunnel : Route

pub data Reason : Type 0 where
  private fallback local_private : Reason
  by_rule : Text → Reason

pub record RuleEntry : Type 0 where
  pub raw : Text
  pub ip_prefix : Option Prefix
  pub re : Option (Text → Bool)
  pub domain : Text

pub data RuleError : Type 0 where
  invalid_cidr empty_pattern invalid_regex no_domain : Text → RuleError

pub data Result {ℓ} (A : Type ℓ) : Type ℓ where
  ok : A → Result A
  err : RuleError → Result A

infixl 5 ◌>>=◌
abbrev pub ◌>>=◌ {ℓ κ} : {A : Type ℓ} {B : Type κ} → Result A → (A → Result B) → Result B
ok a >>= f = f a
err e >>= f = err e

abbrev pub or_fail {ℓ} : {A : Type ℓ} → Option A → RuleError → Result A
or_fail none e = err e
or_fail (some a) e = ok a

-- normalizeHost.
unfoldable pub normalize_host : Text → Text
normalize_host host = trim_last (to_lower host) b'.'

-- parseRuleEntry.
unfoldable pub parse_rule_entry : Parsers → Text → Result RuleEntry
parse_rule_entry ps raw =
    if has_prefix raw (codes "ip:")
    then (do
      prefix ← or_fail (ps.parse_prefix (drop 3 raw)) (invalid_cidr (drop 3 raw))
      ok (record { raw = raw; ip_prefix = some prefix; re = none; domain = [] }))
    else if has_prefix raw (codes "re:")
    then if text_beq (drop 3 raw) [] then err (empty_pattern raw) else (do
      re ← or_fail (ps.compile (drop 3 raw)) (invalid_regex (drop 3 raw))
      ok (record { raw = raw; ip_prefix = none; re = some re; domain = [] }))
    else let domain = normalize_host (trim_prefix raw (codes ".")) in
      if text_beq domain []
      then err (no_domain raw)
      else ok (record { raw = raw; ip_prefix = none; re = none; domain = domain })

abbrev pub is_ip_rule : RuleEntry → Bool
is_ip_rule r = elim r.ip_prefix [ none ↦ false | some p ↦ true ]

-- The loop of NewRuleEngine over the entries, with e.rules and ipRules.
unfoldable pub add_rules :
    Parsers → List Text → List RuleEntry → List RuleEntry → Result (List RuleEntry)
unfolding parse_rule_entry
add_rules ps [] rules ip_rules = ok (rules ++ ip_rules)
add_rules ps (entry ∷ entries) rules ip_rules =
    let e = trim_space entry in
    let skipped = add_rules ps entries rules ip_rules in
    let parsed = parse_rule_entry ps e >>= λ r.
    if is_ip_rule r
    then add_rules ps entries rules (ip_rules ++ r ∷ [])
    else add_rules ps entries (rules ++ r ∷ []) ip_rules in
    if text_beq e [] then skipped else parsed

-- NewRuleEngine: its rules, in the order in which Decide tries them.
unfoldable pub new_rule_engine : Parsers → Text → Result (List RuleEntry)
unfolding add_rules
new_rule_engine ps direct_rules =
    if text_beq direct_rules [] then ok [] else add_rules ps (split b',' direct_rules) [] []

-- The branches of ruleEntry.matches for the rules that need no lookup.
unfoldable pub matches_name : RuleEntry → Text → Bool
matches_name r host = elim r.re [
  | some re ↦ re host
  | none ↦
      not (text_beq r.domain [])
      && (text_beq host r.domain || has_suffix host (codes "." ++ r.domain))
]

module _ {S : Type 0} (rs : Resolver S) where
  -- ruleEntry.matches; only an `ip:` rule resolves the host.
  unfoldable pub matches : RuleEntry → Text → S → S × Bool
  matches r host s = elim r.ip_prefix [
    | some prefix ↦
        let (s', answer) = rs.resolve_tunnel host s in
        (s', elim answer [ none ↦ false | some (addrs, d) ↦ any (prefix_contains prefix) addrs ])
    | none ↦ (s, matches_name r host)
  ]

  -- The loop of Decide over the rules.
  unfoldable pub first_match : List RuleEntry → Text → S → S × Option Text
  unfolding matches
  first_match [] host s = (s, none)
  first_match (r ∷ rules) host s =
      let (s', hit) = matches r host s in
      let rest = first_match rules host s' in if hit then (s', some r.raw) else rest

  abbrev pub route_of : S × Option Text → S × (Route × Reason)
  route_of (s, none) = (s, (tunnel, fallback))
  route_of (s, some raw) = (s, (direct, by_rule raw))

  -- Decide.
  unfoldable pub decide : Parsers → List RuleEntry → Text → S → S × (Route × Reason)
  decide ps rules host s =
      let h = normalize_host host in
      let ruled = route_of (first_match rules h s) in
      elim (ps.parse_addr h) [
        | none ↦ ruled
        | some ip ↦ if is_private ip then (s, (direct, private)) else ruled
      ]
