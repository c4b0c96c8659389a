-- ===== src/Rules/Decisions.antt =====
-- rules.go: what a decision says, and when it asks a resolver.
use ssh_gate.Prelude.{
  ◌≡◌, ◌≢◌, refl, inl, inr, Bool, true, false, not, ◌&&◌, List, [], ◌∷◌, ◌++◌, none, some, Text,
  keep, any, All, keep-All, Bool-cases, Option-cases, split, arith,
}
use ssh_gate.Net.Addr.{Addr}
use ssh_gate.Net.Private.{is_private}
use ssh_gate.Resolver.{Resolver}
use ssh_gate.Rules.Engine.{
  Parsers, RuleEntry, direct, tunnel, private, ok, normalize_host, is_ip_rule, matches_name,
  matches, first_match, decide, new_rule_engine,
}
use ssh_gate.Rules.Parsing.{arrange, parse_all, new_rule_engine-arrange}

-- Some rule that needs no lookup matches the name.
abbrev pub name_rule_hits : List RuleEntry → Text → Bool
name_rule_hits rules h = any (λ r. not (is_ip_rule r) && matches_name r h) rules

module _ {S : Type 0} (rs : Resolver S) (ps : Parsers) where
  matches_name_rule :
      (r : RuleEntry) (h : Text) (s : S)
      → is_ip_rule r ≡ false
      → matches rs r h s ≡ (s, matches_name r h)
  unfolding matches matches_name
  matches_name_rule r h s e = elim (Option-cases r.ip_prefix) [
    | inl plain ↦ rw (plain, matches)
    | inr (p, ip) ↦ absurd (ground arith)
  ]

  -- In an arranged list a name rule that hits is found before any lookup.
  first_match-arrange :
      (names ips : List RuleEntry) (h : Text) (s : S)
      → All (λ r. not (is_ip_rule r) ≡ true) names
      → name_rule_hits names h ≡ true
      → (raw : Text) × (first_match rs (names ++ ips) h s ≡ (s, some raw))
  unfolding first_match
  first_match-arrange [] ips h s plain hit = cc
  first_match-arrange (r ∷ names) ips h s plain hit =
      let m = matches_name_rule r h s (ground arith) in
      elim (Bool-cases (matches_name r h)) [
        | inl yes_hit ↦ (r.raw, rw m (rw yes_hit))
        | inr miss ↦
            let (raw, found) = first_match-arrange names ips h s plain.1 (ground arith) in
            (raw, rw m (rw (miss, found)))
      ]

  hits-arrange :
      (rules : List RuleEntry) (h : Text)
      → name_rule_hits rules h ≡ true
      → name_rule_hits (keep (λ r. not (is_ip_rule r)) rules) h ≡ true
  hits-arrange [] h e = e
  hits-arrange (r ∷ rules) h e = ground (arith, hits-arrange rules h)

  -- A name that a domain or regex rule of DIRECT_RULES matches goes direct, and no resolver is asked
  -- whatever the order of the entries: the resolver's state is as it was.
  pub decide_name_rule :
      (direct_rules : Text) (all rules : List RuleEntry) (host : Text) (s : S)
      → direct_rules ≢ []
      → parse_all ps (split b',' direct_rules) ≡ ok all
      → new_rule_engine ps direct_rules ≡ ok rules
      → name_rule_hits all (normalize_host host) ≡ true
      → ((decide rs ps rules host s).0 ≡ s) × ((decide rs ps rules host s).1.0 ≡ direct)
  unfolding decide
  decide_name_rule direct_rules all rules host s given parsed built hit =
      let arranged : rules ≡ arrange all =
        ground (arith, new_rule_engine-arrange ps direct_rules given) in
      let (raw, found) =
        first_match-arrange (keep (λ r. not (is_ip_rule r)) all) (keep is_ip_rule all)
          (normalize_host host) s (keep-All _ all) (hits-arrange all (normalize_host host) hit) in
      rw arranged (ruled raw found)
    where
      ruled :
          (raw : Text)
          → first_match rs (arrange all) (normalize_host host) s ≡ (s, some raw)
          → ((decide rs ps (arrange all) host s).0 ≡ s)
            × ((decide rs ps (arrange all) host s).1.0 ≡ direct)
      ruled raw found = ground arith

  -- An IP literal in a private range goes direct under any rules, and no resolver is asked.
  pub decide_private :
      (rules : List RuleEntry) (host : Text) (ip : Addr) (s : S)
      → ps.parse_addr (normalize_host host) ≡ some ip
      → is_private ip ≡ true
      → decide rs ps rules host s ≡ (s, (direct, private))
  unfolding decide
  decide_private rules host ip s parsed p = rw (parsed, decide) (rw p)

  first_match-none :
      (rules : List RuleEntry) (h : Text) (s : S)
      → (first_match rs rules h s).1 ≡ none
      → name_rule_hits rules h ≡ false
  unfolding first_match
  first_match-none [] h s e = refl
  first_match-none (r ∷ rules) h s e =
      ground (arith, matches_name_rule r h s, first_match-none rules h (matches rs r h s).0)

  -- A host is sent to the tunnel only if it is no private literal and no domain or regex rule
  -- matches it.
  pub decide_tunnel :
      (rules : List RuleEntry) (host : Text) (s : S)
      → (decide rs ps rules host s).1.0 ≡ tunnel
      → (name_rule_hits rules (normalize_host host) ≡ false)
        × ((ip : Addr) → ps.parse_addr (normalize_host host) ≡ some ip → is_private ip ≡ false)
  unfolding decide
  decide_tunnel rules host s h =
      (ground (arith, first_match-none rules (normalize_host host) s), λ ip parsed. ground arith)
