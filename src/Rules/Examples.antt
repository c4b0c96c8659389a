-- ===== src/Rules/Examples.antt =====
-- rules.go: the theorems at concrete rules.
use ssh_gate.Prelude.{◌≡◌, refl, true, [], ◌∷◌, none, some, Text, codes, split, arith}
use ssh_gate.Net.Addr.{ip4}
use ssh_gate.Net.Private.{is_private}
use ssh_gate.Samples.{counting_resolver, few_parsers, private_addr}
use ssh_gate.Rules.Engine.{
  RuleEntry, direct, tunnel, ok, normalize_host, parse_rule_entry, add_rules, new_rule_engine,
  matches_name, matches, first_match, decide,
}
use ssh_gate.Rules.Parsing.{parse_all}
use ssh_gate.Rules.Decisions.{name_rule_hits, decide_name_rule}

abbrev direct_rules : Text
direct_rules = codes "ip:10.0.0.0/8, Lan.Example."

abbrev ip_rule : RuleEntry
ip_rule = record {
  raw = codes "ip:10.0.0.0/8";
  ip_prefix = some (record { addr = ip4 10 0 0 0; bits = 8 });
  re = none;
  domain = [];
}

abbrev name_rule : RuleEntry
name_rule = record {
  raw = codes "Lan.Example.";
  ip_prefix = none;
  re = none;
  domain = codes "lan.example";
}

parses : parse_all few_parsers (split b',' direct_rules) ≡ ok (ip_rule ∷ name_rule ∷ [])
unfolding parse_all parse_rule_entry normalize_host
parses = refl

built : new_rule_engine few_parsers direct_rules ≡ ok (name_rule ∷ ip_rule ∷ [])
unfolding new_rule_engine add_rules parse_rule_entry normalize_host
built = refl

hits : name_rule_hits (ip_rule ∷ name_rule ∷ []) (normalize_host (codes "NAS.lan.example.")) ≡ true
unfolding matches_name normalize_host
hits = refl

decide_name_rule_example :
    ((decide counting_resolver few_parsers
        (name_rule ∷ ip_rule ∷ [])
        (codes "NAS.lan.example.")
        0).0
      ≡ 0)
    × ((decide counting_resolver few_parsers
          (name_rule ∷ ip_rule ∷ [])
          (codes "NAS.lan.example.")
          0).1.0
        ≡ direct)
decide_name_rule_example =
    decide_name_rule counting_resolver few_parsers direct_rules (ip_rule ∷ name_rule ∷ [])
      (name_rule ∷ ip_rule ∷ []) (codes "NAS.lan.example.") 0 (ground arith) parses built hits

private_literal : is_private private_addr ≡ true
unfolding is_private
private_literal = refl

parsed_literal : few_parsers.parse_addr (normalize_host (codes "10.0.0.7")) ≡ some private_addr
unfolding normalize_host
parsed_literal = refl

tunnelled :
    (decide counting_resolver few_parsers (name_rule ∷ []) (codes "example.org") 0).1.0 ≡ tunnel
unfolding decide first_match matches matches_name normalize_host
tunnelled = refl
