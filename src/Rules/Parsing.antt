-- ===== src/Rules/Parsing.antt =====
-- rules.go: what NewRuleEngine makes of DIRECT_RULES.
use mathlib.Core.List.{append_assoc, append-nil}
use ssh_gate.Prelude.{
  ◌≡◌, refl, ◌∙◌, ◌⊎◌, ◌↔◌, ◌≢◌, inl, inr, true, false, not, ◌||◌, List, [], ◌∷◌, ◌++◌, none, Text,
  codes, if◌then◌else◌, keep, text_beq, text_beq_iff, has_suffix, has_suffix-eq_append,
  has_suffix-append, trim_space, split, Bool-cases, arith,
}
use ssh_gate.Rules.Engine.{
  Parsers, RuleEntry, RuleError, Result, ok, err, ◌>>=◌, parse_rule_entry, is_ip_rule, add_rules,
  new_rule_engine, matches_name,
}

-- Every entry in the order of DIRECT_RULES, blanks skipped; the first bad one is the error.
unfoldable pub parse_all : Parsers → List Text → Result (List RuleEntry)
parse_all ps [] = ok []
parse_all ps (entry ∷ entries) =
    let e = trim_space entry in
    let rest = parse_all ps entries in
    let parsed = parse_rule_entry ps e >>= λ r. rest >>= λ rules. ok (r ∷ rules) in
    if text_beq e [] then rest else parsed

-- The rules that need no lookup, then the others.
abbrev pub arrange : List RuleEntry → List RuleEntry
arrange rules = keep (λ r. not (is_ip_rule r)) rules ++ keep is_ip_rule rules

Result-cases {ℓ} :
    {A : Type ℓ} (r : Result A) → ((a : A) × (r ≡ ok a)) ⊎ ((e : RuleError) × (r ≡ err e))
Result-cases (ok a) = inl (a, refl)
Result-cases (err e) = inr (e, refl)

add_rules_lem :
    (ps : Parsers) (entries : List Text) (rules ip_rules : List RuleEntry)
    → add_rules ps entries rules ip_rules ≡ (
        parse_all ps entries >>= λ all.
        ok ((rules ++ keep (λ r. not (is_ip_rule r)) all) ++ (ip_rules ++ keep is_ip_rule all)))
unfolding add_rules parse_all
add_rules_lem ps [] rules ip_rules = simp append-nil
add_rules_lem ps (entry ∷ entries) rules ip_rules =
    elim (Bool-cases (text_beq (trim_space entry) [])) [
      | inl blank ↦ rw blank (add_rules_lem ps entries rules ip_rules)
      | inr full ↦ rw full (elim (Result-cases (parse_rule_entry ps (trim_space entry))) [
        | inr (e, bad) ↦ rw bad
        | inl (r, good) ↦ elim (Bool-cases (is_ip_rule r)) [
          | inl ip ↦
              rw (good, ip) (add_rules_lem ps entries rules (ip_rules ++ r ∷ []) ∙ tail_ip r ip)
          | inr name ↦
              rw (good, name)
                (add_rules_lem ps entries (rules ++ r ∷ []) ip_rules ∙ tail_name r name)
        ]
      ])
    ]
  where
    tail_ip :
        (r : RuleEntry)
        → is_ip_rule r ≡ true
        → (parse_all ps entries >>= λ all. ok (
            (rules ++ keep (λ r. not (is_ip_rule r)) all)
            ++ ((ip_rules ++ r ∷ []) ++ keep is_ip_rule all)))
          ≡ ((parse_all ps entries >>= λ all. ok (r ∷ all)) >>= λ all.
              ok (
                (rules ++ keep (λ r. not (is_ip_rule r)) all) ++ (ip_rules ++ keep is_ip_rule all)))
    tail_ip r ip = elim (Result-cases (parse_all ps entries)) [
      | inl (all, e) ↦ simp (e, ip, append_assoc)
      | inr (x, e) ↦ rw e
    ]

    tail_name :
        (r : RuleEntry)
        → is_ip_rule r ≡ false
        → (parse_all ps entries >>= λ all. ok (
            ((rules ++ r ∷ []) ++ keep (λ r. not (is_ip_rule r)) all)
            ++ (ip_rules ++ keep is_ip_rule all)))
          ≡ ((parse_all ps entries >>= λ all. ok (r ∷ all)) >>= λ all.
              ok (
                (rules ++ keep (λ r. not (is_ip_rule r)) all) ++ (ip_rules ++ keep is_ip_rule all)))
    tail_name r name = elim (Result-cases (parse_all ps entries)) [
      | inl (all, e) ↦ simp (e, name, append_assoc)
      | inr (x, e) ↦ rw e
    ]

-- DIRECT_RULES becomes the rules of its entries in their order, blank entries skipped, with every
-- `ip:` rule moved behind all others; the first entry that does not parse is the error.
pub new_rule_engine-arrange :
    (ps : Parsers) (direct_rules : Text)
    → direct_rules ≢ []
    → new_rule_engine ps direct_rules
      ≡ (parse_all ps (split b',' direct_rules) >>= λ all. ok (arrange all))
unfolding new_rule_engine
new_rule_engine-arrange ps direct_rules h =
    let some_text : text_beq direct_rules [] ≡ false =
      ground (arith, text_beq_iff direct_rules []) in
    rw some_text (add_rules_lem ps (split b',' direct_rules) [] [])

name_test :
    (r : RuleEntry) (host : Text)
    → r.re ≡ none
    → r.domain ≢ []
    → matches_name r host ≡ (text_beq host r.domain || has_suffix host (codes "." ++ r.domain))
unfolding matches_name
name_test r host no_re h = ground (arith, text_beq_iff r.domain [])

-- The names that a domain rule matches: the domain itself and its subdomains, nothing else.
pub matches_name-domain_iff :
    (r : RuleEntry) (host : Text)
    → r.re ≡ none
    → r.domain ≢ []
    → (matches_name r host ≡ true)
      ↔ ((host ≡ r.domain) ⊎ ((p : Text) × (host ≡ p ++ (codes "." ++ r.domain))))
matches_name-domain_iff r host no_re h = rw (name_test r host no_re h) (
  (λ hit. elim (Bool-cases (text_beq host r.domain)) [
    | inl e ↦ inl ((text_beq_iff host r.domain).0 e)
    | inr e ↦ inr (has_suffix-eq_append (codes "." ++ r.domain) host (ground arith))
  ]),
  (λ named. elim named [
    | inl e ↦ ground (arith, text_beq_iff host r.domain)
    | inr (p, e) ↦ rw e (ground (arith, has_suffix-append (codes "." ++ r.domain) p))
  ]),
)
