-- ===== src/Opener/Candidates.antt =====
-- opener.go: the addresses to dial and the route they imply.
use ssh_gate.Prelude.{
  Bool, true, not, ◌||◌, List, [], ◌∷◌, Option, none, some, Text, codes, if◌then◌else◌, keep,
  text_beq, to_lower, trim_space,
}
use ssh_gate.Net.Addr.{Addr, addr_beq, is4, has_to4}
use ssh_gate.Net.Private.{is_private, drop_host_local}
use ssh_gate.Resolver.{Resolver}
use ssh_gate.Rules.Engine.{Parsers, RuleEntry, Route, direct, tunnel, Reason, local_private, decide}

pub data IpFamily : Type 0 where
  both ipv4 ipv6 : IpFamily

-- parseIPFamily; `none` is its error.
unfoldable pub parse_ip_family : Text → Option IpFamily
parse_ip_family raw =
    let v = to_lower (trim_space raw) in
    if text_beq v [] || (text_beq v (codes "both") || text_beq v (codes "auto"))
    then some both
    else if text_beq v (codes "ipv4") || text_beq v (codes "v4")
    then some ipv4
    else if text_beq v (codes "ipv6") || text_beq v (codes "v6")
    then some ipv6
    else none

-- familyMatches.
abbrev pub family_matches : IpFamily → Addr → Bool
family_matches ipv4 a = has_to4 a
family_matches ipv6 a = not (has_to4 a)
family_matches both a = true

abbrev pub first_v4 : List Addr → Option Addr
first_v4 [] = none
first_v4 (a ∷ addrs) = if is4 a then some a else first_v4 addrs

-- pickTunnelAddr; `none` is its error.
unfoldable pub pick_tunnel_addr : List Addr → Option Addr
pick_tunnel_addr addrs = elim (first_v4 addrs) [
  | some a ↦ some a
  | none ↦ elim addrs [ [] ↦ none | a ∷ rest ↦ some a ]
]

pub data OpenError : Type 0 where
  resolve_failed no_address no_family : OpenError
  -- Only private addresses, refused through the tunnel; the message names the first.
  only_private : Addr → OpenError

-- An index into an empty slice panics.
pub data Outcome {ℓ} (A : Type ℓ) : Type ℓ where
  ok : A → Outcome A
  err : OpenError → Outcome A
  panic : Outcome A

pub record Answer (A : Type 0) : Type 0 where
  pub outcome : Outcome A
  pub route : Route
  pub reason : Reason

-- The family filter at the end of candidates.
abbrev pub filter_family : IpFamily → List Addr → Route → Reason → Answer (List Addr)
filter_family family addrs route reason =
    let out = keep (family_matches family) addrs in
    record {
      outcome = elim out [ [] ↦ err no_family | a ∷ rest ↦ ok (a ∷ rest) ];
      route = route;
      reason = reason;
    }

-- The tunnel branch's dial order: the chosen address, then the others.
abbrev pub lead_with : Addr → List Addr → List Addr
lead_with head addrs = head ∷ keep (λ a. not (addr_beq a head)) addrs

-- The refusal of a name with only private addresses; its message reads `addrs[0]`.
abbrev pub refuse : List Addr → Reason → Answer (List Addr)
refuse [] reason = record { outcome = panic; route = tunnel; reason = reason }
refuse (a ∷ addrs) reason = record {
  outcome = err (only_private a);
  route = tunnel;
  reason = reason;
}

-- The tunnel branch of candidates, on the resolved addresses, the public ones, and those that
-- dropHostLocal leaves.
unfoldable pub choose :
    IpFamily → List Addr → Bool → Reason → List Addr → List Addr → Answer (List Addr)
choose family addrs local_direct reason (a ∷ public) reachable = record {
  outcome = elim (pick_tunnel_addr (a ∷ public)) [
    | none ↦ err no_address
    | some head ↦ ok (lead_with head (a ∷ public))
  ];
  route = tunnel;
  reason = reason;
}
choose family addrs local_direct reason [] [] = refuse addrs reason
choose family addrs local_direct reason [] (b ∷ reachable) =
    if local_direct
    then filter_family family (b ∷ reachable) direct local_private
    else refuse addrs reason

unfoldable pub tunnel_candidates : IpFamily → List Addr → Bool → Reason → Answer (List Addr)
unfolding choose
tunnel_candidates family addrs local_direct reason =
    choose family addrs local_direct reason (keep (λ a. not (is_private a)) addrs)
      (drop_host_local addrs)

module _ {S : Type 0} (rs : Resolver S) (ps : Parsers) (rules : List RuleEntry)
    (family : IpFamily) where
  unfoldable pub candidates : Text → S → S × Answer (List Addr)
  unfolding tunnel_candidates
  candidates host s =
      let (s', (route, reason)) = decide rs ps rules host s in
      let failed : Answer (List Addr) = record {
        outcome = err resolve_failed;
        route = route;
        reason = reason;
      } in
      elim route [
        | direct ↦
            let (s'', answer) = rs.local_resolve_all host s' in
            (
              s'',
              elim answer [ none ↦ failed | some addrs ↦ filter_family family addrs direct reason ],
            )
        | tunnel ↦
            let (s'', answer) = rs.resolve_tunnel host s' in
            (
              s'',
              elim answer [
                | none ↦ failed
                | some (addrs, local_direct) ↦ tunnel_candidates family addrs local_direct reason
              ],
            )
      ]

  -- resolveAddr and Resolve: the head of the candidates.
  unfoldable pub resolve_addr : Text → S → S × Answer Addr
  resolve_addr host s =
      let (s', a) = candidates host s in
      (
        s',
        record {
          outcome = elim a.outcome [
            | ok addrs ↦ elim addrs [ [] ↦ panic | ip ∷ rest ↦ ok ip ]
            | err e ↦ err e
            | panic ↦ panic
          ];
          route = a.route;
          reason = a.reason;
        },
      )
