-- ===== src/Opener/Policy.antt =====
-- opener.go: the route policy. What goes through the tunnel, and what goes direct.
use ssh_gate.Prelude.{
  ◌≡◌, ◌≢◌, refl, sym, ap, ◌∙◌, ◌⊎◌, inl, inr, Bool, true, false, not, List, [], ◌∷◌, some, Text,
  keep, All, All-keep, keep-All, All-mono, Bool-cases, Option-cases, subst, arith,
}
use ssh_gate.Net.Addr.{Addr, addr_beq, is4}
use ssh_gate.Net.Private.{is_private, is_host_local, drop_host_local, drop_host_local-All}
use ssh_gate.Resolver.{Resolver}
use ssh_gate.Rules.Engine.{Parsers, RuleEntry, Route, direct, tunnel, Reason, local_private, decide}
use ssh_gate.Opener.Candidates.{
  IpFamily, family_matches, first_v4, pick_tunnel_addr, OpenError, resolve_failed, no_family,
  only_private, Outcome, ok, err, panic, Answer, filter_family, choose, tunnel_candidates,
  candidates,
}

abbrev pub IsPublic : Addr → Type 0
IsPublic a = is_private a ≡ false

module _ (P : Addr → Type 0) where
  first_v4-All : (xs : List Addr) (a : Addr) → All P xs → first_v4 xs ≡ some a → P a
  first_v4-All [] a h e = cc
  first_v4-All (x ∷ xs) a h e = elim (Bool-cases (is4 x)) [
    | inl four ↦ let same : x ≡ a = ground arith in subst P same h.0
    | inr six ↦ first_v4-All xs a h.1 (rw six at e)
  ]

  pick_tunnel_addr-All :
      (x : Addr) (xs : List Addr)
      → All P (x ∷ xs)
      → (a : Addr) × (pick_tunnel_addr (x ∷ xs) ≡ some a) × P a
  unfolding pick_tunnel_addr
  pick_tunnel_addr-All x xs h = elim (Option-cases (first_v4 (x ∷ xs))) [
    | inl e ↦ (x, rw (e, pick_tunnel_addr), h.0)
    | inr (a, e) ↦ (a, rw (e, pick_tunnel_addr), first_v4-All (x ∷ xs) a h e)
  ]

-- The three ways in which the tunnel branch ends.
pub data TunnelCase (family : IpFamily) (addrs : List Addr) (local_direct : Bool) (reason : Reason)
    (r : Answer (List Addr)) : Type 0 where
  via_tunnel :
      (head : Addr) (rest : List Addr)
      → All IsPublic (head ∷ rest)
      → r ≡ record { outcome = ok (head ∷ rest); route = tunnel; reason = reason }
      → TunnelCase family addrs local_direct reason r
  via_local :
      All (λ a. is_private a ≡ true) addrs
      → local_direct ≡ true
      → r ≡ filter_family family (drop_host_local addrs) direct local_private
      → TunnelCase family addrs local_direct reason r
  refused :
      (e : OpenError)
      → r ≡ record { outcome = err e; route = tunnel; reason = reason }
      → TunnelCase family addrs local_direct reason r

none_public :
    (addrs : List Addr)
    → keep (λ a. not (is_private a)) addrs ≡ []
    → All (λ a. is_private a ≡ true) addrs
none_public [] e = tt
none_public (a ∷ addrs) e = elim (Bool-cases (is_private a)) [
  | inl p ↦ (p, none_public addrs (rw p at e))
  | inr p ↦ absurd (ground arith)
]

not_private : (a : Addr) → not (is_private a) ≡ true → IsPublic a
not_private a e = ground arith

choose-cases :
    (family : IpFamily) (x : Addr) (xs : List Addr) (local_direct : Bool) (reason : Reason)
    (public reachable : List Addr)
    → keep (λ a. not (is_private a)) (x ∷ xs) ≡ public
    → drop_host_local (x ∷ xs) ≡ reachable
    → TunnelCase family
        (x ∷ xs)
        local_direct
        reason
        (choose family (x ∷ xs) local_direct reason public reachable)
unfolding choose
choose-cases family x xs local_direct reason (a ∷ public) reachable p d =
    let open_all : All IsPublic (a ∷ public) = subst (All IsPublic) p (
      All-mono (λ a. not (is_private a) ≡ true) IsPublic not_private _
        (keep-All (λ a. not (is_private a)) (x ∷ xs))) in
    let (head, picked, open_head) = pick_tunnel_addr-All IsPublic a public open_all in
    via_tunnel head (keep (λ b. not (addr_beq b head)) (a ∷ public))
      (open_head, All-keep IsPublic (λ b. not (addr_beq b head)) (a ∷ public) open_all)
      (rw (picked, choose))
choose-cases family x xs local_direct reason [] [] p d = refused (only_private x) refl
choose-cases family x xs true reason [] (b ∷ reachable) p d =
    via_local (none_public (x ∷ xs) p) refl (rw d)
choose-cases family x xs false reason [] (b ∷ reachable) p d = refused (only_private x) refl

tunnel_candidates-cases :
    (family : IpFamily) (x : Addr) (xs : List Addr) (local_direct : Bool) (reason : Reason)
    → TunnelCase family
        (x ∷ xs)
        local_direct
        reason
        (tunnel_candidates family (x ∷ xs) local_direct reason)
unfolding tunnel_candidates
tunnel_candidates-cases family x xs local_direct reason =
    choose-cases family x xs local_direct reason _ _ refl refl

-- What the caller may rely on, whatever the route.
pub record IsSound (family : IpFamily) (r : Answer (List Addr)) : Type 0 where
  pub no_panic : r.outcome ≢ panic
  pub tunnel_public :
      (addrs : List Addr) → r.outcome ≡ ok addrs → r.route ≡ tunnel → All IsPublic addrs
  pub direct_family :
      (addrs : List Addr)
      → r.outcome ≡ ok addrs
      → r.route ≡ direct
      → All (λ a. family_matches family a ≡ true) addrs
  pub some_addr : (addrs : List Addr) → r.outcome ≡ ok addrs → addrs ≢ []

filter_family-IsSound :
    (family : IpFamily) (addrs : List Addr) (reason : Reason)
    → IsSound family (filter_family family addrs direct reason)
filter_family-IsSound family addrs reason = go _ (keep-All (family_matches family) addrs)
  where
    go :
        (out : List Addr)
        → All (λ a. family_matches family a ≡ true) out
        → IsSound family (record {
          outcome = elim out [ [] ↦ err no_family | a ∷ rest ↦ ok (a ∷ rest) ];
          route = direct;
          reason = reason;
        })
    go [] h = record {
      no_panic = λ e. cc;
      tunnel_public = λ a e r. cc;
      direct_family = λ a e r. cc;
      some_addr = λ a e n. cc;
    }
    go (a ∷ rest) h = record {
      no_panic = λ e. cc;
      tunnel_public = λ a e r. cc;
      direct_family = λ addrs e r.
          let same : a ∷ rest ≡ addrs = cc in
          subst (All (λ b. family_matches family b ≡ true)) same h;
      some_addr = λ addrs e n. ground arith;
    }

failed-IsSound :
    (family : IpFamily) (e : OpenError) (route : Route) (reason : Reason)
    → IsSound family (record { outcome = err e; route = route; reason = reason })
failed-IsSound family x route reason = record {
  no_panic = λ e. cc;
  tunnel_public = λ a e r. cc;
  direct_family = λ a e r. cc;
  some_addr = λ a e n. cc;
}

via_tunnel-IsSound :
    (family : IpFamily) (head : Addr) (rest : List Addr) (reason : Reason)
    → All IsPublic (head ∷ rest)
    → IsSound family (record { outcome = ok (head ∷ rest); route = tunnel; reason = reason })
via_tunnel-IsSound family head rest reason p = record {
  no_panic = λ e. cc;
  tunnel_public = λ addrs e r. let same : head ∷ rest ≡ addrs = cc in subst (All IsPublic) same p;
  direct_family = λ a e r. cc;
  some_addr = λ addrs e n. ground arith;
}

tunnel_candidates-IsSound :
    (family : IpFamily) (addrs : List Addr) (local_direct : Bool) (reason : Reason)
    → addrs ≢ []
    → IsSound family (tunnel_candidates family addrs local_direct reason)
tunnel_candidates-IsSound family [] local_direct reason h = absurd (h refl)
tunnel_candidates-IsSound family (x ∷ xs) local_direct reason h =
    elim (tunnel_candidates-cases family x xs local_direct reason) [
      | via_tunnel head rest p e ↦ rw e (via_tunnel-IsSound family head rest reason p)
      | via_local p l e ↦ rw e (filter_family-IsSound family _ local_private)
      | refused x e ↦ rw e (failed-IsSound family x tunnel reason)
    ]

pub Route-cases : (r : Route) → (r ≡ direct) ⊎ (r ≡ tunnel)
Route-cases direct = inl refl
Route-cases tunnel = inr refl

module _ {S : Type 0} (rs : Resolver S) (ps : Parsers) (rules : List RuleEntry)
    (family : IpFamily) where
  -- For every host: candidates does not panic, an answer has at least one address, on the tunnel
  -- route every address is public, and on the direct route every address is of the family.
  pub candidates-IsSound :
      (host : Text) (s : S) → IsSound family (candidates rs ps rules family host s).1
  unfolding candidates
  candidates-IsSound host s =
      let d = decide rs ps rules host s in
      elim (Route-cases d.1.0) [
        | inl e ↦ elim (Option-cases (rs.local_resolve_all host d.0).1) [
          | inl none_found ↦
              rw (e, candidates) (rw none_found (failed-IsSound family resolve_failed _ _))
          | inr (addrs, found) ↦
              rw (e, candidates) (rw found (filter_family-IsSound family addrs _))
        ]
        | inr e ↦ elim (Option-cases (rs.resolve_tunnel host d.0).1) [
          | inl none_found ↦
              rw (e, candidates) (rw none_found (failed-IsSound family resolve_failed _ _))
          | inr ((addrs, local_direct), found) ↦
              rw (e, candidates)
                (rw found (
                  tunnel_candidates-IsSound family addrs local_direct _
                    (rs.tunnel_some host d.0 addrs local_direct found)))
        ]
      ]

filter_family-All :
    (P : Addr → Type 0) (family : IpFamily) (xs : List Addr) (reason : Reason) (out : List Addr)
    → All P xs
    → (filter_family family xs direct reason).outcome ≡ ok out
    → All P out
filter_family-All P family xs reason out h = go _ (All-keep P (family_matches family) xs h)
  where
    go :
        (kept : List Addr)
        → All P kept
        → (elim kept as (λ k. Outcome (List Addr)) [
          | [] ↦ err no_family
          | a ∷ rest ↦ ok (a ∷ rest)
        ])
          ≡ ok out
        → All P out
    go [] k e = cc
    go (a ∷ rest) k e = let same : a ∷ rest ≡ out = cc in subst (All P) same k

-- A tunnel destination goes direct only with the resolver's leave, when all of its addresses are
-- private; and then no loopback, link-local or unspecified address is dialed.
pub tunnel_candidates_direct :
    (family : IpFamily) (addrs : List Addr) (local_direct : Bool) (reason : Reason)
    → addrs ≢ []
    → (tunnel_candidates family addrs local_direct reason).route ≡ direct
    → (local_direct ≡ true)
      × All (λ a. is_private a ≡ true) addrs
      × ((out : List Addr)
          → (tunnel_candidates family addrs local_direct reason).outcome ≡ ok out
          → All (λ a. is_host_local a ≡ false) out)
tunnel_candidates_direct family [] local_direct reason given h = absurd (given refl)
tunnel_candidates_direct family (x ∷ xs) local_direct reason given h =
    elim (tunnel_candidates-cases family x xs local_direct reason) [
      | via_tunnel head rest p e ↦ cc
      | via_local p l e ↦ (
        l,
        p,
        λ out done.
            filter_family-All (λ a. is_host_local a ≡ false) family _ local_private out
              (drop_host_local-All (x ∷ xs)) (sym (ap (λ r. r.outcome) e) ∙ done),
      )
      | refused y e ↦ cc
    ]
