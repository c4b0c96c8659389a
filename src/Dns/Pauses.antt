-- ===== src/Dns/Pauses.antt =====
-- dns.go: the pauses of the tunnel resolvers, their probes, and what a fallback may do.
use ssh_gate.Prelude.{
  ℕ, suc, ◌+◌, ◌≤◌, ◌≡◌, ◌≢◌, refl, sym, ◌∙◌, subst, ◌⊎◌, inl, inr, ◌↔◌, Bool, true, false, not,
  ◌&&◌, List, [], ◌∷◌, none, some, Text, All, Option-cases, arith,
}
use ssh_gate.Net.Addr.{Addr}
use ssh_gate.Dns.Upstream.{not_found, unreachable, other_error, Upstream, claim}
use ssh_gate.Dns.Lookup.{
  Reply, answer, failure, World, LookupResult, Dns, Verdict, answered, denied, none_answered,
  claim_all, release_probes, after_reply, ask_all, conclude, lookup_tunnel, not_found_lookup,
  local_fallback,
}

-- A resolver may be asked exactly when it is not paused, or when its pause is over and no probe is
-- out; while a claimed probe is out, no other lookup gets it.
pub claim_iff :
    (now : ℕ) (u : Upstream)
    → (((claim now u).1 ≡ true) ↔ (
        (u.paused_until ≡ none)
        ⊎ ((until : ℕ) × (u.paused_until ≡ some until) × (until ≤ now) × (u.probing ≡ false))))
      × ((u.paused_until ≢ none)
          → (claim now u).1 ≡ true
          → (later : ℕ) → (claim later (claim now u).0).1 ≡ false)
unfolding claim
claim_iff now u = elim (Option-cases u.paused_until) [
  | inl e ↦ ((λ h. inl e, λ h. rw (e, claim)), λ paused. absurd (paused e))
  | inr (until, e) ↦ (
    (
      λ h. inr (until, e, ground arith, ground arith),
      λ h. elim h [ inl n ↦ cc | inr (t, same, due, free) ↦ ground arith ],
    ),
    λ paused given later. ground arith,
  )
]

module _ (world : World) where
  -- The resolver is without a probe.
  abbrev pub NoProbe : Upstream → Type 0
  NoProbe u = u.probing ≡ false

  -- A resolver that is not active has no probe.
  abbrev Settled : Upstream × Bool → Type 0
  Settled u = u.1 ≡ false → u.0.probing ≡ false

  claim-Settled : (now : ℕ) (u : Upstream) → NoProbe u → Settled (claim now u)
  unfolding claim
  claim-Settled now u h e = ground arith

  claim_all-Settled :
      (now : ℕ) (us : List Upstream) → All NoProbe us → All Settled (claim_all now us)
  claim_all-Settled now [] h = tt
  claim_all-Settled now (u ∷ us) h = (claim-Settled now u h.0, claim_all-Settled now us h.1)

  after_reply-Settled :
      (n rtt : ℕ) (u : Upstream) (us : List (Upstream × Bool))
      (rest : ℕ → ℕ × (List (Upstream × Bool) × Verdict)) (r : Reply (List Addr))
      → All Settled us
      → ((m : ℕ) → All Settled (rest m).1.0)
      → All Settled (after_reply world n rtt u us rest r).1.0
  after_reply-Settled n rtt u us rest (answer addrs) h k = (λ e. cc, h)
  after_reply-Settled n rtt u us rest (failure not_found) h k = (λ e. cc, h)
  after_reply-Settled n rtt u us rest (failure (unreachable t)) h k = (λ e. cc, k (suc (suc n)))
  after_reply-Settled n rtt u us rest (failure (other_error t)) h k = (λ e. cc, k (suc (suc n)))

  ask_all-Settled :
      (host : Text) (us : List (Upstream × Bool)) (n : ℕ)
      → All Settled us
      → All Settled (ask_all world host us n).1.0
  unfolding ask_all
  ask_all-Settled host [] n h = tt
  ask_all-Settled host ((u, true) ∷ us) n h =
      after_reply-Settled (n + 3) _ u us (ask_all world host us) (world.ask u.name host (n + 1)) h.1
        (λ m. ask_all-Settled host us m h.1)
  ask_all-Settled host ((u, false) ∷ us) n h = (h.0, ask_all-Settled host us n h.1)

  release_probes-All :
      (us : List (Upstream × Bool)) → All Settled us → All NoProbe (release_probes us)
  release_probes-All [] h = tt
  release_probes-All ((u, true) ∷ us) h = (refl, release_probes-All us h.1)
  release_probes-All ((u, false) ∷ us) h = (h.0 refl, release_probes-All us h.1)

  not_found_lookup-tunnel :
      (host : Text) (s : Dns) → (not_found_lookup world host s).0.tunnel ≡ s.tunnel
  unfolding not_found_lookup
  not_found_lookup-tunnel host s = ground arith

  conclude-tunnel :
      (host : Text) (v : Verdict) (s : Dns) → (conclude world host v s).0.tunnel ≡ s.tunnel
  unfolding local_fallback
  conclude-tunnel host (answered addrs) s = refl
  conclude-tunnel host denied s = not_found_lookup-tunnel host s
  conclude-tunnel host none_answered s = refl

  -- After a lookup no probe is out, on whichever path it returned.
  pub lookup_tunnel_releases :
      (host : Text) (s : Dns)
      → All NoProbe s.tunnel
      → All NoProbe (lookup_tunnel world host s).0.tunnel
  unfolding lookup_tunnel
  lookup_tunnel_releases host s h =
      subst (All NoProbe) (sym (conclude-tunnel host _ _))
        (release_probes-All _ (ask_all-Settled host _ _ (claim_all-Settled _ s.tunnel h)))

  -- What leave the result gives to go direct.
  abbrev pub MayGoDirect : LookupResult → Type 0
  MayGoDirect res =
      (world.local_on_nxdomain ≡ true)
      × ((res.authoritative ≡ true) ⊎ ((n : ℕ) × (world.tunnel_up n ≡ false)))

  local_fallback-direct :
      (host : Text) (s : Dns)
      → (local_fallback world host s).1.0.local_direct
        ≡ (world.local_on_nxdomain && not (world.tunnel_up (suc (suc s.readings))))
  unfolding local_fallback
  local_fallback-direct host s = ground arith

  conclude-MayGoDirect :
      (host : Text) (v : Verdict) (s : Dns)
      → (conclude world host v s).1.0.local_direct ≡ true
      → MayGoDirect (conclude world host v s).1.0
  unfolding local_fallback not_found_lookup
  conclude-MayGoDirect host (answered addrs) s h = cc
  conclude-MayGoDirect host denied s h = ground arith
  conclude-MayGoDirect host none_answered s h =
      let e : (world.local_on_nxdomain && not (world.tunnel_up (suc (suc s.readings)))) ≡ true =
        sym (local_fallback-direct host s) ∙ h in
      (ground arith, inr (suc (suc s.readings), ground arith))

  -- A lookup lets private addresses go direct only under localOnNXDomain, and then either a tunnel
  -- resolver said that the name does not exist, or the tunnel was down.
  pub lookup_tunnel_direct :
      (host : Text) (s : Dns)
      → (lookup_tunnel world host s).1.0.local_direct ≡ true
      → MayGoDirect (lookup_tunnel world host s).1.0
  unfolding lookup_tunnel
  lookup_tunnel_direct host s h = conclude-MayGoDirect host _ _ h
