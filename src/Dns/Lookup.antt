-- ===== src/Dns/Lookup.antt =====
-- dns.go: lookup, through the tunnel resolvers and then the local one. What the program reads of the
-- world (the clock, the replies of the resolvers, the state of the tunnel) is an oracle on the number
-- of the reading, and each reading moves that number on. One lookup runs at a time.
use ssh_gate.Prelude.{
  ℕ, ◌+◌, ◌-◌, suc, Bool, true, false, not, ◌&&◌, List, [], ◌∷◌, Option, none, some, Text,
  if◌then◌else◌, map, ◌⊎◌, inl, inr,
}
use ssh_gate.Net.Addr.{Addr, unmap}
use ssh_gate.Dns.Cache.{Cache}
use ssh_gate.Dns.Upstream.{
  QueryError, not_found, other_error, Upstream, claim, release_probe, upstream_answered,
  upstream_failed,
}

pub data Reply (A : Type 0) : Type 0 where
  answer : A → Reply A
  failure : QueryError → Reply A

pub record World : Type 0 where
  pub now : ℕ → ℕ
  -- upstream.lookup of the resolver with this name.
  pub ask : Text → Text → ℕ → Reply (List Addr)
  -- net.DefaultResolver (an error is its text; it is never errNotFound), and netip.AddrFromSlice.
  pub ask_local : Text → ℕ → Text ⊎ List (List ℕ)
  pub addr_from_slice : List ℕ → Option Addr
  -- tunnelUp.
  pub tunnel_up : ℕ → Bool
  -- netip.ParseAddr.
  pub parse_addr : Text → Option Addr
  -- localOnNXDomain.
  pub local_on_nxdomain : Bool

pub record LookupResult : Type 0 where
  pub addrs : List Addr
  pub authoritative : Bool
  pub local_direct : Bool

-- dnsCache, with the number of readings of the world so far.
pub record Dns : Type 0 where
  pub cache : Cache
  pub lookups : ℕ
  pub tunnel : List Upstream
  pub fallbacks : ℕ
  pub last_fallback : Option ℕ
  pub readings : ℕ

abbrev pub no_result : LookupResult
no_result = record { addrs = []; authoritative = false; local_direct = false }

pub data Verdict : Type 0 where
  answered : List Addr → Verdict
  denied none_answered : Verdict

-- The first loop of lookup: each resolver with whether it is active.
abbrev pub claim_all : ℕ → List Upstream → List (Upstream × Bool)
claim_all now us = map (claim now) us

-- releaseProbes, which lookup defers.
abbrev pub release_probes : List (Upstream × Bool) → List Upstream
release_probes [] = []
release_probes ((u, active) ∷ us) = (if active then release_probe u else u) ∷ release_probes us

module _ (world : World) where
  -- toNetip.
  abbrev pub to_netip : List (List ℕ) → List Addr
  to_netip [] = []
  to_netip (slice ∷ slices) = elim (world.addr_from_slice slice) [
    | none ↦ to_netip slices
    | some ip ↦ unmap ip ∷ to_netip slices
  ]

  abbrev pub local_reply : Text ⊎ List (List ℕ) → Reply (List Addr)
  local_reply (inl text) = failure (other_error text)
  local_reply (inr slices) = answer (to_netip slices)

  -- lookupLocal.
  abbrev pub lookup_local : Text → Dns → Dns × Reply (List Addr)
  lookup_local host s =
      (record s { readings = suc s.readings }, local_reply (world.ask_local host s.readings))

  -- What follows a resolver's reply, which came after the reading `n`.
  abbrev pub after_reply :
      ℕ
      → ℕ
      → Upstream
      → List (Upstream × Bool)
      → (ℕ → ℕ × (List (Upstream × Bool) × Verdict))
      → Reply (List Addr)
      → ℕ × (List (Upstream × Bool) × Verdict)
  after_reply n rtt u us rest (answer addrs) =
      (suc n, ((upstream_answered (world.now n) rtt u, true) ∷ us, answered addrs))
  after_reply n rtt u us rest (failure not_found) =
      (suc n, ((upstream_answered (world.now n) rtt u, true) ∷ us, denied))
  after_reply n rtt u us rest (failure e) =
      let (n', (us', verdict)) = rest (suc (suc n)) in
      (n', ((upstream_failed (world.tunnel_up n) (world.now (suc n)) e u, true) ∷ us', verdict))

  -- The second loop of lookup, from the reading `n`; the shares of the timeout are the resolver's.
  unfoldable pub ask_all :
      Text → List (Upstream × Bool) → ℕ → ℕ × (List (Upstream × Bool) × Verdict)
  ask_all host [] n = (n, ([], none_answered))
  ask_all host ((u, active) ∷ us) n =
      let skipped = ask_all host us n in
      let asked =
        after_reply (n + 3) (world.now (n + 2) - world.now n) u us (ask_all host us)
          (world.ask u.name host (n + 1)) in
      if active then asked else (skipped.0, ((u, active) ∷ skipped.1.0, skipped.1.1))

  -- notFound.
  unfoldable pub not_found_lookup : Text → Dns → Dns × (LookupResult × Option QueryError)
  not_found_lookup host s =
      let refused : LookupResult × Option QueryError =
        (record no_result { authoritative = true }, some not_found) in
      let (s', local) = lookup_local host s in
      if world.local_on_nxdomain
      then (
        s',
        elim local [
          | answer addrs ↦
              (record { addrs = addrs; authoritative = true; local_direct = true }, none)
          | failure e ↦ refused
        ],
      )
      else (s, refused)

  -- The end of lookup, when no tunnel resolver answered.
  unfoldable pub local_fallback : Text → Dns → Dns × (LookupResult × Option QueryError)
  local_fallback host s =
      let (s', local) = lookup_local host (record s {
        fallbacks = suc s.fallbacks;
        last_fallback = some (world.now s.readings);
        readings = suc s.readings;
      }) in
      let direct = world.local_on_nxdomain && not (world.tunnel_up s'.readings) in
      (
        record s' { readings = suc s'.readings },
        elim local [
          | answer addrs ↦
              (record { addrs = addrs; authoritative = false; local_direct = direct }, none)
          | failure e ↦ (record no_result { local_direct = direct }, some e)
        ],
      )

  abbrev pub conclude : Text → Verdict → Dns → Dns × (LookupResult × Option QueryError)
  conclude host (answered addrs) s =
      (s, (record { addrs = addrs; authoritative = true; local_direct = false }, none))
  conclude host denied s = not_found_lookup host s
  conclude host none_answered s = local_fallback host s

  -- lookup. The probes are released last; nothing after the loop reads them.
  unfoldable pub lookup_tunnel : Text → Dns → Dns × (LookupResult × Option QueryError)
  unfolding ask_all not_found_lookup local_fallback claim
  lookup_tunnel host s =
      let (n, (us, verdict)) =
        ask_all host (claim_all (world.now s.readings) s.tunnel) (suc s.readings) in
      conclude host verdict (record s { tunnel = release_probes us; readings = n })
