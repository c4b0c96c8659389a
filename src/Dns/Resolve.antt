-- ===== src/Dns/Resolve.antt =====
-- dns.go: cachedLookup, and the resolutions of a tunnel destination and of a direct one.
use ssh_gate.Prelude.{
  ◌+◌, suc, Bool, true, false, List, [], ◌∷◌, ◌++◌, Option, none, some, Text, codes, if◌then◌else◌,
}
use ssh_gate.Net.Addr.{Addr, unmap}
use ssh_gate.Rules.Engine.{normalize_host}
use ssh_gate.Dns.Cache.{CacheEntry, dns_cache_ttl, dns_negative_ttl, store, fresh}
use ssh_gate.Dns.Upstream.{QueryError, not_found, unreachable, other_error}
use ssh_gate.Dns.Lookup.{
  Reply, answer, failure, World, LookupResult, Dns, no_result, lookup_local, lookup_tunnel,
}

abbrev pub Lookup : Type 0
Lookup = Text → Dns → Dns × (LookupResult × Option QueryError)

-- What cachedLookup returns for a cached entry.
abbrev pub from_entry : CacheEntry → Reply LookupResult
from_entry entry =
    if entry.neg
    then failure not_found
    else answer
        (record { addrs = entry.addrs; authoritative = true; local_direct = entry.local_direct })

module _ (world : World) where
  -- The end of the flight, for a lookup without an error.
  abbrev pub keep_answer : Text → Dns → LookupResult → List Addr → Bool → Dns × Reply LookupResult
  keep_answer key s res [] authoritative = (s, failure (other_error (codes "no address")))
  keep_answer key s res (a ∷ addrs) true = (
    record s {
      cache =
          store key
            (record {
              addrs = a ∷ addrs;
              expires = world.now s.readings + dns_cache_ttl;
              neg = false;
              local_direct = res.local_direct;
            })
            s.cache;
      readings = suc s.readings;
    },
    answer res,
  )
  keep_answer key s res (a ∷ addrs) false = (s, answer res)

  -- The end of the flight, for errNotFound.
  abbrev pub keep_denial : Text → Dns → Bool → Dns × Reply LookupResult
  keep_denial key s true = (
    record s {
      cache =
          store key
            (record {
              addrs = [];
              expires = world.now s.readings + dns_negative_ttl;
              neg = true;
              local_direct = false;
            })
            s.cache;
      readings = suc s.readings;
    },
    failure not_found,
  )
  keep_denial key s false = (s, failure not_found)

  -- The function that cachedLookup runs in the flight, after the lookup.
  unfoldable pub settle : Text → Dns × (LookupResult × Option QueryError) → Dns × Reply LookupResult
  settle key (s, (res, some not_found)) = keep_denial key s res.authoritative
  settle key (s, (res, some (unreachable t))) = (s, failure (unreachable t))
  settle key (s, (res, some (other_error t))) = (s, failure (other_error t))
  settle key (s, (res, none)) = keep_answer key s res res.addrs res.authoritative

  -- cachedLookup, for one caller.
  unfoldable pub cached_lookup : Text → Text → Lookup → Dns → Dns × Reply LookupResult
  unfolding settle fresh
  cached_lookup key host run s = elim (world.parse_addr host) [
    | some ip ↦
        (s, answer (record { addrs = unmap ip ∷ []; authoritative = false; local_direct = false }))
    | none ↦ elim (fresh key (world.now s.readings) s.cache) [
      | some entry ↦ (record s { readings = suc s.readings }, from_entry entry)
      | none ↦
          settle key (run host (record s { readings = suc s.readings; lookups = suc s.lookups }))
    ]
  ]

  -- resolveTunnel, with the whole result; ResolveAll drops a part of it.
  unfoldable pub resolve_tunnel : Text → Dns → Dns × Reply LookupResult
  unfolding cached_lookup
  resolve_tunnel host s =
      cached_lookup (normalize_host host) (normalize_host host) (lookup_tunnel world) s

  abbrev pub local_result : Dns × Reply (List Addr) → Dns × (LookupResult × Option QueryError)
  local_result (s, answer addrs) =
      (s, (record { addrs = addrs; authoritative = true; local_direct = false }, none))
  local_result (s, failure e) = (s, (record no_result { authoritative = true }, some e))

  -- localResolveAll.
  unfoldable pub local_resolve_all : Text → Dns → Dns × Reply LookupResult
  unfolding cached_lookup
  local_resolve_all host s =
      let h = normalize_host host in
      cached_lookup (codes "local:" ++ h) h (λ name s'. local_result (lookup_local world name s')) s
