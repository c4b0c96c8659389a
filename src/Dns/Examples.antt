-- ===== src/Dns/Examples.antt =====
-- dns.go: the theorems at concrete caches, resolvers and replies.
use ssh_gate.Prelude.{
  ℕ, suc, ◌≤◌, ◌≡◌, refl, inr, true, false, List, [], ◌∷◌, Option, none, some, Text, codes,
  text_beq_iff, text_eq, zero, lookup, length, Distinct, arith,
}
use ssh_gate.Net.Addr.{Addr, ip4}
use ssh_gate.Samples.{public_addr, public_v6}
use ssh_gate.Dns.Cache.{Cache, CacheEntry, store, fresh}
use ssh_gate.Dns.Upstream.{unreachable, Upstream}
use ssh_gate.Dns.Lookup.{answer, failure, World, LookupResult, Dns, lookup_tunnel}
use ssh_gate.Dns.Resolve.{settle, cached_lookup}
use ssh_gate.Dns.Eviction.{IsCache}
use ssh_gate.Dns.Bounds.{store-IsCache}
use ssh_gate.Dns.Caching.{cached_lookup-settle}
use ssh_gate.Dns.Purging.{Event, starts, stops, cancelled, ticks, new_purger, run, run-purges}
use ssh_gate.Dns.Doh.{response, DohResponse, doh_json_query, doh_query_a, doh_query_aaaa}

abbrev host : Text
host = codes "example.org"

abbrev positive : CacheEntry
positive = record { addrs = public_addr ∷ []; expires = 40; neg = false; local_direct = false }

abbrev small : Cache
small = (codes "a", positive) ∷ []

small-IsCache : IsCache small
small-IsCache = record { bounded = omega arith; distinct = (refl, tt); no_empty = refl }

-- A cache of `n` entries.
unfoldable numbered : ℕ → Cache
numbered zero = []
numbered (suc n) = (n ∷ [], positive) ∷ numbered n

length-numbered : (n : ℕ) → length (numbered n) ≡ n
unfolding numbered
length-numbered zero = refl
length-numbered (suc n) = omega (arith, length-numbered n)

lookup-numbered : (j n : ℕ) → n ≤ j → lookup (j ∷ []) (numbered n) ≡ none
unfolding numbered
lookup-numbered j zero h = refl
lookup-numbered j (suc n) h = ground (arith, lookup-numbered j n, text_beq_iff (n ∷ []) (j ∷ []))

numbered-Distinct : (n : ℕ) → Distinct (numbered n)
unfolding numbered
numbered-Distinct zero = tt
numbered-Distinct (suc n) = (lookup-numbered n n (omega arith), numbered-Distinct n)

numbered_no_empty : (n : ℕ) → lookup [] (numbered n) ≡ none
unfolding numbered
numbered_no_empty zero = refl
numbered_no_empty (suc n) = numbered_no_empty n

full-IsCache : IsCache (numbered 1000)
full-IsCache = record {
  bounded = omega (arith, length-numbered 1000);
  distinct = numbered-Distinct 1000;
  no_empty = numbered_no_empty 1000;
}

-- The cache is full.
store-IsCache_example : IsCache (store (codes "www") positive (numbered 1000))
store-IsCache_example =
    store-IsCache (codes "www") positive (numbered 1000) (ground arith) full-IsCache

abbrev paused : Upstream
paused = record {
  name = codes "1.1.1.1";
  paused_until = some 50;
  probing = false;
  ok = 3;
  fail = 1;
  last_ok_at = none;
  last_rtt = 0;
  last_failed = true;
  last_err = [];
}

-- No server answers, the tunnel is down, and the local resolver knows every name.
abbrev world : World
world = record {
  now = λ n. n;
  ask = λ server name n. failure (unreachable (codes "down"));
  ask_local = λ name n. inr ((10 ∷ []) ∷ []);
  addr_from_slice = λ slice. some (ip4 10 0 0 7);
  tunnel_up = λ n. false;
  parse_addr = λ t. none;
  local_on_nxdomain = true;
}

abbrev start : Dns
start = record {
  cache = small;
  lookups = 0;
  tunnel = paused ∷ record paused { paused_until = none } ∷ [];
  fallbacks = 0;
  last_fallback = none;
  readings = 100;
}

abbrev local_answer : LookupResult
local_answer = record { addrs = public_v6 ∷ []; authoritative = false; local_direct = false }

abbrev tunnel_answer : LookupResult
tunnel_answer = record { addrs = public_v6 ∷ []; authoritative = true; local_direct = false }

cached_lookup-settle_example :
    cached_lookup world host host
      (lookup_tunnel world)
      (settle world host (start, (tunnel_answer, none))).0
    ≡ (
      record (settle world host (start, (tunnel_answer, none))).0 { readings = 102 },
      answer tunnel_answer,
    )
unfolding settle
cached_lookup-settle_example =
    cached_lookup-settle world host host (lookup_tunnel world) start tunnel_answer public_v6 [] refl
      refl refl (settle world host (start, (tunnel_answer, none))).0 refl (omega arith)

abbrev v4_body : DohResponse
v4_body = record { status = 0; answers = record { type = 1; data_text = codes "8.8.8.8" } ∷ [] }

abbrev v6_body : DohResponse
v6_body = record { status = 0; answers = [] }

abbrev parse_any : Text → Option Addr
parse_any t = some public_addr

a_query : doh_json_query parse_any doh_query_a (response 200 v4_body) ≡ answer (public_addr ∷ [])
unfolding doh_json_query
a_query = refl

aaaa_query : doh_json_query parse_any doh_query_aaaa (response 200 v6_body) ≡ answer []
unfolding doh_json_query
aaaa_query = refl

abbrev purges : List Event
purges = starts ∷ ticks 30 ∷ starts ∷ cancelled ∷ stops ∷ ticks 50 ∷ []

run-purges_example :
    let p = run (new_purger small) purges in
    (fresh (codes "a") 60 p.cache ≡ fresh (codes "a") 60 small)
    × (p.launched ≤ 1)
    × (p.done_closes ≤ 1)
run-purges_example =
    run-purges (codes "a") 60 small purges small-IsCache.distinct
      (tt, (omega arith, (tt, (tt, (tt, (omega arith, tt))))))
