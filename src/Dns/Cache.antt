-- ===== src/Dns/Cache.antt =====
-- dns.go: the cache of dnsCache. A time is a number of nanoseconds. The order of the entries stands
-- for the order in which Go ranges over the map, which is any.
use ssh_gate.Prelude.{
  ℕ, ◌*◌, Bool, not, ◌||◌, List, [], ◌∷◌, Option, none, some, Text, text_beq, text_eq, ltb, leb,
  if◌then◌else◌, length, keep, lookup, insert, delete,
}
use ssh_gate.Net.Addr.{Addr}

abbrev pub second : ℕ
second = 1000000000

abbrev pub dns_cache_max_size : ℕ
dns_cache_max_size = 1000

abbrev pub dns_cache_ttl : ℕ
dns_cache_ttl = 30 * second

abbrev pub dns_negative_ttl : ℕ
dns_negative_ttl = 10 * second

pub record CacheEntry : Type 0 where
  pub addrs : List Addr
  pub expires : ℕ
  pub neg : Bool
  pub local_direct : Bool

abbrev pub Cache : Type 0
Cache = List (Text × CacheEntry)

-- purge.
abbrev pub purge : ℕ → Cache → Cache
purge now cache = keep (λ kv. not (ltb kv.1.expires now)) cache

-- A round of store's loop, on (oldestKey, oldestTime).
abbrev pub older : Text × ℕ → Text × CacheEntry → Text × ℕ
older (key, time) (k, v) =
    if text_beq key [] || ltb v.expires time then (k, v.expires) else (key, time)

abbrev pub oldest : Text × ℕ → Cache → Text × ℕ
oldest best [] = best
oldest best (kv ∷ cache) = oldest (older best kv) cache

abbrev pub evict : Cache → Cache
evict cache =
    let (oldest_key, time) = oldest ([], 0) cache in
    if text_beq oldest_key [] then cache else delete oldest_key cache

-- store.
unfoldable pub store : Text → CacheEntry → Cache → Cache
store key entry cache =
    insert key entry (if leb dns_cache_max_size (length cache) then evict cache else cache)

-- The test of cachedLookup: the entry of the key, if it has not expired.
unfoldable pub fresh : Text → ℕ → Cache → Option CacheEntry
fresh key now cache = elim (lookup key cache) [
  | none ↦ none
  | some entry ↦ if ltb now entry.expires then some entry else none
]
