-- ===== src/Dns/Eviction.antt =====
-- dns.go: store, purge and the bound of the cache.
use ssh_gate.Prelude.{
  ℕ, ◌≤◌, ◌≡◌, ◌≢◌, refl, sym, subst, inl, inr, true, false, [], ◌∷◌, none, some, Text, text_beq,
  text_beq_iff, text_eq, ltb, leb, length, lookup, All, All-delete, Distinct, Bool-cases, arith,
}
use ssh_gate.Dns.Cache.{Cache, CacheEntry, dns_cache_max_size, oldest, evict, store}

-- A map of Go, no larger than the bound, without the key that store takes for "no key yet".
pub record IsCache (cache : Cache) : Type 0 where
  pub bounded : length cache ≤ dns_cache_max_size
  pub distinct : Distinct cache
  pub no_empty : lookup [] cache ≡ none

pub evict-All : (P : Text × CacheEntry → Type 0) (cache : Cache) → All P cache → All P (evict cache)
evict-All P cache h = elim (Bool-cases (text_beq (oldest ([], 0) cache).0 [])) [
  | inl e ↦ rw e h
  | inr e ↦ rw e (All-delete P _ cache h)
]

pub store-All :
    (P : Text × CacheEntry → Type 0) (key : Text) (entry : CacheEntry) (cache : Cache)
    → P (key, entry)
    → All P cache
    → All P (store key entry cache)
unfolding store
store-All P key entry cache new h = elim (Bool-cases (leb dns_cache_max_size (length cache))) [
  | inl e ↦ rw (e, store) (new, All-delete P key _ (evict-All P cache h))
  | inr e ↦ rw (e, store) (new, All-delete P key cache h)
]

-- The loop of store ends on a key of the map, with the least expiry.
pub record IsOldest (best : Text × ℕ) (cache : Cache) : Type 0 where
  pub entry : CacheEntry
  pub held : lookup best.0 cache ≡ some entry
  pub time : entry.expires ≡ best.1
  pub least : All (λ kv. best.1 ≤ kv.1.expires) cache

-- The loop from `best` on: it ends on `best` or on a key of the rest.
data Run (best end : Text × ℕ) (cache : Cache) : Type 0 where
  stays : end ≡ best → All (λ kv. best.1 ≤ kv.1.expires) cache → Run best end cache
  moves : IsOldest end cache → end.1 ≤ best.1 → Run best end cache

extend :
    (end : Text × ℕ) (k : Text) (v : CacheEntry) (cache : Cache)
    → IsOldest end cache
    → lookup k cache ≡ none
    → end.1 ≤ v.expires
    → IsOldest end ((k, v) ∷ cache)
extend end k v cache h fresh_key le = elim (Bool-cases (text_beq k end.0)) [
  | inl same ↦ absurd (
      let e : lookup end.0 cache ≡ none =
        subst (λ j. lookup j cache ≡ none) ((text_beq_iff k end.0).0 same) fresh_key in
      let f = h.held in cc)
  | inr other ↦ record {
    entry = h.entry;
    held = rw other h.held;
    time = h.time;
    least = (le, h.least);
  }
]

head-IsOldest :
    (k : Text) (v : CacheEntry) (cache : Cache)
    → All (λ kv. v.expires ≤ kv.1.expires) cache
    → IsOldest (k, v.expires) ((k, v) ∷ cache)
head-IsOldest k v cache h =
    let self : text_beq k k ≡ true = (text_beq_iff k k).1 refl in
    record { entry = v; held = rw self; time = refl; least = (omega arith, h) }

key_of : (k : Text) (v : CacheEntry) (cache : Cache) → lookup [] ((k, v) ∷ cache) ≡ none → k ≢ []
key_of k v cache e same = ground (arith, text_beq_iff k [])

rest_of :
    (k : Text) (v : CacheEntry) (cache : Cache)
    → lookup [] ((k, v) ∷ cache) ≡ none
    → lookup [] cache ≡ none
rest_of k v cache e = ground arith

-- Takes the run of the rest, from the new key.
from_head :
    (k : Text) (v : CacheEntry) (time : ℕ) (key : Text) (end : Text × ℕ) (cache : Cache)
    → lookup k cache ≡ none
    → v.expires ≤ time
    → Run (k, v.expires) end cache
    → Run (key, time) end ((k, v) ∷ cache)
from_head k v time key end cache d le (stays e l) =
    moves (subst (λ x. IsOldest x ((k, v) ∷ cache)) (sym e) (head-IsOldest k v cache l)) (rw e le)
from_head k v time key end cache d le (moves h b) = moves (extend end k v cache h d b) (omega arith)

from_best :
    (k : Text) (v : CacheEntry) (time : ℕ) (key : Text) (end : Text × ℕ) (cache : Cache)
    → lookup k cache ≡ none
    → time ≤ v.expires
    → Run (key, time) end cache
    → Run (key, time) end ((k, v) ∷ cache)
from_best k v time key end cache d le (stays e l) = stays e (le, l)
from_best k v time key end cache d le (moves h b) = moves (extend end k v cache h d (omega arith)) b

oldest-Run :
    (key : Text) (time : ℕ) (cache : Cache)
    → key ≢ []
    → Distinct cache
    → lookup [] cache ≡ none
    → Run (key, time) (oldest (key, time) cache) cache
oldest-Run key time [] h d e = stays refl tt
oldest-Run key time ((k, v) ∷ cache) h d e =
    let given : text_beq key [] ≡ false = ground (arith, text_beq_iff key []) in
    elim (Bool-cases (ltb v.expires time)) [
      | inl lt ↦ rw given (
          rw lt (
            from_head k v time key _ cache d.0 (ground arith)
              (oldest-Run k v.expires cache (key_of k v cache e) d.1 (rest_of k v cache e))))
      | inr ge ↦ rw given (
          rw ge (
            from_best k v time key _ cache d.0 (ground arith)
              (oldest-Run key time cache h d.1 (rest_of k v cache e))))
    ]

-- From no key yet, the loop over a map that is not empty ends on its oldest entry.
pub oldest-IsOldest :
    (k : Text) (v : CacheEntry) (cache : Cache)
    → Distinct ((k, v) ∷ cache)
    → lookup [] ((k, v) ∷ cache) ≡ none
    → IsOldest (oldest ([], 0) ((k, v) ∷ cache)) ((k, v) ∷ cache)
oldest-IsOldest k v cache d e =
    finish _ (oldest-Run k v.expires cache (key_of k v cache e) d.1 (rest_of k v cache e))
  where
    finish : (end : Text × ℕ) → Run (k, v.expires) end cache → IsOldest end ((k, v) ∷ cache)
    finish end (stays same l) =
        subst (λ x. IsOldest x ((k, v) ∷ cache)) (sym same) (head-IsOldest k v cache l)
    finish end (moves h b) = extend end k v cache h d.0 b
