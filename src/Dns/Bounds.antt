-- ===== src/Dns/Bounds.antt =====
-- dns.go: the bound of the cache, what store evicts, and purge.
use ssh_gate.Prelude.{
  ℕ, suc, ◌≤◌, ◌<◌, ◌≡◌, ◌≢◌, refl, sym, ap, ◌∙◌, subst, inl, inr, true, false, not, [], ◌∷◌, none,
  some, Text, text_beq, text_beq_iff, text_eq, ltb, leb, if◌then◌else◌, length, lookup, insert,
  delete, Distinct, insert-Distinct, delete-Distinct, lookup-delete, lookup-insert,
  length-delete-le, length-delete-lt, length-keep-le, Bool-cases, arith,
}
use ssh_gate.Dns.Cache.{Cache, CacheEntry, dns_cache_max_size, purge, oldest, evict, store, fresh}
use ssh_gate.Dns.Eviction.{IsCache, IsOldest, oldest-IsOldest}

full_cons :
    (cache : Cache)
    → dns_cache_max_size ≤ length cache
    → (k : Text) × (v : CacheEntry) × (rest : Cache) × (cache ≡ (k, v) ∷ rest)
full_cons [] h = absurd (omega (arith, h))
full_cons ((k, v) ∷ rest) h = (k, v, rest, refl)

-- A full map without the empty key loses exactly its oldest entry.
evict_full :
    (cache : Cache)
    → dns_cache_max_size ≤ length cache
    → Distinct cache
    → lookup [] cache ≡ none
    → (k : Text) × (time : ℕ) × (evict cache ≡ delete k cache) × IsOldest (k, time) cache
evict_full [] h d e = absurd (omega (arith, h))
evict_full ((k, v) ∷ cache) h d e =
    let end = oldest ([], 0) ((k, v) ∷ cache) in
    let found : IsOldest end ((k, v) ∷ cache) = oldest-IsOldest k v cache d e in
    (end.0, end.1, rw (is_key end.0 found.entry found.held), found)
  where
    is_key :
        (j : Text) (w : CacheEntry) → lookup j ((k, v) ∷ cache) ≡ some w → text_beq j [] ≡ false
    is_key j w held = elim (Bool-cases (text_beq j [])) [
      | inl same ↦ absurd (
          let gone : lookup j ((k, v) ∷ cache) ≡ none =
            subst (λ i. lookup i ((k, v) ∷ cache) ≡ none) (sym ((text_beq_iff j []).0 same)) e in
          cc)
      | inr other ↦ other
    ]

-- store on a full cache: the new entry is there, the entry that expires first is gone, and every
-- other one stays.
pub store_full :
    (key : Text) (entry : CacheEntry) (cache : Cache)
    → dns_cache_max_size ≤ length cache
    → Distinct cache
    → lookup [] cache ≡ none
    → (k : Text) × (time : ℕ) × IsOldest (k, time) cache
      × ((j : Text)
          → lookup j (store key entry cache) ≡ (
              if text_beq key j then some entry else if text_beq k j then none else lookup j cache))
unfolding store
store_full key entry cache h d e =
    let (k, time, evicted, found) = evict_full cache h d e in
    let full : leb dns_cache_max_size (length cache) ≡ true = ground arith in
    (
      k,
      time,
      found,
      λ j. rw full (
          rw evicted (
            lookup-insert key j entry (delete k cache)
            ∙ ap (λ o. if text_beq key j then some entry else o) (lookup-delete k j cache))),
    )

length-insert-le :
    (key : Text) (entry : CacheEntry) (cache : Cache)
    → length (insert key entry cache) ≤ suc (length cache)
length-insert-le key entry cache = omega (arith, length-delete-le key cache)

insert-IsCache :
    (key : Text) (entry : CacheEntry) (cache : Cache)
    → key ≢ []
    → length cache < dns_cache_max_size
    → Distinct cache
    → lookup [] cache ≡ none
    → IsCache (insert key entry cache)
insert-IsCache key entry cache given room d e =
    let other : text_beq key [] ≡ false = ground (arith, text_beq_iff key []) in
    record {
      bounded = omega (arith, length-insert-le key entry cache, room);
      distinct = insert-Distinct key entry cache d;
      no_empty = lookup-insert key [] entry cache ∙ rw other e;
    }

delete-no_empty :
    (k : Text) (cache : Cache) → lookup [] cache ≡ none → lookup [] (delete k cache) ≡ none
delete-no_empty k cache e = ground (arith, lookup-delete k [] cache)

-- A cache without the empty key and without duplicates, of at most 1000 entries, is one again behind
-- every store of a key that is not empty, also behind a store on a full cache.
pub store-IsCache :
    (key : Text) (entry : CacheEntry) (cache : Cache)
    → key ≢ []
    → IsCache cache
    → IsCache (store key entry cache)
unfolding store
store-IsCache key entry cache given h = elim (Bool-cases (leb dns_cache_max_size (length cache))) [
  | inl full ↦
      let (k, time, evicted, found) = evict_full cache (ground arith) h.distinct h.no_empty in
      rw full (
        rw evicted (
          insert-IsCache key entry (delete k cache) given
            (omega (arith, length-delete-lt k found.entry cache found.held, h.bounded))
            (delete-Distinct k cache h.distinct) (delete-no_empty k cache h.no_empty)))
  | inr room ↦ rw room (insert-IsCache key entry cache given (ground arith) h.distinct h.no_empty)
]

lookup-purge-none :
    (key : Text) (now : ℕ) (cache : Cache)
    → lookup key cache ≡ none
    → lookup key (purge now cache) ≡ none
lookup-purge-none key now [] h = refl
lookup-purge-none key now ((k, v) ∷ cache) h = ground (arith, lookup-purge-none key now cache)

pub purge-Distinct : (now : ℕ) (cache : Cache) → Distinct cache → Distinct (purge now cache)
purge-Distinct now [] h = tt
purge-Distinct now ((k, v) ∷ cache) h =
    let rest = purge-Distinct now cache h.1 in ground (arith, lookup-purge-none k now cache h.0)

-- A purge keeps the cache's invariant.
purge-IsCache : (now : ℕ) (cache : Cache) → IsCache cache → IsCache (purge now cache)
purge-IsCache now cache h = record {
  bounded = omega (arith, length-keep-le (λ kv. not (ltb kv.1.expires now)) cache, h.bounded);
  distinct = purge-Distinct now cache h.distinct;
  no_empty = lookup-purge-none [] now cache h.no_empty;
}

-- No lookup from the time of a purge on can tell that it ran: it sees the same entry or none.
pub fresh-purge :
    (key : Text) (now later : ℕ) (cache : Cache)
    → Distinct cache
    → now ≤ later
    → fresh key later (purge now cache) ≡ fresh key later cache
unfolding fresh
fresh-purge key now later [] d h = refl
fresh-purge key now later ((k, v) ∷ cache) d h = ground (
  arith,
  fresh-purge key now later cache d.1 h,
  lookup-purge-none key now cache,
  text_beq_iff k key,
)
