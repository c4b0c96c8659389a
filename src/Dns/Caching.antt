-- ===== src/Dns/Caching.antt =====
-- dns.go: what cachedLookup stores and what it serves.
use ssh_gate.Prelude.{
  ℕ, suc, ◌+◌, ◌<◌, ◌≡◌, ◌≢◌, refl, sym, ◌∙◌, subst, inl, inr, Bool, true, false, List, [], ◌∷◌,
  Option, none, some, Text, text_beq, text_beq_iff, text_eq, ltb, lookup, All, All-lookup,
  Bool-cases, Option-cases, List-cases, arith,
}
use ssh_gate.Net.Addr.{Addr, unmap}
use ssh_gate.Dns.Cache.{Cache, CacheEntry, dns_cache_ttl, store, fresh}
use ssh_gate.Dns.Upstream.{QueryError, not_found, unreachable, other_error}
use ssh_gate.Dns.Lookup.{
  Reply, answer, failure, World, LookupResult, Dns, Verdict, answered, denied, none_answered,
  conclude, lookup_tunnel, not_found_lookup, local_fallback,
}
use ssh_gate.Dns.Resolve.{Lookup, from_entry, settle, keep_answer, keep_denial, cached_lookup}
use ssh_gate.Dns.Eviction.{store-All}

-- Every entry that is no negative one has an address.
abbrev pub IsFull : Dns → Type 0
IsFull s = All (λ kv. kv.1.neg ≡ false → kv.1.addrs ≢ []) s.cache

pub record IsGood (r : Dns × Reply LookupResult) : Type 0 where
  pub full : IsFull r.0
  pub answers : (res : LookupResult) → r.1 ≡ answer res → res.addrs ≢ []

lookup-store :
    (key : Text) (entry : CacheEntry) (cache : Cache)
    → lookup key (store key entry cache) ≡ some entry
unfolding store
lookup-store key entry cache =
    let self : text_beq key key ≡ true = (text_beq_iff key key).1 refl in rw self

module _ (world : World) where
  failed-IsGood : (s : Dns) (e : QueryError) → IsFull s → IsGood (s, failure e)
  failed-IsGood s e h = record { full = h; answers = λ r same. cc }

  keep_answer-IsGood :
      (key : Text) (s : Dns) (res : LookupResult) (addrs : List Addr) (authoritative : Bool)
      → res.addrs ≡ addrs
      → IsFull s
      → IsGood (keep_answer world key s res addrs authoritative)
  keep_answer-IsGood key s res [] auth e h = failed-IsGood s _ h
  keep_answer-IsGood key s res (a ∷ addrs) true e h = record {
    full = store-All _ key _ s.cache (λ n. ground arith) h;
    answers = λ r same. let given : r.addrs ≡ a ∷ addrs = cc in ground (arith, given);
  }
  keep_answer-IsGood key s res (a ∷ addrs) false e h = record {
    full = h;
    answers = λ r same. let given : r.addrs ≡ a ∷ addrs = cc in ground (arith, given);
  }

  keep_denial-IsGood :
      (key : Text) (s : Dns) (authoritative : Bool)
      → IsFull s
      → IsGood (keep_denial world key s authoritative)
  keep_denial-IsGood key s true h = record {
    full = store-All _ key _ s.cache (λ n. absurd (ground arith)) h;
    answers = λ r same. cc;
  }
  keep_denial-IsGood key s false h = failed-IsGood s not_found h

  settle-IsGood :
      (key : Text) (r : Dns × (LookupResult × Option QueryError))
      → IsFull r.0
      → IsGood (settle world key r)
  unfolding settle
  settle-IsGood key (s, (res, some not_found)) h = keep_denial-IsGood key s res.authoritative h
  settle-IsGood key (s, (res, some (unreachable t))) h = failed-IsGood s (unreachable t) h
  settle-IsGood key (s, (res, some (other_error t))) h = failed-IsGood s (other_error t) h
  settle-IsGood key (s, (res, none)) h =
      keep_answer-IsGood key s res res.addrs res.authoritative refl h

  fresh_found :
      (key : Text) (now : ℕ) (cache : Cache) (entry : CacheEntry)
      → fresh key now cache ≡ some entry
      → lookup key cache ≡ some entry
  unfolding fresh
  fresh_found key now cache entry e = ground arith

  from_entry-IsGood :
      (s : Dns) (key : Text) (entry : CacheEntry)
      → IsFull s
      → lookup key s.cache ≡ some entry
      → IsGood (s, from_entry entry)
  from_entry-IsGood s key entry h e = elim (Bool-cases entry.neg) [
    | inl n ↦ rw n (failed-IsGood s not_found h)
    | inr n ↦ rw n (record {
      full = h;
      answers = λ r same empty.
          let held : entry.addrs ≡ [] = cc in
          All-lookup (λ kv. kv.1.neg ≡ false → kv.1.addrs ≢ []) key entry s.cache h e n held;
    })
  ]

  -- A cached lookup over a lookup that keeps the cache: the answers have addresses, and so do the
  -- entries of the cache.
  pub cached_lookup-IsGood :
      (key host : Text) (run : Lookup) (s : Dns)
      → ((name : Text) (s' : Dns) → (run name s').0.cache ≡ s'.cache)
      → IsFull s
      → IsGood (cached_lookup world key host run s)
  unfolding cached_lookup
  cached_lookup-IsGood key host run s keeps h = elim (Option-cases (world.parse_addr host)) [
    | inr (ip, e) ↦
        rw (e, cached_lookup)
          (record {
            full = h;
            answers = λ r same empty. let given : unmap ip ∷ [] ≡ r.addrs = cc in ground arith;
          })
    | inl e ↦ elim (Option-cases (fresh key (world.now s.readings) s.cache)) [
      | inr (entry, f) ↦
          rw (e, cached_lookup)
            (rw f (
              from_entry-IsGood (record s { readings = suc s.readings }) key entry h
                (fresh_found key _ s.cache entry f)))
      | inl f ↦
          rw (e, cached_lookup)
            (rw f (
              settle-IsGood key
                (run host (record s { readings = suc s.readings; lookups = suc s.lookups }))
                (let same =
                    keeps host (record s { readings = suc s.readings; lookups = suc s.lookups }) in
                  subst (All (λ kv. kv.1.neg ≡ false → kv.1.addrs ≢ [])) (sym same) h)))
    ]
  ]

  -- An answer that is stored is served to every lookup of its key until it expires, without a lookup;
  -- the resolvers and the counters stay as they are.
  pub cached_lookup-settle :
      (key host : Text) (run : Lookup) (s : Dns) (res : LookupResult) (a : Addr) (addrs : List Addr)
      → world.parse_addr host ≡ none
      → res.addrs ≡ a ∷ addrs
      → res.authoritative ≡ true
      → (later : Dns)
      → lookup key later.cache ≡ lookup key (settle world key (s, (res, none))).0.cache
      → world.now later.readings < world.now s.readings + dns_cache_ttl
      → cached_lookup world key host run later ≡ (
        record later { readings = suc later.readings },
        answer
            (record { addrs = a ∷ addrs; authoritative = true; local_direct = res.local_direct }),
      )
  unfolding cached_lookup fresh settle
  cached_lookup-settle key host run s res a addrs e has auth later same in_time =
      let entry : CacheEntry = record {
        addrs = a ∷ addrs;
        expires = world.now s.readings + dns_cache_ttl;
        neg = false;
        local_direct = res.local_direct;
      } in
      let stored : lookup key (settle world key (s, (res, none))).0.cache ≡ some entry =
        rw (has, auth) (lookup-store key entry s.cache) in
      let in_time_b : ltb (world.now later.readings) entry.expires ≡ true = ground arith in
      rw (e, cached_lookup) (rw (same ∙ stored, cached_lookup) (rw in_time_b))

  -- A lookup whose result is not authoritative leaves the cache as it is: neither a fallback's answer
  -- nor its error is stored.
  pub settle_unauthoritative :
      (key : Text) (s : Dns) (res : LookupResult) (err : Option QueryError)
      → res.authoritative ≡ false
      → (settle world key (s, (res, err))).0.cache ≡ s.cache
  unfolding settle
  settle_unauthoritative key s res (some not_found) h = rw h
  settle_unauthoritative key s res (some (unreachable t)) h = refl
  settle_unauthoritative key s res (some (other_error t)) h = refl
  settle_unauthoritative key s res none h = elim (List-cases res.addrs) [
    | inl e ↦ rw e
    | inr (a, rest, e) ↦ rw (e, h)
  ]

  not_found_lookup-cache :
      (host : Text) (s : Dns) → (not_found_lookup world host s).0.cache ≡ s.cache
  unfolding not_found_lookup
  not_found_lookup-cache host s = ground arith

  conclude-cache :
      (host : Text) (v : Verdict) (s : Dns) → (conclude world host v s).0.cache ≡ s.cache
  unfolding local_fallback
  conclude-cache host (answered addrs) s = refl
  conclude-cache host denied s = not_found_lookup-cache host s
  conclude-cache host none_answered s = refl

  pub lookup_tunnel-cache : (host : Text) (s : Dns) → (lookup_tunnel world host s).0.cache ≡ s.cache
  unfolding lookup_tunnel
  lookup_tunnel-cache host s = conclude-cache host _ _
