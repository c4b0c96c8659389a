-- ===== src/Dns/Service.antt =====
-- dns.go as the resolver of the rules and of the opener: the instance of the interface.
use ssh_gate.Prelude.{◌≡◌, ◌≢◌, refl, ◌∙◌, Bool, List, [], Option, none, some, Text}
use ssh_gate.Net.Addr.{Addr}
use ssh_gate.Resolver.{Resolver}
use ssh_gate.Dns.Lookup.{
  Reply, answer, failure, World, LookupResult, Dns, lookup_local, lookup_tunnel,
}
use ssh_gate.Dns.Resolve.{resolve_tunnel, local_resolve_all, local_result}
use ssh_gate.Dns.Caching.{IsFull, IsGood, cached_lookup-IsGood, lookup_tunnel-cache}

-- A state of the cache in which every entry that is no negative one has an address.
abbrev pub FullDns : Type 0
FullDns = (s : Dns) × IsFull s

-- What a caller gets of a reply.
abbrev pub tunnel_part : Reply LookupResult → Option (List Addr × Bool)
tunnel_part (answer res) = some (res.addrs, res.local_direct)
tunnel_part (failure e) = none

abbrev pub local_part : Reply LookupResult → Option (List Addr)
local_part (answer res) = some res.addrs
local_part (failure e) = none

module _ (world : World) where
  -- resolveTunnel: the cache keeps an address in every positive entry, and so has the answer.
  pub resolve_tunnel-IsGood :
      (host : Text) (s : Dns) → IsFull s → IsGood (resolve_tunnel world host s)
  unfolding resolve_tunnel
  resolve_tunnel-IsGood host s h =
      cached_lookup-IsGood world _ _ (lookup_tunnel world) s (lookup_tunnel-cache world) h

  pub local_resolve_all-IsGood :
      (host : Text) (s : Dns) → IsFull s → IsGood (local_resolve_all world host s)
  unfolding local_resolve_all
  local_resolve_all-IsGood host s h =
      cached_lookup-IsGood world _ _ (λ name s'. local_result world (lookup_local world name s')) s
        (λ name s'. local_result-cache (lookup_local world name s')) h
    where
      local_result-cache :
          (r : Dns × Reply (List Addr)) → (local_result world r).0.cache ≡ r.0.cache
      local_result-cache (s, answer addrs) = refl
      local_result-cache (s, failure e) = refl

  pub tunnel_part-some :
      (r : Reply LookupResult) (addrs : List Addr) (d : Bool)
      → ((res : LookupResult) → r ≡ answer res → res.addrs ≢ [])
      → tunnel_part r ≡ some (addrs, d)
      → addrs ≢ []
  tunnel_part-some (answer res) addrs d h e =
      λ empty. h res refl (let same : res.addrs ≡ addrs = cc in same ∙ empty)
  tunnel_part-some (failure x) addrs d h e = cc

  pub local_part-some :
      (r : Reply LookupResult) (addrs : List Addr)
      → ((res : LookupResult) → r ≡ answer res → res.addrs ≢ [])
      → local_part r ≡ some addrs
      → addrs ≢ []
  local_part-some (answer res) addrs h e =
      λ empty. h res refl (let same : res.addrs ≡ addrs = cc in same ∙ empty)
  local_part-some (failure x) addrs h e = cc

  -- The cache's two resolutions, as the interface that Decide and candidates use.
  abbrev pub dns_resolver : Resolver FullDns
  dns_resolver = record {
    resolve_tunnel = λ host s.
        let r = resolve_tunnel world host s.0 in
        ((r.0, (resolve_tunnel-IsGood host s.0 s.1).full), tunnel_part r.1);
    local_resolve_all = λ host s.
        let r = local_resolve_all world host s.0 in
        ((r.0, (local_resolve_all-IsGood host s.0 s.1).full), local_part r.1);
    tunnel_some = λ host s addrs d e.
        tunnel_part-some _ addrs d (resolve_tunnel-IsGood host s.0 s.1).answers e;
    local_some =
        λ host s addrs e. local_part-some _ addrs (local_resolve_all-IsGood host s.0 s.1).answers e;
  }
