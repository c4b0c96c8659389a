-- ===== src/Resolver.antt =====
-- The two resolutions of dns.go that the rules and the opener use, as an interface over a state. A
-- failed resolution is `none`; an answer is never empty.
use ssh_gate.Prelude.{Text, List, [], Bool, Option, some, ◌≡◌, ◌≢◌}
use ssh_gate.Net.Addr.{Addr}

pub record Resolver (S : Type 0) : Type 0 where
  -- resolveTunnel: the addresses, and whether a private answer may go direct.
  pub resolve_tunnel : Text → S → S × Option (List Addr × Bool)
  -- localResolveAll.
  pub local_resolve_all : Text → S → S × Option (List Addr)
  pub tunnel_some :
      (host : Text) (s : S) (addrs : List Addr) (local_direct : Bool)
      → (resolve_tunnel host s).1 ≡ some (addrs, local_direct)
      → addrs ≢ []
  pub local_some :
      (host : Text) (s : S) (addrs : List Addr)
      → (local_resolve_all host s).1 ≡ some addrs
      → addrs ≢ []
