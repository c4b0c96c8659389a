-- ===== src/Dns/Servers.antt =====
-- dns.go: SetDOH, SetTunnelDNS and the errors of dnsServerLookup, over what net.Resolver returns.
use ssh_gate.Prelude.{
  ℕ, ◌≡◌, refl, ap, Bool, true, false, List, [], ◌∷◌, ◌++◌, map, Option, none, some, Text, codes,
  text_beq, if◌then◌else◌,
}
use ssh_gate.Syntax.HostPort.{split_host_port, join_host_port}
use ssh_gate.Syntax.RoundTrip.{NoBrackets, split_host_port-join_host_port}
use ssh_gate.Dns.Upstream.{
  QueryError, not_found, unreachable, other_error, Upstream, upstream_failed,
}

abbrev pub new_upstream : Text → Upstream
new_upstream name = record {
  name = name;
  paused_until = none;
  probing = false;
  ok = 0;
  fail = 0;
  last_ok_at = none;
  last_rtt = 0;
  last_failed = false;
  last_err = [];
}

-- The name under which the status shows a server: without the port 53.
abbrev pub name_of : Text → Option (Text × Text) → Text
name_of server none = server
name_of server (some (host, port)) = if text_beq port (codes "53") then host else server

unfoldable pub server_name : Text → Text
server_name server = name_of server (split_host_port server)

-- SetDOH and SetTunnelDNS: the tunnel resolvers that they leave.
abbrev pub set_doh : Text → List Upstream
set_doh host = new_upstream host ∷ []

abbrev pub set_tunnel_dns : List Text → List Upstream
set_tunnel_dns servers = map (λ server. new_upstream (server_name server)) servers

-- What LookupIPAddr returns for an error: whether it is a DNSError, with IsNotFound and its Err.
pub data ResolverError : Type 0 where
  plain_error : Text → ResolverError
  dns_error : Bool → Text → ResolverError

-- dnsServerLookup's error, with whether a channel to the server was opened.
unfoldable pub server_error : Bool → ResolverError → QueryError
server_error opened (plain_error text) = other_error text
server_error opened (dns_error true text) = not_found
server_error opened (dns_error false text) =
    if opened
    then other_error text
    else unreachable (codes "server unreachable" ++ (codes ": " ++ text))

server_name-join_host_port :
    (host : Text) → NoBrackets host → server_name (join_host_port host (codes "53")) ≡ host
unfolding server_name
server_name-join_host_port host plain =
    ap (name_of (join_host_port host (codes "53")))
      (split_host_port-join_host_port host (codes "53") plain (refl, (refl, refl)))

-- A server is paused only where no channel to it could be opened; one that answers with an error, or
-- that is silent on an open channel, is asked again by the next lookup.
upstream_failed-opened :
    (now : ℕ) (e : ResolverError) (u : Upstream)
    → (upstream_failed true now (server_error true e) u).paused_until ≡ none
unfolding upstream_failed server_error
upstream_failed-opened now (plain_error text) u = refl
upstream_failed-opened now (dns_error true text) u = refl
upstream_failed-opened now (dns_error false text) u = refl
