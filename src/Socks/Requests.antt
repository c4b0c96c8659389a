-- ===== src/Socks/Requests.antt =====
-- socks5.go: the callbacks that the server gives the SOCKS5 library: Resolve, and the dial of a
-- request, as the actions that it takes.
use ssh_gate.Prelude.{Bool, List, [], ◌∷◌, Option, none, some, Text, codes, text_beq, if◌then◌else◌}
use ssh_gate.Net.Addr.{Addr, ip4}
use ssh_gate.Rules.Engine.{Route, Reason}
use ssh_gate.Syntax.Decimal.{ℤ, atoi_value}
use ssh_gate.Syntax.HostPort.{split_host_port}

-- What Opener.Resolve returns: the address or the error's text, the route and the reason.
pub record Resolved : Type 0 where
  pub answer : Option Addr
  pub route : Route
  pub reason : Reason

-- resolveFailure.
pub record ResolveFailure : Type 0 where
  pub route : Route
  pub reason : Reason

-- openerResolver.Resolve: the failure that it leaves in the context, and the address. It has no
-- error of its own.
unfoldable pub resolve : Resolved → Option ResolveFailure × Addr
resolve r = elim r.answer [
  | some ip ↦ (none, ip)
  | none ↦ (some (record { route = r.route; reason = r.reason }), ip4 0 0 0 0)
]

-- What the library tells of a request.
pub record Request : Type 0 where
  pub fqdn : Text
  pub src : Text

-- What Opener.Open returns, with the route and the reason.
pub record Opened : Type 0 where
  pub connects : Bool
  pub route : Route
  pub reason : Reason

pub data Action : Type 0 where
  -- SetDeadline of the zero time on the client, and Open.
  lifts_deadline : Text → Action
  opens : Text → ℤ → Action
  -- logFailure, with the route and the reason of its access line; and conns.Add(1).
  logs_failure : Text → Route → Reason → Action
  counts : Action

-- How the callback returns.
pub data Outcome : Type 0 where
  invalid_address resolve_failed dial_failed relays : Outcome

abbrev pub chosen_host : Request → Text → Text
chosen_host r host = if text_beq r.fqdn [] then host else r.fqdn

module _ (open_host : Text → Text → ℤ → Opened) (has_handshake : Text → Bool) where
  abbrev pub dial_target : Request → Text → ℤ → List Action × Outcome
  dial_target r host port =
      let o = open_host r.src host port in
      if o.connects
      then (opens host port ∷ counts ∷ [], relays)
      else (opens host port ∷ logs_failure (codes "dial_error") o.route o.reason ∷ [], dial_failed)

  abbrev pub dial_unless : Option ResolveFailure → Request → Text → ℤ → List Action × Outcome
  dial_unless (some rf) r host port =
      (logs_failure (codes "resolve_error") rf.route rf.reason ∷ [], resolve_failed)
  dial_unless none r host port = dial_target r host port

  -- The callback of WithDialAndRequest, with the failure that the context carries.
  unfoldable pub dial_request : Option ResolveFailure → Text → Request → List Action × Outcome
  dial_request failure addr r = elim (split_host_port addr) [
    | none ↦ ([], invalid_address)
    | some (host, port) ↦
        let (actions, outcome) = dial_unless failure r (chosen_host r host) (atoi_value port) in
        ((if has_handshake r.src then lifts_deadline r.src ∷ actions else actions), outcome)
  ]
