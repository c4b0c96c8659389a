-- ===== src/Http/Forward.antt =====
-- httpproxy.go: handleConn, handleConnect and handleHTTP, as the actions on the client and on the
-- upstream connection that they take, in order, and those of the idle guard between them.
use ssh_gate.Prelude.{
  ℕ, zero, suc, Bool, true, false, not, List, [], ◌∷◌, ◌++◌, Option, none, some, Text, codes,
  text_beq, if◌then◌else◌,
}
use ssh_gate.Syntax.Decimal.{ℤ, pos, atoi}
use ssh_gate.Syntax.HostPort.{split_host_port}
use ssh_gate.Config.Values.{validate_port}
use ssh_gate.Http.Message.{
  Request, BodyPlan, no_body, streamed, read_failed, too_large, reframed, plan_body, request_head,
  write_http_err,
}

-- What http.ReadRequest makes of the connection: an error may come with the limit used up.
pub data Incoming : Type 0 where
  parsed : Request → Incoming
  unreadable : Bool → Incoming

-- How Open ends: a failure may be a timeout of package net.
pub data Dial : Type 0 where
  connected : Dial
  dial_failed : Bool → Dial

-- The shared Opener, and whether a write of a body, or the copy of one, succeeds. `idle` is when the
-- idle guard of handleHTTP runs onIdle: how many actions begin before its close of the client, and how
-- many more before its close of the upstream; `none` is a guard that is stopped first. Behind a close
-- that onIdle makes, a transfer may fail, and the read of a body that it breaks is that of the request.
pub record Peer : Type 0 where
  pub dial_host : Text → ℤ → Dial
  pub write_body : Text → Bool
  pub copy_body : Bool
  pub idle : Option (ℕ × ℕ)

pub data Action : Type 0 where
  -- openUpstream, and writeHTTPErr to the client.
  opens : Text → ℤ → Dial → Action
  answers : Text → Action
  -- The 200 of CONNECT, and the relay in both directions.
  establishes relays_both : Action
  -- To the upstream: a text, and the copy of the request's body.
  sends : Text → Action
  copies_body : Action
  -- The copy of the upstream's response, and Close of the upstream.
  relays_response closes : Action
  -- onIdle: raw.Close and lc.Close.
  idles_client idles_upstream : Action

-- onIdle runs on a goroutine of its own, between the actions of the handler.
abbrev pub idles_behind : ℕ → List Action → List Action
idles_behind zero actions = idles_upstream ∷ actions
idles_behind (suc m) [] = idles_upstream ∷ []
idles_behind (suc m) (a ∷ actions) = a ∷ idles_behind m actions

abbrev pub idles_at : ℕ → ℕ → List Action → List Action
idles_at zero m actions = idles_client ∷ idles_behind m actions
idles_at (suc n) m [] = idles_client ∷ idles_upstream ∷ []
idles_at (suc n) m (a ∷ actions) = a ∷ idles_at n m actions

abbrev pub with_guard : Option (ℕ × ℕ) → List Action → List Action
with_guard none actions = actions
with_guard (some (n, m)) actions = idles_at n m actions

-- statusForDialErr, on whether the error is a timeout.
abbrev pub status_for_dial_err : Bool → ℕ
status_for_dial_err timeout = if timeout then 504 else 502

-- The port, if it is a number that validatePort accepts.
abbrev pub valid_port : Text → Option ℤ
valid_port text = elim (atoi text) [
  | none ↦ none
  | some port ↦ if validate_port port then some port else none
]

-- Only plain "chunked" can be re-framed.
abbrev pub is_framable : List Text → Bool
is_framable [] = true
is_framable (t ∷ []) = text_beq t (codes "chunked")
is_framable (t ∷ u ∷ ts) = false

module _ (status_text : ℕ → Text) (up : Peer) where
  abbrev pub http_err : ℕ → Text → List Action
  http_err code msg = answers (write_http_err status_text code msg) ∷ []

  -- openUpstream with what the handlers do when it fails; `rest` is what follows.
  abbrev pub open_upstream : Text → ℤ → List Action → List Action
  open_upstream host port rest =
      let dial = up.dial_host host port in
      opens host port dial ∷ elim dial [
        | connected ↦ rest
        | dial_failed timeout ↦ http_err (status_for_dial_err timeout) (codes "Connect failed")
      ]

  -- handleConnect.
  unfoldable pub handle_connect : Request → List Action
  handle_connect r = elim (split_host_port r.url.host) [
    | none ↦ http_err 400 (codes "Bad CONNECT target")
    | some (host, port) ↦ elim (valid_port port) [
      | none ↦ http_err 400 (codes "Bad CONNECT target port")
      | some n ↦ open_upstream host n (establishes ∷ relays_both ∷ closes ∷ [])
    ]
  ]

  -- handleHTTP behind the head: the transfer of the body, and the response.
  abbrev pub transfer : Bool → List Action → List Action
  transfer done send =
      send ++ (if done then relays_response ∷ [] else http_err 502 (codes "Body transfer failed"))

  -- handleHTTP behind openUpstream, up to the deferred Close.
  unfoldable pub forward : Request → BodyPlan → List Action
  forward r read_failed = http_err 413 (codes "Body read failed")
  forward r too_large = http_err 413 (codes "Body too large")
  forward r (reframed body) =
      sends (request_head r (some body)) ∷ transfer (up.write_body body) (sends body ∷ [])
  forward r streamed = sends (request_head r none) ∷ transfer up.copy_body (copies_body ∷ [])
  forward r no_body = sends (request_head r none) ∷ relays_response ∷ []

  abbrev pub forward_to : Request → Option ℤ → List Action
  forward_to r none = http_err 400 (codes "Bad target port")
  forward_to r (some port) =
      if not (is_framable r.transfer_encoding)
      then http_err 400 (codes "Unsupported Transfer-Encoding")
      else open_upstream r.url.hostname port
          (with_guard up.idle (forward r (plan_body r) ++ closes ∷ []))

  -- handleHTTP; the port is 80 where the URL has none.
  unfoldable pub handle_http : Request → List Action
  unfolding forward
  handle_http r =
      forward_to r (if text_beq r.url.port [] then some (pos 80) else valid_port r.url.port)

  -- handleConn.
  unfoldable pub handle_conn : Incoming → List Action
  unfolding handle_connect handle_http
  handle_conn (unreadable over) =
      if over
      then http_err 431 (codes "Request Header Fields Too Large")
      else http_err 400 (codes "Bad Request")
  handle_conn (parsed r) =
      if text_beq r.method (codes "CONNECT")
      then handle_connect r
      else if text_beq r.url.scheme (codes "http")
      then handle_http r
      else http_err 400 (codes "HTTP absolute-form or CONNECT requests only")
