-- ===== src/Http/Handling.antt =====
-- httpproxy.go: the order of the actions of a connection's handler.
use ssh_gate.Prelude.{
  ℕ, ◌≡◌, ◌≢◌, refl, subst, true, false, not, List, [], ◌∷◌, ◌++◌, Option, none, some, Text, codes,
  text_beq, if◌then◌else◌, inl, inr, Bool-cases, Option-cases, arith,
}
use ssh_gate.Syntax.Decimal.{ℤ, pos}
use ssh_gate.Syntax.HostPort.{split_host_port}
use ssh_gate.Config.Values.{validate_port}
use ssh_gate.Http.Message.{Request, BodyPlan, plan_body}
use ssh_gate.Http.Phases.{start, reached, over, follow}
use ssh_gate.Http.Watched.{Watch, quiet, client_closed, watched, Ends, follow-Ends, with_guard-Ends}
use ssh_gate.Http.Forward.{
  Incoming, parsed, unreadable, Dial, connected, dial_failed, Peer, Action, opens, closes,
  valid_port, status_for_dial_err, http_err, open_upstream, handle_connect, forward, forward_to,
  handle_http, handle_conn, is_framable,
}

module _ (status_text : ℕ → Text) (up : Peer) where
  follow-refuse :
      (code : ℕ) (msg : Text) → follow start (http_err status_text up code msg) ≡ some over
  unfolding follow
  follow-refuse code msg = refl

  -- A handler that dials a valid port, and ends well where the dial connects.
  follow-open_upstream :
      (host : Text) (port : ℤ) (rest : List Action)
      → validate_port port ≡ true
      → follow reached rest ≡ some over
      → follow start (open_upstream status_text up host port rest) ≡ some over
  unfolding follow
  follow-open_upstream host port rest valid h = go (up.dial_host host port)
    where
      go :
          (d : Dial)
          → follow start (
              opens host port d ∷ elim d [
                | connected ↦ rest
                | dial_failed t ↦
                    http_err status_text up (status_for_dial_err t) (codes "Connect failed")
              ])
            ≡ some over
      go connected = rw (valid, follow) h
      go (dial_failed t) = rw (valid, follow)

  valid_port-some :
      (text : Text) (port : ℤ) → valid_port text ≡ some port → validate_port port ≡ true
  valid_port-some text port h = ground arith

  follow-target :
      (r : Request) (target : Option (Text × Text))
      → split_host_port r.url.host ≡ target
      → follow start (handle_connect status_text up r) ≡ some over
  unfolding handle_connect
  follow-target r none e = rw (e, handle_connect) (follow-refuse _ _)
  follow-target r (some (host, port)) e = elim (Option-cases (valid_port port)) [
    | inl bad ↦ rw (e, bad, handle_connect) (follow-refuse _ _)
    | inr (n, good) ↦
        rw (e, good, handle_connect)
          (follow-open_upstream host n _ (valid_port-some port n good) (unfold follow in refl))
  ]

  follow-forward :
      (r : Request) (plan : BodyPlan)
      → follow reached (forward status_text up r plan ++ closes ∷ []) ≡ some over
  unfolding forward follow
  follow-forward r plan = ground arith

  -- The same for a handler with the idle guard.
  open_upstream-Ends :
      (host : Text) (port : ℤ) (rest : List Action)
      → validate_port port ≡ true
      → Ends reached rest
      → Ends start (open_upstream status_text up host port rest)
  unfolding watched
  open_upstream-Ends host port rest valid (w, h, both) = go (up.dial_host host port)
    where
      go :
          (d : Dial)
          → Ends start (
              opens host port d ∷ elim d [
                | connected ↦ rest
                | dial_failed t ↦
                    http_err status_text up (status_for_dial_err t) (codes "Connect failed")
              ])
      go connected = (w, rw (valid, watched) h, both)
      go (dial_failed t) = (quiet, rw (valid, watched) refl, λ e. cc)

  refuse-Ends : (code : ℕ) (msg : Text) → Ends start (http_err status_text up code msg)
  refuse-Ends code msg = follow-Ends start _ (follow-refuse code msg)

  forward_to-Ends :
      (r : Request) (port : Option ℤ)
      → ((n : ℤ) → port ≡ some n → validate_port n ≡ true)
      → Ends start (forward_to status_text up r port)
  forward_to-Ends r none h = refuse-Ends _ _
  forward_to-Ends r (some n) h = elim (Bool-cases (not (is_framable r.transfer_encoding))) [
    | inl bad ↦ rw bad (refuse-Ends _ _)
    | inr good ↦ rw good (
        open_upstream-Ends r.url.hostname n _ (h n refl)
          (with_guard-Ends up.idle reached _ refl (follow-forward r (plan_body r))))
  ]

  chosen_port :
      (text : Text) (n : ℤ)
      → (if text_beq text [] then some (pos 80) else valid_port text) ≡ some n
      → validate_port n ≡ true
  chosen_port [] n h = let same : pos 80 ≡ n = cc in subst (λ m. validate_port m ≡ true) same refl
  chosen_port (c ∷ text) n h = valid_port-some (c ∷ text) n h

  handle_http-Ends : (r : Request) → Ends start (handle_http status_text up r)
  unfolding handle_http
  handle_http-Ends r = forward_to-Ends r _ (chosen_port r.url.port)

  -- Every connection is handled to its end: its handler gives exactly one answer, an error, the response
  -- of the upstream, or the 200 of a tunnel and its relay; at most one upstream is dialed, at a valid
  -- port; nothing is sent before the dial connects or behind the answer; and the handler closes an
  -- upstream that connects, once, at the end. The idle guard closes nothing, or, once the upstream is
  -- connected, the client and then the upstream, each once and wherever the handler is; the handler goes
  -- on to its end, and then closes an upstream that may be closed already. What it answers behind the
  -- close of the client reaches nobody.
  pub handle_conn-Ends :
      (incoming : Incoming)
      → (w : Watch) × (watched start quiet (handle_conn status_text up incoming) ≡ some (over, w))
        × (w ≢ client_closed)
  unfolding handle_conn
  handle_conn-Ends (unreadable true) = refuse-Ends _ _
  handle_conn-Ends (unreadable false) = refuse-Ends _ _
  handle_conn-Ends (parsed r) = elim (Bool-cases (text_beq r.method (codes "CONNECT"))) [
    | inl e ↦ rw (e, handle_conn) (follow-Ends start _ (follow-target r _ refl))
    | inr e ↦ elim (Bool-cases (text_beq r.url.scheme (codes "http"))) [
      | inl e' ↦ rw (e, e', handle_conn) (handle_http-Ends r)
      | inr e' ↦ rw (e, e', handle_conn) (refuse-Ends _ _)
    ]
  ]
