-- ===== src/Web/Guarding.antt =====
-- health.go: which requests the routes answer under any Host, and which not.
use ssh_gate.Prelude.{
  ◌≡◌, ◌≢◌, ◌⊎◌, inl, inr, refl, sym, ap, ◌∙◌, Bool, true, false, List, Option, none, some, Text,
  codes, text_beq, text_beq_ne, has_suffix, text_eq, lookup, Bool-cases, Option-cases, arith,
  if◌then◌else◌,
}
use ssh_gate.Syntax.HostPort.{split_host_port}
use ssh_gate.Conntrack.Records.{ConnTracker}
use ssh_gate.Web.Hosts.{ui_guard, ui_name, allow_hosts, new_allowed_hosts}
use ssh_gate.Web.Access.{IsListed, IsListen, IsLoopback, guarded, ui_guard_iff}
use ssh_gate.Web.Status.{ready_text, tunnel_status}
use ssh_gate.Web.Routes.{
  Handler, connections, status, ui, Response, plain, by_mux, Request, Moment, routes, patterns,
  forbidden, run_route, serve, ServeMux,
}

conflict : (b : Bool) → b ≡ true → b ≢ false
conflict b h h' = ground arith

-- No route, or one behind the guard.
abbrev IsBehind : Option (Bool × Handler) → Type 0
IsBehind o = (o ≡ none) ⊎ ((h : Handler) × (o ≡ some (true, h)))

if_IsBehind :
    (b : Bool) (h : Handler) (rest : Option (Bool × Handler))
    → IsBehind rest
    → IsBehind (if b then some (true, h) else rest)
if_IsBehind true h rest behind = inr (h, refl)
if_IsBehind false h rest behind = behind

-- Every route but the two probes is behind the guard.
lookup-routes :
    (pattern : Text)
    → pattern ≢ codes "/healthz"
    → pattern ≢ codes "/readyz"
    → IsBehind (lookup pattern routes)
lookup-routes pattern h k =
    let a : text_beq (codes "/healthz") pattern ≡ false = text_beq_ne _ _ (λ e. h (sym e)) in
    let b : text_beq (codes "/readyz") pattern ≡ false = text_beq_ne _ _ (λ e. k (sym e)) in
    rw (a, b)
      (if_IsBehind _ connections _ (if_IsBehind _ status _ (if_IsBehind _ ui none (inl refl))))

-- A pattern without a slash at its end is not found for another path.
not_found_for :
    (mux : ServeMux) (path pattern other : Text)
    → mux.pattern_of (patterns routes) path ≡ some pattern
    → has_suffix other (codes "/") ≡ false
    → path ≢ other
    → pattern ≢ other
not_found_for mux path pattern other found plain_name h e =
    elim (mux.exact (patterns routes) path pattern found) [
      | inl same ↦ h (sym same ∙ e)
      | inr slash ↦ conflict _ slash (ap (λ p. has_suffix p (codes "/")) e ∙ plain_name)
    ]

module _ (files : Text → Option Text) (at : Moment) (t : Option ConnTracker) where
  -- Nothing of the tracker or of the files is shown.
  abbrev pub IsClosed : Option ConnTracker × Response → Type 0
  IsClosed answer = (answer.0 ≡ t) × ((answer.1 ≡ forbidden) ⊎ (answer.1 ≡ by_mux))

  run_route-IsClosed :
      (allowed : List Text) (route : Option (Bool × Handler)) (r : Request)
      → IsBehind route
      → ui_guard allowed r.host ≡ false
      → IsClosed (run_route files at allowed route r t)
  run_route-IsClosed allowed route r (inl e) h = rw e (refl, inr refl)
  run_route-IsClosed allowed route r (inr (handler, e)) h = rw (e, h, run_route) (refl, inl refl)

  serve-IsClosed :
      (mux : ServeMux) (allowed : List Text) (r : Request)
      → r.path ≢ codes "/healthz"
      → r.path ≢ codes "/readyz"
      → ui_guard allowed r.host ≡ false
      → IsClosed (serve files at allowed (mux.pattern_of (patterns routes) r.path) r t)
  unfolding serve
  serve-IsClosed mux allowed r h k closed =
      elim (Option-cases (mux.pattern_of (patterns routes) r.path)) [
        | inl e ↦ rw (e, serve) (refl, inr refl)
        | inr (pattern, e) ↦
            rw (e, serve)
              (run_route-IsClosed allowed (lookup pattern routes) r
                (lookup-routes pattern (not_found_for mux r.path pattern _ e refl h)
                  (not_found_for mux r.path pattern _ e refl k))
                closed)
      ]

  -- Under DNS rebinding, a request whose Host header names neither the loopback nor a host of the
  -- listen address or of UI_ALLOWED_HOSTS, to any path but the two of the health probes and with any
  -- method and query, is refused by the guard or answered by the mux itself: it sees no connection,
  -- no status and no file, and changes nothing in the tracker.
  pub serve_rebinding :
      (mux : ServeMux) (unspecified : Text → Option Bool) (listen : Text) (hosts : List Text)
      (r : Request)
      → r.path ≢ codes "/healthz"
      → r.path ≢ codes "/readyz"
      → ¬ (
          IsListed (ui_name r.host) hosts
          ⊎ (IsListen unspecified (split_host_port listen) (ui_name r.host)
              ⊎ IsLoopback (ui_name r.host)))
      → IsClosed (
          serve files at
            (allow_hosts hosts (new_allowed_hosts unspecified listen))
            (mux.pattern_of (patterns routes) r.path)
            r
            t)
  serve_rebinding mux unspecified listen hosts r h k foreign =
      serve-IsClosed mux (allow_hosts hosts (new_allowed_hosts unspecified listen)) r h k
        (elim (Bool-cases (guarded unspecified listen hosts r.host)) [
          | inl e ↦ absurd (foreign ((ui_guard_iff unspecified listen hosts r.host).0 e))
          | inr e ↦ e
        ])

  -- The health probes are answered under any Host, with any method and without a look at the
  -- tracker: /healthz with 200, /readyz with 200 exactly if the tunnel is up and else with 503.
  pub serve_probes :
      (mux : ServeMux) (allowed : List Text) (r : Request)
      → mux.clean r.path ≡ r.path
      → let answer = serve files at allowed (mux.pattern_of (patterns routes) r.path) r t in
        (r.path ≡ codes "/healthz" → answer ≡ (t, plain 200 (codes "ok")))
        × (r.path ≡ codes "/readyz"
            → ((at.dialer.is_up ≡ true → answer ≡ (t, plain 200 (codes "ok")))
                × (at.dialer.is_up ≡ false → (text : Text) × (answer ≡ (t, plain 503 text)))))
  unfolding serve
  serve_probes mux allowed r clean = (
    (λ e. rw (mux.finds (patterns routes) r.path (rw e refl) clean, e, serve) refl),
    (λ e. (
      (λ up. rw (mux.finds (patterns routes) r.path (rw e refl) clean, e, up, serve) refl),
      (λ down. (
        ready_text (tunnel_status at.dialer).state,
        rw (mux.finds (patterns routes) r.path (rw e refl) clean, e, down, serve) refl,
      )),
    )),
  )
