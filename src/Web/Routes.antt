-- ===== src/Web/Routes.antt =====
-- health.go and webui.go: the routes of the health server, and handleUI. The files are what
-- uiFS.ReadFile returns for the name under ui/; their content types are package mime.
use ssh_gate.Prelude.{
  ℕ, Bool, true, false, List, [], ◌∷◌, Option, none, some, Text, codes, text_beq, text_eq,
  trim_prefix, has_suffix, if◌then◌else◌, lookup, ◌≡◌, ◌⊎◌,
}
use ssh_gate.Config.Values.{contains}
use ssh_gate.Conntrack.Records.{ConnTracker}
use ssh_gate.Web.Hosts.{ui_guard}
use ssh_gate.Web.Connections.{PageReply, handle_connections}
use ssh_gate.Web.Status.{Report, SshProbe, StatusPage, ready_handler, status_handler}

-- The handlers of NewHealthServer.
pub data Handler : Type 0 where
  health ready connections status ui : Handler

pub data Response : Type 0 where
  plain : ℕ → Text → Response
  page_reply : PageReply → Response
  status_page : StatusPage → Response
  file : Text → Response
  -- Behind the guard, with the headers that it sets.
  with_headers : List (Text × Text) → Response → Response
  -- The mux answers without a handler, as with a redirect to the clean path.
  by_mux : Response

pub record Request : Type 0 where
  pub path : Text
  pub host : Text
  pub method : Text
  pub query : Text → Text

-- What the handlers read while they run: the counters of the live connections, the clock, and what
-- the tracker and the dialer report.
pub record Moment : Type 0 where
  pub counters : ℕ → ℕ × ℕ
  pub now : ℕ
  pub stalled : List (ℕ × ℕ)
  pub visits : List ℕ
  pub dialer : Report
  pub probe : SshProbe

-- healthHandler.
abbrev pub health_handler : Response
health_handler = plain 200 (codes "ok")

-- handleUI.
abbrev pub not_found : Response
not_found = plain 404 (codes "404 page not found")

abbrev pub file_name : Text → Text
file_name path =
    trim_prefix (if text_beq path (codes "/") then codes "/index.html" else path) (codes "/")

abbrev pub read_file : (Text → Option Text) → Text → Response
read_file files name = elim (files name) [ none ↦ not_found | some data_ ↦ file data_ ]

abbrev pub handle_ui : (Text → Option Text) → Text → Response
handle_ui files path =
    let name = file_name path in if text_beq name [] then not_found else read_file files name

-- mux.Handle and mux.HandleFunc, and whether the handler is behind uiGuard.
abbrev pub routes : List (Text × (Bool × Handler))
routes =
    (codes "/healthz", (false, health))
    ∷ (codes "/readyz", (false, ready))
    ∷ (codes "/api/connections", (true, connections))
    ∷ (codes "/api/status", (true, status))
    ∷ (codes "/", (true, ui))
    ∷ []

abbrev pub forbidden : Response
forbidden = plain 403 (codes "Host not allowed; add it to UI_ALLOWED_HOSTS")

abbrev pub ui_headers : List (Text × Text)
ui_headers =
    (codes "X-Content-Type-Options", codes "nosniff")
    ∷ (codes "X-Frame-Options", codes "DENY")
    ∷ (codes "Referrer-Policy", codes "no-referrer")
    ∷ (codes "Content-Security-Policy", codes "default-src 'self'; frame-ancestors 'none'")
    ∷ []

abbrev pub not_get : Response
not_get = plain 405 (codes "method not allowed")

abbrev pub status_reply : Option StatusPage → Response
status_reply none = not_get
status_reply (some page) = status_page page

module _ (files : Text → Option Text) (at : Moment) where
  abbrev pub handler : Handler → Request → Option ConnTracker → Option ConnTracker × Response
  handler health r t = (t, health_handler)
  handler ready r t = let (code, text) = ready_handler at.dialer in (t, plain code text)
  handler connections r t =
      let (t', reply) =
        handle_connections at.counters at.now at.stalled at.visits r.method r.query t in
      (t', page_reply reply)
  handler status r t =
      let (t', page) = status_handler at.now at.stalled at.dialer at.probe r.method t in
      (t', status_reply page)
  handler ui r t = (t, handle_ui files r.path)

  -- uiGuard around a handler.
  abbrev pub guard_with :
      Bool → (Option ConnTracker × Response) → Option ConnTracker → Option ConnTracker × Response
  guard_with true (t', response) t = (t', with_headers ui_headers response)
  guard_with false (t', response) t = (t, forbidden)

  abbrev pub run_route :
      List Text
      → Option (Bool × Handler)
      → Request
      → Option ConnTracker
      → Option ConnTracker × Response
  run_route allowed none r t = (t, by_mux)
  run_route allowed (some (false, h)) r t = handler h r t
  run_route allowed (some (true, h)) r t = guard_with (ui_guard allowed r.host) (handler h r t) t

  -- What net/http makes of a request; `pattern` is the pattern that the mux finds for its path.
  unfoldable pub serve :
      List Text → Option Text → Request → Option ConnTracker → Option ConnTracker × Response
  serve allowed none r t = (t, by_mux)
  serve allowed (some pattern) r t = run_route allowed (lookup pattern routes) r t

abbrev pub patterns : List (Text × (Bool × Handler)) → List Text
patterns [] = []
patterns ((pattern, h) ∷ more) = pattern ∷ patterns more

-- net/http.ServeMux on the registered patterns. A pattern that it finds is the path, unless it ends
-- in a slash; a clean path that is registered is found.
pub record ServeMux : Type 0 where
  pub pattern_of : List Text → Text → Option Text
  pub clean : Text → Text
  pub exact :
      (registered : List Text) (path pattern : Text)
      → pattern_of registered path ≡ some pattern
      → (pattern ≡ path) ⊎ (has_suffix pattern (codes "/") ≡ true)
  pub finds :
      (registered : List Text) (path : Text)
      → contains registered path ≡ true
      → clean path ≡ path
      → pattern_of registered path ≡ some path
