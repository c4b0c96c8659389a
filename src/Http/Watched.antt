-- ===== src/Http/Watched.antt =====
-- httpproxy.go: the actions of a handler with those that its idle guard takes in between.
use ssh_gate.Prelude.{
  ℕ, zero, suc, ◌≡◌, ◌≢◌, refl, ◌∙◌, Bool, true, false, List, [], ◌∷◌, Option, none, some,
  if◌then◌else◌, inl, inr, Option-cases, arith,
}
use ssh_gate.Http.Forward.{
  Action, opens, answers, establishes, relays_both, sends, copies_body, relays_response, closes,
  idles_client, idles_upstream, idles_behind, idles_at, with_guard,
}
use ssh_gate.Http.Phases.{
  Phase, start, unreached, reached, tunnelled, answered, over, advance, follow,
}

-- What the guard has closed.
pub data Watch : Type 0 where
  quiet client_closed both_closed : Watch

pub data Kind : Type 0 where
  own of_client of_upstream : Kind

abbrev pub kind : Action → Kind
kind idles_client = of_client
kind idles_upstream = of_upstream
kind _ = own

-- The upstream has been connected.
abbrev pub has_upstream : Phase → Bool
has_upstream start = false
has_upstream unreached = false
has_upstream _ = true

-- The guard closes the client and then the upstream, each once, and only behind the connect.
abbrev pub advance_by : Kind → Phase → Watch → Option Phase → Option (Phase × Watch)
advance_by own p w none = none
advance_by own p w (some q) = some (q, w)
advance_by of_client p quiet o = if has_upstream p then some (p, client_closed) else none
advance_by of_upstream p client_closed o = some (p, both_closed)
advance_by _ _ _ _ = none

unfoldable pub watched : Phase → Watch → List Action → Option (Phase × Watch)
watched p w [] = some (p, w)
watched p w (a ∷ actions) = elim (advance_by (kind a) p w (advance p a)) [
  | none ↦ none
  | some (p', w') ↦ watched p' w' actions
]

own_idles_client : (p : Phase) → advance p idles_client ≡ none
own_idles_client start = refl
own_idles_client unreached = refl
own_idles_client reached = refl
own_idles_client tunnelled = refl
own_idles_client answered = refl
own_idles_client over = refl

own_idles_upstream : (p : Phase) → advance p idles_upstream ≡ none
own_idles_upstream start = refl
own_idles_upstream unreached = refl
own_idles_upstream reached = refl
own_idles_upstream tunnelled = refl
own_idles_upstream answered = refl
own_idles_upstream over = refl

differ : (p : Phase) (o : Option Phase) → o ≡ none → o ≢ some p
differ p o h e = ground arith

-- An action of the phases is one of the handler.
kind-advance : (p q : Phase) (a : Action) → advance p a ≡ some q → kind a ≡ own
kind-advance p q (opens host port d) h = refl
kind-advance p q (answers t) h = refl
kind-advance p q establishes h = refl
kind-advance p q relays_both h = refl
kind-advance p q (sends t) h = refl
kind-advance p q copies_body h = refl
kind-advance p q relays_response h = refl
kind-advance p q closes h = refl
kind-advance p q idles_client h = absurd (differ q _ (own_idles_client p) h)
kind-advance p q idles_upstream h = absurd (differ q _ (own_idles_upstream p) h)

up-advance :
    (p q : Phase) (a : Action)
    → has_upstream p ≡ true
    → advance p a ≡ some q
    → has_upstream q ≡ true
up-advance start q a h e = absurd (ground arith)
up-advance unreached q a h e = absurd (ground arith)
up-advance reached q a h e = ground arith
up-advance tunnelled q a h e = ground arith
up-advance answered q a h e = ground arith
up-advance over q a h e = ground arith

-- The first action, and the rest.
follow_first :
    (p q : Phase) (a : Action) (actions : List Action)
    → follow p (a ∷ actions) ≡ some q
    → (p' : Phase) × (advance p a ≡ some p') × (follow p' actions ≡ some q)
unfolding follow
follow_first p q a actions h = elim (Option-cases (advance p a)) [
  | inl e ↦ absurd (differ q none refl (rw (e, follow) at h))
  | inr (p', e) ↦ (p', e, rw (e, follow) at h)
]

watched_first :
    (p p' : Phase) (w : Watch) (a : Action) (actions : List Action)
    → advance p a ≡ some p'
    → watched p w (a ∷ actions) ≡ watched p' w actions
unfolding watched
watched_first p p' w a actions e = rw (kind-advance p p' a e, e, watched) refl

watched_end : (p q : Phase) (w : Watch) → follow p [] ≡ some q → watched p w [] ≡ some (q, w)
unfolding follow watched
watched_end p q w h = cc

-- Actions of the handler alone leave the guard as it is.
pub watched-follow :
    (p q : Phase) (w : Watch) (actions : List Action)
    → follow p actions ≡ some q
    → watched p w actions ≡ some (q, w)
watched-follow p q w [] h = watched_end p q w h
watched-follow p q w (a ∷ actions) h =
    let (p', e, rest) = follow_first p q a actions h in
    watched_first p p' w a actions e ∙ watched-follow p' q w actions rest

watched-idles_behind :
    (m : ℕ) (p q : Phase) (actions : List Action)
    → follow p actions ≡ some q
    → watched p client_closed (idles_behind m actions) ≡ some (q, both_closed)
unfolding watched
watched-idles_behind zero p q actions h = watched-follow p q both_closed actions h
watched-idles_behind (suc m) p q [] h = watched-follow p q both_closed [] h
watched-idles_behind (suc m) p q (a ∷ actions) h =
    let (p', e, rest) = follow_first p q a actions h in
    watched_first p p' client_closed a (idles_behind m actions) e
    ∙ watched-idles_behind m p' q actions rest

-- The guard closes the client of a connected handler.
client_first :
    (p : Phase) (actions : List Action)
    → has_upstream p ≡ true
    → watched p quiet (idles_client ∷ actions) ≡ watched p client_closed actions
unfolding watched
client_first p actions up = rw (up, watched) refl

watched-idles_at :
    (n m : ℕ) (p q : Phase) (actions : List Action)
    → has_upstream p ≡ true
    → follow p actions ≡ some q
    → watched p quiet (idles_at n m actions) ≡ some (q, both_closed)
watched-idles_at zero m p q actions up h =
    client_first p (idles_behind m actions) up ∙ watched-idles_behind m p q actions h
watched-idles_at (suc n) m p q [] up h =
    client_first p (idles_upstream ∷ []) up ∙ watched-idles_behind zero p q [] h
watched-idles_at (suc n) m p q (a ∷ actions) up h =
    let (p', e, rest) = follow_first p q a actions h in
    watched_first p p' quiet a (idles_at n m actions) e
    ∙ watched-idles_at n m p' q actions (up-advance p p' a up e) rest

-- The phases lead to the end, and the guard has closed both sides or none.
abbrev pub Ends : Phase → List Action → Type 0
Ends p actions = (w : Watch) × (watched p quiet actions ≡ some (over, w)) × (w ≢ client_closed)

pub follow-Ends :
    (p : Phase) (actions : List Action) → follow p actions ≡ some over → Ends p actions
follow-Ends p actions h = (quiet, watched-follow p over quiet actions h, λ e. cc)

pub with_guard-Ends :
    (idle : Option (ℕ × ℕ)) (p : Phase) (actions : List Action)
    → has_upstream p ≡ true
    → follow p actions ≡ some over
    → Ends p (with_guard idle actions)
with_guard-Ends none p actions up h = follow-Ends p actions h
with_guard-Ends (some (n, m)) p actions up h =
    (both_closed, watched-idles_at n m p over actions up h, λ e. cc)
