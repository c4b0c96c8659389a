-- ===== src/Dns/Purging.antt =====
-- dns.go and rules.go: the goroutine that purges the cache, and Start and Stop of the rule engine.
use ssh_gate.Prelude.{
  ℕ, ◌+◌, ◌≤◌, ◌≡◌, ◌⊎◌, refl, sym, ap, subst, All, ◌∙◌, ◌&&◌, Bool, true, false, List, [], ◌∷◌,
  Text, if◌then◌else◌, text_eq, Distinct, Bool-cases, inl, inr, arith,
}
use ssh_gate.Dns.Cache.{Cache, purge, fresh}
use ssh_gate.Dns.Bounds.{fresh-purge, purge-Distinct}

-- The flag `started`, the goroutines of startPurge that were started and that still run, closeOnce,
-- and how often `done` was closed: a second close panics.
pub record Purger : Type 0 where
  pub started : Bool
  pub launched : ℕ
  pub looping : Bool
  pub closed_once : Bool
  pub done_closes : ℕ
  pub cache : Cache

abbrev pub new_purger : Cache → Purger
new_purger cache = record {
  started = false;
  launched = 0;
  looping = false;
  closed_once = false;
  done_closes = 0;
  cache = cache;
}

-- c.closeOnce.Do(func() { close(c.done) }).
abbrev pub close_done : Purger → Purger
close_done p =
    if p.closed_once then p else record p { closed_once = true; done_closes = p.done_closes + 1 }

-- What happens: Start and Stop of the rule engine, and the three cases of the select.
pub data Event : Type 0 where
  starts stops cancelled seen_done : Event
  ticks : ℕ → Event

-- Start with startPurge.
abbrev pub start : Purger → Purger
start p =
    if p.started then p else record p { started = true; launched = p.launched + 1; looping = true }

abbrev pub on_cancel : Purger → Purger
on_cancel p = record (close_done p) { looping = false }

unfoldable pub step : Purger → Event → Purger
step p starts = start p
step p stops = close_done p
step p cancelled = if p.looping then on_cancel p else p
step p seen_done = if p.looping && p.closed_once then record p { looping = false } else p
step p (ticks now) = if p.looping then record p { cache = purge now p.cache } else p

unfoldable pub run : Purger → List Event → Purger
unfolding step
run p [] = p
run p (e ∷ events) = run (step p e) events

pub record IsPurger (p : Purger) : Type 0 where
  pub unstarted : p.started ≡ false → (p.launched ≡ 0) × (p.looping ≡ false)
  pub once : p.started ≡ true → p.launched ≡ 1
  pub unclosed : p.closed_once ≡ false → p.done_closes ≡ 0
  pub closed : p.closed_once ≡ true → p.done_closes ≡ 1

step-IsPurger : (p : Purger) (e : Event) → IsPurger p → IsPurger (step p e)
unfolding step
step-IsPurger p e v = record {
  unstarted = elim e [
    | starts ↦ ground (arith, v.unstarted)
    | stops ↦ ground (arith, v.unstarted)
    | cancelled ↦ ground (arith, v.unstarted)
    | seen_done ↦ ground (arith, v.unstarted)
    | ticks now ↦ ground (arith, v.unstarted)
  ];
  once = elim e [
    | starts ↦ ground (arith, v.once, v.unstarted)
    | stops ↦ ground (arith, v.once)
    | cancelled ↦ ground (arith, v.once)
    | seen_done ↦ ground (arith, v.once)
    | ticks now ↦ ground (arith, v.once)
  ];
  unclosed = elim e [
    | starts ↦ ground (arith, v.unclosed)
    | stops ↦ ground (arith, v.unclosed)
    | cancelled ↦ ground (arith, v.unclosed)
    | seen_done ↦ ground (arith, v.unclosed)
    | ticks now ↦ ground (arith, v.unclosed)
  ];
  closed = elim e [
    | starts ↦ ground (arith, v.closed)
    | stops ↦ ground (arith, v.closed, v.unclosed)
    | cancelled ↦ ground (arith, v.closed, v.unclosed)
    | seen_done ↦ ground (arith, v.closed)
    | ticks now ↦ ground (arith, v.closed)
  ];
}

-- The ticks come at or before a time.
abbrev pub IsBefore : ℕ → Event → Type 0
IsBefore t (ticks now) = now ≤ t
IsBefore t e = Unit

close_done-cache : (p : Purger) → (close_done p).cache ≡ p.cache
close_done-cache p = elim (Bool-cases p.closed_once) [ inl e ↦ rw e refl | inr e ↦ rw e refl ]

on_cancel-cache :
    (running : Bool) (p : Purger) → (if running then on_cancel p else p).cache ≡ p.cache
on_cancel-cache true p = close_done-cache p
on_cancel-cache false p = refl

-- A step leaves the cache, or purges it.
step-cache :
    (t : ℕ) (p : Purger) (e : Event)
    → IsBefore t e
    → ((step p e).cache ≡ p.cache)
      ⊎ ((now : ℕ) × (now ≤ t) × ((step p e).cache ≡ purge now p.cache))
unfolding step
step-cache t p starts h =
    inl (elim (Bool-cases p.started) [ inl e ↦ rw e refl | inr e ↦ rw e refl ])
step-cache t p stops h = inl (close_done-cache p)
step-cache t p cancelled h = inl (on_cancel-cache p.looping p)
step-cache t p seen_done h =
    inl (elim (Bool-cases (p.looping && p.closed_once)) [ inl e ↦ rw e refl | inr e ↦ rw e refl ])
step-cache t p (ticks now) h = elim (Bool-cases p.looping) [
  | inl e ↦ inr (now, h, rw e refl)
  | inr e ↦ inl (rw e refl)
]

run_same :
    (key : Text) (t : ℕ) (p : Purger) (events : List Event)
    → Distinct p.cache
    → All (IsBefore t) events
    → fresh key t (run p events).cache ≡ fresh key t p.cache
unfolding run
run_same key t p [] d h = refl
run_same key t p (e ∷ events) d (now_, hs) = elim (step-cache t p e now_) [
  | inl same ↦
      run_same key t (step p e) events (subst Distinct (sym same) d) hs ∙ ap (fresh key t) same
  | inr (at, early, purged) ↦
      run_same key t (step p e) events (subst Distinct (sym purged) (purge-Distinct at p.cache d))
        hs
      ∙ ap (fresh key t) purged
      ∙ fresh-purge key at t p.cache d early
]

run-IsPurger : (p : Purger) (events : List Event) → IsPurger p → IsPurger (run p events)
unfolding run
run-IsPurger p [] v = v
run-IsPurger p (e ∷ events) v = run-IsPurger (step p e) events (step-IsPurger p e v)

-- The purge in the background is never seen: however Start, Stop, the end of the context and the ticks
-- follow each other, a lookup at or after the last tick finds what it would find in a cache that was
-- never purged; at most one goroutine is started, and `done` is closed at most once, so that Stop
-- after the end of the context does not panic.
pub run-purges :
    (key : Text) (t : ℕ) (cache : Cache) (events : List Event)
    → Distinct cache
    → All (IsBefore t) events
    → let p = run (new_purger cache) events in
      (fresh key t p.cache ≡ fresh key t cache) × (p.launched ≤ 1) × (p.done_closes ≤ 1)
run-purges key t cache events d h =
    let v = run-IsPurger (new_purger cache) events (record {
      unstarted = λ e. (refl, refl);
      once = λ e. absurd (ground arith);
      unclosed = λ e. refl;
      closed = λ e. absurd (ground arith);
    }) in
    (
      run_same key t (new_purger cache) events d h,
      elim (Bool-cases (run (new_purger cache) events).started) [
        | inl e ↦ omega (arith, v.once e)
        | inr e ↦ omega (arith, (v.unstarted e).0)
      ],
      elim (Bool-cases (run (new_purger cache) events).closed_once) [
        | inl e ↦ omega (arith, v.closed e)
        | inr e ↦ omega (arith, v.unclosed e)
      ],
    )
