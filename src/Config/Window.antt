-- ===== src/Config/Window.antt =====
-- main.go and conntrack.go: the history window of a tracker that main makes, beside the dial timeout
-- of the settings.
use ssh_gate.Prelude.{
  ℕ, ◌+◌, ◌≤◌, ◌≡◌, sym, ap, ltb→lt, &&-eq_true, ◌∙◌, ltb, ◌&&◌, List, [], ◌∷◌, some, Text, lookup,
  lookup-delete, Bool-cases, Option-cases, inl, inr, nat_eq, ◌==◌, ==_iff, arith, true, false,
}
use ssh_gate.Conntrack.Records.{ConnRecord, ConnTracker}
use ssh_gate.Conntrack.Ring.{push_ring, append_ring, prune_ring}
use ssh_gate.Conntrack.Tracker.{retire, is_dialing, drop_one, drop_stalled}
use ssh_gate.Conntrack.Lifecycle
use ssh_gate.Config.Values.{SettingParsers}
use ssh_gate.Config.Load.{Config, ok, load_config, conn_history_max_age}
use ssh_gate.Config.Sound.{load_config-IsConfig}

-- A record that is not older than the window, and its tracker's window.
abbrev IsKept : ℕ → ℕ → ConnRecord → ConnTracker → Type 0
IsKept now id rec t = (lookup id t.active ≡ some rec) × (now ≤ rec.started_at + t.max_age)

max_age-retire :
    (clock id : ℕ) (rec : ConnRecord) (t : ConnTracker)
    → (retire clock id rec t).max_age ≡ t.max_age
unfolding retire push_ring append_ring prune_ring
max_age-retire clock id rec t = ground arith

lookup-retire :
    (clock id j : ℕ) (rec : ConnRecord) (t : ConnTracker)
    → (id == j) ≡ false
    → lookup j (retire clock id rec t).active ≡ lookup j t.active
unfolding retire
lookup-retire clock id j rec t h =
    ap (lookup j) (Lifecycle.active-push_ring clock rec _).0 ∙ rw (lookup-delete id j t.active, h)

other_key :
    (now key id : ℕ) (rec old : ConnRecord) (t : ConnTracker)
    → lookup id t.active ≡ some rec
    → now ≤ rec.started_at + t.max_age
    → lookup key t.active ≡ some old
    → ltb (old.started_at + t.max_age) now ≡ true
    → (key == id) ≡ false
other_key now key id rec old t found young e late = elim (Bool-cases (key == id)) [
  | inr other ↦ other
  | inl same ↦
      let same_key : key ≡ id = (==_iff key id).0 same in
      let same_rec : some old ≡ some rec = sym e ∙ ap (λ k. lookup k t.active) same_key ∙ found in
      let one : old ≡ rec = cc in
      absurd (omega (arith, young, ltb→lt _ _ late, ap (λ r. r.started_at) one))
]

-- A visit to another record, or to this one, leaves it.
drop_one-IsKept :
    (now : ℕ) (visit : ℕ × ℕ) (id : ℕ) (rec : ConnRecord) (t : ConnTracker)
    → IsKept now id rec t
    → IsKept now id rec (drop_one now visit t)
unfolding drop_one
drop_one-IsKept now (key, clock) id rec t (found, young) =
    elim (Option-cases (lookup key t.active)) [
      | inl e ↦ rw (e, drop_one) (found, young)
      | inr (old, e) ↦
          elim (Bool-cases (is_dialing old.status && ltb (old.started_at + t.max_age) now)) [
            | inr kept ↦ rw (e, drop_one) (rw kept (found, young))
            | inl stalled ↦
                let other : (key == id) ≡ false =
                  other_key now key id rec old t found young e (&&-eq_true _ _ stalled).1 in
                rw (e, drop_one)
                  (rw stalled (
                    lookup-retire clock key id _ t other ∙ found,
                    omega (arith, young, max_age-retire clock key _ t),
                  ))
          ]
    ]

drop_stalled-IsKept :
    (now : ℕ) (visits : List (ℕ × ℕ)) (id : ℕ) (rec : ConnRecord) (t : ConnTracker)
    → IsKept now id rec t
    → IsKept now id rec (drop_stalled now visits t)
unfolding drop_stalled
drop_stalled-IsKept now [] id rec t h = h
drop_stalled-IsKept now (visit ∷ visits) id rec t h =
    drop_stalled-IsKept now visits id rec (drop_one now visit t)
      (drop_one-IsKept now visit id rec t h)

-- Under settings that loadConfig accepts, a tracker with main's history window never takes a dial for
-- stalled before its timeout: dropStalled, whatever the order of its visits, leaves a record that
-- started at most the dial timeout ago as it is.
pub drop_stalled-load_config :
    (ps : SettingParsers) (env : Text → Text) (c : Config) (t : ConnTracker) (now id : ℕ)
    (visits : List (ℕ × ℕ)) (rec : ConnRecord)
    → load_config ps env ≡ ok c
    → t.max_age ≡ conn_history_max_age
    → lookup id t.active ≡ some rec
    → now ≤ rec.started_at + c.dial_timeout
    → lookup id (drop_stalled now visits t).active ≡ some rec
drop_stalled-load_config ps env c t now id visits rec loaded window found young =
    let sound = load_config-IsConfig ps env c loaded in
    let small = sound.timeout_small in
    (drop_stalled-IsKept now visits id rec t (found, omega (arith, small, window, young))).0
