-- ===== src/Conntrack/History.antt =====
-- conntrack.go: sequences of calls of the tracker, from any of the goroutines that share it.
use ssh_gate.Prelude.{
  ℕ, ◌+◌, ◌^◌, ◌≤◌, ◌<◌, ◌≡◌, refl, ◌∙◌, inl, inr, ltb, ◌&&◌, List, [], ◌∷◌, ◌++◌, Option, none,
  some, Text, length, lookup, delete, nat_eq, lookup-delete, Bool-cases, Option-cases, arith,
}
use ssh_gate.Conntrack.Records.{ConnMeta, ConnRecord, ConnTracker}
use ssh_gate.Conntrack.Ring.{new_conn_tracker, prune_ring, history}
use ssh_gate.Conntrack.RingIndex.{expire, keep_last}
use ssh_gate.Conntrack.Tracker.{
  begin, done, retire, with_first_err, fail, finish, is_dialing, drop_one, drop_stalled,
}
use ssh_gate.Conntrack.Invariant.{IsValid}
use ssh_gate.Conntrack.Lifecycle

pub data Call : Type 0 where
  begins : ℕ → ConnMeta → Text → ℕ → Call
  dones : ℕ → Option ℕ → Call
  fails : ℕ → ℕ → ℕ → Text → Call
  finishes : ℕ → ℕ → ℕ → ℕ → ℕ → Option Text → Call
  prunes : ℕ → Call
  drops : ℕ → List (ℕ × ℕ) → Call

unfoldable pub step : ConnTracker → Call → ConnTracker
step t (begins at meta host port) = (begin at meta host port t).0
step t (dones id conn) = (done id conn t).0
step t (fails at clock id reason) = fail at clock id reason t
step t (finishes at clock id up down first_err) = finish at clock id up down first_err t
step t (prunes now) = prune_ring now t
step t (drops now visits) = drop_stalled now visits t

unfoldable pub run : ConnTracker → List Call → ConnTracker
run t [] = t
run t (c ∷ cs) = run (step t c) cs

next_id-retire :
    (clock id : ℕ) (rec : ConnRecord) (t : ConnTracker)
    → (retire clock id rec t).next_id ≡ t.next_id
unfolding retire
next_id-retire clock id rec t = (Lifecycle.active-push_ring clock rec _).1

next_id-fail :
    (at clock id : ℕ) (reason : Text) (t : ConnTracker)
    → (fail at clock id reason t).next_id ≡ t.next_id
unfolding fail
next_id-fail at clock id reason t = elim (Option-cases (lookup id t.active)) [
  | inl e ↦ rw (e, fail)
  | inr (old, e) ↦ rw (e, fail) (next_id-retire clock id _ t)
]

next_id-finish :
    (at clock id up down : ℕ) (first_err : Option Text) (t : ConnTracker)
    → (finish at clock id up down first_err t).next_id ≡ t.next_id
unfolding finish
next_id-finish at clock id up down first_err t = elim (Option-cases (lookup id t.active)) [
  | inl e ↦ rw (e, finish)
  | inr (old, e) ↦ rw (e, finish) (next_id-retire clock id _ t)
]

next_id-drop_one :
    (now : ℕ) (visit : ℕ × ℕ) (t : ConnTracker) → (drop_one now visit t).next_id ≡ t.next_id
unfolding drop_one
next_id-drop_one now (id, clock) t = elim (Option-cases (lookup id t.active)) [
  | inl e ↦ rw (e, drop_one)
  | inr (old, e) ↦
      elim (Bool-cases (is_dialing old.status && ltb (old.started_at + t.max_age) now)) [
        | inl stalled ↦ rw (e, drop_one) (rw stalled (next_id-retire clock id _ t))
        | inr not_yet ↦ rw (e, drop_one) (rw not_yet)
      ]
]

next_id-drop_stalled :
    (now : ℕ) (visits : List (ℕ × ℕ)) (t : ConnTracker)
    → (drop_stalled now visits t).next_id ≡ t.next_id
unfolding drop_stalled
next_id-drop_stalled now [] t = refl
next_id-drop_stalled now (visit ∷ visits) t =
    next_id-drop_stalled now visits (drop_one now visit t) ∙ next_id-drop_one now visit t

next_id-done : (id : ℕ) (conn : Option ℕ) (t : ConnTracker) → (done id conn t).0.next_id ≡ t.next_id
unfolding done
next_id-done id none t = refl
next_id-done id (some conn) t = elim (Option-cases (lookup id t.active)) [
  | inl e ↦ rw (e, done)
  | inr (old, e) ↦ rw (e, done)
]

-- No call gives out more than one id.
next_id-step : (t : ConnTracker) (c : Call) → (step t c).next_id ≤ t.next_id + 1
unfolding step
next_id-step t (begins at meta host port) = unfold begin in omega arith
next_id-step t (dones id conn) = omega (arith, next_id-done id conn t)
next_id-step t (fails at clock id reason) = omega (arith, next_id-fail at clock id reason t)
next_id-step t (finishes at clock id up down first_err) =
    omega (arith, next_id-finish at clock id up down first_err t)
next_id-step t (prunes now) = unfold prune_ring in omega arith
next_id-step t (drops now visits) = omega (arith, next_id-drop_stalled now visits t)

step-IsValid :
    (t : ConnTracker) (c : Call) → t.next_id + 1 < 2 ^ 64 → IsValid t → IsValid (step t c)
unfolding step
step-IsValid t (begins at meta host port) h v = Lifecycle.begin-IsValid at meta host port t h v
step-IsValid t (dones id conn) h v = Lifecycle.done-IsValid id conn t v
step-IsValid t (fails at clock id reason) h v = Lifecycle.fail-IsValid at clock id reason t v
step-IsValid t (finishes at clock id up down first_err) h v =
    Lifecycle.finish-IsValid at clock id up down first_err t v
step-IsValid t (prunes now) h v = Lifecycle.prune_ring-IsValid now t v
step-IsValid t (drops now visits) h v = Lifecycle.drop_stalled-IsValid now visits t v

run-IsValid :
    (t : ConnTracker) (cs : List Call)
    → t.next_id + length cs < 2 ^ 64
    → IsValid t
    → IsValid (run t cs)
unfolding run
run-IsValid t [] h v = v
run-IsValid t (c ∷ cs) h v =
    run-IsValid (step t c) cs (omega (arith, next_id-step t c)) (step-IsValid t c (omega arith) v)

-- A new tracker, after any fewer than 2 ^ 64 calls in any order and at any times, is valid: the ring's
-- indices are in range, no id stands twice in the active map or the history nor in both, active
-- records are dialing or active, and finished ones are closed or failed.
pub run-new_conn_tracker-IsValid :
    (capacity max_age : ℕ) (cs : List Call)
    → length cs < 2 ^ 64
    → IsValid (run (new_conn_tracker capacity max_age) cs)
run-new_conn_tracker-IsValid capacity max_age cs h =
    run-IsValid (new_conn_tracker capacity max_age) cs (unfold new_conn_tracker in omega arith)
      (Lifecycle.new_conn_tracker-IsValid capacity max_age)

-- A finished connection leaves the active map and stands, with its final status, counters and
-- reason, at the end of the history; all other active records stay.
pub finish_moves :
    (at clock id up down : ℕ) (first_err : Option Text) (rec : ConnRecord) (t : ConnTracker)
    → IsValid t
    → lookup id t.active ≡ some rec
    → let t' = finish at clock id up down first_err t in
      (t'.active ≡ delete id t.active)
      × (history t'
          ≡ keep_last t.capacity (
              expire clock t.max_age (history t)
              ++ record (with_first_err first_err rec) {
                bytes_up = up;
                bytes_down = down;
                closed_at = at;
              }
                ∷ []))
unfolding finish
finish_moves at clock id up down first_err rec t v e =
    let after = Lifecycle.retire_lem clock id _ t v.ring_ok in rw (e, finish) (after.0, after.2)

lookup-fail :
    (at clock id : ℕ) (reason : Text) (t : ConnTracker)
    → lookup id (fail at clock id reason t).active ≡ none
unfolding fail retire
lookup-fail at clock id reason t = elim (Option-cases (lookup id t.active)) [
  | inl e ↦ rw (e, fail) e
  | inr (old, e) ↦
      rw (e, fail)
        (rw (Lifecycle.active-push_ring clock _ _).0 (ground (arith, lookup-delete id id t.active)))
]

lookup-finish :
    (at clock id up down : ℕ) (first_err : Option Text) (t : ConnTracker)
    → lookup id (finish at clock id up down first_err t).active ≡ none
unfolding finish retire
lookup-finish at clock id up down first_err t = elim (Option-cases (lookup id t.active)) [
  | inl e ↦ rw (e, finish) e
  | inr (old, e) ↦
      rw (e, finish)
        (rw (Lifecycle.active-push_ring clock _ _).0 (ground (arith, lookup-delete id id t.active)))
]

finish_absent :
    (at clock id up down : ℕ) (first_err : Option Text) (t : ConnTracker)
    → lookup id t.active ≡ none
    → finish at clock id up down first_err t ≡ t
unfolding finish
finish_absent at clock id up down first_err t e = rw (e, finish)

-- A connection is finished once: after Fail or finish another finish of the same id changes
-- nothing, whatever it reports.
pub finish_once :
    (id at clock at' clock' up down up' down' : ℕ) (reason : Text) (e e' : Option Text)
    (t : ConnTracker)
    → (finish at' clock' id up' down' e' (finish at clock id up down e t)
        ≡ finish at clock id up down e t)
      × (finish at' clock' id up' down' e' (fail at clock id reason t) ≡ fail at clock id reason t)
finish_once id at clock at' clock' up down up' down' reason e e' t = (
  finish_absent at' clock' id up' down' e' _ (lookup-finish at clock id up down e t),
  finish_absent at' clock' id up' down' e' _ (lookup-fail at clock id reason t),
)
