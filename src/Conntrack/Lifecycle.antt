-- ===== src/Conntrack/Lifecycle.antt =====
-- conntrack.go: histories of calls. Every operation keeps the invariant, and every record leaves the
-- active map once.
use ssh_gate.Prelude.{
  ℕ, zero, suc, ◌+◌, ◌%◌, ◌^◌, ◌<◌, ◌≡◌, refl, inl, inr, ltb, ◌&&◌, List, [], ◌∷◌, ◌++◌, ◌∙◌,
  Option, none, some, Text, lookup, delete, nat_eq, All-lookup, Bool-cases, Option-cases, arith,
}
use ssh_gate.Conntrack.Records.{ConnMeta, ConnRecord, ConnTracker}
use ssh_gate.Conntrack.Ring.{collect, new_conn_tracker, prune_ring, append_ring, push_ring, history}
use ssh_gate.Conntrack.RingIndex.{RingOk, expire, keep_last}
use ssh_gate.Conntrack.RingView.{
  push_ring-RingOk, history-push_ring, prune_ring-RingOk, history-prune_ring,
  new_conn_tracker-RingOk,
}
use ssh_gate.Conntrack.Tracker.{
  begin, done, retire, with_first_err, fail, finish, is_dialing, drop_one, drop_stalled,
}
use ssh_gate.Conntrack.Invariant.{
  IsValid, IsLive, IsFinal, Books-move, Books-add, Books-update, Books-expire,
}

-- pushRing touches nothing but the ring.
pub active-push_ring :
    (now : ℕ) (rec : ConnRecord) (t : ConnTracker)
    → ((push_ring now rec t).active ≡ t.active) × ((push_ring now rec t).next_id ≡ t.next_id)
unfolding push_ring append_ring prune_ring
active-push_ring now rec t = ground arith

-- Nor does the history read anything else.
collect_frame :
    (t : ConnTracker) (entries : List (ℕ × ConnRecord)) (last i n : ℕ)
    → collect (record t { active = entries; next_id = last }) i n ≡ collect t i n
unfolding collect
collect_frame t entries last i zero = refl
collect_frame t entries last i (suc n) = rw (collect_frame t entries last (i + 1) n)

history_frame :
    (t : ConnTracker) (entries : List (ℕ × ConnRecord)) (last : ℕ)
    → history (record t { active = entries; next_id = last }) ≡ history t
unfolding history
history_frame t entries last = collect_frame t entries last 0 t.ring_count

ring_frame :
    (t : ConnTracker) (entries : List (ℕ × ConnRecord)) (last : ℕ)
    → RingOk t
    → RingOk (record t { active = entries; next_id = last })
ring_frame t entries last v = record {
  capacity_pos = v.capacity_pos;
  head_lt = v.head_lt;
  count_le = v.count_le;
  length_eq = v.length_eq;
}

-- To retire a record removes it from the map, and adds it to the history.
pub retire_lem :
    (clock id : ℕ) (rec : ConnRecord) (t : ConnTracker)
    → RingOk t
    → let t' = retire clock id rec t in
      (t'.active ≡ delete id t.active)
      × (t'.next_id ≡ t.next_id)
      × (history t' ≡ keep_last t.capacity (expire clock t.max_age (history t) ++ rec ∷ []))
unfolding retire
retire_lem clock id rec t v =
    let t' : ConnTracker = record t { active = delete id t.active } in
    (
      (active-push_ring clock rec t').0,
      (active-push_ring clock rec t').1,
      rw (← history_frame t (delete id t.active) t.next_id)
          (history-push_ring clock rec t' (ring_frame t (delete id t.active) t.next_id v)),
    )

module _ (clock id : ℕ) (old rec : ConnRecord) (t : ConnTracker) (v : IsValid t) where
  retire-IsValid :
      lookup id t.active ≡ some old
      → rec.id ≡ old.id
      → IsFinal rec.status
      → IsValid (retire clock id rec t)
  retire-IsValid found same final = record {
    ring_ok =
        unfold retire in
        push_ring-RingOk clock rec _ (ring_frame t (delete id t.active) t.next_id v.ring_ok);
    books =
        let after = retire_lem clock id rec t v.ring_ok in
        rw (after.2, after.1, after.0)
          (Books-move t.active (history t) t.next_id id old rec clock t.max_age t.capacity v.books
            found (same ∙ own_id) final);
  }
    where
      own_id : old.id ≡ id
      own_id = (All-lookup (IsLive t.next_id) id old t.active v.books.live found).own_id

pub fail-IsValid :
    (at clock id : ℕ) (reason : Text) (t : ConnTracker)
    → IsValid t
    → IsValid (fail at clock id reason t)
unfolding fail
fail-IsValid at clock id reason t v = elim (Option-cases (lookup id t.active)) [
  | inl e ↦ rw (e, fail) v
  | inr (old, e) ↦ rw (e, fail) (retire-IsValid clock id old _ t v e refl (inr refl))
]

with_first_err_lem :
    (first_err : Option Text) (rec : ConnRecord)
    → ((with_first_err first_err rec).id ≡ rec.id) × IsFinal (with_first_err first_err rec).status
with_first_err_lem none rec = (refl, inl refl)
with_first_err_lem (some e) rec = (refl, inr refl)

pub finish-IsValid :
    (at clock id up down : ℕ) (first_err : Option Text) (t : ConnTracker)
    → IsValid t
    → IsValid (finish at clock id up down first_err t)
unfolding finish
finish-IsValid at clock id up down first_err t v = elim (Option-cases (lookup id t.active)) [
  | inl e ↦ rw (e, finish) v
  | inr (old, e) ↦
      let (same, final) = with_first_err_lem first_err old in
      rw (e, finish) (retire-IsValid clock id old _ t v e same final)
]

drop_one-IsValid :
    (now : ℕ) (visit : ℕ × ℕ) (t : ConnTracker) → IsValid t → IsValid (drop_one now visit t)
unfolding drop_one
drop_one-IsValid now (id, clock) t v = elim (Option-cases (lookup id t.active)) [
  | inl e ↦ rw (e, drop_one) v
  | inr (old, e) ↦
      elim (Bool-cases (is_dialing old.status && ltb (old.started_at + t.max_age) now)) [
        | inl stalled ↦
            rw (e, drop_one) (rw stalled (retire-IsValid clock id old _ t v e refl (inr refl)))
        | inr not_yet ↦ rw (e, drop_one) (rw not_yet v)
      ]
]

pub drop_stalled-IsValid :
    (now : ℕ) (visits : List (ℕ × ℕ)) (t : ConnTracker)
    → IsValid t
    → IsValid (drop_stalled now visits t)
unfolding drop_stalled
drop_stalled-IsValid now [] t v = v
drop_stalled-IsValid now (visit ∷ visits) t v =
    drop_stalled-IsValid now visits (drop_one now visit t) (drop_one-IsValid now visit t v)

pub begin-IsValid :
    (at : ℕ) (meta : ConnMeta) (host : Text) (port : ℕ) (t : ConnTracker)
    → t.next_id + 1 < 2 ^ 64
    → IsValid t
    → IsValid (begin at meta host port t).0
unfolding begin
begin-IsValid at meta host port t h v = record {
  ring_ok = ring_frame t _ _ v.ring_ok;
  books = rw (history_frame t _ _) (
      Books-add t.active (history t) t.next_id ((t.next_id + 1) % 2 ^ 64) _ v.books (omega arith)
        refl (inl refl));
}

pub done-IsValid :
    (id : ℕ) (conn : Option ℕ) (t : ConnTracker) → IsValid t → IsValid (done id conn t).0
unfolding done
done-IsValid id none t v = v
done-IsValid id (some conn) t v = elim (Option-cases (lookup id t.active)) [
  | inl e ↦ rw (e, done) v
  | inr (old, e) ↦
      rw (e, done)
        (record {
          ring_ok = ring_frame t _ t.next_id v.ring_ok;
          books =
              rw (history_frame t _ t.next_id)
                (Books-update t.active (history t) t.next_id id old _ v.books e refl (inr refl));
        })
]

pub prune_ring-IsValid : (now : ℕ) (t : ConnTracker) → IsValid t → IsValid (prune_ring now t)
unfolding prune_ring
prune_ring-IsValid now t v = record {
  ring_ok = prune_ring-RingOk now t v.ring_ok;
  books =
      rw (history-prune_ring now t v.ring_ok)
        (Books-expire t.active (history t) t.next_id now t.max_age v.books);
}

pub new_conn_tracker-IsValid : (capacity max_age : ℕ) → IsValid (new_conn_tracker capacity max_age)
unfolding new_conn_tracker history collect
new_conn_tracker-IsValid capacity max_age = record {
  ring_ok = new_conn_tracker-RingOk capacity max_age;
  books = record { distinct = tt; live = tt; gone = tt; once = tt };
}
