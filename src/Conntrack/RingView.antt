-- ===== src/Conntrack/RingView.antt =====
-- conntrack.go: the ring buffer seen as a bounded list, oldest record first.
use native.Mathlib.Nat.{add-zero, mod-eq_of_lt, mod-lt}
use ssh_gate.Prelude.{
  ℕ, zero, suc, ◌+◌, ◌-◌, ◌%◌, ◌≤◌, ◌<◌, ◌≡◌, refl, sym, ap, ◌∙◌, inl, inr, ◌==◌, leb, List, [],
  ◌∷◌, ◌++◌, subst, get_or, set, drop, length, length-set, length-append, length-replicate,
  get_or-set_self, Bool-cases, arith,
}
use ssh_gate.Conntrack.Records.{ConnRecord, ConnTracker, zero_record}
use ssh_gate.Conntrack.Ring.{
  new_conn_tracker, prune_loop, prune_ring, append_ring, push_ring, collect, history,
}
use ssh_gate.Conntrack.RingIndex.{
  RingOk, expire, keep_last, expire_young, expire_old, wrap_cases, collect-suc, collect-advance,
  collect-set, collect-cons,
}

abbrev moved : ConnTracker → ℕ × ℕ → ConnTracker
moved t (head, count) = record t { ring_head = head; ring_count = count }

record Pruned (t : ConnTracker) (now : ℕ) (from to : ℕ × ℕ) : Type 0 where
  head_lt : to.0 < t.capacity
  count_le : to.1 ≤ from.1
  view : history (moved t to) ≡ expire now t.max_age (history (moved t from))

prune_loop-Pruned :
    (t : ConnTracker) (now head count : ℕ)
    → head < t.capacity
    → Pruned t now (head, count) (prune_loop t now head count)
unfolding prune_loop history
prune_loop-Pruned t now head zero h = record { head_lt = h; count_le = omega arith; view = refl }
prune_loop-Pruned t now head (suc count) h =
    let later =
      prune_loop-Pruned t now ((head + 1) % t.capacity) count (mod-lt (head + 1) (omega arith)) in
    let front = collect-cons (moved t (head, suc count)) count h in
    let first = get_or t.ring head zero_record in
    let rest = collect (moved t ((head + 1) % t.capacity, suc count)) 0 count in
    elim (Bool-cases (leb now (first.closed_at + t.max_age))) [
      | inl young ↦ rw young (record {
        head_lt = h;
        count_le = omega arith;
        view =
            front
            ∙ sym (expire_young now t.max_age first rest young)
            ∙ ap (expire now t.max_age) (sym front);
      })
      | inr old ↦ rw old (record {
        head_lt = later.head_lt;
        count_le = omega (arith, later.count_le);
        view =
            later.view
            ∙ sym (expire_old now t.max_age first rest old)
            ∙ ap (expire now t.max_age) (sym front);
      })
    ]

pub prune_ring-RingOk : (now : ℕ) (t : ConnTracker) → RingOk t → RingOk (prune_ring now t)
unfolding prune_ring
prune_ring-RingOk now t v =
    let p = prune_loop-Pruned t now t.ring_head t.ring_count v.head_lt in
    record {
      capacity_pos = v.capacity_pos;
      head_lt = p.head_lt;
      count_le = omega (arith, p.count_le, v.count_le);
      length_eq = v.length_eq;
    }

-- pruneRing drops, from the front of the history, the records older than maxAge up to the first
-- that is not.
pub history-prune_ring :
    (now : ℕ) (t : ConnTracker)
    → RingOk t
    → history (prune_ring now t) ≡ expire now t.max_age (history t)
unfolding prune_ring
history-prune_ring now t v = (prune_loop-Pruned t now t.ring_head t.ring_count v.head_lt).view

pub append_ring-RingOk :
    (rec : ConnRecord) (t : ConnTracker) → RingOk t → RingOk (append_ring rec t)
unfolding append_ring
append_ring-RingOk rec t v = elim (Bool-cases (t.ring_count == t.capacity)) [
  | inl full ↦ rw full (record {
    capacity_pos = v.capacity_pos;
    head_lt = mod-lt (t.ring_head + 1) v.capacity_pos;
    count_le = v.count_le;
    length_eq = length-set t.ring t.ring_head rec ∙ v.length_eq;
  })
  | inr room ↦ rw room (record {
    capacity_pos = v.capacity_pos;
    head_lt = v.head_lt;
    count_le = ground (arith, v.count_le);
    length_eq = length-set t.ring ((t.ring_head + t.ring_count) % t.capacity) rec ∙ v.length_eq;
  })
]

length-collect : (t : ConnTracker) (i n : ℕ) → length (collect t i n) ≡ n
unfolding collect
length-collect t i zero = refl
length-collect t i (suc n) = ap suc (length-collect t (i + 1) n)

module _ (rec : ConnRecord) (t : ConnTracker) (v : RingOk t) where
  -- With room left the record goes behind the last one.
  history_room :
      t.ring_count < t.capacity
      → history (record t {
        ring = set t.ring ((t.ring_head + t.ring_count) % t.capacity) rec;
        ring_count = t.ring_count + 1;
      })
        ≡ history t ++ rec ∷ []
  unfolding history
  history_room h =
      let idx = (t.ring_head + t.ring_count) % t.capacity in
      let t' : ConnTracker = record t { ring = set t.ring idx rec } in
      let e : t.ring_count + 1 ≡ suc t.ring_count = omega arith in
      let last : get_or t'.ring idx zero_record ≡ rec =
        get_or-set_self t.ring idx rec zero_record
          (rw v.length_eq (mod-lt (t.ring_head + t.ring_count) v.capacity_pos)) in
      let same : collect t' 0 t.ring_count ≡ collect t 0 t.ring_count =
        collect-set t t.ring_count rec 0 t.ring_count v.head_lt h (omega (arith, v.count_le))
          (inr (omega arith)) in
      let zero_plus : 0 + t.ring_count ≡ t.ring_count = omega arith in
      rw e (collect-suc t' 0 t.ring_count ∙ rw (zero_plus, last, same))

  collect_full :
      (m : ℕ)
      → suc m ≡ t.capacity
      → collect (record t { ring = set t.ring t.ring_head rec }) 1 (suc m)
        ≡ drop 1 (collect t 0 (suc m)) ++ rec ∷ []
  unfolding collect
  collect_full m e =
      let t' : ConnTracker = record t { ring = set t.ring t.ring_head rec } in
      let head : (t.ring_head + 0) % t.capacity ≡ t.ring_head =
        rw (add-zero t.ring_head) (mod-eq_of_lt v.head_lt) in
      let wrapped : (t.ring_head + (1 + m)) % t.capacity ≡ t.ring_head =
        omega (arith, wrap_cases (t.ring_head + (1 + m)) t.capacity (omega (arith, v.head_lt))) in
      let last : get_or t'.ring ((t.ring_head + (1 + m)) % t.capacity) zero_record ≡ rec =
        rw wrapped (
          get_or-set_self t.ring t.ring_head rec zero_record
            (omega (arith, v.head_lt, v.length_eq))) in
      let same : collect t' 1 m ≡ collect t 1 m =
        rw head at
          (collect-set t 0 rec 1 m v.head_lt v.capacity_pos (omega arith) (inl (omega arith))) in
      collect-suc t' 1 m ∙ rw (last, same)

  -- A full ring loses its first record.
  history_full :
      t.ring_count ≡ t.capacity
      → history (record t {
        ring = set t.ring t.ring_head rec;
        ring_head = (t.ring_head + 1) % t.capacity;
      })
        ≡ drop 1 (history t) ++ rec ∷ []
  unfolding history
  history_full h =
      let t' : ConnTracker = record t { ring = set t.ring t.ring_head rec } in
      collect-advance t' 0 t.ring_count
      ∙ subst (λ n. collect t' 1 n ≡ drop 1 (collect t 0 n) ++ rec ∷ [])
          {x = suc (t.ring_count - 1)} (omega (arith, v.capacity_pos))
          (collect_full (t.ring_count - 1) (omega (arith, v.capacity_pos)))

  length-history : length (history t ++ rec ∷ []) ≡ t.ring_count + 1
  unfolding history
  length-history =
      omega (arith, length-append (history t) (rec ∷ []), length-collect t 0 t.ring_count)

  drop_over :
      (rs : List ConnRecord)
      → length (rs ++ rec ∷ []) ≡ t.capacity + 1
      → keep_last t.capacity (rs ++ rec ∷ []) ≡ drop 1 rs ++ rec ∷ []
  drop_over rs h = rw one (go rs (omega (arith, length-append rs (rec ∷ []), v.capacity_pos)))
    where
      one : length (rs ++ rec ∷ []) - t.capacity ≡ 1
      one = omega (arith, h)

      go : (xs : List ConnRecord) → 0 < length xs → drop 1 (xs ++ rec ∷ []) ≡ drop 1 xs ++ rec ∷ []
      go [] p = elim p [ ]
      go (x ∷ xs) p = refl

  history-append_ring : history (append_ring rec t) ≡ keep_last t.capacity (history t ++ rec ∷ [])
  unfolding append_ring
  history-append_ring = elim (Bool-cases (t.ring_count == t.capacity)) [
    | inl full ↦
        rw full (
          history_full (ground arith)
          ∙ sym (drop_over (history t) (ground (arith, length-history))))
    | inr room ↦
        let none_over : length (history t ++ rec ∷ []) - t.capacity ≡ 0 =
          ground (arith, length-history, v.count_le) in
        rw (room, none_over) (history_room (ground (arith, v.count_le)))
  ]

-- Refinement of pushRing, seen through the list of finished connections: the records that are too
-- old leave the front, the new record goes to the end, and of the result the last `capacity` stay.
pub history-push_ring :
    (now : ℕ) (rec : ConnRecord) (t : ConnTracker)
    → RingOk t
    → history (push_ring now rec t)
      ≡ keep_last t.capacity (expire now t.max_age (history t) ++ rec ∷ [])
unfolding push_ring prune_ring
history-push_ring now rec t v =
    history-append_ring rec (prune_ring now t) (prune_ring-RingOk now t v)
    ∙ ap (λ h. keep_last t.capacity (h ++ rec ∷ [])) (history-prune_ring now t v)

pub push_ring-RingOk :
    (now : ℕ) (rec : ConnRecord) (t : ConnTracker) → RingOk t → RingOk (push_ring now rec t)
unfolding push_ring
push_ring-RingOk now rec t v = append_ring-RingOk rec (prune_ring now t) (prune_ring-RingOk now t v)

pub new_conn_tracker-RingOk : (capacity max_age : ℕ) → RingOk (new_conn_tracker capacity max_age)
unfolding new_conn_tracker
new_conn_tracker-RingOk capacity max_age = elim (Bool-cases (capacity == 0)) [
  | inl e ↦ rw e (record {
    capacity_pos = omega arith;
    head_lt = omega arith;
    count_le = omega arith;
    length_eq = length-replicate 1000 zero_record;
  })
  | inr e ↦ rw e (record {
    capacity_pos = ground arith;
    head_lt = ground arith;
    count_le = omega arith;
    length_eq = length-replicate capacity zero_record;
  })
]
