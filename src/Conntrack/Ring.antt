-- ===== src/Conntrack/Ring.antt =====
-- conntrack.go: the ring buffer of finished connections.
use ssh_gate.Prelude.{
  ℕ, zero, suc, ◌+◌, ◌%◌, ◌==◌, leb, List, [], ◌∷◌, if◌then◌else◌, get_or, set, replicate,
}
use ssh_gate.Conntrack.Records.{ConnRecord, ConnTracker, zero_record}

-- NewConnTracker; a capacity of 0 stands for every capacity that is not positive.
unfoldable pub new_conn_tracker : ℕ → ℕ → ConnTracker
new_conn_tracker capacity max_age =
    let cap = if capacity == 0 then 1000 else capacity in
    record {
      active = [];
      ring = replicate cap zero_record;
      ring_head = 0;
      ring_count = 0;
      capacity = cap;
      max_age = max_age;
      next_id = 0;
    }

-- The loop of pruneRing over the head and the count. `now.Sub(closedAt) <= maxAge` is an order of
-- signed durations, so it stands here without the subtraction.
unfoldable pub prune_loop : ConnTracker → ℕ → ℕ → ℕ → ℕ × ℕ
prune_loop t now head zero = (head, 0)
prune_loop t now head (suc count) =
    let rest = prune_loop t now ((head + 1) % t.capacity) count in
    if leb now ((get_or t.ring head zero_record).closed_at + t.max_age)
    then (head, suc count)
    else rest

unfoldable pub prune_ring : ℕ → ConnTracker → ConnTracker
unfolding prune_loop
prune_ring now t =
    let (head, count) = prune_loop t now t.ring_head t.ring_count in
    record t { ring_head = head; ring_count = count }

-- The write of pushRing, behind its call of pruneRing.
unfoldable pub append_ring : ConnRecord → ConnTracker → ConnTracker
append_ring rec t =
    if t.ring_count == t.capacity
    then record t { ring = set t.ring t.ring_head rec; ring_head = (t.ring_head + 1) % t.capacity }
    else record t {
      ring = set t.ring ((t.ring_head + t.ring_count) % t.capacity) rec;
      ring_count = t.ring_count + 1;
    }

-- pushRing; `now` is the time that it reads.
unfoldable pub push_ring : ℕ → ConnRecord → ConnTracker → ConnTracker
push_ring now rec t = append_ring rec (prune_ring now t)

-- The loop of List over the ring: `ring[(ringHead+i)%capacity]` from `i` on, `n` records.
unfoldable pub collect : ConnTracker → ℕ → ℕ → List ConnRecord
collect t i zero = []
collect t i (suc n) =
    get_or t.ring ((t.ring_head + i) % t.capacity) zero_record ∷ collect t (i + 1) n

-- The finished connections, oldest first.
unfoldable pub history : ConnTracker → List ConnRecord
unfolding collect
history t = collect t 0 t.ring_count
