-- ===== src/Conntrack/Examples.antt =====
-- conntrack.go: tests, and the theorems at concrete inputs.
use ssh_gate.Prelude.{
  ℕ, ◌-◌, ◌^◌, ◌≤◌, ◌≡◌, refl, inr, List, [], ◌∷◌, ◌++◌, map, none, some, Text, codes, length,
  nat_eq, arith,
}
use ssh_gate.Conntrack.Records.{ConnMeta, ConnRecord, ConnTracker, ConnState, zero_record}
use ssh_gate.Conntrack.Ring.{new_conn_tracker, push_ring, prune_ring, append_ring, history, collect}
use ssh_gate.Conntrack.RingIndex.{expire, keep_last}
use ssh_gate.Conntrack.RingView.{new_conn_tracker-RingOk, history-push_ring}
use ssh_gate.Conntrack.Tracker.{begin, done, finish, fail}
use ssh_gate.Conntrack.Invariant.{IsValid}
use ssh_gate.Conntrack.History.{
  Call, begins, dones, fails, finishes, step, run, run-new_conn_tracker-IsValid,
}
use ssh_gate.Conntrack.Listing.{newer, insert_record, sort_records}
use ssh_gate.Conntrack.Conn.{IoError, System}
use ssh_gate.Conntrack.Relay.{Transfer, reads, writes, transfers, fresh_conn}

abbrev web : ConnMeta
web = record {
  proto = codes "http";
  src = codes "10.0.0.5:50000";
  host = codes "example.com";
  dst_ip = codes "93.184.216.34";
}

-- Three connections over a ring of two; the first two are over.
abbrev calls : List Call
calls =
    begins 10 web (codes "a.example") 80
    ∷ dones 1 (some 7)
    ∷ begins 20 web (codes "b.example") 443
    ∷ fails 25 26 2 (codes "refused")
    ∷ finishes 30 31 1 100 200 none
    ∷ begins 40 web (codes "c.example") 80
    ∷ []

abbrev busy : ConnTracker
busy = run (new_conn_tracker 2 1000) calls

calls_short : length calls ≤ 2 ^ 64 - 1
calls_short = omega arith

busy-IsValid : IsValid busy
busy-IsValid = run-new_conn_tracker-IsValid 2 1000 calls (omega arith)

busy_ids : map (λ r. r.id) (history busy) ≡ 2 ∷ 1 ∷ []
unfolding run step begin done fail finish push_ring prune_ring append_ring history new_conn_tracker
busy_ids = refl

history-push_ring_example :
    history (push_ring 5 zero_record (new_conn_tracker 2 1000))
    ≡ keep_last 2 (expire 5 1000 (history (new_conn_tracker 2 1000)) ++ zero_record ∷ [])
unfolding new_conn_tracker
history-push_ring_example =
    history-push_ring 5 zero_record (new_conn_tracker 2 1000) (new_conn_tracker-RingOk 2 1000)

run-new_conn_tracker-IsValid_example : IsValid (run (new_conn_tracker 2 1000) calls)
run-new_conn_tracker-IsValid_example = run-new_conn_tracker-IsValid 2 1000 calls (omega arith)

abbrev open_record : ConnRecord
open_record = record zero_record { id = 3; status = ConnState.active; live = some 3 }

-- One connection, under the id 3.
abbrev one_active : ConnTracker
one_active = record (new_conn_tracker 2 1000) { active = (3, open_record) ∷ []; next_id = 3 }

one_active-IsValid : IsValid one_active
unfolding new_conn_tracker history collect
one_active-IsValid = record {
  ring_ok = record {
    capacity_pos = omega arith;
    head_lt = omega arith;
    count_le = omega arith;
    length_eq = refl;
  };
  books = record {
    distinct = (refl, tt);
    live = (record { own_id = refl; known = omega arith; status_open = inr refl }, tt);
    gone = tt;
    once = tt;
  };
}

abbrev early : ConnRecord
early = record zero_record { id = 1; started_at = 10 }

abbrev late : ConnRecord
late = record zero_record { id = 2; started_at = 20 }

newest_first : sort_records (early ∷ late ∷ []) ≡ late ∷ early ∷ []
unfolding sort_records insert_record newer
newest_first = refl

abbrev five : List ℕ
five = 1 ∷ 2 ∷ 3 ∷ 4 ∷ 5 ∷ []

abbrev no_counters : ℕ → ℕ × ℕ
no_counters conn = (0, 0)

abbrev moves : List Transfer
moves = writes 100 none ∷ reads 2000 none ∷ reads 0 (some IoError.eof) ∷ []

abbrev relaying : System
relaying = record { tracker = one_active; conns = (3, transfers (fresh_conn 3) moves) ∷ [] }

abbrev no_text : IoError → Text
no_text e = codes "error"
