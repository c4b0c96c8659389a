-- ===== src/Conntrack/Tracker.antt =====
-- conntrack.go: the operations of the tracker. Each runs under the tracker's lock, so it is one
-- step; the times that it reads are arguments.
use ssh_gate.Prelude.{
  ℕ, ◌+◌, ◌%◌, ◌^◌, ltb, Bool, true, false, ◌&&◌, List, [], ◌∷◌, Option, none, some, Text, codes,
  if◌then◌else◌, lookup, insert, delete, nat_eq,
}
use ssh_gate.Conntrack.Records.{
  ConnState, dialing, active, closed, failed, ConnMeta, ConnRecord, ConnTracker,
}
use ssh_gate.Conntrack.Ring.{push_ring}

-- Begin. Ids are a uint64.
unfoldable pub begin : ℕ → ConnMeta → Text → ℕ → ConnTracker → ConnTracker × ℕ
begin at meta host port t =
    let id = (t.next_id + 1) % 2 ^ 64 in
    let rec : ConnRecord = record {
      id = id;
      proto = meta.proto;
      src = meta.src;
      host = host;
      dst_ip = meta.dst_ip;
      port = port;
      status = dialing;
      started_at = at;
      closed_at = 0;
      bytes_up = 0;
      bytes_down = 0;
      reason = codes "";
      live = none;
    } in
    (record t { next_id = id; active = insert id rec t.active }, id)

-- What Done returns: no connection, the one given, or that one wrapped as a trackedConn.
pub data Wrapped : Type 0 where
  nil : Wrapped
  plain : ℕ → Wrapped
  tracked : ℕ → ℕ → Wrapped

unfoldable pub done : ℕ → Option ℕ → ConnTracker → ConnTracker × Wrapped
done id none t = (t, nil)
done id (some conn) t = elim (lookup id t.active) [
  | none ↦ (t, plain conn)
  | some rec ↦ (
    record t { active = insert id (record rec { status = active; live = some id }) t.active },
    tracked conn id,
  )
]

-- `delete(t.active, id)` and `t.pushRing(rec)`: how every record leaves the active map.
unfoldable pub retire : ℕ → ℕ → ConnRecord → ConnTracker → ConnTracker
retire clock id rec t = push_ring clock rec (record t { active = delete id t.active })

-- Fail, with the error's text; `clock` is the time that pushRing reads.
unfoldable pub fail : ℕ → ℕ → ℕ → Text → ConnTracker → ConnTracker
unfolding retire
fail at clock id reason t = elim (lookup id t.active) [
  | none ↦ t
  | some rec ↦ retire clock id (record rec { status = failed; reason = reason; closed_at = at }) t
]

abbrev pub with_first_err : Option Text → ConnRecord → ConnRecord
with_first_err none rec = record rec { status = closed }
with_first_err (some text) rec = record rec { status = failed; reason = text }

-- finish, with the text of the first I/O error if there was one.
unfoldable pub finish : ℕ → ℕ → ℕ → ℕ → ℕ → Option Text → ConnTracker → ConnTracker
unfolding retire
finish at clock id up down first_err t = elim (lookup id t.active) [
  | none ↦ t
  | some rec ↦
      retire clock id
        (record (with_first_err first_err rec) { bytes_up = up; bytes_down = down; closed_at = at })
        t
]

abbrev pub is_dialing : ConnState → Bool
is_dialing dialing = true
is_dialing _ = false

-- One round of dropStalled's loop: an id of the map, and the time that pushRing reads.
unfoldable pub drop_one : ℕ → ℕ × ℕ → ConnTracker → ConnTracker
unfolding retire
drop_one now (id, clock) t = elim (lookup id t.active) [
  | none ↦ t
  | some rec ↦
      if is_dialing rec.status && ltb (rec.started_at + t.max_age) now
      then retire clock id
          (record rec { status = failed; reason = codes "dial timeout"; closed_at = now }) t
      else t
]

-- dropStalled. Go visits a map in any order: the visits are an argument.
unfoldable pub drop_stalled : ℕ → List (ℕ × ℕ) → ConnTracker → ConnTracker
unfolding drop_one
drop_stalled now [] t = t
drop_stalled now (visit ∷ visits) t = drop_stalled now visits (drop_one now visit t)
