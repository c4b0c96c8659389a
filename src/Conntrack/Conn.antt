-- ===== src/Conntrack/Conn.antt =====
-- conntrack.go: trackedConn. `System` is the tracker with the wrapped connections that share it; the
-- base connection's results are arguments.
use ssh_gate.Prelude.{
  ℕ, ◌+◌, ◌%◌, ◌^◌, Bool, true, false, List, Option, none, some, Text, if◌then◌else◌, lookup,
  insert, nat_eq,
}
use ssh_gate.Conntrack.Records.{ConnTracker}
use ssh_gate.Conntrack.Tracker.{done, finish, Wrapped}

-- An I/O error: the two that isBenignCloseErr knows, or another with its text.
pub data IoError : Type 0 where
  eof net_closed : IoError
  other : Text → IoError

-- isBenignCloseErr; no error is benign.
abbrev pub is_benign_close_err : Option IoError → Bool
is_benign_close_err none = true
is_benign_close_err (some IoError.eof) = true
is_benign_close_err (some IoError.net_closed) = true
is_benign_close_err (some (IoError.other text)) = false

pub record TrackedConn : Type 0 where
  pub id : ℕ
  pub up : ℕ
  pub down : ℕ
  pub first_err : Option IoError
  pub closed : Bool

pub record System : Type 0 where
  pub tracker : ConnTracker
  pub conns : List (ℕ × TrackedConn)

-- Remember the first error that is not benign.
abbrev pub note_err : Option IoError → TrackedConn → TrackedConn
note_err e c =
    if is_benign_close_err e
    then c
    else elim c.first_err [ none ↦ record c { first_err = e } | some old ↦ c ]

-- Read and Write, behind the base connection's `n, err`. Counters are an int64 as its bits; `n` is
-- not negative, so to add 0 is to skip the addition.
unfoldable pub read : ℕ → Option IoError → TrackedConn → TrackedConn
read n e c = note_err e (record c { down = (c.down + n) % 2 ^ 64 })

unfoldable pub write : ℕ → Option IoError → TrackedConn → TrackedConn
write n e c = note_err e (record c { up = (c.up + n) % 2 ^ 64 })

-- Done allocates the wrapper, and keeps it only if the record is still there.
unfoldable pub wrap : ℕ → Option ℕ → System → System × Wrapped
wrap id conn s =
    let (t, w) = done id conn s.tracker in
    let fresh : TrackedConn = record {
      id = id;
      up = 0;
      down = 0;
      first_err = none;
      closed = false;
    } in
    elim w [
      | Wrapped.tracked base i ↦
          (record { tracker = t; conns = insert id fresh s.conns }, Wrapped.tracked base i)
      | unwrapped ↦ (record s { tracker = t }, unwrapped)
    ]

abbrev pub err_text : (IoError → Text) → Option IoError → Option Text
err_text text none = none
err_text text (some e) = some (text e)

-- Close of the wrapper `conn`: the first call finishes its record, a later one only closes the base
-- connection. `text` is the errors' Error method.
unfoldable pub close : (IoError → Text) → ℕ → ℕ → ℕ → System → System
close text at clock conn s = elim (lookup conn s.conns) [
  | none ↦ s
  | some c ↦ if c.closed then s else record {
    tracker = finish at clock c.id c.up c.down (err_text text c.first_err) s.tracker;
    conns = insert conn (record c { closed = true }) s.conns;
  }
]
