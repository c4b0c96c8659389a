-- ===== src/Conntrack/Relay.antt =====
-- conntrack.go: the life of a wrapped connection.
use ssh_gate.Prelude.{
  ℕ, ◌+◌, ◌%◌, ◌^◌, ◌≡◌, ◌<◌, refl, true, false, List, [], ◌∷◌, ◌++◌, Option, none, some, Text,
  if◌then◌else◌, lookup, insert, delete, nat_eq, lookup-insert, inl, inr, Option-cases, Bool-cases,
  arith,
}
use ssh_gate.Conntrack.Records.{ConnRecord}
use ssh_gate.Conntrack.Tracker.{finish, with_first_err}
use ssh_gate.Conntrack.Ring.{history}
use ssh_gate.Conntrack.RingIndex.{expire, keep_last}
use ssh_gate.Conntrack.Invariant.{IsValid}
use ssh_gate.Conntrack.History.{finish_moves}
use ssh_gate.Conntrack.Conn.{
  IoError, is_benign_close_err, TrackedConn, System, read, write, err_text, close,
}

-- What the base connection reports for one call of Read or Write.
pub data Transfer : Type 0 where
  reads : ℕ → Option IoError → Transfer
  writes : ℕ → Option IoError → Transfer

unfoldable pub transfer : TrackedConn → Transfer → TrackedConn
unfolding read write
transfer c (reads n e) = read n e c
transfer c (writes n e) = write n e c

unfoldable pub transfers : TrackedConn → List Transfer → TrackedConn
transfers c [] = c
transfers c (x ∷ xs) = transfers (transfer c x) xs

abbrev pub sum_up : List Transfer → ℕ
sum_up [] = 0
sum_up (reads n e ∷ xs) = sum_up xs
sum_up (writes n e ∷ xs) = n + sum_up xs

abbrev pub sum_down : List Transfer → ℕ
sum_down [] = 0
sum_down (reads n e ∷ xs) = n + sum_down xs
sum_down (writes n e ∷ xs) = sum_down xs

abbrev pub error_of : Transfer → Option IoError
error_of (reads n e) = e
error_of (writes n e) = e

-- The first error of the transfers that is no routine close.
abbrev pub first_failure : List Transfer → Option IoError
first_failure [] = none
first_failure (x ∷ xs) = if is_benign_close_err (error_of x) then first_failure xs else error_of x

abbrev pub or_else {ℓ} : {A : Type ℓ} → Option A → Option A → Option A
or_else none b = b
or_else (some a) b = some a

record Totals (c d : TrackedConn) (xs : List Transfer) : Type 0 where
  up_total : d.up ≡ (c.up + sum_up xs) % 2 ^ 64
  down_total : d.down ≡ (c.down + sum_down xs) % 2 ^ 64
  err_total : d.first_err ≡ or_else c.first_err (first_failure xs)
  same_id : d.id ≡ c.id
  same_closed : d.closed ≡ c.closed

transfers-Totals :
    (c : TrackedConn) (xs : List Transfer)
    → c.up < 2 ^ 64
    → c.down < 2 ^ 64
    → Totals c (transfers c xs) xs
unfolding transfers transfer
transfers-Totals c [] h k = ground arith
transfers-Totals c (x ∷ xs) h k =
    let r = transfers-Totals (transfer c x) xs (ground arith) (ground arith) in ground arith

abbrev pub fresh_conn : ℕ → TrackedConn
fresh_conn id = record { id = id; up = 0; down = 0; first_err = none; closed = false }

module _ (text : IoError → Text) (at clock conn : ℕ) (s : System) where
  close_missing : lookup conn s.conns ≡ none → close text at clock conn s ≡ s
  unfolding close
  close_missing e = rw (e, close)

  close_closed :
      (c : TrackedConn)
      → lookup conn s.conns ≡ some c
      → c.closed ≡ true
      → close text at clock conn s ≡ s
  unfolding close
  close_closed c e h = rw (e, close) (rw h)

  close_open :
      (c : TrackedConn)
      → lookup conn s.conns ≡ some c
      → c.closed ≡ false
      → close text at clock conn s ≡ record {
        tracker = finish at clock c.id c.up c.down (err_text text c.first_err) s.tracker;
        conns = insert conn (record c { closed = true }) s.conns;
      }
  unfolding close
  close_open c e h = rw (e, close) (rw h)

-- A second Close of a wrapper changes neither the tracker nor the wrapper: the history record is
-- made once.
pub close_once :
    (text : IoError → Text) (at clock at' clock' conn : ℕ) (s : System)
    → close text at' clock' conn (close text at clock conn s) ≡ close text at clock conn s
close_once text at clock at' clock' conn s = elim (Option-cases (lookup conn s.conns)) [
  | inl e ↦
      let same = close_missing text at clock conn s e in
      rw same (close_missing text at' clock' conn s e)
  | inr (c, e) ↦ elim (Bool-cases c.closed) [
    | inl h ↦
        let same = close_closed text at clock conn s c e h in
        rw same (close_closed text at' clock' conn s c e h)
    | inr h ↦
        let after : TrackedConn = record c { closed = true } in
        rw (close_open text at clock conn s c e h) (
          close_closed text at' clock' conn _ after
            (ground (arith, lookup-insert conn conn after s.conns)) refl)
  ]
]

-- The first Close of a wrapper that moved `xs` makes one history record: the bytes of all writes and
-- of all reads as int64 sums, the time of the close, and the status `error` with the text of the
-- first error that is no routine close, or else `closed`.
pub close_records :
    (text : IoError → Text) (at clock conn : ℕ) (xs : List Transfer) (rec : ConnRecord) (s : System)
    → IsValid s.tracker
    → lookup conn s.conns ≡ some (transfers (fresh_conn conn) xs)
    → lookup conn s.tracker.active ≡ some rec
    → let t = s.tracker in
      let t' = (close text at clock conn s).tracker in
      (t'.active ≡ delete conn t.active)
      × (history t'
          ≡ keep_last t.capacity (
              expire clock t.max_age (history t)
              ++ record (with_first_err (err_text text (first_failure xs)) rec) {
                bytes_up = sum_up xs % 2 ^ 64;
                bytes_down = sum_down xs % 2 ^ 64;
                closed_at = at;
              }
                ∷ []))
close_records text at clock conn xs rec s v e found =
    let r = transfers-Totals (fresh_conn conn) xs (omega arith) (omega arith) in
    let up : (transfers (fresh_conn conn) xs).up ≡ sum_up xs % 2 ^ 64 =
      ground (arith, r.up_total) in
    let down : (transfers (fresh_conn conn) xs).down ≡ sum_down xs % 2 ^ 64 =
      ground (arith, r.down_total) in
    rw (close_open text at clock conn s _ e r.same_closed) (
      rw (up, down, r.same_id, r.err_total)
        (finish_moves at clock conn _ _ _ rec s.tracker v found))
