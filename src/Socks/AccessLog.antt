-- ===== src/Socks/AccessLog.antt =====
-- socks5.go: the access line of a relay, over any use of its logConn.
use ssh_gate.Prelude.{
  ℕ, ◌+◌, ◌%◌, ◌^◌, ◌<◌, ◌≡◌, refl, ◌∙◌, true, false, List, [], ◌∷◌, ◌++◌, map, Option, none, some,
  if◌then◌else◌, arith,
}
use ssh_gate.Conntrack.Conn.{IoError}
use ssh_gate.Socks.LogConn.{
  relay_err, LogConn, new_log_conn, read, write, close, result_of, errors_of,
}

pub data Transfer : Type 0 where
  reads writes : ℕ → Option IoError → Transfer

pub data Use : Type 0 where
  transfers : Transfer → Use
  closes : Use

unfoldable pub transfer : LogConn → Transfer → LogConn
transfer l (reads n e) = read n e l
transfer l (writes n e) = write n e l

unfoldable pub relay : LogConn → List Transfer → LogConn
unfolding transfer
relay l [] = l
relay l (t ∷ ts) = relay (transfer l t) ts

unfoldable pub run : LogConn → List Use → LogConn
unfolding transfer
run l [] = l
run l (transfers t ∷ uses) = run (transfer l t) uses
run l (closes ∷ uses) = run (close l) uses

-- The bytes towards the upstream and from it, and the first error worth a line.
abbrev pub sum_up : List Transfer → ℕ
sum_up [] = 0
sum_up (writes n e ∷ ts) = n + sum_up ts
sum_up (reads n e ∷ ts) = sum_up ts

abbrev pub sum_down : List Transfer → ℕ
sum_down [] = 0
sum_down (reads n e ∷ ts) = n + sum_down ts
sum_down (writes n e ∷ ts) = sum_down ts

abbrev pub error_of : Transfer → Option IoError
error_of (reads n e) = e
error_of (writes n e) = e

abbrev pub first_failure : List Transfer → Option IoError
first_failure [] = none
first_failure (t ∷ ts) = if relay_err (error_of t) then error_of t else first_failure ts

close_again :
    (l : LogConn)
    → l.closed ≡ true
    → ((close l).closed ≡ true)
      × ((close l).access ≡ l.access)
      × ((close l).service ≡ l.service)
      × ((close l).retired ≡ l.retired)
unfolding close
close_again l h = ground arith

close_first :
    (l : LogConn)
    → l.closed ≡ false
    → ((close l).closed ≡ true)
      × ((close l).access
          ≡ l.access
            ++ record { result = result_of l.first_err; bytes_up = l.up; bytes_down = l.down } ∷ [])
      × ((close l).service ≡ l.service ++ errors_of l.first_err)
      × ((close l).retired ≡ l.retired + 1)
unfolding close
close_first l h = ground arith

-- After the close, nothing more is written and nothing retires again.
run_closed :
    (l : LogConn) (uses : List Use)
    → l.closed ≡ true
    → ((run l uses).access ≡ l.access)
      × ((run l uses).service ≡ l.service)
      × ((run l uses).retired ≡ l.retired)
unfolding run transfer read write
run_closed l [] h = (refl, refl, refl)
run_closed l (transfers (reads n e) ∷ uses) h = run_closed (read n e l) uses h
run_closed l (transfers (writes n e) ∷ uses) h = run_closed (write n e l) uses h
run_closed l (closes ∷ uses) h =
    let (c, a, v, n) = close_again l h in
    let (a', v', n') = run_closed (close l) uses c in (a' ∙ a, v' ∙ v, n' ∙ n)

-- What a relay of `ts` makes of a conn.
record Totals (l l' : LogConn) (ts : List Transfer) : Type 0 where
  up_total : l'.up ≡ (l.up + sum_up ts) % 2 ^ 64
  down_total : l'.down ≡ (l.down + sum_down ts) % 2 ^ 64
  err_total : l'.first_err ≡ (elim l.first_err [ none ↦ first_failure ts | some e ↦ some e ])
  same_closed : l'.closed ≡ l.closed
  same_retired : l'.retired ≡ l.retired
  same_access : l'.access ≡ l.access
  same_service : l'.service ≡ l.service

relay-Totals :
    (l : LogConn) (ts : List Transfer) → l.up < 2 ^ 64 → l.down < 2 ^ 64 → Totals l (relay l ts) ts
unfolding relay transfer read write
relay-Totals l [] h k = ground arith
relay-Totals l (reads n e ∷ ts) h k =
    let r = relay-Totals (read n e l) ts (ground arith) (ground arith) in ground arith
relay-Totals l (writes n e ∷ ts) h k =
    let r = relay-Totals (write n e l) ts (ground arith) (ground arith) in ground arith

run-relay :
    (l : LogConn) (ts : List Transfer) (uses : List Use)
    → run l (map transfers ts ++ uses) ≡ run (relay l ts) uses
unfolding run relay
run-relay l [] uses = refl
run-relay l (t ∷ ts) uses = run-relay (transfer l t) ts uses

-- A relay has one access line, however often and by whomever its conn is closed: the first Close
-- writes it, with the bytes that were written and read before, as int64 sums, and `relay_error` if
-- some transfer failed other than by an end of file or by our own close; the first such error alone
-- goes to the service log, and the drain counter is given back once.
pub run-closes :
    (ts : List Transfer) (uses : List Use)
    → let l = run new_log_conn (map transfers ts ++ closes ∷ uses) in
      (l.access
        ≡ record {
          result = result_of (first_failure ts);
          bytes_up = sum_up ts % 2 ^ 64;
          bytes_down = sum_down ts % 2 ^ 64;
        }
          ∷ [])
      × (l.service ≡ errors_of (first_failure ts))
      × (l.retired ≡ 1)
unfolding run
run-closes ts uses =
    let l = relay new_log_conn ts in
    let r : Totals new_log_conn l ts = relay-Totals new_log_conn ts (omega arith) (omega arith) in
    let up : l.up ≡ sum_up ts % 2 ^ 64 = ground (arith, r.up_total) in
    let down : l.down ≡ sum_down ts % 2 ^ 64 = ground (arith, r.down_total) in
    let (c, a, v, n) = close_first l r.same_closed in
    let (a', v', n') = run_closed (close l) uses c in
    rw (run-relay new_log_conn ts (closes ∷ uses)) (
      a' ∙ a ∙ rw (r.same_access, r.err_total, up, down),
      v' ∙ v ∙ rw (r.same_service, r.err_total),
      n' ∙ n ∙ rw r.same_retired,
    )
