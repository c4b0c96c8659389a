-- ===== src/Socks/Linked.antt =====
-- socks5.go: a connection's number links its line in the access log to its error in the service log.
use ssh_gate.Prelude.{
  ℕ, ◌+◌, ◌^◌, ◌<◌, ◌≤◌, ◌≡◌, refl, sym, ap, ◌∙◌, inl, inr, Bool, true, List, [], ◌∷◌, ◌++◌, Option,
  none, some, Text, codes, text_eq, Bool-cases, arith,
}
use ssh_gate.Conntrack.Conn.{IoError}
use ssh_gate.Socks.LogConn.{read, write}
use ssh_gate.Socks.Lines.{
  str, LogLine, ConnInfo, fields, LogBooks, next_conn_id, log_failure, close_at, Event, fails,
  starts, asks, DialReport, with_dial, take_at, add_lines, fail_request, start_relay, reads, writes,
  closes, step, run, new_books,
}
use ssh_gate.Socks.LineCounts.{
  lines_of, pending, issued, requests, requests-∷, issued_none, once, lines_of-fields, lines_of-++,
  asked, taken, asked-take_at, pending-move_at, close_at-lines,
}

-- Every number given is that of one open request, of one line in the access log or of one open conn,
-- and no line of the service log is without one in the access log.
pub record IsLinked (s : LogBooks) (k : ℕ) : Type 0 where
  pub told_once : asked k s.opening + lines_of k s.access + pending k s.relays ≡ issued k s.last
  pub linked : lines_of k s.service ≤ lines_of k s.access

module _ (warns : Bool) (error_text : IoError → Text) where
  -- A log off has no more lines than one on.
  add_lines_le :
      (k : ℕ) (lines log : List LogLine)
      → lines_of k (add_lines warns lines log) ≤ lines_of k lines + lines_of k log
  add_lines_le k lines log = elim (Bool-cases warns) [
    | inl e ↦ rw e (omega (arith, lines_of-++ k lines log))
    | inr e ↦ rw e (omega arith)
  ]

  fail_request-last :
      (o : DialReport) (result error : Text) (c : Option ConnInfo) (s : LogBooks)
      → (fail_request true warns o result error c s).last ≡ s.last
  unfolding log_failure
  fail_request-last o result error none s = refl
  fail_request-last o result error (some c) s = refl

  start_relay-last :
      (o : DialReport) (c : Option ConnInfo) (s : LogBooks) → (start_relay o c s).last ≡ s.last
  start_relay-last o none s = refl
  start_relay-last o (some c) s = refl

  step-last :
      (s : LogBooks) (e : Event)
      → s.last + requests (e ∷ []) < 2 ^ 64
      → (step true warns error_text s e).last ≡ s.last + requests (e ∷ [])
  unfolding step
  step-last s (asks c) h = omega arith
  step-last s (fails i o result error) h = omega (
    arith,
    fail_request-last o result error (take_at i s.opening).0
        (record s { opening = (take_at i s.opening).1 }),
  )
  step-last s (starts i o) h = omega (
    arith,
    start_relay-last o (take_at i s.opening).0 (record s { opening = (take_at i s.opening).1 }),
  )
  step-last s (reads i n e) h = omega arith
  step-last s (writes i n e) h = omega arith
  step-last s (closes i ms) h = omega arith

  -- The next number, as long as the counter does not wrap.
  issued_next :
      (k last : ℕ)
      → last + 1 < 2 ^ 64
      → issued k (next_conn_id last) ≡ once k (next_conn_id last) + issued k last
  issued_next k last h =
      let next : next_conn_id last ≡ last + 1 = omega arith in rw next (ground arith)

  -- A request that was taken out of the open ones is told of.
  fail_request-IsLinked :
      (k : ℕ) (o : DialReport) (result error : Text) (c : Option ConnInfo) (s : LogBooks)
      → taken k c + asked k s.opening + lines_of k s.access + pending k s.relays ≡ issued k s.last
      → lines_of k s.service ≤ lines_of k s.access
      → IsLinked (fail_request true warns o result error c s) k
  unfolding log_failure lines_of
  fail_request-IsLinked k o result error none s told linked = record {
    told_once = omega (arith, told);
    linked = linked;
  }
  fail_request-IsLinked k o result error (some c) s told linked =
      let c' : ConnInfo = with_dial o c in
      let line = lines_of-fields k c' ((codes "result", str result) ∷ []) s.access in
      let ends : LogLine = (codes "result", str result) ∷ (codes "error", str error) ∷ [] in
      let warned = add_lines_le k ((fields c' ++ ends) ∷ []) s.service in
      record {
        told_once = omega (arith, told, line);
        linked = omega (arith, linked, line, warned, lines_of-fields k c' ends []);
      }

  start_relay-IsLinked :
      (k : ℕ) (o : DialReport) (c : Option ConnInfo) (s : LogBooks)
      → taken k c + asked k s.opening + lines_of k s.access + pending k s.relays ≡ issued k s.last
      → lines_of k s.service ≤ lines_of k s.access
      → IsLinked (start_relay o c s) k
  unfolding pending
  start_relay-IsLinked k o none s told linked = record {
    told_once = omega (arith, told);
    linked = linked;
  }
  start_relay-IsLinked k o (some c) s told linked = record {
    told_once = ground (arith, told);
    linked = linked;
  }

  step-IsLinked :
      (k : ℕ) (s : LogBooks) (e : Event)
      → s.last + requests (e ∷ []) < 2 ^ 64
      → IsLinked s k
      → IsLinked (step true warns error_text s e) k
  unfolding step asked read write
  step-IsLinked k s (asks c) h v =
      let next = issued_next k s.last h in
      record { told_once = omega (arith, next, v.told_once); linked = v.linked }
  step-IsLinked k s (fails i o result error) h v =
      fail_request-IsLinked k o result error (take_at i s.opening).0
        (record s { opening = (take_at i s.opening).1 })
        (omega (arith, asked-take_at k i s.opening, v.told_once)) v.linked
  step-IsLinked k s (starts i o) h v =
      start_relay-IsLinked k o (take_at i s.opening).0
        (record s { opening = (take_at i s.opening).1 })
        (omega (arith, asked-take_at k i s.opening, v.told_once)) v.linked
  step-IsLinked k s (reads i n e) h v =
      let same = pending-move_at k i (read n e) s.relays (λ l. refl) in
      record { told_once = omega (arith, same, v.told_once); linked = v.linked }
  step-IsLinked k s (writes i n e) h v =
      let same = pending-move_at k i (write n e) s.relays (λ l. refl) in
      record { told_once = omega (arith, same, v.told_once); linked = v.linked }
  step-IsLinked k s (closes i ms) h v =
      let logs = (close_at error_text ms i s.relays).1 in
      let lines = close_at-lines error_text k ms i s.relays in
      let told = lines_of-++ k logs.0 s.access in
      let found = add_lines_le k logs.1 s.service in
      record {
        told_once = omega (arith, lines.0, told, v.told_once);
        linked = omega (arith, lines.1, told, found, v.linked);
      }

  run_from :
      (k : ℕ) (s : LogBooks) (es : List Event)
      → s.last + requests es < 2 ^ 64
      → IsLinked s k
      → IsLinked (run true warns error_text s es) k
        × ((run true warns error_text s es).last ≡ s.last + requests es)
  unfolding run
  run_from k s [] h v = (v, omega arith)
  run_from k s (e ∷ es) h v =
      let split = requests-∷ e es in
      let last = step-last s e (omega arith) in
      let rest =
        run_from k (step true warns error_text s e) es (omega (arith, last, split))
          (step-IsLinked k s e (omega (arith, split)) v) in
      (rest.0, omega (arith, rest.1, last, split))

  -- With the access log on, whether or not LOG_LEVEL lets a warning through, from the start of the
  -- process and below 2 ^ 64 requests of both proxies: the last number given is the number of requests,
  -- and each number from 1 to it is that of exactly one request that is still in its resolve or dial, of
  -- exactly one line of the access log, or of exactly one conn that is still open, and of only one of
  -- the three, whatever is read, written and closed, and however often a conn is closed; and the service
  -- log has no more lines of a number than the access log, so that each error there is linked to an
  -- access line.
  pub run-IsLinked :
      (k : ℕ) (es : List Event)
      → requests es < 2 ^ 64
      → let s = run true warns error_text new_books es in
        (s.last ≡ requests es)
        × (asked k s.opening + lines_of k s.access + pending k s.relays ≡ issued k (requests es))
        × (lines_of k s.service ≤ lines_of k s.access)
  unfolding lines_of pending asked
  run-IsLinked k es h =
      let start : IsLinked new_books k = record {
        told_once = sym (issued_none k);
        linked = omega arith;
      } in
      let (v, last) = run_from k new_books es (omega arith) start in
      (omega (arith, last), v.told_once ∙ ap (issued k) (omega (arith, last)), v.linked)
