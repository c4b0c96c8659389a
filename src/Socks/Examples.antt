-- ===== src/Socks/Examples.antt =====
-- socks5.go: the theorems at concrete inputs.
use ssh_gate.Prelude.{◌%◌, ◌^◌, ◌≡◌, List, [], ◌∷◌, ◌++◌, map, none, some, codes}
use ssh_gate.Conntrack.Conn.{IoError}
use ssh_gate.Socks.LogConn.{new_log_conn, result_of, errors_of}
use ssh_gate.Socks.AccessLog.{
  Transfer, reads, writes, transfers, closes, run, sum_up, sum_down, first_failure, run-closes,
}

abbrev moves : List Transfer
moves = writes 100 none ∷ reads 2000 none ∷ reads 0 (some (IoError.other (codes "reset"))) ∷ []

run-closes_example :
    let l =
      run new_log_conn (map transfers moves ++ closes ∷ transfers (reads 5 none) ∷ closes ∷ []) in
    (l.access
      ≡ record {
        result = result_of (first_failure moves);
        bytes_up = sum_up moves % 2 ^ 64;
        bytes_down = sum_down moves % 2 ^ 64;
      }
        ∷ [])
    × (l.service ≡ errors_of (first_failure moves))
    × (l.retired ≡ 1)
run-closes_example = run-closes moves (transfers (reads 5 none) ∷ closes ∷ [])
