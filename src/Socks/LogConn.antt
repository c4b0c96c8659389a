-- ===== src/Socks/LogConn.antt =====
-- socks5.go: logConn, which counts the bytes of a relay and writes its access line. The upstream
-- conn's results are arguments; the counters are int64s as their bits.
use ssh_gate.Prelude.{
  ℕ, ◌+◌, ◌%◌, ◌^◌, Bool, true, false, List, [], ◌∷◌, ◌++◌, Option, none, some, Text, codes,
  if◌then◌else◌,
}
use ssh_gate.Conntrack.Conn.{IoError}

-- relayErr; no error is not worth a line.
abbrev pub relay_err : Option IoError → Bool
relay_err none = false
relay_err (some IoError.eof) = false
relay_err (some IoError.net_closed) = false
relay_err (some (IoError.other text)) = true

-- The access line of a relay: its result and its counters.
pub record AccessLine : Type 0 where
  pub result : Text
  pub bytes_up : ℕ
  pub bytes_down : ℕ

-- `retired` counts the runs of onClose; `access` and `service` are the lines that this conn wrote to
-- the access log and to the service log.
pub record LogConn : Type 0 where
  pub up : ℕ
  pub down : ℕ
  pub first_err : Option IoError
  pub closed : Bool
  pub retired : ℕ
  pub access : List AccessLine
  pub service : List IoError

abbrev pub new_log_conn : LogConn
new_log_conn = record {
  up = 0;
  down = 0;
  first_err = none;
  closed = false;
  retired = 0;
  access = [];
  service = [];
}

abbrev pub keep_first : Option IoError → Option IoError → Option IoError
keep_first none e = if relay_err e then e else none
keep_first (some old) e = some old

-- Read and Write.
unfoldable pub read : ℕ → Option IoError → LogConn → LogConn
read n e l = record l { down = (l.down + n) % 2 ^ 64; first_err = keep_first l.first_err e }

unfoldable pub write : ℕ → Option IoError → LogConn → LogConn
write n e l = record l { up = (l.up + n) % 2 ^ 64; first_err = keep_first l.first_err e }

abbrev pub result_of : Option IoError → Text
result_of none = codes "ok"
result_of (some e) = codes "relay_error"

abbrev pub errors_of : Option IoError → List IoError
errors_of none = []
errors_of (some e) = e ∷ []

-- Close: only the first call retires the relay and writes its lines.
unfoldable pub close : LogConn → LogConn
close l = if l.closed then l else record l {
  closed = true;
  retired = l.retired + 1;
  access =
      l.access
      ++ record { result = result_of l.first_err; bytes_up = l.up; bytes_down = l.down } ∷ [];
  service = l.service ++ errors_of l.first_err;
}
