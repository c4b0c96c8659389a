-- ===== src/Socks/LineTests.antt =====
-- socks5.go: the lines of the two logs at a concrete run of both proxies.
use ssh_gate.Prelude.{true, ◌+◌, ◌≡◌, ◌≤◌, refl, List, [], ◌∷◌, none, some, Text, codes, arith}
use ssh_gate.Rules.Engine.{direct}
use ssh_gate.Opener.Candidates.{IpFamily}
use ssh_gate.Syntax.Decimal.{pos}
use ssh_gate.Conntrack.Conn.{IoError}
use ssh_gate.Socks.LogConn
use ssh_gate.Socks.Lines.{
  ConnInfo, Event, DialReport, asks, fails, starts, reads, writes, closes, run, new_books,
}
use ssh_gate.Socks.LineCounts.{asked, lines_of, pending, issued, requests}
use ssh_gate.Socks.Linked.{run-IsLinked}

abbrev io_text : IoError → Text
io_text IoError.eof = codes "EOF"
io_text IoError.net_closed = codes "use of closed network connection"
io_text (IoError.other t) = t

abbrev site : ConnInfo
site = record {
  id = 0;
  proto = codes "socks5";
  src = codes "10.0.0.5:50000";
  host = codes "site.example";
  dst = [];
  reason = [];
  port = pos 443;
  route = direct;
  family = IpFamily.both;
  dial_ms = 0;
}

abbrev dialed : DialReport
dialed = record {
  dst = codes "192.0.2.7:443";
  reason = codes "private";
  route = direct;
  dial_ms = 12;
}

-- A relay that breaks and is closed twice, a dial that fails, a relay that stays open, and a dial that
-- is not through.
abbrev day : List Event
day =
    asks site
    ∷ asks site
    ∷ starts 1 dialed
    ∷ writes 0 100 none
    ∷ fails 0 dialed (codes "dial_error") (codes "connection refused")
    ∷ reads 0 0 (some (IoError.other (codes "reset")))
    ∷ closes 0 40
    ∷ asks site
    ∷ starts 0 dialed
    ∷ asks site
    ∷ closes 1 50
    ∷ []

service_lines : lines_of 1 (run true true io_text new_books day).service ≡ 1
unfolding lines_of run LogConn.read LogConn.write LogConn.close
service_lines = refl

run-IsLinked_example :
    ((run true true io_text new_books day).last ≡ requests day)
    × (asked 1 (run true true io_text new_books day).opening
          + lines_of 1 (run true true io_text new_books day).access
          + pending 1 (run true true io_text new_books day).relays
        ≡ issued 1 (requests day))
    × (lines_of 1 (run true true io_text new_books day).service
        ≤ lines_of 1 (run true true io_text new_books day).access)
run-IsLinked_example = run-IsLinked true io_text 1 day (omega arith)
