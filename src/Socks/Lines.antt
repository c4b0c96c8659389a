-- ===== src/Socks/Lines.antt =====
-- socks5.go: the numbers of the connections of both proxies, and their lines in the access log and in
-- the service log: connIDs, connInfo, logFailure, and the lines of logConn.Close. The logs have the
-- newest line first.
use ssh_gate.Prelude.{
  ℕ, zero, suc, Bool, ◌+◌, ◌%◌, ◌^◌, List, [], ◌∷◌, ◌++◌, Option, none, some, Text, codes,
  if◌then◌else◌,
}
use ssh_gate.Rules.Engine.{Route, direct, tunnel}
use ssh_gate.Opener.Candidates.{IpFamily}
use ssh_gate.Syntax.Decimal.{ℤ}
use ssh_gate.Conntrack.Conn.{IoError}
use ssh_gate.Socks.LogConn.{LogConn, new_log_conn, read, write, close, result_of}

pub data Value : Type 0 where
  num : ℕ → Value
  int : ℤ → Value
  str : Text → Value

abbrev pub LogLine : Type 0
LogLine = List (Text × Value)

pub record ConnInfo : Type 0 where
  pub id : ℕ
  pub proto : Text
  pub src : Text
  pub host : Text
  pub dst : Text
  pub reason : Text
  pub port : ℤ
  pub route : Route
  pub family : IpFamily
  pub dial_ms : ℕ

-- Route.String and IPFamily.String.
abbrev pub route_text : Route → Text
route_text direct = codes "direct"
route_text tunnel = codes "tunnel"

abbrev pub family_text : IpFamily → Text
family_text IpFamily.ipv4 = codes "ipv4"
family_text IpFamily.ipv6 = codes "ipv6"
family_text IpFamily.both = codes "both"

-- connInfo.fields.
unfoldable pub fields : ConnInfo → LogLine
fields c =
    (codes "conn_id", num c.id)
    ∷ (codes "proto", str c.proto)
    ∷ (codes "src", str c.src)
    ∷ (codes "host", str c.host)
    ∷ (codes "port", int c.port)
    ∷ (codes "route", str (route_text c.route))
    ∷ (codes "reason", str c.reason)
    ∷ (codes "family", str (family_text c.family))
    ∷ (codes "dst", str c.dst)
    ∷ (codes "dial_ms", num c.dial_ms)
    ∷ []

-- A conn of a relay: logConn with its connInfo.
pub record Relay : Type 0 where
  pub info : ConnInfo
  pub conn : LogConn

-- What the resolve and the dial tell of a request: its dst, route, reason and dialMS.
pub record DialReport : Type 0 where
  pub dst : Text
  pub reason : Text
  pub route : Route
  pub dial_ms : ℕ

abbrev pub with_dial : DialReport → ConnInfo → ConnInfo
with_dial o c = record c { dst = o.dst; reason = o.reason; route = o.route; dial_ms = o.dial_ms }

-- `last` is connIDs; `opening` are the requests that have a number and are not through their dial,
-- `relays` the conns that were made, newest first.
pub record LogBooks : Type 0 where
  pub last : ℕ
  pub opening : List ConnInfo
  pub relays : List Relay
  pub access : List LogLine
  pub service : List LogLine

-- nextConnID.
abbrev pub next_conn_id : ℕ → ℕ
next_conn_id last = (last + 1) % 2 ^ 64

-- The `i`-th request, and the others.
abbrev pub take_at : ℕ → List ConnInfo → Option ConnInfo × List ConnInfo
take_at i [] = (none, [])
take_at zero (c ∷ cs) = (some c, cs)
take_at (suc i) (c ∷ cs) = let rest = take_at i cs in (rest.0, c ∷ rest.1)

-- Read and Write of the `i`-th conn.
unfoldable pub move_at : (LogConn → LogConn) → ℕ → List Relay → List Relay
move_at move i [] = []
move_at move zero (r ∷ rs) = record r { conn = move r.conn } ∷ rs
move_at move (suc i) (r ∷ rs) = r ∷ move_at move i rs

-- A request gets its number when its connInfo is made. Later the `i`-th open request fails, with the
-- result and the error's text, or its relay starts.
pub data Event : Type 0 where
  asks : ConnInfo → Event
  fails : ℕ → DialReport → Text → Text → Event
  starts : ℕ → DialReport → Event
  reads writes : ℕ → ℕ → Option IoError → Event
  closes : ℕ → ℕ → Event

-- The fields that Close adds: `ms` is the time since t0.
abbrev pub end_fields : ℕ → LogConn → LogLine
end_fields ms l =
    (codes "result", str (result_of l.first_err))
    ∷ (codes "ms", num ms)
    ∷ (codes "bytes_up", num l.up)
    ∷ (codes "bytes_down", num l.down)
    ∷ []

abbrev pub start_relay : DialReport → Option ConnInfo → LogBooks → LogBooks
start_relay o none s = s
start_relay o (some c) s = record s {
  relays = record { info = with_dial o c; conn = new_log_conn } ∷ s.relays;
}

module _ (error_text : IoError → Text) where
  unfoldable pub error_lines : ConnInfo → LogLine → Option IoError → List LogLine
  unfolding fields
  error_lines c ends none = []
  error_lines c ends (some e) =
      (fields c ++ (ends ++ (codes "error", str (error_text e)) ∷ [])) ∷ []

  -- logConn.Close of the `i`-th conn: the conns, and what it adds to the two logs.
  unfoldable pub close_at : ℕ → ℕ → List Relay → List Relay × (List LogLine × List LogLine)
  unfolding fields error_lines
  close_at ms i [] = ([], ([], []))
  close_at ms zero (r ∷ rs) = if r.conn.closed then (r ∷ rs, ([], [])) else (
    record r { conn = close r.conn } ∷ rs,
    (
      (fields r.info ++ end_fields ms r.conn) ∷ [],
      error_lines r.info (end_fields ms r.conn) r.conn.first_err,
    ),
  )
  close_at ms (suc i) (r ∷ rs) = let rest = close_at ms i rs in (r ∷ rest.0, rest.1)

-- The lines of a logger that is on, or of one that is off.
abbrev pub add_lines : Bool → List LogLine → List LogLine → List LogLine
add_lines on lines log = if on then lines ++ log else log

-- `access` is ACCESS_LOG, and `warns` whether LOG_LEVEL lets a warning through.
module _ (access warns : Bool) where
  -- logFailure.
  unfoldable pub log_failure : Text → Text → ConnInfo → LogBooks → LogBooks
  unfolding fields
  log_failure result error c s = record s {
    access = add_lines access ((fields c ++ (codes "result", str result) ∷ []) ∷ []) s.access;
    service =
        add_lines warns
          ((fields c ++ (codes "result", str result) ∷ (codes "error", str error) ∷ []) ∷ [])
          s.service;
  }

  abbrev pub fail_request : DialReport → Text → Text → Option ConnInfo → LogBooks → LogBooks
  fail_request o result error none s = s
  fail_request o result error (some c) s = log_failure result error (with_dial o c) s

module _ (access warns : Bool) (error_text : IoError → Text) where
  unfoldable pub step : LogBooks → Event → LogBooks
  unfolding log_failure close_at move_at
  step s (asks c) =
      let id = next_conn_id s.last in
      record s { last = id; opening = record c { id = id } ∷ s.opening }
  step s (fails i o result error) =
      let (c, rest) = take_at i s.opening in
      fail_request access warns o result error c (record s { opening = rest })
  step s (starts i o) =
      let (c, rest) = take_at i s.opening in start_relay o c (record s { opening = rest })
  step s (reads i n e) = record s { relays = move_at (read n e) i s.relays }
  step s (writes i n e) = record s { relays = move_at (write n e) i s.relays }
  step s (closes i ms) =
      let (relays, logs) = close_at error_text ms i s.relays in
      record s {
        relays = relays;
        access = add_lines access logs.0 s.access;
        service = add_lines warns logs.1 s.service;
      }

  unfoldable pub run : LogBooks → List Event → LogBooks
  unfolding step
  run s [] = s
  run s (e ∷ es) = run (step s e) es

abbrev pub new_books : LogBooks
new_books = record { last = 0; opening = []; relays = []; access = []; service = [] }
