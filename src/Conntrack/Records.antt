-- ===== src/Conntrack/Records.antt =====
-- conntrack.go: the data of the connection tracker. Times are nanoseconds; a `*trackedConn` is the
-- number under which the connection was registered.
use ssh_gate.Prelude.{ℕ, Text, List, Option, none, codes}

pub data ConnState : Type 0 where
  dialing active closed failed : ConnState

pub record ConnMeta : Type 0 where
  pub proto : Text
  pub src : Text
  pub host : Text
  pub dst_ip : Text

pub record ConnRecord : Type 0 where
  pub id : ℕ
  pub proto : Text
  pub src : Text
  pub host : Text
  pub dst_ip : Text
  pub port : ℕ
  pub status : ConnState
  pub started_at : ℕ
  pub closed_at : ℕ
  pub bytes_up : ℕ
  pub bytes_down : ℕ
  pub reason : Text
  pub live : Option ℕ

pub record ConnTracker : Type 0 where
  pub active : List (ℕ × ConnRecord)
  pub ring : List ConnRecord
  pub ring_head : ℕ
  pub ring_count : ℕ
  pub capacity : ℕ
  pub max_age : ℕ
  pub next_id : ℕ

-- The zero value that `make([]connRecord, capacity)` fills the ring with.
abbrev pub zero_record : ConnRecord
zero_record = record {
  id = 0;
  proto = codes "";
  src = codes "";
  host = codes "";
  dst_ip = codes "";
  port = 0;
  status = ConnState.closed;
  started_at = 0;
  closed_at = 0;
  bytes_up = 0;
  bytes_down = 0;
  reason = codes "";
  live = none;
}
