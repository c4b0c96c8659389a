-- ===== src/Tunnel/Dials.antt =====
-- dialer.go: trackDial and dial, with the tracker that they share with every other connection, and
-- parseDialAddr; errors.go: the text of a NetworkError.
use ssh_gate.Prelude.{
  ℕ, ◌-◌, ◌^◌, Bool, List, [], ◌++◌, Option, none, some, Text, codes, text_beq, if◌then◌else◌,
}
use ssh_gate.Syntax.Decimal.{ℤ, pos, negsuc, atoi_value}
use ssh_gate.Syntax.HostPort.{split_host_port}
use ssh_gate.Conntrack.Records.{ConnMeta, ConnTracker}
use ssh_gate.Conntrack.Tracker.{begin, done, fail, Wrapped, plain}
use ssh_gate.Conntrack.History.{Call, run}

-- parseDialAddr.
abbrev pub dial_addr : Text → Option (Text × Text) → Text × ℤ
dial_addr addr none = (addr, pos 0)
dial_addr addr (some (host, port)) = (host, atoi_value port)

unfoldable pub parse_dial_addr : Text → Text × ℤ
parse_dial_addr addr = dial_addr addr (split_host_port addr)

-- An int as its bits.
abbrev pub int_bits : ℤ → ℕ
int_bits (pos n) = n
int_bits (negsuc n) = 2 ^ 64 - 1 - n

-- A dial through the tunnel: the number of the connection, or the error's text.
pub data DialEnd : Type 0 where
  connected : ℕ → DialEnd
  failed : Text → DialEnd

-- The text of NewNetworkError.
abbrev pub network_error : Text → Text → Text → Text
network_error operation address err =
    operation ++ (codes " to " ++ (address ++ (codes " failed: " ++ err)))

-- dial, on the current client; `end` is how the client's DialContext ends.
abbrev pub dial_client : Option ℕ → Text → DialEnd → DialEnd
dial_client none addr end = failed (codes "SSH client not connected")
dial_client (some client) addr (connected conn) = connected conn
dial_client (some client) addr (failed err) = failed (network_error (codes "SSH dial") addr err)

-- What the context carries: ctxWithNoTrack and ctxWithConnMeta.
pub record DialContext : Type 0 where
  pub no_track : Bool
  pub meta : Option ConnMeta

-- What trackDial returns: the wrapped connection, or the error's text.
pub data Dialed : Type 0 where
  conn : Wrapped → Dialed
  err : Text → Dialed

abbrev pub untracked : DialEnd → Dialed
untracked (connected c) = conn (plain c)
untracked (failed text) = err text

abbrev pub no_meta : ConnMeta
no_meta = record { proto = []; src = []; host = []; dst_ip = [] }

-- The name that is recorded, and the metadata; `canonical` is netip.ParseAddr with String.
abbrev pub record_host : Option ConnMeta → Text → Text
record_host none dial_host = dial_host
record_host (some meta) dial_host = if text_beq meta.host [] then dial_host else meta.host

abbrev pub with_dst_ip : Option Text → ConnMeta → ConnMeta
with_dst_ip none meta = meta
with_dst_ip (some ip) meta = record meta { dst_ip = ip }

abbrev pub record_meta : (Text → Option Text) → Option ConnMeta → Text → ConnMeta
record_meta canonical none dial_host = no_meta
record_meta canonical (some meta) dial_host = with_dst_ip (canonical dial_host) meta

-- Behind Begin: the calls that the others make during the dial, and then Fail or Done. `at` and
-- `clock` are the times that Fail reads.
unfoldable pub finish_dial : ℕ → ℕ → ℕ → DialEnd → ConnTracker → ConnTracker × Dialed
finish_dial at clock id (failed text) t = (fail at clock id text t, err text)
finish_dial at clock id (connected c) t =
    let (t', wrapped) = done id (some c) t in (t', conn wrapped)

module _ (canonical : Text → Option Text) (client : Option ℕ) (end : DialEnd) (start at clock : ℕ)
    (during : List Call) where
  abbrev pub begin_dial : Option ConnMeta → Text × ℤ → ConnTracker → ConnTracker × ℕ
  begin_dial meta (dial_host, port) t =
      begin start (record_meta canonical meta dial_host) (record_host meta dial_host)
        (int_bits port) t

  -- trackDial with a tracker.
  unfoldable pub track_dial : DialContext → Text → ConnTracker → ConnTracker × Dialed
  unfolding finish_dial
  track_dial ctx addr t =
      if ctx.no_track
      then (run t during, untracked (dial_client client addr end))
      else let (t', id) = begin_dial ctx.meta (parse_dial_addr addr) t in
        finish_dial at clock id (dial_client client addr end) (run t' during)
