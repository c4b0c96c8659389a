-- ===== src/Socks/Serving.antt =====
-- socks5.go: the accept loop, serveConn and the dial hook on the connections of one server, as steps.
-- A connection is its number, in the order of acceptance; its goroutine is at a stage. What the
-- library reads and writes in between is not seen here.
use ssh_gate.Prelude.{
  ℕ, suc, ◌+◌, ◌-◌, ◌<◌, ◌≡◌, ◌≢◌, ◌==◌, Bool, true, false, List, [], Option, none, some, Text,
  text_eq, lookup, insert, delete, if◌then◌else◌,
}

pub data Stage : Type 0 where
  -- The greeting and the request; the resolve and the dial; the relay; after its close.
  handshaking opening relaying relayed : Stage
  -- serveConn has returned.
  over : Stage

pub record Client : Type 0 where
  pub src : Text
  pub stage : Stage
  -- A deadline is set on the client's socket.
  pub timed : Bool

-- SOCKS5Server: the WaitGroup `conns` is its count, `handshakes` the map from sources.
pub record Socks5Server : Type 0 where
  pub clients : ℕ → Client
  pub next : ℕ
  pub handshakes : List (Text × ℕ)
  pub count : ℕ
  pub shut : Bool

abbrev pub nobody : Client
nobody = record { src = []; stage = over; timed = false }

abbrev pub new_server : Socks5Server
new_server = record { clients = λ i. nobody; next = 0; handshakes = []; count = 0; shut = false }

abbrev pub put : (ℕ → Client) → ℕ → Client → ℕ → Client
put clients i c j = if i == j then c else clients j

abbrev pub set_stage : Stage → ℕ → Socks5Server → Socks5Server
set_stage stage i s = record s {
  clients = put s.clients i (record (s.clients i) { stage = stage });
}

-- The accept loop with the head of serveConn: the deadline, and the entry of the map.
abbrev pub accept_conn : Text → Socks5Server → Socks5Server
accept_conn src s = record s {
  clients = put s.clients s.next (record { src = src; stage = handshaking; timed = true });
  next = suc s.next;
  handshakes = insert src s.next s.handshakes;
}

-- The head of the dial hook: it lifts the deadline of the connection that it finds in the map.
abbrev pub lift_deadline : Option ℕ → Socks5Server → Socks5Server
lift_deadline none s = s
lift_deadline (some k) s = record s {
  clients = put s.clients k (record (s.clients k) { timed = false });
}

unfoldable pub request : ℕ → Socks5Server → Socks5Server
request i s = set_stage opening i (lift_deadline (lookup (s.clients i).src s.handshakes) s)

-- conns.Add.
abbrev pub opened : ℕ → Socks5Server → Socks5Server
opened i s = record (set_stage relaying i s) { count = s.count + 1 }

-- onClose, on the first Close of the logConn. A counter below zero is a panic.
abbrev pub close_relay : ℕ → Socks5Server → Option Socks5Server
close_relay i s =
    if s.count == 0 then none else some (record (set_stage relayed i s) { count = s.count - 1 })

-- serveConn returns: the deferred Delete.
abbrev pub serve_over : ℕ → Socks5Server → Socks5Server
serve_over i s = record (set_stage over i s) { handshakes = delete (s.clients i).src s.handshakes }

-- The connections that serveConn still serves.
abbrev pub IsLive : Socks5Server → ℕ → Type 0
IsLive s i = (i < s.next) × ((s.clients i).stage ≢ over)

-- What can happen, in any order; a connection that Accept returned just before the listener was closed
-- is served behind the shutdown. The library closes the upstream of a relay before ServeConn returns. On a wildcard
-- listener two live connections may have one source, towards different local addresses.
pub data Step (s : Socks5Server) : Socks5Server → Type 0 where
  accepts : (src : Text) → Step s (accept_conn src s)
  requests : (i : ℕ) → i < s.next → (s.clients i).stage ≡ handshaking → Step s (request i s)
  opens : (i : ℕ) → i < s.next → (s.clients i).stage ≡ opening → Step s (opened i s)
  closes :
      (i : ℕ) (t : Socks5Server)
      → i < s.next
      → (s.clients i).stage ≡ relaying
      → close_relay i s ≡ some t
      → Step s t
  -- A handshake or a dial that fails ends without a relay.
  ends : (i : ℕ) → IsLive s i → (s.clients i).stage ≢ relaying → Step s (serve_over i s)
  shuts : Step s (record s { shut = true })

pub data Reaches (start : Socks5Server) : Socks5Server → Type 0 where
  here : Reaches start start
  then_step : (s t : Socks5Server) → Reaches start s → Step s t → Reaches start t

-- No live connection has the source.
abbrev pub IsFresh : Text → Socks5Server → Type 0
IsFresh src s = (i : ℕ) → IsLive s i → (s.clients i).src ≢ src

-- Each connection of the run comes from a source that no live one has. A listener on one address has
-- it so: the kernel tells TCP connections apart by both of their ends.
abbrev pub HasOwnSources : {start s : Socks5Server} → Reaches start s → Type 0
HasOwnSources here = Unit
HasOwnSources (then_step s _ r (accepts src)) = HasOwnSources r × IsFresh src s
HasOwnSources (then_step s _ r (requests i known at)) = HasOwnSources r
HasOwnSources (then_step s _ r (opens i known at)) = HasOwnSources r
HasOwnSources (then_step s _ r (closes i t known at e)) = HasOwnSources r
HasOwnSources (then_step s _ r (ends i live idle)) = HasOwnSources r
HasOwnSources (then_step s _ r shuts) = HasOwnSources r
