-- ===== src/Lib.antt =====
-- ssh-gate: a local HTTP and SOCKS5 proxy that sends connections through an SSH tunnel, or direct,
-- by rules. The settings are read from the environment and checked (Config). A connection comes in
-- through a listener with a connection limit (Listener) and is handled by the HTTP proxy (Http) or the
-- SOCKS5 server (Socks), which ask the opener for the upstream. The opener asks the rule engine for
-- the route of the host (Rules), resolves the host through the DNS cache (Dns), filters and orders the
-- addresses (Net, Opener) and dials them. A tunnel dial goes through the SSH client that the monitor
-- keeps up (Tunnel), and the connection tracker records it (Conntrack). The Web UI shows what the
-- tracker holds (Web), and the journal and the service manager are told how the process fares
-- (Service). The process starts and stops all of it (Process).
--
-- Files and the code that they model:
--   Conntrack   conntrack.go: the tracker's state (Records), the ring buffer (Ring), Begin, Done, Fail,
--               finish, dropStalled (Tracker), List, ActiveByProto, toView (Listing), the wrapped
--               connection (Conn). RingIndex, RingView, Invariant, Lifecycle, History, Pages, Relay: proofs.
--   Listener    listener.go: connLimiter, limitListener, limitedConn (Limit), resilientListener
--               (Backoff), the closes, the log of refusals and what wraps a listener (Closing).
--   Net         Addr: net/netip addresses, prefixes and the tests that the program calls, written out
--               after the package's documentation. Private: isPrivate, dropHostLocal of rules.go.
--   Resolver    the interface between the rules and opener on one side and dns.go on the other: the two
--               resolutions, over a state, with the law that an answer has an address.
--   Rules       rules.go: NewRuleEngine, parseRuleEntry, matches, Decide (Engine).
--   Dns         dns.go: the cache (Cache), one tunnel resolver and DNSStatus (Upstream), lookup with its
--               fallback (Lookup), cachedLookup and the two resolutions (Resolve), the instance of
--               the interface (Service), the DoH answers (Doh), SetDOH, SetTunnelDNS and the errors of
--               dnsServerLookup (Servers), the goroutine of the purge with Start and Stop of rules.go
--               (Purging). Eviction, Bounds, Pauses and Caching hold proofs.
--   Opener      opener.go, routing.go, pickTunnelAddr of rules.go: candidates (Candidates), Open and
--               dialDirectIP (Dialing). Policy and Order hold proofs.
--   Tunnel      dialer.go, status.go: the classification of errors (Status), connectSSH and its host key
--               callback (Connect), the monitor, stop, reconnectDelay (Monitor), trackDial, dial and
--               parseDialAddr (Dials), keepalive on a clock (Keepalive), the socket options (Sockets).
--               Lifecycle and Tracked hold proofs.
--   Storage     utils.go: writeFileAtomic (Write), with its proof (Atomic); keys.go: EnsureSSHKeyPair
--               (Keys), with KeyPairs for the proofs.
--   Syntax      strconv.Atoi and Itoa, net.SplitHostPort and JoinHostPort, written out after the packages'
--               documentation (Decimal, HostPort), with their round trip (RoundTrip).
--   Config      main.go and utils.go: the parsers of a setting (Values) and of a list (Lists), loadConfig
--               in its three stretches (Load). Checks, Sound and Window hold proofs; Settings is an
--               environment for the examples.
--   Http        httpproxy.go: requests, the forwarded head and error responses (Message), handleConn,
--               handleConnect and handleHTTP as the list of their actions, with those of the idle guard in
--               between (Forward), idleGuard (Guard), the accept loop with its WaitGroup (Serving). Rewrite,
--               Framing, Phases, Watched, Handling and Idle hold proofs.
--   Socks       socks5.go: Resolve and the dial callback (Requests), logConn (LogConn), and Shutdown,
--               which httpproxy.go has in the same words (Drain), the accept loop, serveConn and the
--               count of relays as steps (Serving), connIDs, connInfo and the lines of the two logs (Lines).
--               Answers, AccessLog, Relays, Counting, Draining, Collisions, LineCounts and Linked hold proofs.
--   Web         health.go: the allowed hosts and uiGuard (Hosts), with Access for the proofs; webui.go:
--               handleConnections (Connections), with Pages; the probe, the readiness and the status page of
--               health.go (Status), with Totals and AnyOrder, the map of the active connections as a quotient of
--               its orders; the routes and handleUI (Routes), with Guarding; Start, Shutdown and probeLoop
--               (Lifetime).
--   Service     journal.go: journalEntry (Journal), with a reader of the format (Reading); notify.go:
--               sdStatus (Notify), sdNotify's socket and stderrIsJournal of journal_linux.go (Sockets);
--               status.go: the status texts (Texts); setStatus of dialer.go with sdStatus (Reporting);
--               setupLogging of main.go with journalWriter (Logging).
--   Process     main.go: main up to the signal, with configureDNS and startProxies (Startup), with
--               Started and Starting for the proofs; main behind it, with shutdownServers (Shutdown).
--   Prelude     lists, dictionaries, texts and Boolean tests over the native numbers; Samples the
--               parameters of the examples. The module Examples of a part applies its theorems.
--
-- Conventions. A text is the list of its bytes; lower case is that of ASCII. A time or a duration is a
-- number of nanoseconds, and Go's zero time, nil and an absent value are `none`. int64 and uint64 keep
-- their wrap-around where the program's sums can reach it (the ids and byte counters of the tracker,
-- the offset of a page). A map is an association list; where Go ranges over a map, the order is that
-- of the list or an argument, and the theorems hold for any. Every loop is a recursion on a list or
-- on a count that the state holds, so nothing runs out of fuel: the rounds of Accept are a list, and the
-- loop of pruneRing recurs on the number of records. The reader of journal entries has fuel, and any
-- that is above the number of fields is enough; the fuel of keepalive is a number of ticks, and
-- its theorem says how many are enough. A function that reads the clock more than once
-- takes each reading.
--
-- Parameters. net/netip and regexp parsers (Rules.Engine.Parsers), the network dialers of Open, the
-- replies of the DNS servers and of the local resolver, the clock and the state of the tunnel, as an
-- oracle on the number of the reading (Dns.Lookup.World), an HTTP exchange with its decoded body
-- (Dns.Doh.Exchange), and the calls of the SSH library and of the disk in a connect
-- (Tunnel.Connect.Connect). The parsers of addresses and durations (Config.Values.SettingParsers), the
-- request that net/http parses and the outcome of a dial and of the transfer of a body
-- (Http.Forward.Peer), the key formats of package ssh (Storage.Keys.KeyLibrary), what the opener
-- answers a SOCKS5 request, http.StatusText, http.ServeMux with the two rules that its
-- documentation states (Web.Routes.ServeMux), the embedded files, time.Duration.String and
-- path/filepath (Service.Texts.Texts), and what the process finds at its start
-- (Process.Startup.World).
--
-- Not modelled. Concurrency inside one operation: each method of the tracker, and what one flight of
-- the DNS cache does, runs as one step; that concurrent callers share a flight is left to singleflight; timeouts and cancelled contexts are left out. The TCP
-- statistics are a system call and the copy of its result. The SOCKS5 protocol and the parsing of HTTP
-- are libraries; two relays of bytes are one action. The half-closes forward to the inner connection.
-- The encoding of JSON and of the fields of a log line are left to their libraries.
pub mod Prelude
pub mod Net
pub mod Resolver
pub mod Syntax
pub mod Config
pub mod Conntrack
pub mod Listener
pub mod Rules
pub mod Dns
pub mod Opener
pub mod Tunnel
pub mod Storage
pub mod Http
pub mod Socks
pub mod Web
pub mod Service
pub mod Process
pub mod Samples
