-- ===== src/Process/Shutdown.antt =====
-- main.go: shutdownServers, and what main does behind the signal. Times are from one clock; closing
-- sockets takes none.
use ssh_gate.Prelude.{
  ℕ, ◌+◌, ◌*◌, ◌≤◌, ◌≡◌, refl, ltb, Bool, true, false, List, [], ◌∷◌, ◌++◌, Option, none, some, All,
  Text, codes, if◌then◌else◌, inl, inr, Bool-cases, Option-cases, arith,
}
use ssh_gate.Socks.Drain.{ShutdownResult, drained, shutdown, new_server, EndsBy, await_iff}
use ssh_gate.Tunnel.Monitor.{second, SshDialer, stop}
use ssh_gate.Service.Notify.{SdStatus, Call, stops, apply, message, run, run_stopped, IsUpdate}

-- shutdownDrainTimeout.
abbrev pub shutdown_drain_timeout : ℕ
shutdown_drain_timeout = 5 * second

-- A server at its shutdown: whether its socket fails to close, when its last relay ends, the time
-- that the scheduler takes to run the goroutine that closes `done`, and the choice of select.
pub record Draining : Type 0 where
  pub name : Text
  pub fails : Bool
  pub ended : Option ℕ
  pub lag : ℕ
  pub picks_done : Bool

abbrev pub later : ℕ → ℕ → ℕ
later a b = if ltb a b then b else a

-- When `done` is closed, for a call at `now`.
abbrev pub done_at : ℕ → Draining → Option ℕ
done_at now s = elim s.ended [ none ↦ none | some ended ↦ some (later now ended + s.lag) ]

-- When the select is left.
abbrev pub left_at : Option ℕ → ℕ → ℕ
left_at none deadline = deadline
left_at (some closed) deadline = if ltb closed deadline then closed else deadline

-- One call of Shutdown: its result, and when it returns.
unfoldable pub shut_one : ℕ → ℕ → Draining → ShutdownResult × ℕ
unfolding shutdown
shut_one deadline now s =
    let limit = later now deadline in
    (
      (shutdown s.fails (done_at now s) limit s.picks_done new_server).1,
      if s.fails then now else left_at (done_at now s) limit,
    )

-- shutdownServers.
unfoldable pub shutdown_servers : ℕ → ℕ → List Draining → List ShutdownResult × ℕ
unfolding shut_one
shutdown_servers deadline now [] = ([], now)
shutdown_servers deadline now (s ∷ servers) =
    let (result, next) = shut_one deadline now s in
    let (results, end) = shutdown_servers deadline next servers in (result ∷ results, end)

-- Behind the signal, with a tunnel: the status, the servers, whose drain has its own deadline, and at
-- last the dialer.
unfoldable pub leave :
    ℕ → List Draining → SdStatus → SshDialer → SdStatus × (SshDialer × (List ShutdownResult × ℕ))
unfolding shutdown_servers
leave now servers status dialer = (
  apply status (stops (codes "Stopping, draining connections")),
  (stop dialer, shutdown_servers (now + shutdown_drain_timeout) now servers),
)

-- What a server reports, for its relays.
abbrev pub IsReport : ℕ → Draining → ShutdownResult → Type 0
IsReport deadline s result =
    (result ≡ drained → EndsBy s.ended deadline)
    × (s.fails ≡ false → s.lag ≡ 0 → EndsBy s.ended deadline → result ≡ drained)

abbrev pub AreReports : ℕ → List Draining → List ShutdownResult → Type 0
AreReports deadline [] [] = Unit
AreReports deadline (s ∷ servers) (r ∷ results) =
    IsReport deadline s r × AreReports deadline servers results
AreReports deadline servers results = ⊥

left_at_by : (closed : Option ℕ) (deadline : ℕ) → left_at closed deadline ≤ deadline
left_at_by none deadline = omega arith
left_at_by (some closed) deadline = ground arith

later_eq : (now deadline : ℕ) → now ≤ deadline → later now deadline ≡ deadline
later_eq now deadline h = ground arith

left_at_from :
    (now deadline : ℕ) (s : Draining) → now ≤ deadline → now ≤ left_at (done_at now s) deadline
left_at_from now deadline s h = elim (Option-cases s.ended) [
  | inl e ↦ rw e h
  | inr (ended, e) ↦ rw e (ground arith)
]

shut_one_by :
    (deadline now : ℕ) (s : Draining)
    → now ≤ deadline
    → ((shut_one deadline now s).1 ≤ deadline) × (now ≤ (shut_one deadline now s).1)
unfolding shut_one
shut_one_by deadline now s h = elim (Bool-cases s.fails) [
  | inl e ↦ rw (e, shut_one) (h, omega arith)
  | inr e ↦
      rw (e, later_eq now deadline h, shut_one)
        (left_at_by (done_at now s) deadline, left_at_from now deadline s h)
]

-- `done` is closed by the deadline, exactly if the last relay has ended and the goroutine has run.
done_by :
    (now deadline : ℕ) (s : Draining)
    → now ≤ deadline
    → (EndsBy (done_at now s) deadline → EndsBy s.ended deadline)
      × (s.lag ≡ 0 → EndsBy s.ended deadline → EndsBy (done_at now s) deadline)
done_by now deadline s h = elim (Option-cases s.ended) [
  | inl e ↦ rw e ((λ k. k), (λ z k. k))
  | inr (ended, e) ↦ rw e ((λ k. ground arith), (λ z k. ground arith))
]

shut_one-IsReport :
    (deadline now : ℕ) (s : Draining)
    → now ≤ deadline
    → IsReport deadline s (shut_one deadline now s).0
unfolding shut_one shutdown
shut_one-IsReport deadline now s h =
    let (into, from) = await_iff (done_at now s) deadline s.picks_done in
    let (back, forth) = done_by now deadline s h in
    elim (Bool-cases s.fails) [
      | inl e ↦
          rw (e, shut_one, shutdown)
            ((λ k. absurd (ground arith)), (λ f z k. absurd (ground arith)))
      | inr e ↦
          rw (e, later_eq now deadline h, shut_one, shutdown)
            ((λ k. back (into k)), (λ f z k. from (forth z k)))
    ]

-- The process ends by the deadline that all servers share. Each server is shut down in its turn and
-- has its own report: one that reports success has no relay left by the deadline, and one whose relays
-- have ended by it reports success wherever it stands, when the goroutine that tells so runs at once.
pub shutdown_servers_by :
    (deadline now : ℕ) (servers : List Draining)
    → now ≤ deadline
    → ((shutdown_servers deadline now servers).1 ≤ deadline)
      × AreReports deadline servers (shutdown_servers deadline now servers).0
unfolding shutdown_servers
shutdown_servers_by deadline now [] h = (h, tt)
shutdown_servers_by deadline now (s ∷ servers) h =
    let (soon, on) = shut_one_by deadline now s h in
    let (end, reports) = shutdown_servers_by deadline (shut_one deadline now s).1 servers soon in
    (end, (shut_one-IsReport deadline now s h, reports))

-- Behind the signal the process is through within five seconds, whatever its relays do; the dialer is
-- told to stop and its client is closed, and no status that the tunnel reports meanwhile takes the
-- place of the announced stop.
pub leave_through :
    (now : ℕ) (servers : List Draining) (status : SdStatus) (dialer : SshDialer) (late : List Call)
    → All IsUpdate late
    → let r = leave now servers status dialer in
      ((run r.0 late).sent
        ≡ status.sent ++ message (stops (codes "Stopping, draining connections")) ∷ [])
      × (r.1.0.done ≡ true)
      × ((c : ℕ) → dialer.client ≡ some c → (more : List ℕ) × (r.1.0.closed ≡ c ∷ more))
      × (r.1.1.1 ≤ now + shutdown_drain_timeout)
unfolding leave stop apply
leave_through now servers status dialer late updates = (
  run_stopped (apply status (stops (codes "Stopping, draining connections"))) late updates refl,
  refl,
  (λ c e. (dialer.closed, rw e refl)),
  (shutdown_servers_by (now + shutdown_drain_timeout) now servers (omega arith)).0,
)
