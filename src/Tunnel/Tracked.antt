-- ===== src/Tunnel/Tracked.antt =====
-- dialer.go: what a dial through the tunnel leaves in the tracker.
use ssh_gate.Prelude.{
  ℕ, ◌+◌, ◌%◌, ◌^◌, ◌≤◌, ◌≡◌, refl, ap, ◌∙◌, ◌⊎◌, inl, inr, false, ==_iff, List, Option, none, some,
  Text, lookup, nat_eq, lookup-delete, lookup-insert, Option-cases,
}
use ssh_gate.Syntax.Decimal.{pos, itoa, max_int, atoi-itoa, atoi_value_lem}
use ssh_gate.Syntax.HostPort.{join_host_port}
use ssh_gate.Syntax.RoundTrip.{NoBrackets, itoa-IsPlain, split_host_port-join_host_port}
use ssh_gate.Conntrack.Records.{ConnRecord, ConnTracker, active}
use ssh_gate.Conntrack.Tracker.{begin, done, fail, retire}
use ssh_gate.Conntrack.Lifecycle
use ssh_gate.Conntrack.History.{Call}
use ssh_gate.Tunnel.Dials.{
  dial_addr, parse_dial_addr, DialEnd, connected, failed, dial_client, DialContext, finish_dial,
  track_dial,
}

-- The address that the opener dials is taken apart into its host and its port.
pub parse_dial_addr-join_host_port :
    (host : Text) (port : ℕ)
    → NoBrackets host
    → port ≤ max_int
    → parse_dial_addr (join_host_port host (itoa port)) ≡ (host, pos port)
unfolding parse_dial_addr
parse_dial_addr-join_host_port host port plain fits =
    ap (dial_addr (join_host_port host (itoa port)))
      (split_host_port-join_host_port host (itoa port) plain (itoa-IsPlain port))
    ∙ ap (λ n. (host, n)) (atoi_value_lem (itoa port) (pos port) (atoi-itoa port fits))

-- Nothing is left dialing under the id: the record is gone, or it is active with its connection.
abbrev pub IsSettled : ℕ → ConnTracker → Type 0
IsSettled id t =
    (lookup id t.active ≡ none)
    ⊎ ((rec : ConnRecord) × (lookup id t.active ≡ some rec)
        × (rec.status ≡ active)
        × (rec.live ≡ some id))

fail-IsSettled :
    (at clock id : ℕ) (text : Text) (t : ConnTracker)
    → lookup id (fail at clock id text t).active ≡ none
unfolding fail retire
fail-IsSettled at clock id text t = elim (Option-cases (lookup id t.active)) [
  | inl e ↦ rw (e, fail) e
  | inr (rec, e) ↦
      rw (e, fail, retire)
        (ap (lookup id) (Lifecycle.active-push_ring clock _ _).0
          ∙ rw (lookup-delete id id t.active, (==_iff id id).1 refl))
]

done-IsSettled : (id c : ℕ) (t : ConnTracker) → IsSettled id (done id (some c) t).0
unfolding done
done-IsSettled id c t = elim (Option-cases (lookup id t.active)) [
  | inl e ↦ inl (rw (e, done) e)
  | inr (rec, e) ↦
      let now : ConnRecord = record rec { status = active; live = some id } in
      rw (e, done)
        (inr (now, rw (lookup-insert id id now t.active, (==_iff id id).1 refl), refl, refl))
]

finish_dial-IsSettled :
    (at clock id : ℕ) (end : DialEnd) (t : ConnTracker)
    → IsSettled id (finish_dial at clock id end t).0
unfolding finish_dial
finish_dial-IsSettled at clock id (failed text) t = inl (fail-IsSettled at clock id text t)
finish_dial-IsSettled at clock id (connected c) t = done-IsSettled id c t

-- However a dial through the tunnel ends, and whatever the other connections do to the tracker
-- meanwhile, the record that it began under the next id is not left dialing: it is out of the active
-- connections, or active with its connection.
pub track_dial-IsSettled :
    (canonical : Text → Option Text) (client : Option ℕ) (end : DialEnd) (start at clock : ℕ)
    (during : List Call) (ctx : DialContext) (addr : Text) (t : ConnTracker)
    → ctx.no_track ≡ false
    → IsSettled
        ((t.next_id + 1) % 2 ^ 64)
        (track_dial canonical client end start at clock during ctx addr t).0
unfolding track_dial begin
track_dial-IsSettled canonical client end start at clock during ctx addr t tracked =
    rw tracked
      (finish_dial-IsSettled at clock ((t.next_id + 1) % 2 ^ 64) (dial_client client addr end) _)
