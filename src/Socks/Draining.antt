-- ===== src/Socks/Draining.antt =====
-- socks5.go: the count of relays, whatever the sources of the connections.
use ssh_gate.Prelude.{
  ℕ, zero, suc, ◌∙◌, ◌+◌, ◌-◌, ◌≤◌, ◌<◌, ◌≡◌, ◌≢◌, inl, inr, refl, sym, subst, ◌==◌, true, false,
  Option, none, some, text_eq, lookup, Bool-cases, arith,
}
use ssh_gate.Socks.Relays.{
  is_relay, relays, relays-put, relays_some, not_relay, relays_added, same_index,
}
use ssh_gate.Socks.Serving.{
  handshaking, opening, relaying, relayed, over, Client, Socks5Server, new_server, put, set_stage,
  lift_deadline, request, close_relay, Step, accepts, requests, opens, closes, ends, shuts, Reaches,
  here, then_step,
}

abbrev IsCounted : Socks5Server → Type 0
IsCounted s = s.count ≡ relays s.next s.clients

-- A connection that keeps its stage.
relays-put_same :
    (n k : ℕ) (clients : ℕ → Client) (c : Client)
    → c.stage ≡ (clients k).stage
    → relays n (put clients k c) ≡ relays n clients
unfolding relays
relays-put_same zero k clients c h = refl
relays-put_same (suc n) k clients c h = elim (Bool-cases (k == n)) [
  | inl e ↦ let same = same_index k n e in rw (e, relays-put_same n k clients c h, h, same) refl
  | inr e ↦ rw (e, relays-put_same n k clients c h) refl
]

lift_deadline-IsCounted :
    (o : Option ℕ) (s : Socks5Server) → IsCounted s → IsCounted (lift_deadline o s)
lift_deadline-IsCounted none s v = v
lift_deadline-IsCounted (some k) s v =
    v ∙ sym (relays-put_same s.next k s.clients (record (s.clients k) { timed = false }) refl)

lift_deadline-stage :
    (o : Option ℕ) (s : Socks5Server) (i : ℕ)
    → ((lift_deadline o s).clients i).stage ≡ (s.clients i).stage
lift_deadline-stage none s i = refl
lift_deadline-stage (some k) s i = elim (Bool-cases (k == i)) [
  | inl e ↦ rw (e, same_index k i e) refl
  | inr e ↦ rw e refl
]

lift_deadline-next : (o : Option ℕ) (s : Socks5Server) → (lift_deadline o s).next ≡ s.next
lift_deadline-next none s = refl
lift_deadline-next (some k) s = refl

-- A connection moves on, and the count with it.
put-IsCounted :
    (i : ℕ) (c : Client) (n : ℕ) (s : Socks5Server)
    → i < s.next
    → n + is_relay (s.clients i).stage ≡ s.count + is_relay c.stage
    → IsCounted s
    → IsCounted (record s { clients = put s.clients i c; count = n })
put-IsCounted i c n s known adds v = omega (arith, adds, v, relays-put s.next i s.clients c known)

request-IsCounted :
    (i : ℕ) (s : Socks5Server)
    → i < s.next
    → (s.clients i).stage ≡ handshaking
    → IsCounted s
    → IsCounted (request i s)
unfolding request
request-IsCounted i s known at v =
    let o = lookup (s.clients i).src s.handshakes in
    let lifted = lift_deadline o s in
    let idle : is_relay (lifted.clients i).stage ≡ 0 = rw (lift_deadline-stage o s i, at) refl in
    put-IsCounted i (record (lifted.clients i) { stage = opening }) lifted.count lifted
      (omega (arith, known, lift_deadline-next o s)) (omega (arith, idle))
      (lift_deadline-IsCounted o s v)

close_relay-IsCounted :
    (i : ℕ) (s : Socks5Server)
    → i < s.next
    → (s.clients i).stage ≡ relaying
    → IsCounted s
    → (t : Socks5Server) × (close_relay i s ≡ some t) × IsCounted t × (t.count + 1 ≡ s.count)
close_relay-IsCounted i s known at v =
    let more : 1 ≤ s.count = omega (arith, v, relays_some s.next i s.clients known at) in
    let positive : (s.count == 0) ≡ false = ground arith in
    let open_one : is_relay (s.clients i).stage ≡ 1 = rw at refl in
    (
      record (set_stage relayed i s) { count = s.count - 1 },
      rw positive refl,
      put-IsCounted i (record (s.clients i) { stage = relayed }) (s.count - 1) s known
          (omega (arith, open_one, more)) v,
      omega arith,
    )

same_server : (s t : Socks5Server) → some s ≡ some t → s ≡ t
same_server s t e = cc

Step-IsCounted : (s t : Socks5Server) → Step s t → IsCounted s → IsCounted t
Step-IsCounted s _ (accepts src) v =
    relays_added s.next s.clients (record { src = src; stage = handshaking; timed = true }) refl
      s.count v
Step-IsCounted s _ (requests i known at) v = request-IsCounted i s known at v
Step-IsCounted s _ (opens i known at) v =
    let idle : is_relay (s.clients i).stage ≡ 0 = rw at refl in
    put-IsCounted i (record (s.clients i) { stage = relaying }) (s.count + 1) s known
      (omega (arith, idle)) v
Step-IsCounted s _ (closes i t known at e) v =
    let (u, closed, fine, fewer) = close_relay-IsCounted i s known at v in
    subst (λ x. IsCounted x) (same_server u t (sym closed ∙ e)) fine
Step-IsCounted s _ (ends i live idle) v =
    put-IsCounted i (record (s.clients i) { stage = over }) s.count s live.0
      (omega (arith, not_relay (s.clients i).stage idle)) v
Step-IsCounted s _ shuts v = v

Reaches-IsCounted : (s : Socks5Server) → Reaches new_server s → IsCounted s
unfolding relays
Reaches-IsCounted _ here = refl
Reaches-IsCounted _ (then_step s t r step) = Step-IsCounted s t step (Reaches-IsCounted s r)

-- In every state that the server reaches, also from connections that share a source: the close of an
-- open relay takes one off the count, and never panics, and the count that Shutdown waits for is zero
-- only if no relay is open.
pub Reaches-close_relay :
    (s : Socks5Server)
    → Reaches new_server s
    → ((i : ℕ)
        → i < s.next
        → (s.clients i).stage ≡ relaying
        → (t : Socks5Server) × (close_relay i s ≡ some t) × (t.count + 1 ≡ s.count))
      × (s.count ≡ 0 → (i : ℕ) → i < s.next → (s.clients i).stage ≢ relaying)
Reaches-close_relay s r =
    let v = Reaches-IsCounted s r in
    (
      (λ i known at.
          let (t, closed, fine, fewer) = close_relay-IsCounted i s known at v in
          (t, closed, fewer)),
      (λ idle i known at. absurd (omega (arith, idle, v, relays_some s.next i s.clients known at))),
    )
