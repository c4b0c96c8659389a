-- ===== src/Socks/Counting.antt =====
-- socks5.go: what holds of the connections in every state of the server.
use ssh_gate.Prelude.{
  ℕ, ◌+◌, ◌-◌, ◌≤◌, ◌<◌, ◌≡◌, ◌≢◌, inl, inr, refl, sym, ap, subst, ◌∙◌, ◌==◌, Bool, true, false,
  List, some, Text, text_eq, text_beq, text_beq_ne, text_beq_iff, lookup, insert, delete,
  lookup-insert, lookup-delete, Bool-cases, arith,
}
use mathlib.Core.Path.{fun_ext}
use ssh_gate.Socks.Relays.{
  is_relay, relays, same_index, relays-put, relays_some, not_relay, relays_added,
}
use ssh_gate.Socks.Serving.{
  Stage, handshaking, opening, relaying, relayed, over, Client, Socks5Server, new_server, put,
  set_stage, accept_conn, request, opened, close_relay, serve_over, IsLive, IsFresh, HasOwnSources,
  accepts, requests, opens, closes, ends, shuts, Reaches, here, then_step,
}

-- The stages at which a socket has the deadline of the handshake.
abbrev pub is_timed : Stage → Bool
is_timed handshaking = true
is_timed stage = false

pub record IsServing (s : Socks5Server) : Type 0 where
  pub counted : s.count ≡ relays s.next s.clients
  pub kept : (i : ℕ) → IsLive s i → lookup (s.clients i).src s.handshakes ≡ some i
  pub timed : (i : ℕ) → IsLive s i → (s.clients i).timed ≡ is_timed (s.clients i).stage

start-IsServing : IsServing new_server
unfolding relays
start-IsServing = record {
  counted = refl;
  kept = λ i live. absurd (live.1 refl);
  timed = λ i live. absurd (live.1 refl);
}

lookup_other :
    (src other : Text) (n i : ℕ) (m : List (Text × ℕ))
    → src ≢ other
    → lookup other m ≡ some i
    → lookup other (insert src n m) ≡ some i
lookup_other src other n i m h kept =
    let apart = text_beq_ne src other h in lookup-insert src other n m ∙ rw apart kept

accept_conn-IsServing :
    (src : Text) (s : Socks5Server) → IsFresh src s → IsServing s → IsServing (accept_conn src s)
accept_conn-IsServing src s fresh v =
    let c : Client = record { src = src; stage = handshaking; timed = true } in
    record {
      counted = relays_added s.next s.clients c refl s.count v.counted;
      kept = λ i (known, running). elim (Bool-cases (s.next == i)) [
        | inl e ↦
            let known_src : text_beq src src ≡ true = (text_beq_iff src src).1 refl in
            rw (e, known_src) (ap some (same_index s.next i e))
        | inr e ↦
            let live : IsLive s i = (ground arith, ground arith) in
            let same : ((accept_conn src s).clients i).src ≡ (s.clients i).src = rw e refl in
            subst (λ key. lookup key (insert src s.next s.handshakes) ≡ some i) (sym same)
              (lookup_other src (s.clients i).src s.next i s.handshakes
                (λ clash. fresh i live (sym clash)) (v.kept i live))
      ];
      timed = λ i live. elim (Bool-cases (s.next == i)) [
        | inl e ↦ rw e refl
        | inr e ↦ rw e (v.timed i (ground arith, ground arith))
      ];
    }

-- A live connection moves on, within its stages.
put-IsServing :
    (i : ℕ) (c : Client) (n : ℕ) (s : Socks5Server)
    → IsLive s i
    → c.src ≡ (s.clients i).src
    → c.timed ≡ is_timed c.stage
    → n + is_relay (s.clients i).stage ≡ s.count + is_relay c.stage
    → IsServing s
    → IsServing (record s { clients = put s.clients i c; count = n })
put-IsServing i c n s live same fits adds v = record {
  counted = omega (arith, adds, v.counted, relays-put s.next i s.clients c live.0);
  kept = λ j (known, running). elim (Bool-cases (i == j)) [
    | inl e ↦ rw (e, same) (v.kept i live ∙ ap some (same_index i j e))
    | inr e ↦ rw e (v.kept j (known, ground arith))
  ];
  timed = λ j (known, running). elim (Bool-cases (i == j)) [
    | inl e ↦ rw e fits
    | inr e ↦ rw e (v.timed j (known, ground arith))
  ];
}

-- The first two writes to a client are one.
put-put :
    (clients : ℕ → Client) (i : ℕ) (c c' : Client) → put (put clients i c) i c' ≡ put clients i c'
put-put clients i c c' = fun_ext (λ j. ground arith)

request-IsServing :
    (i : ℕ) (s : Socks5Server)
    → i < s.next
    → (s.clients i).stage ≡ handshaking
    → IsServing s
    → IsServing (request i s)
unfolding request
request-IsServing i s known at v =
    let own = v.kept i (known, λ e. cc) in
    let here : (i == i) ≡ true = ground arith in
    rw (own, put-put, here)
      (put-IsServing i (record { src = (s.clients i).src; stage = opening; timed = false }) s.count
        s (known, λ e. cc) refl refl (rw at refl) v)

opened-IsServing :
    (i : ℕ) (s : Socks5Server)
    → i < s.next
    → (s.clients i).stage ≡ opening
    → IsServing s
    → IsServing (opened i s)
opened-IsServing i s known at v =
    let live : IsLive s i = (known, λ e. cc) in
    put-IsServing i (record (s.clients i) { stage = relaying }) (s.count + 1) s live refl
      (v.timed i live ∙ rw at refl) (rw at (omega arith)) v

close_relay-IsServing :
    (i : ℕ) (s : Socks5Server)
    → i < s.next
    → (s.clients i).stage ≡ relaying
    → IsServing s
    → (t : Socks5Server) × (close_relay i s ≡ some t) × IsServing t × (t.count + 1 ≡ s.count)
close_relay-IsServing i s known at v =
    let live : IsLive s i = (known, λ e. cc) in
    let more : 1 ≤ s.count = omega (arith, v.counted, relays_some s.next i s.clients known at) in
    let positive : (s.count == 0) ≡ false = ground arith in
    (
      record (set_stage relayed i s) { count = s.count - 1 },
      rw positive refl,
      put-IsServing i (record (s.clients i) { stage = relayed }) (s.count - 1) s live refl
          (v.timed i live ∙ rw at refl) (rw at (omega arith)) v,
      omega arith,
    )

same_some : (i j : ℕ) → some i ≡ some j → i ≡ j
same_some i j e = cc

same_server : (s t : Socks5Server) → some s ≡ some t → s ≡ t
same_server s t e = cc

differ : (i j : ℕ) → (i == j) ≡ false → i ≢ j
differ i j e same = ground arith

serve_over-IsServing :
    (i : ℕ) (s : Socks5Server)
    → IsLive s i
    → (s.clients i).stage ≢ relaying
    → IsServing s
    → IsServing (serve_over i s)
serve_over-IsServing i s live idle v =
    let gone = not_relay (s.clients i).stage idle in
    let c : Client = record (s.clients i) { stage = over } in
    record {
      counted = omega (arith, gone, v.counted, relays-put s.next i s.clients c live.0);
      kept = λ j (known, running). elim (Bool-cases (i == j)) [
        | inl e ↦ absurd (running (rw e refl))
        | inr e ↦
            let still : IsLive s j = (known, ground arith) in
            let same : ((serve_over i s).clients j).src ≡ (s.clients j).src = rw e refl in
            let apart : (s.clients i).src ≢ (s.clients j).src = λ clash. absurd (
              differ i j e (
                same_some i j (
                  sym (v.kept i live)
                  ∙ ap (λ key. lookup key s.handshakes) clash
                  ∙ v.kept j still))) in
            subst (λ key. lookup key (delete (s.clients i).src s.handshakes) ≡ some j) (sym same)
              (lookup-delete (s.clients i).src (s.clients j).src s.handshakes
                ∙ rw (text_beq_ne _ _ apart) (v.kept j still))
      ];
      timed = λ j (known, running). elim (Bool-cases (i == j)) [
        | inl e ↦ absurd (running (rw e refl))
        | inr e ↦ rw e (v.timed j (known, ground arith))
      ];
    }

-- In every state that the server reaches from connections each of which has its own source among
-- the live ones, whatever the order in which they are accepted, ask, connect, fail, close and end: the
-- count that Shutdown waits for is the number of open relays, a connection that has not asked yet has
-- the deadline of the handshake, any other live one has not, and each finds itself in the map under its
-- source.
pub Reaches-IsServing :
    (s : Socks5Server) (r : Reaches new_server s) → HasOwnSources r → IsServing s
Reaches-IsServing _ here own = start-IsServing
Reaches-IsServing _ (then_step s _ r (accepts src)) own =
    accept_conn-IsServing src s own.1 (Reaches-IsServing s r own.0)
Reaches-IsServing _ (then_step s _ r (requests i known at)) own =
    request-IsServing i s known at (Reaches-IsServing s r own)
Reaches-IsServing _ (then_step s _ r (opens i known at)) own =
    opened-IsServing i s known at (Reaches-IsServing s r own)
Reaches-IsServing _ (then_step s _ r (closes i t known at e)) own =
    let (u, closed, fine, fewer) = close_relay-IsServing i s known at (Reaches-IsServing s r own) in
    subst IsServing (same_server u t (sym closed ∙ e)) fine
Reaches-IsServing _ (then_step s _ r (ends i live idle)) own =
    serve_over-IsServing i s live idle (Reaches-IsServing s r own)
Reaches-IsServing _ (then_step s _ r shuts) own =
    let v = Reaches-IsServing s r own in
    record { counted = v.counted; kept = v.kept; timed = v.timed }
