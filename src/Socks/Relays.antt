-- ===== src/Socks/Relays.antt =====
-- socks5.go: the number of open relays, as connections come and move on.
use ssh_gate.Prelude.{
  ℕ, zero, suc, ◌+◌, ◌≤◌, ◌<◌, ◌≡◌, ◌≢◌, inl, inr, refl, sym, ◌==◌, true, Bool-cases, arith,
}
use ssh_gate.Socks.Serving.{Stage, handshaking, opening, relaying, relayed, over, Client, put}

-- The relays among the first connections.
abbrev pub is_relay : Stage → ℕ
is_relay relaying = 1
is_relay stage = 0

unfoldable pub relays : ℕ → (ℕ → Client) → ℕ
relays zero clients = 0
relays (suc n) clients = relays n clients + is_relay (clients n).stage

pub relays_above :
    (n i : ℕ) (clients : ℕ → Client) (c : Client)
    → n ≤ i
    → relays n (put clients i c) ≡ relays n clients
unfolding relays
relays_above zero i clients c h = refl
relays_above (suc n) i clients c h = ground (arith, relays_above n i clients c (omega arith))

pub same_index : (i n : ℕ) → (i == n) ≡ true → i ≡ n
same_index i n h = ground arith

pub relays-put :
    (n i : ℕ) (clients : ℕ → Client) (c : Client)
    → i < n
    → relays n (put clients i c) + is_relay (clients i).stage ≡ relays n clients + is_relay c.stage
unfolding relays
relays-put zero i clients c h = absurd (omega arith)
relays-put (suc n) i clients c h = elim (Bool-cases (i == n)) [
  | inl e ↦
      let same = same_index i n e in
      let rest = relays_above n i clients c (omega arith) in rw (e, rest, same) (omega arith)
  | inr e ↦ let rest = relays-put n i clients c (ground arith) in rw e (omega (arith, rest))
]

-- The counter is not zero while a relay is open.
pub relays_some :
    (n i : ℕ) (clients : ℕ → Client) → i < n → (clients i).stage ≡ relaying → 1 ≤ relays n clients
unfolding relays
relays_some zero i clients h e = absurd (omega arith)
relays_some (suc n) i clients h e = elim (Bool-cases (i == n)) [
  | inl same ↦
      let last : is_relay (clients n).stage ≡ 1 = rw (sym (same_index i n same), e) refl in
      omega (arith, last)
  | inr other ↦ omega (arith, relays_some n i clients (ground arith) e)
]

pub not_relay : (stage : Stage) → stage ≢ relaying → is_relay stage ≡ 0
not_relay handshaking h = refl
not_relay opening h = refl
not_relay relaying h = absurd (h refl)
not_relay relayed h = refl
not_relay over h = refl

pub relays_added :
    (n : ℕ) (clients : ℕ → Client) (c : Client)
    → is_relay c.stage ≡ 0
    → (count : ℕ) → count ≡ relays n clients
    → count ≡ relays (suc n) (put clients n c)
unfolding relays
relays_added n clients c idle count h =
    let old = relays_above n n clients c (omega arith) in
    let here : (n == n) ≡ true = ground arith in rw (old, here, idle) (omega (arith, h))
