-- ===== src/Socks/ServingTests.antt =====
-- socks5.go: the theorem on the connections of a server at a concrete run.
use ssh_gate.Prelude.{ℕ, ◌+◌, ◌<◌, ◌≡◌, ◌≢◌, refl, some, Text, codes, text_eq, arith}
use ssh_gate.Socks.Serving.{
  Socks5Server, new_server, accept_conn, request, opened, relaying, close_relay, accepts, requests,
  opens, Reaches, here, then_step,
}
use ssh_gate.Socks.Draining.{Reaches-close_relay}
use ssh_gate.Socks.Counting.{IsServing, Reaches-IsServing}

abbrev peer : Text
peer = codes "10.0.0.5:50000"

abbrev accepted : Socks5Server
accepted = accept_conn peer new_server

abbrev asked : Socks5Server
asked = request 0 accepted

abbrev relaying_one : Socks5Server
relaying_one = opened 0 asked

one_relay : Reaches new_server relaying_one
unfolding request
one_relay =
    then_step asked relaying_one
      (then_step accepted asked (then_step new_server accepted here (accepts peer))
        (requests 0 (omega arith) refl))
      (opens 0 (omega arith) refl)

Reaches-IsServing_example : IsServing relaying_one
unfolding one_relay
Reaches-IsServing_example =
    Reaches-IsServing relaying_one one_relay (tt, λ i live. absurd (live.1 refl))

one_waits : Reaches new_server accepted
one_waits = then_step new_server accepted here (accepts peer)

Reaches-close_relay_example :
    ((i : ℕ)
      → i < relaying_one.next
      → (relaying_one.clients i).stage ≡ relaying
      → (t : Socks5Server) × (close_relay i relaying_one ≡ some t)
        × (t.count + 1 ≡ relaying_one.count))
    × (relaying_one.count ≡ 0
        → (i : ℕ) → i < relaying_one.next
        → (relaying_one.clients i).stage ≢ relaying)
unfolding request
Reaches-close_relay_example = Reaches-close_relay relaying_one one_relay
