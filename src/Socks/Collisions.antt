-- ===== src/Socks/Collisions.antt =====
-- socks5.go: two live connections from one source, on a listener with several local addresses.
use ssh_gate.Prelude.{ℕ, ◌≡◌, true, false, text_eq}
use ssh_gate.Socks.Serving.{handshaking, opening, Socks5Server}

-- What becomes of the two connections.
abbrev pub IsCut : ℕ → ℕ → Socks5Server → Type 0
IsCut i j t =
    ((t.clients i).stage ≡ opening)
    × ((t.clients i).timed ≡ true)
    × ((t.clients j).stage ≡ handshaking)
    × ((t.clients j).timed ≡ false)
