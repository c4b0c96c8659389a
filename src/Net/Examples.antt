-- ===== src/Net/Examples.antt =====
-- rules.go: the theorems on private addresses, at concrete addresses.
use ssh_gate.Prelude.{ℕ, ◌+◌, ◌*◌, ◌^◌, ◌≤◌, ◌<◌, ◌≡◌, refl, ◌↔◌, ◌⊎◌, true, [], ◌∷◌}
use ssh_gate.Net.Addr.{v4, ip4}
use ssh_gate.Net.Private.{is_private, drop_host_local, is_private-v4_iff}

metadata_private : is_private (ip4 169 254 169 254) ≡ true
unfolding is_private
metadata_private = refl

drops_loopback : drop_host_local (ip4 127 0 0 1 ∷ ip4 10 0 0 1 ∷ []) ≡ ip4 10 0 0 1 ∷ []
unfolding drop_host_local
drops_loopback = refl

abbrev InRange : ℕ → Type 0
InRange n =
    (n < 2 ^ 24)
    ⊎ ((10 * 2 ^ 24 ≤ n) × (n < 11 * 2 ^ 24))
    ⊎ ((100 * 2 ^ 24 + 64 * 2 ^ 16 ≤ n) × (n < 100 * 2 ^ 24 + 128 * 2 ^ 16))
    ⊎ ((172 * 2 ^ 24 + 16 * 2 ^ 16 ≤ n) × (n < 172 * 2 ^ 24 + 32 * 2 ^ 16))
    ⊎ ((192 * 2 ^ 24 + 168 * 2 ^ 16 ≤ n) × (n < 192 * 2 ^ 24 + 169 * 2 ^ 16))
    ⊎ ((127 * 2 ^ 24 ≤ n) × (n < 128 * 2 ^ 24))
    ⊎ ((169 * 2 ^ 24 + 254 * 2 ^ 16 ≤ n) × (n < 169 * 2 ^ 24 + 255 * 2 ^ 16))

is_private-v4_iff_example : (is_private (v4 3232235777) ≡ true) ↔ InRange 3232235777
is_private-v4_iff_example = is_private-v4_iff 3232235777
