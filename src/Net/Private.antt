-- ===== src/Net/Private.antt =====
-- rules.go: which addresses are private, and which a DNS answer must not lead to.
use ssh_gate.Prelude.{
  ap, Bool-cases, ℕ, ◌+◌, ◌*◌, ◌^◌, ◌≤◌, ◌<◌, ◌≡◌, Bool, true, false, ◌||◌, List, [], ◌∷◌, Text,
  if◌then◌else◌, any, All, ◌↔◌, ◌⊎◌, inl, inr, arith,
}
use ssh_gate.Net.Addr.{
  Addr, v4, v6, Prefix, prefix_contains, unmap, without_zone, is_loopback, is_link_local_unicast,
  addr_beq, ip4,
}

-- The prefixes of NewRuleEngine.
abbrev pub private_prefixes : List Prefix
private_prefixes =
    record { addr = ip4 0 0 0 0; bits = 8 }
    ∷ record { addr = ip4 10 0 0 0; bits = 8 }
    ∷ record { addr = ip4 100 64 0 0; bits = 10 }
    ∷ record { addr = ip4 172 16 0 0; bits = 12 }
    ∷ record { addr = ip4 192 168 0 0; bits = 16 }
    ∷ record { addr = ip4 127 0 0 0; bits = 8 }
    ∷ record { addr = v6 0 []; bits = 128 }
    ∷ record { addr = v6 1 []; bits = 128 }
    ∷ record { addr = ip4 169 254 0 0; bits = 16 }
    ∷ record { addr = v6 (0xfc00 * 2 ^ 112) []; bits = 7 }
    ∷ record { addr = v6 (0xfe80 * 2 ^ 112) []; bits = 10 }
    ∷ []

-- hostLocalV4.
abbrev pub host_local_v4 : Prefix
host_local_v4 = record { addr = ip4 0 0 0 0; bits = 8 }

-- isPrivate.
unfoldable pub is_private : Addr → Bool
is_private ip = any (λ p. prefix_contains p (without_zone (unmap ip))) private_prefixes

-- The test of dropHostLocal's loop, on an address that is unmapped and without a zone.
unfoldable pub is_host_local : Addr → Bool
is_host_local a =
    is_loopback a
    || (is_link_local_unicast a || (prefix_contains host_local_v4 a || addr_beq a (v6 0 [])))

-- dropHostLocal: the addresses that stay, unmapped and without their zones.
unfoldable pub drop_host_local : List Addr → List Addr
unfolding is_host_local
drop_host_local [] = []
drop_host_local (a ∷ as') =
    let b = without_zone (unmap a) in
    if is_host_local b then drop_host_local as' else b ∷ drop_host_local as'

-- An IPv4 address is private exactly in these ranges.
pub is_private-v4_iff :
    (n : ℕ)
    → (is_private (v4 n) ≡ true) ↔ (
        (n < 2 ^ 24)
        ⊎ ((10 * 2 ^ 24 ≤ n) × (n < 11 * 2 ^ 24))
        ⊎ ((100 * 2 ^ 24 + 64 * 2 ^ 16 ≤ n) × (n < 100 * 2 ^ 24 + 128 * 2 ^ 16))
        ⊎ ((172 * 2 ^ 24 + 16 * 2 ^ 16 ≤ n) × (n < 172 * 2 ^ 24 + 32 * 2 ^ 16))
        ⊎ ((192 * 2 ^ 24 + 168 * 2 ^ 16 ≤ n) × (n < 192 * 2 ^ 24 + 169 * 2 ^ 16))
        ⊎ ((127 * 2 ^ 24 ≤ n) × (n < 128 * 2 ^ 24))
        ⊎ ((169 * 2 ^ 24 + 254 * 2 ^ 16 ≤ n) × (n < 169 * 2 ^ 24 + 255 * 2 ^ 16)))
unfolding is_private
is_private-v4_iff n = ground arith

canonical-mapped :
    (n : ℕ) (zone : Text) → n < 2 ^ 32 → without_zone (unmap (v6 (0xffff * 2 ^ 32 + n) zone)) ≡ v4 n
canonical-mapped n zone h = ground arith

canonical-zone :
    (n : ℕ) (zone : Text) → without_zone (unmap (v6 n zone)) ≡ without_zone (unmap (v6 n []))
canonical-zone n zone = ground arith

-- No spelling hides a private address: the IPv4-mapped IPv6 form of an IPv4 address, with any zone,
-- is private exactly when the address is, and an IPv6 address exactly when it is without its zone.
pub is_private_spellings :
    (n m : ℕ) (zone : Text)
    → n < 2 ^ 32
    → (is_private (v6 (0xffff * 2 ^ 32 + n) zone) ≡ is_private (v4 n))
      × (is_private (v6 m zone) ≡ is_private (v6 m []))
unfolding is_private
is_private_spellings n m zone h =
    let test : Addr → Bool = λ a. any (λ p. prefix_contains p a) private_prefixes in
    (ap test (canonical-mapped n zone h), ap test (canonical-zone m zone))

-- What dropHostLocal lets through is neither loopback, nor link-local, nor in 0.0.0.0/8, nor `::`.
pub drop_host_local-All :
    (addrs : List Addr) → All (λ a. is_host_local a ≡ false) (drop_host_local addrs)
unfolding drop_host_local
drop_host_local-All [] = tt
drop_host_local-All (a ∷ addrs) = elim (Bool-cases (is_host_local (without_zone (unmap a)))) [
  | inl e ↦ rw e (drop_host_local-All addrs)
  | inr e ↦ rw e (e, drop_host_local-All addrs)
]

-- A loopback, link-local or unspecified address is always private, so is_private is the wider test.
pub is_private_of_host_local :
    (a : Addr) → is_host_local (without_zone (unmap a)) ≡ true → is_private a ≡ true
unfolding is_private is_host_local
is_private_of_host_local (v4 n) h = ground arith
is_private_of_host_local (v6 n z) h = ground arith
