-- ===== src/Net/Addr.antt =====
-- netip.Addr and netip.Prefix: what the program uses of them. An address is its bits; `v6` has its
-- zone, empty for none.
use ssh_gate.Prelude.{
  ℕ, ◌+◌, ◌-◌, ◌*◌, ◌/◌, ◌%◌, ◌^◌, ◌≡◌, ◌==◌, Bool, true, false, ◌&&◌, [], Text, text_beq,
  text_beq_iff, if◌then◌else◌, Eq, ◌↔◌, arith,
}

pub data Addr : Type 0 where
  v4 : ℕ → Addr
  v6 : ℕ → Text → Addr

abbrev pub addr_beq : Addr → Addr → Bool
addr_beq (v4 a) (v4 b) = a == b
addr_beq (v4 a) (v6 b z) = false
addr_beq (v6 a z) (v4 b) = false
addr_beq (v6 a z) (v6 b y) = (a == b) && text_beq z y

pub addr_beq_iff : (a b : Addr) → (addr_beq a b ≡ true) ↔ (a ≡ b)
addr_beq_iff (v4 a) (v4 b) = ground arith
addr_beq_iff (v4 a) (v6 b z) = ground arith
addr_beq_iff (v6 a z) (v4 b) = ground arith
addr_beq_iff (v6 a z) (v6 b y) = ground (arith, text_beq_iff z y)

instance abbrev pub addr_eq : Eq Addr
addr_eq = record { beq = addr_beq; beq_iff = addr_beq_iff }

abbrev pub is4 : Addr → Bool
is4 (v4 a) = true
is4 (v6 a z) = false

-- An IPv4-mapped IPv6 address, ::ffff:a.b.c.d.
abbrev pub is4_in6 : Addr → Bool
is4_in6 (v4 a) = false
is4_in6 (v6 a z) = a / 2 ^ 32 == 0xffff

abbrev pub unmap : Addr → Addr
unmap (v4 a) = v4 a
unmap (v6 a z) = if a / 2 ^ 32 == 0xffff then v4 (a % 2 ^ 32) else v6 a z

-- WithZone("").
abbrev pub without_zone : Addr → Addr
without_zone (v4 a) = v4 a
without_zone (v6 a z) = v6 a []

pub record Prefix : Type 0 where
  pub addr : Addr
  pub bits : ℕ

-- Prefix.Contains: the same family, no zone, and the same first bits.
abbrev pub prefix_contains : Prefix → Addr → Bool
prefix_contains p a = same p.addr a
  where
    same : Addr → Addr → Bool
    same (v4 n) (v4 m) = m / 2 ^ (32 - p.bits) == n / 2 ^ (32 - p.bits)
    same (v4 n) (v6 m z) = false
    same (v6 n y) (v4 m) = false
    same (v6 n y) (v6 m z) = text_beq z [] && (m / 2 ^ (128 - p.bits) == n / 2 ^ (128 - p.bits))

abbrev pub is_loopback : Addr → Bool
is_loopback (v4 a) = a / 2 ^ 24 == 127
is_loopback (v6 a z) = a == 1

abbrev pub is_link_local_unicast : Addr → Bool
is_link_local_unicast (v4 a) = a / 2 ^ 16 == 169 * 256 + 254
is_link_local_unicast (v6 a z) = a / 2 ^ 118 == 0x3fa

-- net.IP.To4 of the address's bytes is not nil.
abbrev pub has_to4 : Addr → Bool
has_to4 (v4 a) = true
has_to4 (v6 a z) = a / 2 ^ 32 == 0xffff

-- The address a.b.c.d.
abbrev pub ip4 : ℕ → ℕ → ℕ → ℕ → Addr
ip4 a b c d = v4 (((a * 256 + b) * 256 + c) * 256 + d)
