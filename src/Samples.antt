-- ===== src/Samples.antt =====
-- Concrete parameters for the examples: a resolver that counts its calls, and parsers that know a
-- few spellings.
use ssh_gate.Prelude.{
  ℕ, suc, ◌+◌, ◌*◌, ◌^◌, false, [], ◌∷◌, none, some, codes, text_beq, if◌then◌else◌, arith,
}
use ssh_gate.Net.Addr.{Addr, v6, ip4}
use ssh_gate.Resolver.{Resolver}
use ssh_gate.Rules.Engine.{Parsers}

abbrev pub public_addr : Addr
public_addr = ip4 8 8 8 8

abbrev pub public_v6 : Addr
public_v6 = v6 (0x2001 * 2 ^ 112 + 5) []

abbrev pub private_addr : Addr
private_addr = ip4 10 0 0 7

abbrev pub counting_resolver : Resolver ℕ
counting_resolver = record {
  resolve_tunnel = λ host n. (suc n, some (public_v6 ∷ private_addr ∷ public_addr ∷ [], false));
  local_resolve_all = λ host n. (suc n, some (private_addr ∷ public_v6 ∷ []));
  tunnel_some = λ host s addrs d e. ground arith;
  local_some = λ host s addrs e. ground arith;
}

abbrev pub few_parsers : Parsers
few_parsers = record {
  parse_addr = λ t. if text_beq t (codes "10.0.0.7") then some private_addr else none;
  parse_prefix = λ t.
      if text_beq t (codes "10.0.0.0/8")
      then some (record { addr = ip4 10 0 0 0; bits = 8 })
      else none;
  compile = λ t. none;
}
