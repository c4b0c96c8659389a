-- ===== src/Opener/Examples.antt =====
-- opener.go: the theorems at a concrete resolver, dialer and rules.
use ssh_gate.Prelude.{
  ℕ, suc, ◌≡◌, ◌≢◌, refl, inr, Bool, true, false, not, List, [], ◌∷◌, none, codes, if◌then◌else◌,
  keep, All, arith,
}
use ssh_gate.Net.Addr.{Addr, is4, ip4}
use ssh_gate.Net.Private.{is_private, is_host_local, drop_host_local}
use ssh_gate.Samples.{counting_resolver, few_parsers, private_addr, public_addr, public_v6}
use ssh_gate.Rules.Engine.{direct, fallback}
use ssh_gate.Opener.Candidates.{
  both, ipv4, ok, tunnel_candidates, choose, pick_tunnel_addr, candidates,
}
use ssh_gate.Opener.Policy.{IsPublic, IsSound, candidates-IsSound, tunnel_candidates_direct}
use ssh_gate.Opener.Dialing.{
  Attempt, connected, dial_failed, try_addrs, open_host, open_host_public,
}

abbrev answers : List Addr
answers = public_v6 ∷ private_addr ∷ public_addr ∷ []

leads_with_v4 :
    (tunnel_candidates ipv4 answers false fallback).outcome ≡ ok (public_addr ∷ public_v6 ∷ [])
unfolding tunnel_candidates choose pick_tunnel_addr is_private
leads_with_v4 = refl

candidates-IsSound_example :
    IsSound both (candidates counting_resolver few_parsers [] both (codes "example.org") 0).1
candidates-IsSound_example =
    candidates-IsSound counting_resolver few_parsers [] both (codes "example.org") 0

local_direct_route :
    (tunnel_candidates both (private_addr ∷ ip4 127 0 0 1 ∷ []) true fallback).route ≡ direct
unfolding tunnel_candidates choose is_private drop_host_local
local_direct_route = refl

tunnel_candidates_direct_example :
    (true ≡ true)
    × All (λ a. is_private a ≡ true) (private_addr ∷ ip4 127 0 0 1 ∷ [])
    × ((out : List Addr)
        → (tunnel_candidates both (private_addr ∷ ip4 127 0 0 1 ∷ []) true fallback).outcome
          ≡ ok out
        → All (λ a. is_host_local a ≡ false) out)
tunnel_candidates_direct_example =
    tunnel_candidates_direct both (private_addr ∷ ip4 127 0 0 1 ∷ []) true fallback (ground arith)
      local_direct_route

some_public : keep (λ a. not (is_private a)) answers ≢ []
unfolding is_private
some_public e = ground arith

-- A dialer that counts its dials and reaches only IPv4 addresses.
abbrev count_dial : Addr → ℕ → ℕ × Attempt Bool ℕ
count_dial a n = (suc n, if is4 a then connected true else dial_failed n)

second_connects :
    try_addrs count_dial (public_v6 ∷ public_addr ∷ []) none 0 ≡ (2, inr (true, public_addr))
unfolding try_addrs
second_connects = refl

-- It differs from the first on private addresses only.
abbrev reckless : Addr → ℕ → ℕ × Attempt Bool ℕ
reckless a n = if is_private a then (n, connected false) else count_dial a n

same_on_public : (a : Addr) (w : ℕ) → IsPublic a → count_dial a w ≡ reckless a w
same_on_public a w p = rw p

open_host_public_example :
    open_host counting_resolver few_parsers [] both
      (λ net. count_dial)
      9
      count_dial
      (codes "example.org")
      0
      0
    ≡ open_host counting_resolver few_parsers [] both
        (λ net. count_dial)
        9
        reckless
        (codes "example.org")
        0
        0
open_host_public_example =
    open_host_public counting_resolver few_parsers [] both (λ net. count_dial) 9 count_dial reckless
      same_on_public (codes "example.org") 0 0
