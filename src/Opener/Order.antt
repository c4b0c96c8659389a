-- ===== src/Opener/Order.antt =====
-- opener.go: the dial order of a tunnel destination.
use ssh_gate.Prelude.{
  ◌≡◌, ◌≢◌, refl, sym, subst, inl, inr, Bool, true, false, not, List, [], ◌∷◌, some, keep, any,
  Bool-cases, Option-cases, none, arith,
}
use ssh_gate.Net.Addr.{Addr, addr_beq, addr_beq_iff, is4}
use ssh_gate.Net.Private.{is_private, drop_host_local}
use ssh_gate.Rules.Engine.{Reason}
use ssh_gate.Opener.Candidates.{
  IpFamily, first_v4, pick_tunnel_addr, ok, lead_with, choose, tunnel_candidates,
}

abbrev pub mem : Addr → List Addr → Bool
mem a xs = any (λ b. addr_beq b a) xs

-- What the dial order of the addresses `public` is: it leads with an IPv4 address where there is
-- one, and it has the same members.
pub record IsDialOrder (public : List Addr) (head : Addr) (rest : List Addr) : Type 0 where
  pub leads_v4 : any is4 public ≡ true → is4 head ≡ true
  pub same : (a : Addr) → mem a (head ∷ rest) ≡ mem a public

first_v4-mem :
    (xs : List Addr) (a : Addr) → first_v4 xs ≡ some a → (is4 a ≡ true) × (mem a xs ≡ true)
first_v4-mem [] a e = cc
first_v4-mem (x ∷ xs) a e = ground (arith, first_v4-mem xs a, addr_beq_iff x a)

first_v4-none : (xs : List Addr) → first_v4 xs ≡ none → any is4 xs ≡ false
first_v4-none [] e = refl
first_v4-none (x ∷ xs) e = ground (arith, first_v4-none xs)

mem-keep_ne :
    (head a : Addr) (xs : List Addr)
    → addr_beq head a ≡ false
    → mem a (keep (λ b. not (addr_beq b head)) xs) ≡ mem a xs
mem-keep_ne head a [] e = refl
mem-keep_ne head a (x ∷ xs) e =
    ground
      (arith, mem-keep_ne head a xs e, addr_beq_iff x head, addr_beq_iff x a, addr_beq_iff head a)

mem-lead_with :
    (head a : Addr) (xs : List Addr) → mem head xs ≡ true → mem a (lead_with head xs) ≡ mem a xs
mem-lead_with head a xs h = elim (Bool-cases (addr_beq head a)) [
  | inl e ↦
      let found : mem a xs ≡ true = subst (λ b. mem b xs ≡ true) ((addr_beq_iff head a).0 e) h in
      rw e (sym found)
  | inr e ↦ rw e (mem-keep_ne head a xs e)
]

pick_order :
    (x : Addr) (xs : List Addr)
    → (head : Addr) × (pick_tunnel_addr (x ∷ xs) ≡ some head)
      × IsDialOrder (x ∷ xs) head (keep (λ b. not (addr_beq b head)) (x ∷ xs))
unfolding pick_tunnel_addr
pick_order x xs = elim (Option-cases (first_v4 (x ∷ xs))) [
  | inl e ↦ (
    x,
    rw (e, pick_tunnel_addr),
    record {
      leads_v4 = λ some_v4. let none_v4 = first_v4-none (x ∷ xs) e in cc;
      same = λ a. mem-lead_with x a (x ∷ xs) (ground (arith, addr_beq_iff x x));
    },
  )
  | inr (head, e) ↦ (
    head,
    rw (e, pick_tunnel_addr),
    record {
      leads_v4 = λ some_v4. (first_v4-mem (x ∷ xs) head e).0;
      same = λ a. mem-lead_with head a (x ∷ xs) (first_v4-mem (x ∷ xs) head e).1;
    },
  )
]

choose-order :
    (family : IpFamily) (addrs public reachable : List Addr) (local_direct : Bool) (reason : Reason)
    → public ≢ []
    → (head : Addr) × (rest : List Addr) × ((choose family addrs local_direct reason public
          reachable).outcome
        ≡ ok (head ∷ rest))
      × IsDialOrder public head rest
unfolding choose
choose-order family addrs [] reachable local_direct reason h = absurd (h refl)
choose-order family addrs (x ∷ xs) reachable local_direct reason h =
    let (head, picked, order) = pick_order x xs in
    (head, keep (λ b. not (addr_beq b head)) (x ∷ xs), rw (picked, choose), order)

-- When a tunnel destination has a public address, the candidates are exactly its public addresses,
-- and they lead with an IPv4 address where there is one.
pub tunnel_candidates-order :
    (family : IpFamily) (addrs : List Addr) (local_direct : Bool) (reason : Reason)
    → keep (λ a. not (is_private a)) addrs ≢ []
    → (head : Addr) × (rest : List Addr) × ((tunnel_candidates family addrs local_direct
          reason).outcome
        ≡ ok (head ∷ rest))
      × IsDialOrder (keep (λ a. not (is_private a)) addrs) head rest
unfolding tunnel_candidates
tunnel_candidates-order family addrs local_direct reason h =
    choose-order family addrs (keep (λ a. not (is_private a)) addrs) (drop_host_local addrs)
      local_direct reason h
