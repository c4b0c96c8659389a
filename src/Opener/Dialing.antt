-- ===== src/Opener/Dialing.antt =====
-- opener.go and dialDirectIP of routing.go: Open, which dials down the candidates. A dial is a
-- parameter: net.Dialer for a direct one, the interface dialer of dialer.go for the tunnel; it acts
-- on a state of the world.
use ssh_gate.Prelude.{
  ◌≡◌, refl, sym, ap, ◌∙◌, ℕ, ltb, ◌⊎◌, inl, inr, not, List, [], ◌∷◌, ◌++◌, Option, none, some,
  Text, if◌then◌else◌, length, All, arith,
}
use ssh_gate.Net.Addr.{Addr, is4}
use ssh_gate.Resolver.{Resolver}
use ssh_gate.Rules.Engine.{Parsers, RuleEntry, Route, direct, tunnel, Reason}
use ssh_gate.Opener.Candidates.{
  IpFamily, family_matches, OpenError, Outcome, ok, err, panic, Answer, candidates,
}
use ssh_gate.Opener.Policy.{IsPublic, candidates-IsSound}

pub data Attempt (C E : Type 0) : Type 0 where
  connected : C → Attempt C E
  dial_failed : E → Attempt C E

pub data Network : Type 0 where
  tcp4 tcp6 : Network

-- How Open returns. A failed dial has the first error and, where several addresses were tried,
-- their count (withAttempts).
pub data Opened (C E : Type 0) : Type 0 where
  opened : C → Addr → Opened C E
  open_failed : OpenError → Opened C E
  dials_failed : Option E → Option ℕ → Opened C E
  open_panic : Opened C E

-- withAttempts.
abbrev pub with_attempts : {C E : Type 0} → Option E → ℕ → Opened C E
with_attempts e attempts = dials_failed e (if ltb 1 attempts then some attempts else none)

abbrev pub finish_open : {C E : Type 0} → ℕ → (Option E ⊎ (C × Addr)) → Opened C E
finish_open attempts (inl e) = with_attempts e attempts
finish_open attempts (inr (c, ip)) = opened c ip

module _ {W C E : Type 0} where
  -- dialDirectIP.
  unfoldable pub dial_direct_ip :
      (Network → Addr → W → W × Attempt C E) → E → IpFamily → Addr → W → W × Attempt C E
  dial_direct_ip dial no_addresses family ip w =
      if not (family_matches family ip)
      then (w, dial_failed no_addresses)
      else dial (if is4 ip then tcp4 else tcp6) ip w

  -- A round of Open's loops, on the dial's result: `rest` goes on with the next address.
  abbrev pub next_addr :
      Addr
      → (Option E → W → W × (Option E ⊎ (C × Addr)))
      → Option E
      → W × Attempt C E
      → W × (Option E ⊎ (C × Addr))
  next_addr ip rest first (w, connected c) = (w, inr (c, ip))
  next_addr ip rest none (w, dial_failed e) = rest (some e) w
  next_addr ip rest (some x) (w, dial_failed e) = rest (some x) w

  -- Both loops of Open, with `firstErr`.
  unfoldable pub try_addrs :
      (Addr → W → W × Attempt C E) → List Addr → Option E → W → W × (Option E ⊎ (C × Addr))
  try_addrs dial [] first w = (w, inl first)
  try_addrs dial (ip ∷ addrs) first w =
      next_addr ip (λ f w'. try_addrs dial addrs f w') first (dial ip w)

  -- Open, after the candidates.
  unfoldable pub dial_answer :
      (Addr → W → W × Attempt C E)
      → (Addr → W → W × Attempt C E)
      → Answer (List Addr)
      → W
      → W × Opened C E
  unfolding try_addrs
  dial_answer direct_dial tunnel_dial a w = elim a.outcome [
    | err e ↦ (w, open_failed e)
    | panic ↦ (w, open_panic)
    | ok addrs ↦
        let (w', r) =
          try_addrs (elim a.route [ direct ↦ direct_dial | tunnel ↦ tunnel_dial ]) addrs none w in
        (w', finish_open (length addrs) r)
  ]

  -- Each of the addresses was dialed in turn, from `w` to `w'`, and failed.
  abbrev pub AllFail : (Addr → W → W × Attempt C E) → List Addr → W → W → Type 0
  AllFail dial [] w w' = w ≡ w'
  AllFail dial (a ∷ addrs) w w'' =
      (e : E) × (w' : W) × (dial a w ≡ (w', dial_failed e)) × AllFail dial addrs w' w''

  Attempt-cases :
      (r : W × Attempt C E)
      → ((w : W) × (c : C) × (r ≡ (w, connected c)))
        ⊎ ((w : W) × (e : E) × (r ≡ (w, dial_failed e)))
  Attempt-cases (w, connected c) = inl (w, c, refl)
  Attempt-cases (w, dial_failed e) = inr (w, e, refl)

  next_addr_failed :
      (a : Addr) (rest : Option E → W → W × (Option E ⊎ (C × Addr))) (first : Option E) (w : W)
      (e : E)
      → (f : Option E) × (next_addr a rest first (w, dial_failed e) ≡ rest f w)
  next_addr_failed a rest none w e = (some e, refl)
  next_addr_failed a rest (some x) w e = (some x, refl)

  next_addr-agree :
      (a : Addr) (rest other : Option E → W → W × (Option E ⊎ (C × Addr)))
      → ((f : Option E) (w : W) → rest f w ≡ other f w)
      → (first : Option E) (r : W × Attempt C E)
      → next_addr a rest first r ≡ next_addr a other first r
  next_addr-agree a rest other h first (w, connected c) = refl
  next_addr-agree a rest other h none (w, dial_failed e) = h (some e) w
  next_addr-agree a rest other h (some x) (w, dial_failed e) = h (some x) w

  -- The address that connects is the first one that can: each address before it was dialed, in
  -- order, and failed, and no address after it was dialed.
  pub try_addrs_first :
      (dial : Addr → W → W × Attempt C E) (addrs : List Addr) (first : Option E) (w w' : W) (c : C)
      (ip : Addr)
      → try_addrs dial addrs first w ≡ (w', inr (c, ip))
      → (before : List Addr) × (after : List Addr) × (w1 : W) × (addrs ≡ before ++ ip ∷ after)
        × AllFail dial before w w1
        × (dial ip w1 ≡ (w', connected c))
  unfolding try_addrs
  try_addrs_first dial [] first w w' c ip e = cc
  try_addrs_first dial (a ∷ addrs) first w w' c ip e = elim (Attempt-cases (dial a w)) [
    | inl (w1, c1, d) ↦ ([], addrs, w, ground (arith, d), refl, ground (arith, d))
    | inr (w1, x, d) ↦
        let later : List Addr → Option E → W → W × (Option E ⊎ (C × Addr)) = try_addrs dial in
        let (f, went_on) = next_addr_failed a (later addrs) first w1 x in
        let (before, after, w2, split_at, failed, ok_at) =
          try_addrs_first dial addrs f w1 w' c ip
            (sym went_on ∙ sym (ap (next_addr a (later addrs) first) d) ∙ e) in
        (a ∷ before, after, w2, ap (◌∷◌ a) split_at, (x, w1, d, failed), ok_at)
  ]

  -- A dialer's behaviour on the addresses outside `P` does not matter when all are in `P`.
  try_addrs-agree :
      (P : Addr → Type 0) (dial other : Addr → W → W × Attempt C E)
      → ((a : Addr) (w : W) → P a → dial a w ≡ other a w)
      → (addrs : List Addr) (first : Option E) (w : W) → All P addrs
      → try_addrs dial addrs first w ≡ try_addrs other addrs first w
  unfolding try_addrs
  try_addrs-agree P dial other h [] first w p = refl
  try_addrs-agree P dial other h (a ∷ addrs) first w p =
      let rest : (f : Option E) (w1 : W) → try_addrs dial addrs f w1 ≡ try_addrs other addrs f w1 =
        λ f w1. try_addrs-agree P dial other h addrs f w1 p.1 in
      ap (next_addr a (λ f w1. try_addrs dial addrs f w1) first) (h a w p.0)
      ∙ next_addr-agree a _ _ rest first (other a w)

dial_answer-agree :
    {W C E : Type 0} (net dial other : Addr → W → W × Attempt C E)
    → ((a : Addr) (w : W) → IsPublic a → dial a w ≡ other a w)
    → (outcome : Outcome (List Addr)) (route : Route) (reason : Reason) (w : W)
    → ((addrs : List Addr) → outcome ≡ ok addrs → route ≡ tunnel → All IsPublic addrs)
    → dial_answer net dial (record { outcome = outcome; route = route; reason = reason }) w
      ≡ dial_answer net other (record { outcome = outcome; route = route; reason = reason }) w
unfolding dial_answer
dial_answer-agree net dial other h (ok addrs) direct reason w p = refl
dial_answer-agree net dial other h (ok addrs) tunnel reason w p =
    rw (try_addrs-agree IsPublic dial other h addrs none w (p addrs refl refl))
dial_answer-agree net dial other h (err x) route reason w p = refl
dial_answer-agree net dial other h panic route reason w p = refl

module _ {S W C E : Type 0} (rs : Resolver S) (ps : Parsers) (rules : List RuleEntry)
    (family : IpFamily) where
  -- Open, over the resolver's state and the world's.
  unfoldable pub open_host :
      (Network → Addr → W → W × Attempt C E)
      → E
      → (Addr → W → W × Attempt C E)
      → Text
      → S
      → W
      → (S × W) × Opened C E
  unfolding dial_answer dial_direct_ip
  open_host net no_addresses tunnel_dial host s w =
      let (s', a) = candidates rs ps rules family host s in
      let (w', r) = dial_answer (dial_direct_ip net no_addresses family) tunnel_dial a w in
      ((s', w'), r)

  -- No private address is dialed through the tunnel: two tunnel dialers that agree on the public
  -- addresses give the same run, whatever they do with a private one.
  pub open_host_public :
      (net : Network → Addr → W → W × Attempt C E) (no_addresses : E)
      (dial other : Addr → W → W × Attempt C E)
      → ((a : Addr) (w : W) → IsPublic a → dial a w ≡ other a w)
      → (host : Text) (s : S) (w : W)
      → open_host net no_addresses dial host s w ≡ open_host net no_addresses other host s w
  unfolding open_host
  open_host_public net no_addresses dial other h host s w =
      let (s', a) = candidates rs ps rules family host s in
      ap (λ r. ((s', r.0), r.1))
        (dial_answer-agree (dial_direct_ip net no_addresses family) dial other h a.outcome a.route
          a.reason w (candidates-IsSound rs ps rules family host s).tunnel_public)
