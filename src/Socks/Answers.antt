-- ===== src/Socks/Answers.antt =====
-- socks5.go: what becomes of a request.
use ssh_gate.Prelude.{
  ℕ, suc, ◌≡◌, refl, inl, inr, Bool, true, false, List, [], ◌∷◌, none, some, Text, codes,
  Bool-cases, arith,
}
use ssh_gate.Net.Addr.{Addr}
use ssh_gate.Rules.Engine.{Route, Reason}
use ssh_gate.Syntax.Decimal.{ℤ, atoi_value}
use ssh_gate.Syntax.HostPort.{split_host_port}
use ssh_gate.Socks.Requests.{
  Resolved, resolve, Request, Opened, Action, opens, logs_failure, counts, Outcome, resolve_failed,
  dial_failed, relays, chosen_host, dial_target, dial_request,
}

-- The dials, the access lines, and the relays that are counted.
abbrev pub dials : List Action → List (Text × ℤ)
dials [] = []
dials (opens host port ∷ actions) = (host, port) ∷ dials actions
dials (a ∷ actions) = dials actions

abbrev pub failures : List Action → List (Text × Route × Reason)
failures [] = []
failures (logs_failure result route reason ∷ actions) = (result, route, reason) ∷ failures actions
failures (a ∷ actions) = failures actions

abbrev pub counted : List Action → ℕ
counted [] = 0
counted (counts ∷ actions) = suc (counted actions)
counted (a ∷ actions) = counted actions

abbrev pub Unresolved : Resolved → List Action × Outcome → Type 0
Unresolved o (actions, outcome) =
    (outcome ≡ resolve_failed)
    × (dials actions ≡ [])
    × (counted actions ≡ 0)
    × (failures actions ≡ (codes "resolve_error", o.route, o.reason) ∷ [])

abbrev pub Dialed : Opened → Text → ℤ → List Action × Outcome → Type 0
Dialed o host port (actions, outcome) =
    (dials actions ≡ (host, port) ∷ [])
    × ((o.connects ≡ true → (outcome ≡ relays) × (counted actions ≡ 1) × (failures actions ≡ []))
        × (o.connects ≡ false
            → (outcome ≡ dial_failed)
              × (counted actions ≡ 0)
              × (failures actions ≡ (codes "dial_error", o.route, o.reason) ∷ [])))

module _ (open_host : Text → Text → ℤ → Opened) (has_handshake : Text → Bool) (o : Resolved)
    (addr host port : Text) (r : Request) (split : split_host_port addr ≡ some (host, port)) where
  -- A name that does not resolve is never dialed: its failure, which Resolve keeps from the library,
  -- is logged by the dial callback under its own route and reason, and fails the request.
  pub dial_request-Unresolved :
      o.answer ≡ none → Unresolved o (dial_request open_host has_handshake (resolve o).0 addr r)
  unfolding dial_request resolve
  dial_request-Unresolved missing = elim (Bool-cases (has_handshake r.src)) [
    | inl e ↦ rw (split, missing, e, dial_request, resolve) (refl, refl, refl, refl)
    | inr e ↦ rw (split, missing, e, dial_request, resolve) (refl, refl, refl, refl)
  ]

  -- Behind the deadline: a dial of the target, by whether it connects.
  abbrev IsDialed : List Action × Outcome → Type 0
  IsDialed result =
      Dialed (open_host r.src (chosen_host r host) (atoi_value port)) (chosen_host r host)
        (atoi_value port) result

  target-Dialed :
      IsDialed (dial_target open_host has_handshake r (chosen_host r host) (atoi_value port))
  target-Dialed =
      elim (Bool-cases (open_host r.src (chosen_host r host) (atoi_value port)).connects) [
        | inl e ↦ rw e (refl, ((λ up. (refl, refl, refl)), (λ down. absurd (ground arith))))
        | inr e ↦ rw e (refl, ((λ up. absurd (ground arith)), (λ down. (refl, refl, refl))))
      ]

  -- A name that resolves is dialed once, by its name where the request has one; a relay is counted
  -- for the drain if the dial connects, and the failure is logged once if it does not.
  pub dial_request-Dialed :
      (ip : Addr)
      → o.answer ≡ some ip
      → Dialed
          (open_host r.src (chosen_host r host) (atoi_value port))
          (chosen_host r host)
          (atoi_value port)
          (dial_request open_host has_handshake (resolve o).0 addr r)
  unfolding dial_request resolve
  dial_request-Dialed ip found = elim (Bool-cases (has_handshake r.src)) [
    | inl e ↦ rw (split, found, e, dial_request, resolve) target-Dialed
    | inr e ↦ rw (split, found, e, dial_request, resolve) target-Dialed
  ]
