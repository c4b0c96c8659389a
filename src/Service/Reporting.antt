-- ===== src/Service/Reporting.antt =====
-- dialer.go, status.go and notify.go together: setStatus passes every change of the tunnel's state
-- on to the status line of the service manager.
use ssh_gate.Prelude.{
  ◌≡◌, refl, ap, ◌∙◌, List, [], ◌∷◌, ◌++◌, map, Text, All, Option, none, some, if◌then◌else◌, inl,
  inr, Bool-cases, arith,
}
use ssh_gate.Tunnel.Status.{connecting, TunnelStatus, plain_status}
use ssh_gate.Tunnel.Monitor.{
  SshDialer, new_ssh_dialer, lose, wake, connect_failed, connect_done, publish, stop, Step, lost,
  woke, failed, succeeded, published, stopped, unanswered, Reaches, here, then_step,
}
use ssh_gate.Service.Notify.{new_sd_status, sets, message, run, run_open, Call, IsUpdate}
use ssh_gate.Service.Texts.{Endpoint, Texts, status_text}

-- The calls of setStatus in a step of the monitor.
abbrev pub set_by : (d e : SshDialer) → Step d e → List TunnelStatus
set_by d _ (lost p) = if d.done then [] else (lose d).status ∷ []
set_by d _ (woke p) = []
set_by d _ (failed e jitter p) = (connect_failed e jitter d).status ∷ []
set_by d _ (succeeded c fp p) = []
set_by d _ (published c fp p) = (publish c fp d).status ∷ []
set_by d _ stopped = []
set_by d _ (unanswered c) = []

-- From newSSHDialer on, oldest first.
unfoldable pub statuses : (start d : SshDialer) → Reaches start d → List TunnelStatus
statuses start _ here = start.status ∷ []
statuses start _ (then_step d e r s) = statuses start d r ++ set_by d e s

-- The last of a list.
abbrev pub last_or {ℓ} : {A : Type ℓ} → A → List A → A
last_or a [] = a
last_or a (b ∷ more) = last_or b more

last_or-append {ℓ} :
    {A : Type ℓ} (a : A) (xs ys : List A) → last_or a (xs ++ ys) ≡ last_or (last_or a xs) ys
last_or-append a [] ys = refl
last_or-append a (x ∷ xs) ys = last_or-append x xs ys

last_or-map {ℓ κ} :
    {A : Type ℓ} {B : Type κ} (f : A → B) (a : A) (xs : List A)
    → last_or (f a) (map f xs) ≡ f (last_or a xs)
last_or-map f a [] = refl
last_or-map f a (x ∷ xs) = last_or-map f x xs

-- The status of the dialer is what was set last.
last-set_by : (d e : SshDialer) (s : Step d e) → last_or d.status (set_by d e s) ≡ e.status
unfolding lose wake connect_failed connect_done publish stop
last-set_by d _ (lost p) = elim (Bool-cases d.done) [
  | inl e ↦ rw (e, lose) refl
  | inr e ↦ rw (e, lose) refl
]
last-set_by d _ (woke p) = ground arith
last-set_by d _ (failed e jitter p) = refl
last-set_by d _ (succeeded c fp p) = ground arith
last-set_by d _ (published c fp p) = refl
last-set_by d _ stopped = refl
last-set_by d _ (unanswered c) = refl

last-statuses :
    (before : TunnelStatus) (start d : SshDialer) (r : Reaches start d)
    → last_or before (statuses start d r) ≡ d.status
unfolding statuses
last-statuses before start _ here = refl
last-statuses before start _ (then_step d e r s) =
    last_or-append before (statuses start d r) (set_by d e s)
    ∙ ap (λ st. last_or st (set_by d e s)) (last-statuses before start d r)
    ∙ last-set_by d e s

statuses_head :
    (start d : SshDialer) (r : Reaches start d)
    → (rest : List TunnelStatus) × (statuses start d r ≡ start.status ∷ rest)
unfolding statuses
statuses_head start _ here = ([], refl)
statuses_head start _ (then_step d e r s) =
    let (rest, h) = statuses_head start d r in (rest ++ set_by d e s, ap (λ l. l ++ set_by d e s) h)

abbrev pub last_of {ℓ} : {A : Type ℓ} → List A → Option A
last_of [] = none
last_of (a ∷ more) = some (last_or a more)

last_of-map {ℓ κ} :
    {A : Type ℓ} {B : Type κ} (f : A → B) (xs : List A) (a : A) (rest : List A)
    → xs ≡ a ∷ rest
    → last_of (map f xs) ≡ some (f (last_or a xs))
last_of-map f [] a rest h = absurd (ground arith)
last_of-map f (x ∷ xs) a rest h = ap some (last_or-map f x xs)

module _ (ts : Texts) (cfg : Endpoint) where
  -- onStatus.
  abbrev pub on_status : TunnelStatus → Call
  on_status st = sets (status_text ts cfg st)

  on_status-IsUpdate : (sts : List TunnelStatus) → All IsUpdate (map on_status sts)
  on_status-IsUpdate [] = tt
  on_status-IsUpdate (st ∷ sts) = (tt, on_status-IsUpdate sts)

  -- In every state that the monitor reaches, through any connects, losses, failures, dropped clients
  -- and a stop of the dialer, the last line that the service manager was sent is the text of the
  -- state that the tunnel is in, as long as its own shutdown is not announced.
  pub run-statuses :
      (fingerprint : Text) (d : SshDialer) (r : Reaches (new_ssh_dialer fingerprint) d)
      → last_of (run new_sd_status (map on_status (statuses (new_ssh_dialer fingerprint) d r))).sent
        ≡ some (message (on_status d.status))
  run-statuses fingerprint d r =
      let sts = statuses (new_ssh_dialer fingerprint) d r in
      let (rest, h) = statuses_head (new_ssh_dialer fingerprint) d r in
      ap last_of (run_open new_sd_status (map on_status sts) (on_status-IsUpdate sts) refl)
      ∙ last_of-map message (map on_status sts) (on_status (plain_status connecting)) _
          (ap (map on_status) h)
      ∙ ap (λ c. some (message c))
          (last_or-map on_status (plain_status connecting) sts
            ∙ ap on_status (last-statuses (plain_status connecting) _ d r))
