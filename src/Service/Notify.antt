-- ===== src/Service/Notify.antt =====
-- notify.go: sdStatus. Each call holds the lock, so it is one step; a failed send is only logged.
use ssh_gate.Prelude.{
  ◌≡◌, refl, sym, ap, arith, ◌∙◌, map, All, Bool, true, false, List, [], ◌∷◌, ◌++◌, Text, codes,
  if◌then◌else◌, arith,
}

-- `sent` are the messages handed to notify, in order.
pub record SdStatus : Type 0 where
  pub stopping : Bool
  pub sent : List Text

abbrev pub new_sd_status : SdStatus
new_sd_status = record { stopping = false; sent = [] }

pub data Call : Type 0 where
  sets : Text → Call
  readies : Call
  stops : Text → Call

abbrev pub message : Call → Text
message (sets text) = codes "STATUS=" ++ text
message readies = codes "READY=1"
message (stops text) = codes "STOPPING=1" ++ (10 ∷ (codes "STATUS=" ++ text))

-- write.
abbrev pub write : Text → SdStatus → SdStatus
write msg s = record s { sent = s.sent ++ msg ∷ [] }

-- send.
abbrev pub send : Text → SdStatus → SdStatus
send msg s = if s.stopping then s else write msg s

-- set, ready and stop.
unfoldable pub apply : SdStatus → Call → SdStatus
apply s (sets text) = send (message (sets text)) s
apply s readies = send (message readies) s
apply s (stops text) = write (message (stops text)) (record s { stopping = true })

unfoldable pub run : SdStatus → List Call → SdStatus
unfolding apply
run s [] = s
run s (c ∷ calls) = run (apply s c) calls

abbrev pub IsUpdate : Call → Type 0
IsUpdate (stops text) = ⊥
IsUpdate c = Unit

run-append :
    (s : SdStatus) (calls after : List Call) → run s (calls ++ after) ≡ run (run s calls) after
unfolding run
run-append s [] after = refl
run-append s (c ∷ calls) after = run-append (apply s c) calls after

append_move : (xs : List Text) (m : Text) (ys : List Text) → (xs ++ m ∷ []) ++ ys ≡ xs ++ m ∷ ys
append_move [] m ys = refl
append_move (x ∷ xs) m ys = ap (◌∷◌ x) (append_move xs m ys)

append_nil : (xs : List Text) → xs ++ [] ≡ xs
append_nil [] = refl
append_nil (x ∷ xs) = ap (◌∷◌ x) (append_nil xs)

-- An update, before the stop and after it.
apply_open :
    (s : SdStatus) (c : Call)
    → IsUpdate c
    → s.stopping ≡ false
    → ((apply s c).stopping ≡ false) × ((apply s c).sent ≡ s.sent ++ message c ∷ [])
unfolding apply
apply_open s (sets text) h k = ground arith
apply_open s readies h k = ground arith
apply_open s (stops text) h k = absurd h

apply_stopped :
    (s : SdStatus) (c : Call)
    → IsUpdate c
    → s.stopping ≡ true
    → ((apply s c).stopping ≡ true) × ((apply s c).sent ≡ s.sent)
unfolding apply
apply_stopped s (sets text) h k = ground arith
apply_stopped s readies h k = ground arith
apply_stopped s (stops text) h k = absurd h

pub run_open :
    (s : SdStatus) (calls : List Call)
    → All IsUpdate calls
    → s.stopping ≡ false
    → (run s calls).sent ≡ s.sent ++ map message calls
unfolding run
run_open s [] h k = sym (append_nil s.sent)
run_open s (c ∷ calls) h k =
    let (still, one) = apply_open s c h.0 k in
    run_open (apply s c) calls h.1 still
    ∙ rw (one, append_move s.sent (message c) (map message calls))

pub run_stopped :
    (s : SdStatus) (calls : List Call)
    → All IsUpdate calls
    → s.stopping ≡ true
    → (run s calls).sent ≡ s.sent
unfolding run
run_stopped s [] h k = refl
run_stopped s (c ∷ calls) h k =
    let (still, same) = apply_stopped s c h.0 k in run_stopped (apply s c) calls h.1 still ∙ same

-- The service manager is told every update up to the stop and then the stop, and no update that
-- comes later, as from a tunnel that drops during the drain, hides it.
pub run-stops :
    (before after : List Call) (text : Text)
    → All IsUpdate before
    → All IsUpdate after
    → (run new_sd_status (before ++ stops text ∷ after)).sent
      ≡ map message before ++ message (stops text) ∷ []
unfolding run apply
run-stops before after text h k =
    let s = run new_sd_status before in
    ap (λ r. r.sent) (run-append new_sd_status before (stops text ∷ after))
    ∙ run_stopped (apply s (stops text)) after k refl
    ∙ ap (λ sent. sent ++ message (stops text) ∷ []) (run_open new_sd_status before h refl)
