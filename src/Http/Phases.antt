-- ===== src/Http/Phases.antt =====
-- httpproxy.go: the phases of a connection's handler.
use ssh_gate.Prelude.{List, [], ◌∷◌, Option, none, some}
use ssh_gate.Prelude.{if◌then◌else◌}
use ssh_gate.Config.Values.{validate_port}
use ssh_gate.Http.Forward.{
  connected, dial_failed, Action, opens, answers, establishes, relays_both, sends, copies_body,
  relays_response, closes,
}

-- How far a connection is: before its answer, behind a failed dial, with an upstream that got no
-- answer through yet, in a tunnel, answered with the upstream open, and at its end.
pub data Phase : Type 0 where
  start unreached reached tunnelled answered over : Phase

-- The actions that a phase allows, and where they lead.
abbrev pub advance : Phase → Action → Option Phase
advance start (answers text) = some over
advance start (opens host port connected) = if validate_port port then some reached else none
advance start (opens host port (dial_failed t)) =
    if validate_port port then some unreached else none
advance unreached (answers text) = some over
advance reached (sends text) = some reached
advance reached copies_body = some reached
advance reached (answers text) = some answered
advance reached relays_response = some answered
advance reached establishes = some tunnelled
advance tunnelled relays_both = some answered
advance answered closes = some over
advance _ _ = none

unfoldable pub follow : Phase → List Action → Option Phase
follow phase [] = some phase
follow phase (a ∷ actions) = elim (advance phase a) [
  | none ↦ none
  | some phase' ↦ follow phase' actions
]
