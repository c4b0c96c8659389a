-- ===== src/Tunnel/Status.antt =====
-- status.go: the states of the tunnel and the classification of connect errors.
use ssh_gate.Prelude.{ℕ, Option, none, some, Text, codes, contains_text, if◌then◌else◌}

pub data TunnelState : Type 0 where
  not_configured connecting connected reconnecting : TunnelState
  key_rejected unreachable host_key_mismatch ssh_error : TunnelState

-- An error with what errors.As finds in its chain: the state of a connectError, the two
-- fingerprints of a hostKeyMismatchError.
pub record SshError : Type 0 where
  pub text : Text
  pub tag : Option TunnelState
  pub mismatch : Option (Text × Text)

pub record TunnelStatus : Type 0 where
  pub state : TunnelState
  pub err : Option SshError
  pub attempt : ℕ
  pub retry : ℕ

abbrev pub plain_error : Text → SshError
plain_error text = record { text = text; tag = none; mismatch = none }

-- failState.
abbrev pub fail_state : SshError → TunnelState
fail_state e = elim e.tag [ some state ↦ state | none ↦ ssh_error ]

-- handshakeState.
unfoldable pub handshake_state : SshError → TunnelState
handshake_state e = elim e.mismatch [
  | some m ↦ host_key_mismatch
  | none ↦
      if contains_text e.text (codes "ssh: unable to authenticate") then key_rejected else ssh_error
]

-- The status of a state without an error.
abbrev pub plain_status : TunnelState → TunnelStatus
plain_status state = record { state = state; err = none; attempt = 0; retry = 0 }
