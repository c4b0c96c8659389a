-- ===== src/Config/Values.antt =====
-- main.go: the parsers of single settings; utils.go: contains, validatePort, validateHostPort. The
-- parsers of net, net/netip and time are parameters. An error is `none`.
use ssh_gate.Prelude.{
  ℕ, ◌/◌, ◌==◌, ltb, leb, Bool, true, false, ◌||◌, ◌&&◌, not, List, [], ◌∷◌, Option, none, some,
  Text, codes, text_beq, to_lower, if◌then◌else◌,
}
use ssh_gate.Net.Addr.{Addr}
use ssh_gate.Syntax.Decimal.{ℤ, pos, negsuc, atoi}
use ssh_gate.Syntax.HostPort.{split_host_port}

pub record SettingParsers : Type 0 where
  -- netip.ParseAddr, net.ParseIP, and time.ParseDuration, in nanoseconds.
  pub parse_addr : Text → Option Addr
  pub parse_ip : Text → Option Addr
  pub parse_duration : Text → Option ℤ

abbrev pub second : ℕ
second = 1000000000

-- contains.
abbrev pub contains : List Text → Text → Bool
contains [] s = false
contains (v ∷ slice) s = text_beq v s || contains slice s

-- validatePort accepts the port.
abbrev pub validate_port : ℤ → Bool
validate_port (pos n) = leb 1 n && leb n 65535
validate_port (negsuc n) = false

-- validateHostPort accepts the text.
abbrev pub validate_host_port : Text → Bool
validate_host_port s = elim (split_host_port s) [
  | none ↦ false
  | some (host, port) ↦ not (text_beq port [])
]

-- The levels of parseLogLevel.
pub data LogLevel : Type 0 where
  debug info warn error : LogLevel

abbrev pub parse_log_level : Text → LogLevel
parse_log_level level =
    let v = to_lower level in
    if text_beq v (codes "debug")
    then debug
    else if text_beq v (codes "warn")
    then warn
    else if text_beq v (codes "error")
    then error
    else info

-- parseOnOff.
abbrev pub parse_on_off : Text → Option Bool
parse_on_off v =
    if text_beq (to_lower v) (codes "on")
    then some true
    else if text_beq (to_lower v) (codes "off")
    then some false
    else none

-- getEnv; a variable that is not set is the empty text.
abbrev pub get_env : (Text → Text) → Text → Text → Text
get_env env key fallback = if text_beq (env key) [] then fallback else env key

abbrev pub clamp_period : ℤ → ℕ
clamp_period (pos d) = d
clamp_period (negsuc d) = 0

abbrev pub whole_seconds : ℤ → Option ℕ
whole_seconds (negsuc d) = none
whole_seconds (pos d) =
    if d == 0 then some 0 else some (if ltb (d / second) 1 then 1 else d / second)

abbrev pub non_negative : ℤ → Option ℕ
non_negative (pos n) = some n
non_negative (negsuc n) = none

abbrev pub positive : ℤ → Option ℕ
positive (pos d) = if d == 0 then none else some d
positive (negsuc d) = none

abbrev pub and_then {ℓ κ} : {A : Type ℓ} {B : Type κ} → Option A → (A → Option B) → Option B
and_then none f = none
and_then (some a) f = f a

module _ (ps : SettingParsers) where
  -- parseKeepalivePeriod, parseKeepaliveInterval, parseDialTimeout.
  abbrev pub parse_keepalive_period : Text → Option ℕ
  parse_keepalive_period raw = and_then (ps.parse_duration raw) (λ d. some (clamp_period d))

  abbrev pub parse_keepalive_interval : Text → Option ℕ
  parse_keepalive_interval raw = and_then (ps.parse_duration raw) whole_seconds

  abbrev pub parse_dial_timeout : Text → Option ℕ
  parse_dial_timeout raw = and_then (ps.parse_duration raw) positive

-- parseKeepaliveProbes.
abbrev pub parse_keepalive_probes : Text → Option ℕ
parse_keepalive_probes raw = and_then (atoi raw) non_negative

-- parseMaxConnections.
abbrev pub parse_max_connections : Text → Option ℕ
parse_max_connections raw = and_then (atoi raw) non_negative
