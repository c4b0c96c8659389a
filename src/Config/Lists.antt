-- ===== src/Config/Lists.antt =====
-- main.go: the parsers of comma-separated settings.
use ssh_gate.Prelude.{
  ◌==◌, Bool, ◌||◌, List, [], ◌∷◌, Option, none, some, Text, codes, text_beq, to_lower, trim_space,
  split, if◌then◌else◌, any,
}
use ssh_gate.Syntax.Decimal.{atoi}
use ssh_gate.Syntax.HostPort.{split_host_port, join_host_port}
use ssh_gate.Config.Values.{SettingParsers, validate_port, validate_host_port, contains}

-- `out = append(out, a)` in front of the rest of a loop.
abbrev pub add {ℓ} : {A : Type ℓ} → Option A → Option (List A) → Option (List A)
add none rest = none
add (some a) none = none
add (some a) (some rest) = some (a ∷ rest)

abbrev pub or_default {ℓ} : {A : Type ℓ} → List A → Option (List A) → Option (List A)
or_default d none = none
or_default d (some []) = some d
or_default d (some (a ∷ rest)) = some (a ∷ rest)

abbrev pub or_error {ℓ} : {A : Type ℓ} → Option (List A) → Option (List A)
or_error none = none
or_error (some []) = none
or_error (some (a ∷ rest)) = some (a ∷ rest)

-- The loop of all four parsers: `clean` trims an entry, empty ones are skipped, and `check` gives what
-- is kept of an entry, or the error.
unfoldable pub parse_entries {ℓ} :
    {A : Type ℓ} → (Text → Text) → (Text → Option A) → List Text → Option (List A)
parse_entries clean check [] = some []
parse_entries clean check (entry ∷ entries) =
    let e = clean entry in
    let rest = parse_entries clean check entries in
    if text_beq e [] then rest else add (check e) rest

abbrev pub valid_modes : List Text
valid_modes = codes "socks5" ∷ codes "http" ∷ []

abbrev pub check_mode : Text → Option Text
check_mode m = if contains valid_modes m then some m else none

-- parseModes.
unfoldable pub parse_modes : Text → Option (List Text)
unfolding parse_entries
parse_modes raw =
    or_default (codes "socks5" ∷ [])
      (parse_entries (λ m. trim_space (to_lower m)) check_mode (split b',' raw))

abbrev pub check_listen : Text → Option Text
check_listen addr = if validate_host_port addr then some addr else none

-- parseListenList.
unfoldable pub parse_listen_list : Text → Option (List Text)
unfolding parse_entries
parse_listen_list raw = or_error (parse_entries trim_space check_listen (split b',' raw))

-- strings.ContainsAny(h, "/[] ").
abbrev pub has_host_delimiter : Text → Bool
has_host_delimiter h = any (λ c. c == b'/' || (c == b'[' || (c == b']' || c == b' '))) h

abbrev pub check_host : Text → Option Text
check_host h = elim (split_host_port h) [
  | some hp ↦ none
  | none ↦ if has_host_delimiter h then none else some h
]

-- parseHostList.
unfoldable pub parse_host_list : Text → Option (List Text)
unfolding parse_entries
parse_host_list raw = parse_entries trim_space check_host (split b',' raw)

module _ (ps : SettingParsers) where
  abbrev pub check_server_parts : Text × Text → Option Text
  check_server_parts (host, port) = elim (ps.parse_addr host) [
    | none ↦ none
    | some ip ↦ elim (atoi port) [
      | none ↦ none
      | some n ↦ if validate_port n then some (join_host_port host port) else none
    ]
  ]

  -- A round of parseTunnelDNS: an address alone has port 53.
  abbrev pub check_server : Text → Option Text
  check_server entry = elim (ps.parse_addr entry) [
    | some ip ↦ check_server_parts (entry, codes "53")
    | none ↦ elim (split_host_port entry) [ none ↦ none | some hp ↦ check_server_parts hp ]
  ]

  -- parseTunnelDNS.
  unfoldable pub parse_tunnel_dns : Text → Option (List Text)
  unfolding parse_entries
  parse_tunnel_dns raw = or_error (parse_entries trim_space check_server (split b',' raw))

abbrev pub port_of : Text → Text → Text
port_of default_port addr = elim (split_host_port addr) [
  | none ↦ default_port
  | some (host, port) ↦ if text_beq port [] then default_port else port
]

-- The loop of firstRunPorts, with the ports seen.
unfoldable pub fresh_ports : List Text → List Text → Text → List Text
fresh_ports seen [] default_port = []
fresh_ports seen (addr ∷ addrs) default_port =
    let port = port_of default_port addr in
    let again = fresh_ports seen addrs default_port in
    let first = fresh_ports (port ∷ seen) addrs default_port in
    if contains seen port then again else port ∷ first

-- firstRunPorts.
abbrev pub first_run_ports : List Text → Text → List Text
first_run_ports addrs default_port = fresh_ports [] addrs default_port
