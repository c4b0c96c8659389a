-- ===== src/Syntax/HostPort.antt =====
-- net.SplitHostPort and net.JoinHostPort.
use ssh_gate.Prelude.{
  ℕ, ◌==◌, Bool, ◌||◌, ◌&&◌, not, [], ◌∷◌, ◌++◌, Option, none, some, Text, if◌then◌else◌, any,
}

-- bytealg.IndexByteString: the text contains the byte.
abbrev pub has_byte : ℕ → Text → Bool
has_byte d s = any (λ c. c == d) s

-- What is before the first `d`, and behind it.
abbrev pub cut : ℕ → Text → Option (Text × Text)
cut d [] = none
cut d (c ∷ s) =
    if c == d then some ([], s) else elim (cut d s) [ none ↦ none | some (a, b) ↦ some (c ∷ a, b) ]

-- What is before the last `d`, and behind it.
abbrev pub cut_last : ℕ → Text → Option (Text × Text)
cut_last d [] = none
cut_last d (c ∷ s) = elim (cut_last d s) [
  | some (a, b) ↦ some (c ∷ a, b)
  | none ↦ if c == d then some ([], s) else none
]

-- The port behind a closed bracket: a colon follows it, and the last one of the text.
abbrev pub port_behind : Text → Text → Option (Text × Text)
port_behind host [] = none
port_behind host (c ∷ port) =
    if c == b':'
      && not
          (has_byte b':' port || (has_byte b'[' host || (has_byte b'[' port || has_byte b']' port)))
    then some (host, port)
    else none

abbrev pub split_plain : Text → Option (Text × Text)
split_plain s = elim (cut_last b':' s) [
  | none ↦ none
  | some (host, port) ↦
      if has_byte b':' host || (has_byte b'[' s || has_byte b']' s) then none else some (host, port)
]

-- net.SplitHostPort; `none` is its error.
unfoldable pub split_host_port : Text → Option (Text × Text)
split_host_port [] = none
split_host_port (c ∷ s) =
    if c == b'['
    then elim (cut b']' s) [ none ↦ none | some (host, rest) ↦ port_behind host rest ]
    else split_plain (c ∷ s)

-- net.JoinHostPort.
abbrev pub join_host_port : Text → Text → Text
join_host_port host port =
    if has_byte b':' host then b'[' ∷ (host ++ (b']' ∷ b':' ∷ port)) else host ++ (b':' ∷ port)
