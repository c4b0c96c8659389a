-- ===== src/Syntax/RoundTrip.antt =====
-- net.SplitHostPort takes apart what net.JoinHostPort puts together.
use ssh_gate.Prelude.{
  ℕ, ◌≡◌, refl, false, ◌||◌, [], ◌∷◌, ◌++◌, none, some, Text, All, inl, inr, Bool-cases, arith,
}
use ssh_gate.Syntax.HostPort.{has_byte, cut, cut_last, split_host_port, join_host_port}
use ssh_gate.Syntax.Decimal.{IsDigit, itoa, itoa-All}

-- A text without brackets, as every address and every domain name.
abbrev pub NoBrackets : Text → Type 0
NoBrackets s = (has_byte b'[' s ≡ false) × (has_byte b']' s ≡ false)

-- A port has neither a colon nor a bracket.
abbrev pub IsPlain : Text → Type 0
IsPlain s = (has_byte b':' s ≡ false) × NoBrackets s

pub cut-append : (d : ℕ) (s t : Text) → has_byte d s ≡ false → cut d (s ++ (d ∷ t)) ≡ some (s, t)
cut-append d [] t h = ground arith
cut-append d (c ∷ s) t h = ground (arith, cut-append d s t)

cut_last-none : (d : ℕ) (s : Text) → has_byte d s ≡ false → cut_last d s ≡ none
cut_last-none d [] h = refl
cut_last-none d (c ∷ s) h = ground (arith, cut_last-none d s)

cut_last-append :
    (d : ℕ) (s t : Text) → has_byte d t ≡ false → cut_last d (s ++ (d ∷ t)) ≡ some (s, t)
cut_last-append d [] t h = ground (arith, cut_last-none d t h)
cut_last-append d (c ∷ s) t h = ground (arith, cut_last-append d s t)

has_byte-append : (d : ℕ) (s t : Text) → has_byte d (s ++ t) ≡ (has_byte d s || has_byte d t)
has_byte-append d [] t = refl
has_byte-append d (c ∷ s) t = ground (arith, has_byte-append d s t)

digits-IsPlain : (s : Text) → All IsDigit s → IsPlain s
digits-IsPlain [] h = (refl, (refl, refl))
digits-IsPlain (c ∷ s) h = let r = digits-IsPlain s h.1 in ground arith

pub itoa-IsPlain : (n : ℕ) → IsPlain (itoa n)
itoa-IsPlain n = digits-IsPlain (itoa n) (itoa-All n)

bracketed :
    (host port : Text)
    → NoBrackets host
    → IsPlain port
    → split_host_port (b'[' ∷ (host ++ (b']' ∷ b':' ∷ port))) ≡ some (host, port)
unfolding split_host_port
bracketed host port h p = ground (arith, cut-append b']' host (b':' ∷ port))

plain :
    (host port : Text)
    → has_byte b':' host ≡ false
    → NoBrackets host
    → IsPlain port
    → split_host_port (host ++ (b':' ∷ port)) ≡ some (host, port)
unfolding split_host_port
plain [] port c h p = ground (arith, cut_last-append b':' [] port)
plain (x ∷ host) port c h p = ground (
  arith,
  cut_last-append b':' (x ∷ host) port,
  has_byte-append b'[' (x ∷ host) (b':' ∷ port),
  has_byte-append b']' (x ∷ host) (b':' ∷ port),
)

-- A host and a port come back from the address that they make, also an IPv6 address, which gets
-- brackets.
pub split_host_port-join_host_port :
    (host port : Text)
    → NoBrackets host
    → IsPlain port
    → split_host_port (join_host_port host port) ≡ some (host, port)
split_host_port-join_host_port host port h p = elim (Bool-cases (has_byte b':' host)) [
  | inl colon ↦ rw colon (bracketed host port h p)
  | inr none_there ↦ rw none_there (plain host port none_there h p)
]
