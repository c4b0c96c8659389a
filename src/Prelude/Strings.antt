-- ===== src/Prelude/Strings.antt =====
-- Go strings as lists of bytes, and what the program uses of package strings. `to_lower` treats
-- ASCII letters; other bytes are left as they are.
use Prim.Native.Nat.{ℕ, ◌+◌}
use Prim.Native.Char.{code}
use Prim.Native.String.{String}
use mathlib.Core.Path.{◌≡◌, refl, ap}
use mathlib.Core.Logic.{◌↔◌, ◌≢◌, inl, inr}
use mathlib.Core.Bool.{Bool, true, false, ◌&&◌, ◌||◌}
use mathlib.Core.List.{List, [], ◌∷◌, ◌++◌, reverse}
use native.Mathlib.Omega.{arith}
use ssh_gate.Prelude.Tests.{leb, ◌==◌, if◌then◌else◌, Eq, Bool-cases}
use ssh_gate.Prelude.Lists.{length, drop}

abbrev pub Text : Type 0
Text = List ℕ

abbrev pub codes : String → Text
codes String.[] = []
codes (String.◌∷◌ c s) = code c ∷ codes s

abbrev pub text_beq : Text → Text → Bool
text_beq [] [] = true
text_beq [] (d ∷ t) = false
text_beq (c ∷ s) [] = false
text_beq (c ∷ s) (d ∷ t) = (c == d) && text_beq s t

pub text_beq_iff : (s t : Text) → (text_beq s t ≡ true) ↔ (s ≡ t)
text_beq_iff [] [] = ground arith
text_beq_iff [] (d ∷ t) = ground arith
text_beq_iff (c ∷ s) [] = ground arith
text_beq_iff (c ∷ s) (d ∷ t) = ground (arith, text_beq_iff s t)

pub text_beq_ne : (s t : Text) → s ≢ t → text_beq s t ≡ false
text_beq_ne s t h = elim (Bool-cases (text_beq s t)) [
  | inr e ↦ e
  | inl e ↦ absurd (h ((text_beq_iff s t).0 e))
]

instance abbrev pub text_eq : Eq Text
text_eq = record { beq = text_beq; beq_iff = text_beq_iff }

-- strings.ToLower.
abbrev pub lower : ℕ → ℕ
lower c = if leb b'A' c && leb c b'Z' then c + 32 else c

abbrev pub to_lower : Text → Text
to_lower [] = []
to_lower (c ∷ s) = lower c ∷ to_lower s

-- strings.HasPrefix.
abbrev pub has_prefix : Text → Text → Bool
has_prefix s [] = true
has_prefix [] (d ∷ t) = false
has_prefix (c ∷ s) (d ∷ t) = (c == d) && has_prefix s t

-- strings.TrimPrefix.
abbrev pub trim_prefix : Text → Text → Text
trim_prefix s t = if has_prefix s t then drop (length t) s else s

-- strings.HasSuffix: some tail of `s` is `t`.
abbrev pub has_suffix : Text → Text → Bool
has_suffix [] t = text_beq [] t
has_suffix (c ∷ s) t = text_beq (c ∷ s) t || has_suffix s t

-- strings.TrimSuffix with a suffix of one byte.
abbrev pub trim_last : Text → ℕ → Text
trim_last [] d = []
trim_last (c ∷ []) d = if c == d then [] else c ∷ []
trim_last (c ∷ c' ∷ s) d = c ∷ trim_last (c' ∷ s) d

-- strings.Contains.
abbrev pub contains_text : Text → Text → Bool
contains_text [] t = has_prefix [] t
contains_text (c ∷ s) t = has_prefix (c ∷ s) t || contains_text s t

abbrev pub is_space : ℕ → Bool
is_space c = c == 32 || (leb 9 c && leb c 13)

abbrev pub trim_left : Text → Text
trim_left [] = []
trim_left (c ∷ s) = if is_space c then trim_left s else c ∷ s

-- strings.TrimSpace.
abbrev pub trim_space : Text → Text
trim_space s = reverse (trim_left (reverse (trim_left s)))

abbrev pub push_head : ℕ → List Text → List Text
push_head c [] = (c ∷ []) ∷ []
push_head c (w ∷ ws) = (c ∷ w) ∷ ws

-- strings.Split at one byte: always at least one piece.
abbrev pub split : ℕ → Text → List Text
split d [] = [] ∷ []
split d (c ∷ s) = let rest = split d s in if c == d then [] ∷ rest else push_head c rest

module _ (t : Text) where
  -- A suffix is what is left behind some prefix.
  pub has_suffix-eq_append : (s : Text) → has_suffix s t ≡ true → (p : Text) × (s ≡ p ++ t)
  has_suffix-eq_append [] h = ([], (text_beq_iff [] t).0 h)
  has_suffix-eq_append (c ∷ s) h = elim (Bool-cases (text_beq (c ∷ s) t)) [
    | inl e ↦ ([], (text_beq_iff (c ∷ s) t).0 e)
    | inr e ↦ let (p, q) = has_suffix-eq_append s (ground arith) in (c ∷ p, ap (◌∷◌ c) q)
  ]

  has_suffix_self : has_suffix t t ≡ true
  has_suffix_self = go t refl
    where
      go : (s : Text) → s ≡ t → has_suffix s t ≡ true
      go [] e = (text_beq_iff [] t).1 e
      go (c ∷ s) e = rw ((text_beq_iff (c ∷ s) t).1 e)

  pub has_suffix-append : (p : Text) → has_suffix (p ++ t) t ≡ true
  has_suffix-append [] = has_suffix_self
  has_suffix-append (c ∷ p) = ground (arith, has_suffix-append p)

-- To canonicalise twice changes nothing more.
pub lower_idem : (c : ℕ) → lower (lower c) ≡ lower c
lower_idem c = ground arith

pub to_lower_idem : (s : Text) → to_lower (to_lower s) ≡ to_lower s
to_lower_idem [] = refl
to_lower_idem (c ∷ s) = cc (lower_idem c, to_lower_idem s)
