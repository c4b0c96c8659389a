-- ===== src/Syntax/Decimal.antt =====
-- strconv.Atoi and strconv.Itoa: decimal numbers in texts.
use ssh_gate.Prelude.{
  ℕ, zero, suc, ◌+◌, ◌-◌, ◌*◌, ◌/◌, ◌%◌, ◌^◌, ◌≤◌, ◌<◌, ◌≡◌, ◌≢◌, refl, ◌==◌, ltb, Bool, true,
  false, ◌||◌, [], ◌∷◌, Option, none, some, Text, if◌then◌else◌, All, arith,
}

-- A Go int: `negsuc n` is -(n + 1).
pub data ℤ : Type 0 where
  pos negsuc : ℕ → ℤ

abbrev pub max_int : ℕ
max_int = 2 ^ 63 - 1

-- The value of digits behind `n`; `none` is a byte that is no digit.
unfoldable pub scan : Text → ℕ → Option ℕ
scan [] n = some n
scan (c ∷ s) n =
    let rest = scan s (n * 10 + (c - b'0')) in if ltb c b'0' || ltb b'9' c then none else rest

abbrev pub scan_digits : Text → Option ℕ
scan_digits [] = none
scan_digits (c ∷ s) = scan (c ∷ s) 0

abbrev pub signed : Bool → ℕ → Option ℤ
signed false n = if ltb max_int n then none else some (pos n)
signed true zero = some (pos 0)
signed true (suc n) = if ltb max_int n then none else some (negsuc n)

-- strconv.Atoi; `none` is its error.
unfoldable pub atoi : Text → Option ℤ
unfolding scan
atoi [] = none
atoi (c ∷ s) =
    let negative = c == b'-' in
    elim (scan_digits (if negative || c == b'+' then s else c ∷ s)) [
      | none ↦ none
      | some n ↦ signed negative n
    ]

-- The number that strconv.Atoi returns beside its error: 0, or the bound that was exceeded.
abbrev pub bounded : Bool → Option ℕ → ℤ
bounded negative none = pos 0
bounded false (some n) = if ltb max_int n then pos max_int else pos n
bounded true (some n) = if ltb max_int n then negsuc max_int else negated n
  where
    negated : ℕ → ℤ
    negated zero = pos 0
    negated (suc n) = negsuc n

abbrev pub atoi_value : Text → ℤ
atoi_value [] = pos 0
atoi_value (c ∷ s) = bounded (c == b'-') (scan_digits (if c == b'-' || c == b'+' then s else c ∷ s))

-- The digits of `n`, in front of `out`; `fuel` rounds.
unfoldable pub digits : ℕ → ℕ → Text → Text
digits zero n out = out
digits (suc fuel) n out =
    let more = digits fuel (n / 10) ((b'0' + n % 10) ∷ out) in
    if ltb n 10 then (b'0' + n) ∷ out else more

-- strconv.Itoa, of a number that is not negative: an int has at most 19 digits.
unfoldable pub itoa : ℕ → Text
unfolding digits
itoa n = digits 19 n []

abbrev pub IsDigit : ℕ → Type 0
IsDigit c = (b'0' ≤ c) × (c ≤ b'9')

-- `fuel` rounds are enough for a number of `fuel` digits.
scan-digits :
    (fuel n : ℕ) (out : Text) → n < 10 ^ suc fuel → scan (digits (suc fuel) n out) 0 ≡ scan out n
unfolding scan digits
scan-digits zero n out h = ground arith
scan-digits (suc fuel) n out h = ground (arith, scan-digits fuel (n / 10) ((b'0' + n % 10) ∷ out))

digits-All : (fuel n : ℕ) (out : Text) → All IsDigit out → All IsDigit (digits fuel n out)
unfolding digits
digits-All zero n out h = h
digits-All (suc fuel) n out h = ground (arith, digits-All fuel (n / 10) ((b'0' + n % 10) ∷ out))

pub itoa-All : (n : ℕ) → All IsDigit (itoa n)
unfolding itoa
itoa-All n = digits-All 19 n [] tt

digits-ne-nil : (fuel n : ℕ) (out : Text) → digits (suc fuel) n out ≢ []
unfolding digits
digits-ne-nil zero n out = ground arith
digits-ne-nil (suc fuel) n out = ground (arith, digits-ne-nil fuel (n / 10) ((b'0' + n % 10) ∷ out))

pub itoa-ne-nil : (n : ℕ) → itoa n ≢ []
unfolding itoa
itoa-ne-nil n = digits-ne-nil 18 n []

-- Digits are read without a sign.
atoi_digits :
    (s : Text) (n : ℕ)
    → s ≢ []
    → All IsDigit s
    → scan s 0 ≡ some n
    → n ≤ max_int
    → atoi s ≡ some (pos n)
unfolding atoi
atoi_digits [] n h d e fits = absurd (h refl)
atoi_digits (c ∷ s) n h d e fits = ground arith

pub atoi-itoa : (n : ℕ) → n ≤ max_int → atoi (itoa n) ≡ some (pos n)
unfolding itoa scan
atoi-itoa n h =
    atoi_digits (itoa n) n (itoa-ne-nil n) (itoa-All n) (scan-digits 18 n [] (omega arith)) h

-- Without an error, it is the number that is returned.
pub atoi_value_lem : (s : Text) (n : ℤ) → atoi s ≡ some n → atoi_value s ≡ n
unfolding atoi
atoi_value_lem [] n h = absurd (ground arith)
atoi_value_lem (c ∷ s) n h =
    go (c == b'-') (scan_digits (if c == b'-' || c == b'+' then s else c ∷ s)) h
  where
    go :
        (negative : Bool) (o : Option ℕ)
        → ◌≡◌ {A = Option ℤ} (elim o [ none ↦ none | some m ↦ signed negative m ]) (some n)
        → bounded negative o ≡ n
    go negative none e = absurd (ground arith)
    go false (some m) e = ground arith
    go true (some zero) e = ground arith
    go true (some (suc m)) e = ground arith
