-- ===== src/Service/Reading.antt =====
-- journal.go: a reader of the native protocol of the journal, as its documentation describes it, takes
-- an entry apart.
use ssh_gate.Prelude.{
  ℕ, zero, suc, ◌+◌, ◌*◌, ◌/◌, ◌^◌, ◌≤◌, ◌<◌, ◌≡◌, refl, ap, ◌∙◌, ◌==◌, false, List, [], ◌∷◌, ◌++◌,
  Option, none, some, Text, codes, length, take, drop, trim_last, if◌then◌else◌, All, arith,
}
use ssh_gate.Syntax.Decimal.{itoa, itoa-All, IsDigit}
use ssh_gate.Syntax.HostPort.{cut, has_byte}
use ssh_gate.Syntax.RoundTrip.{cut-append}
use ssh_gate.Service.Journal.{Level, journal_priority, newline, little_endian, journal_entry}

abbrev pub le_value : Text → ℕ
le_value [] = 0
le_value (b ∷ bs) = b + 256 * le_value bs

abbrev pub push_field : Text × Text → Option (List (Text × Text)) → Option (List (Text × Text))
push_field field none = none
push_field field (some fields) = some (field ∷ fields)

-- Behind the data of a field, a newline.
abbrev pub behind : Text → Option Text
behind [] = none
behind (c ∷ rest) = if c == newline then some rest else none

-- A field is NAME=value and a newline, or NAME, a newline, the length of the value in 8 bytes, the
-- value, and a newline; `fuel` is more than the number of fields.
unfoldable pub read_fields : ℕ → Text → Option (List (Text × Text))
read_fields zero s = none
read_fields (suc fuel) [] = some []
read_fields (suc fuel) (c ∷ s) = elim (cut newline (c ∷ s)) [
  | none ↦ none
  | some (line, rest) ↦ elim (cut b'=' line) [
    | some (name, value) ↦ push_field (name, value) (read_fields fuel rest)
    | none ↦
        let n = le_value (take 8 rest) in
        elim (behind (drop n (drop 8 rest))) [
          | none ↦ none
          | some rest' ↦ push_field (line, take n (drop 8 rest)) (read_fields fuel rest')
        ]
  ]
]

-- One more than the greatest number of `k` bytes.
abbrev bound : ℕ → ℕ
bound zero = 1
bound (suc k) = 256 * bound k

le_value-little_endian : (k n : ℕ) → n < bound k → le_value (little_endian k n) ≡ n
unfolding little_endian
le_value-little_endian zero n h = omega arith
le_value-little_endian (suc k) n h =
    omega (arith, le_value-little_endian k (n / 256) (omega (arith, h)))

take_eight : (n : ℕ) (rest : Text) → take 8 (little_endian 8 n ++ rest) ≡ little_endian 8 n
unfolding little_endian
take_eight n rest = refl

drop_eight : (n : ℕ) (rest : Text) → drop 8 (little_endian 8 n ++ rest) ≡ rest
unfolding little_endian
drop_eight n rest = refl

take-append : (xs ys : Text) → take (length xs) (xs ++ ys) ≡ xs
take-append [] ys = refl
take-append (x ∷ xs) ys = ap (◌∷◌ x) (take-append xs ys)

drop-append : (xs ys : Text) → drop (length xs) (xs ++ ys) ≡ ys
drop-append [] ys = refl
drop-append (x ∷ xs) ys = drop-append xs ys

-- The message is read whole, whatever its bytes are.
read_message :
    (fuel : ℕ) (msg : Text)
    → length msg < 2 ^ 64
    → read_fields
        (suc (suc fuel))
        (codes "MESSAGE" ++ (newline ∷ (little_endian 8 (length msg) ++ (msg ++ newline ∷ []))))
      ≡ some ((codes "MESSAGE", msg) ∷ [])
unfolding read_fields
read_message fuel msg h =
    let size = le_value-little_endian 8 (length msg) (omega (arith, h)) in
    let eight = take_eight (length msg) (msg ++ newline ∷ []) in
    let after = drop_eight (length msg) (msg ++ newline ∷ []) in
    rw (eight, after, size, drop-append msg (newline ∷ []), read_fields)
      (rw (eight, after, size, take-append msg (newline ∷ [])))

-- What a line of text holds: no newline.
abbrev pub IsLine : Text → Type 0
IsLine s = has_byte newline s ≡ false

read_ident :
    (fuel : ℕ) (ident : Text) (rest : Text)
    → IsLine ident
    → read_fields (suc fuel) (codes "SYSLOG_IDENTIFIER=" ++ (ident ++ (newline ∷ rest)))
      ≡ push_field (codes "SYSLOG_IDENTIFIER", ident) (read_fields fuel rest)
unfolding read_fields
read_ident fuel ident rest h = rw (cut-append newline ident rest h, read_fields)

digits-IsLine : (s : Text) → All IsDigit s → IsLine s
digits-IsLine [] h = refl
digits-IsLine (c ∷ s) h = let rest = digits-IsLine s h.1 in ground arith

digit-IsLine : (n : ℕ) → n < 10 → IsLine (itoa n)
digit-IsLine n h = digits-IsLine (itoa n) (itoa-All n)

read_priority :
    (fuel n : ℕ) (rest : Text)
    → n < 10
    → read_fields (suc fuel) (codes "PRIORITY=" ++ (itoa n ++ (newline ∷ rest)))
      ≡ push_field (codes "PRIORITY", itoa n) (read_fields fuel rest)
unfolding read_fields
read_priority fuel n rest h = rw (cut-append newline (itoa n) rest (digit-IsLine n h), read_fields)

journal_priority_small : (level : Level) → journal_priority level < 10
journal_priority_small level = ground arith

length-trim_last : (s : Text) (d : ℕ) → length (trim_last s d) ≤ length s
length-trim_last [] d = omega arith
length-trim_last (c ∷ []) d = ground arith
length-trim_last (c ∷ c' ∷ s) d = omega (arith, length-trim_last (c' ∷ s) d)

-- journald reads every entry back as the three fields that were put in: the priority of the level,
-- the identifier, and the log line without its last newline, whatever bytes it holds.
pub read_fields-journal_entry :
    (ident : Text) (level : Level) (p : Text) (fuel : ℕ)
    → IsLine ident
    → length p < 2 ^ 64
    → read_fields (suc (suc (suc (suc fuel)))) (journal_entry ident level p)
      ≡ some (
          (codes "PRIORITY", itoa (journal_priority level))
          ∷ (codes "SYSLOG_IDENTIFIER", ident)
          ∷ (codes "MESSAGE", trim_last p newline)
          ∷ [])
unfolding journal_entry
read_fields-journal_entry ident level p fuel h small =
    let msg = trim_last p newline in
    read_priority (suc (suc (suc fuel))) (journal_priority level) _ (journal_priority_small level)
    ∙ ap (push_field (codes "PRIORITY", itoa (journal_priority level))) (
        read_ident (suc (suc fuel)) ident _ h
        ∙ ap (push_field (codes "SYSLOG_IDENTIFIER", ident))
            (read_message fuel msg (omega (arith, small, length-trim_last p newline))))
