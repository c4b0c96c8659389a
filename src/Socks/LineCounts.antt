-- ===== src/Socks/LineCounts.antt =====
-- socks5.go: how many lines, open requests and open conns have a number, and how one operation changes that.
use ssh_gate.Prelude.{
  ℕ, zero, suc, ◌+◌, ◌≤◌, leb, ◌==◌, ◌&&◌, ◌≡◌, refl, inl, inr, Bool, false, List, [], ◌∷◌, ◌++◌,
  Option, none, some, Text, codes, lookup, text_eq, if◌then◌else◌, Bool-cases, arith,
}
use ssh_gate.Conntrack.Conn.{IoError}
use ssh_gate.Socks.LogConn.{LogConn, close}
use ssh_gate.Socks.Lines.{
  Value, num, int, str, LogLine, ConnInfo, fields, Relay, end_fields, error_lines, close_at,
  move_at, Event, fails, starts, asks, take_at, reads, writes, closes,
}

-- A reader of a log: whether a line has the number, and how many lines do.
abbrev pub is_num : ℕ → Option Value → Bool
is_num k none = false
is_num k (some (num n)) = n == k
is_num k (some (int z)) = false
is_num k (some (str t)) = false

unfoldable pub lines_of : ℕ → List LogLine → ℕ
lines_of k [] = 0
lines_of k (line ∷ log) =
    let rest = lines_of k log in if is_num k (lookup (codes "conn_id") line) then rest + 1 else rest

-- The open conns of a number.
unfoldable pub pending : ℕ → List Relay → ℕ
pending k [] = 0
pending k (r ∷ rs) =
    let rest = pending k rs in
    if r.conn.closed then rest else if r.info.id == k then rest + 1 else rest

-- One for each number that has been given.
abbrev pub issued : ℕ → ℕ → ℕ
issued k last = if leb 1 k && leb k last then 1 else 0

abbrev pub requests : List Event → ℕ
requests [] = 0
requests (asks c ∷ es) = suc (requests es)
requests (fails i o result error ∷ es) = requests es
requests (starts i o ∷ es) = requests es
requests (reads i n e ∷ es) = requests es
requests (writes i n e ∷ es) = requests es
requests (closes i ms ∷ es) = requests es

pub requests-∷ : (e : Event) (es : List Event) → requests (e ∷ es) ≡ requests (e ∷ []) + requests es
requests-∷ (asks c) es = omega arith
requests-∷ (fails i o result error) es = omega arith
requests-∷ (starts i o) es = omega arith
requests-∷ (reads i n e) es = omega arith
requests-∷ (writes i n e) es = omega arith
requests-∷ (closes i ms) es = omega arith

pub issued_none : (k : ℕ) → issued k 0 ≡ 0
issued_none k = grind arith

abbrev pub once : ℕ → ℕ → ℕ
once k id = if id == k then 1 else 0

pub lines_of-fields :
    (k : ℕ) (c : ConnInfo) (rest : LogLine) (log : List LogLine)
    → lines_of k ((fields c ++ rest) ∷ log) ≡ once k c.id + lines_of k log
unfolding lines_of fields
lines_of-fields k c rest log = ground arith

pub lines_of-++ :
    (k : ℕ) (new log : List LogLine) → lines_of k (new ++ log) ≡ lines_of k new + lines_of k log
unfolding lines_of
lines_of-++ k [] log = omega arith
lines_of-++ k (line ∷ new) log = ground (arith, lines_of-++ k new log)

-- The open requests of a number.
unfoldable pub asked : ℕ → List ConnInfo → ℕ
asked k [] = 0
asked k (c ∷ cs) = once k c.id + asked k cs

abbrev pub taken : ℕ → Option ConnInfo → ℕ
taken k none = 0
taken k (some c) = once k c.id

pub asked-take_at :
    (k i : ℕ) (cs : List ConnInfo)
    → taken k (take_at i cs).0 + asked k (take_at i cs).1 ≡ asked k cs
unfolding asked
asked-take_at k i [] = omega arith
asked-take_at k zero (c ∷ cs) = refl
asked-take_at k (suc i) (c ∷ cs) = omega (arith, asked-take_at k i cs)

pub pending-move_at :
    (k i : ℕ) (move : LogConn → LogConn) (rs : List Relay)
    → ((l : LogConn) → (move l).closed ≡ l.closed)
    → pending k (move_at move i rs) ≡ pending k rs
unfolding pending move_at
pending-move_at k i move [] kept = refl
pending-move_at k zero move (r ∷ rs) kept = rw (kept r.conn) refl
pending-move_at k (suc i) move (r ∷ rs) kept = ground (arith, pending-move_at k i move rs kept)

module _ (error_text : IoError → Text) where
  error_lines_le :
      (k : ℕ) (c : ConnInfo) (ends : LogLine) (e : Option IoError)
      → lines_of k (error_lines error_text c ends e) ≤ once k c.id
  unfolding lines_of error_lines
  error_lines_le k c ends none = omega arith
  error_lines_le k c ends (some e) =
      omega (arith, lines_of-fields k c (ends ++ (codes "error", str (error_text e)) ∷ []) [])

  pub close_at-lines :
      (k ms i : ℕ) (rs : List Relay)
      → let (rs', logs) = close_at error_text ms i rs in
        (lines_of k logs.0 + pending k rs' ≡ pending k rs) × (lines_of k logs.1 ≤ lines_of k logs.0)
  unfolding close_at pending lines_of close
  close_at-lines k ms i [] = (omega arith, omega arith)
  close_at-lines k ms zero (r ∷ rs) = elim (Bool-cases r.conn.closed) [
    | inl e ↦ (ground arith, ground arith)
    | inr e ↦
        let told = lines_of-fields k r.info (end_fields ms r.conn) [] in
        let error = error_lines_le k r.info (end_fields ms r.conn) r.conn.first_err in
        (ground (arith, told, error), ground (arith, told, error))
  ]
  close_at-lines k ms (suc i) (r ∷ rs) = ground (arith, close_at-lines k ms i rs)
