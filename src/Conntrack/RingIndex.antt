-- ===== src/Conntrack/RingIndex.antt =====
-- conntrack.go: what the ring buffer is meant to hold, and its indices.
use native.Mathlib.Decide.{dec_lt}
use native.Mathlib.Nat.{add-zero, mod-add-mod, mod-eq_of_lt, mod-eq-sub-mod}
use ssh_gate.Prelude.{
  ℕ, zero, suc, ◌+◌, ◌-◌, ◌%◌, ◌≤◌, ◌<◌, ◌≡◌, refl, ap, ◌∙◌, ◌⊎◌, inl, inr, ◌≢◌, leb, List, [], ◌∷◌,
  ◌++◌, if◌then◌else◌, true, false, get_or, set, drop, length, get_or-set_ne, arith,
}
use ssh_gate.Conntrack.Records.{ConnRecord, ConnTracker, zero_record}
use ssh_gate.Conntrack.Ring.{collect}

-- The ring's indices are in range.
pub record RingOk (t : ConnTracker) : Type 0 where
  pub capacity_pos : 0 < t.capacity
  pub head_lt : t.ring_head < t.capacity
  pub count_le : t.ring_count ≤ t.capacity
  pub length_eq : length t.ring ≡ t.capacity

-- What pruneRing promises of the list: the records that are too old are gone from its front.
abbrev pub expire : ℕ → ℕ → List ConnRecord → List ConnRecord
expire now max_age [] = []
expire now max_age (r ∷ rs) =
    if leb now (r.closed_at + max_age) then r ∷ rs else expire now max_age rs

-- The last `n` entries.
abbrev pub keep_last : ℕ → List ConnRecord → List ConnRecord
keep_last n rs = drop (length rs - n) rs

module _ (now max_age : ℕ) (r : ConnRecord) (rs : List ConnRecord) where
  pub expire_young : leb now (r.closed_at + max_age) ≡ true → expire now max_age (r ∷ rs) ≡ r ∷ rs
  expire_young h = rw h

  pub expire_old :
      leb now (r.closed_at + max_age) ≡ false → expire now max_age (r ∷ rs) ≡ expire now max_age rs
  expire_old h = rw h

pub wrap_cases : (x c : ℕ) → x < c + c → ((x < c) × (x % c ≡ x)) ⊎ ((c ≤ x) × (x % c ≡ x - c))
wrap_cases x c h = elim (dec_lt x c) [
  | yes p ↦ inl (p, mod-eq_of_lt p)
  | no p ↦ inr (omega arith, mod-eq-sub-mod (omega arith) ∙ mod-eq_of_lt (omega arith))
]

pub step_index : (h i c : ℕ) → ((h + 1) % c + i) % c ≡ (h + (i + 1)) % c
step_index h i c = mod-add-mod (h + 1) c i ∙ ap (λ x. x % c) (omega arith)

pub ne_index : (h i k c : ℕ) → h < c → i < c → k < c → i ≢ k → (h + i) % c ≢ (h + k) % c
ne_index h i k c ph pi pk ne e =
    omega (arith, wrap_cases (h + i) c (omega arith), wrap_cases (h + k) c (omega arith))

-- A record behind the last one.
pub collect-suc :
    (t : ConnTracker) (i n : ℕ)
    → collect t i (suc n)
      ≡ collect t i n ++ get_or t.ring ((t.ring_head + (i + n)) % t.capacity) zero_record ∷ []
unfolding collect
collect-suc t i zero = rw (add-zero i)
collect-suc t i (suc n) =
    let e : i + 1 + n ≡ i + suc n = omega arith in cc (collect-suc t (i + 1) n, e)

-- The head moved by one is an offset of one.
pub collect-advance :
    (t : ConnTracker) (i n : ℕ)
    → collect (record t { ring_head = (t.ring_head + 1) % t.capacity }) i n ≡ collect t (i + 1) n
unfolding collect
collect-advance t i zero = refl
collect-advance t i (suc n) = rw (step_index t.ring_head i t.capacity, collect-advance t (i + 1) n)

-- A write at another offset is not seen.
pub collect-set :
    (t : ConnTracker) (k : ℕ) (r : ConnRecord) (i n : ℕ)
    → t.ring_head < t.capacity
    → k < t.capacity
    → i + n ≤ t.capacity
    → (k < i) ⊎ (i + n ≤ k)
    → collect (record t { ring = set t.ring ((t.ring_head + k) % t.capacity) r }) i n
      ≡ collect t i n
unfolding collect
collect-set t k r i zero a b c d = refl
collect-set t k r i (suc n) a b c d = rw (
  get_or-set_ne t.ring _ ((t.ring_head + i) % t.capacity) r zero_record
      (ne_index t.ring_head k i t.capacity a b (omega arith) (omega arith)),
  collect-set t k r (i + 1) n a b (omega arith) (omega arith),
)

-- One more record in front, with the head moved back by one.
pub collect-cons :
    (t : ConnTracker) (n : ℕ)
    → t.ring_head < t.capacity
    → collect t 0 (suc n)
      ≡ get_or t.ring t.ring_head zero_record
        ∷ collect (record t { ring_head = (t.ring_head + 1) % t.capacity }) 0 n
unfolding collect
collect-cons t n h =
    let e : (t.ring_head + 0) % t.capacity ≡ t.ring_head =
      rw (add-zero t.ring_head) (mod-eq_of_lt h) in
    cc (e, collect-advance t 0 n)
