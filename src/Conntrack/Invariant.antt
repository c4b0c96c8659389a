-- ===== src/Conntrack/Invariant.antt =====
-- conntrack.go: what holds of the tracker between two operations. Every id stands in the active map
-- or in the history, never in both.
use ssh_gate.Prelude.{
  ℕ, zero, suc, ◌+◌, ◌-◌, ◌≤◌, ◌<◌, ◌≡◌, sym, ◌∙◌, ◌⊎◌, inl, inr, ◌≢◌, leb, List, [], ◌∷◌, ◌++◌,
  none, some, length, drop, lookup, insert, delete, Distinct, nat_eq, All, All-mono, All-drop,
  All-append, All-delete, All-lookup, insert-Distinct, delete-Distinct, lookup-delete,
  lookup-insert, Bool-cases, arith,
}
use ssh_gate.Conntrack.Records.{ConnState, dialing, active, closed, failed, ConnRecord, ConnTracker}
use ssh_gate.Conntrack.Ring.{history}
use ssh_gate.Conntrack.RingIndex.{RingOk, expire, keep_last}

abbrev pub IsFinal : ConnState → Type 0
IsFinal s = (s ≡ closed) ⊎ (s ≡ failed)

abbrev pub IsOpen : ConnState → Type 0
IsOpen s = (s ≡ dialing) ⊎ (s ≡ active)

-- An entry of the active map, where `last` is the last id given out.
pub record IsLive (last : ℕ) (entry : ℕ × ConnRecord) : Type 0 where
  pub own_id : entry.1.id ≡ entry.0
  pub known : entry.0 ≤ last
  pub status_open : IsOpen entry.1.status

-- A record of the history.
pub record IsGone (entries : List (ℕ × ConnRecord)) (last : ℕ) (rec : ConnRecord) : Type 0 where
  pub not_active : lookup rec.id entries ≡ none
  pub known : rec.id ≤ last
  pub status_final : IsFinal rec.status

abbrev pub OtherId : ℕ → ConnRecord → Type 0
OtherId id r = r.id ≢ id

abbrev pub DistinctIds : List ConnRecord → Type 0
DistinctIds [] = Unit
DistinctIds (r ∷ rs) = All (OtherId r.id) rs × DistinctIds rs

-- What holds of a map and a history, whatever holds them.
pub record Books (entries : List (ℕ × ConnRecord)) (past : List ConnRecord) (last : ℕ)
    : Type 0 where
  pub distinct : Distinct entries
  pub live : All (IsLive last) entries
  pub gone : All (IsGone entries last) past
  pub once : DistinctIds past

pub record IsValid (t : ConnTracker) : Type 0 where
  pub ring_ok : RingOk t
  pub books : Books t.active (history t) t.next_id

module _ (P : ConnRecord → Type 0) where
  All-expire : (now max_age : ℕ) (rs : List ConnRecord) → All P rs → All P (expire now max_age rs)
  All-expire now max_age [] h = tt
  All-expire now max_age (r ∷ rs) h = elim (Bool-cases (leb now (r.closed_at + max_age))) [
    | inl e ↦ rw e h
    | inr e ↦ rw e (All-expire now max_age rs h.1)
  ]

DistinctIds-expire :
    (now max_age : ℕ) (rs : List ConnRecord) → DistinctIds rs → DistinctIds (expire now max_age rs)
DistinctIds-expire now max_age [] h = tt
DistinctIds-expire now max_age (r ∷ rs) h = elim (Bool-cases (leb now (r.closed_at + max_age))) [
  | inl e ↦ rw e h
  | inr e ↦ rw e (DistinctIds-expire now max_age rs h.1)
]

DistinctIds-drop : (n : ℕ) (rs : List ConnRecord) → DistinctIds rs → DistinctIds (drop n rs)
DistinctIds-drop zero rs h = h
DistinctIds-drop (suc n) [] h = tt
DistinctIds-drop (suc n) (r ∷ rs) h = DistinctIds-drop n rs h.1

DistinctIds-append :
    (rec : ConnRecord) (rs : List ConnRecord)
    → All (OtherId rec.id) rs
    → DistinctIds rs
    → DistinctIds (rs ++ rec ∷ [])
DistinctIds-append rec [] fresh h = (tt, tt)
DistinctIds-append rec (r ∷ rs) fresh h = (
  All-append (OtherId r.id) rs (rec ∷ []) h.0 ((λ e. fresh.0 (sym e)), tt),
  DistinctIds-append rec rs fresh.1 h.1,
)

-- A record moves from the map to the end of the history, and old ones leave the front.
pub Books-move :
    (entries : List (ℕ × ConnRecord)) (past : List ConnRecord) (last id : ℕ) (old rec : ConnRecord)
    (now max_age cap : ℕ)
    → Books entries past last
    → lookup id entries ≡ some old
    → rec.id ≡ id
    → IsFinal rec.status
    → Books (delete id entries) (keep_last cap (expire now max_age past ++ rec ∷ [])) last
Books-move entries past last id old rec now max_age cap b found same final = record {
  distinct = delete-Distinct id entries b.distinct;
  live = All-delete (IsLive last) id entries b.live;
  gone = All-drop _ (length kept - cap) kept gone_kept;
  once =
      DistinctIds-drop (length kept - cap) kept
        (DistinctIds-append rec _ fresh (DistinctIds-expire now max_age past b.once));
}
  where
    kept : List ConnRecord
    kept = expire now max_age past ++ rec ∷ []

    moved : IsGone (delete id entries) last rec
    moved =
        let l = All-lookup (IsLive last) id old entries b.live found in
        record {
          not_active = ground (arith, lookup-delete id rec.id entries);
          known = omega (arith, l.known);
          status_final = final;
        }

    weaken : (r : ConnRecord) → IsGone entries last r → IsGone (delete id entries) last r
    weaken r g = record {
      not_active = ground (arith, lookup-delete id r.id entries, g.not_active);
      known = g.known;
      status_final = g.status_final;
    }

    gone_kept : All (IsGone (delete id entries) last) kept
    gone_kept =
        All-append _ (expire now max_age past) (rec ∷ [])
          (All-expire _ now max_age past (All-mono _ _ weaken past b.gone)) (moved, tt)

    other : (r : ConnRecord) → IsGone entries last r → OtherId rec.id r
    other r g e = cc (g.not_active, found)

    fresh : All (OtherId rec.id) (expire now max_age past)
    fresh = All-expire _ now max_age past (All-mono _ _ other past b.gone)

-- A new record, under an id that was never given out.
pub Books-add :
    (entries : List (ℕ × ConnRecord)) (past : List ConnRecord) (last id : ℕ) (rec : ConnRecord)
    → Books entries past last
    → last < id
    → rec.id ≡ id
    → IsOpen rec.status
    → Books (insert id rec entries) past id
Books-add entries past last id rec b fresh same is_open = record {
  distinct = insert-Distinct id rec entries b.distinct;
  live = (
    record { own_id = same; known = omega arith; status_open = is_open },
    All-delete (IsLive id) id entries (All-mono (IsLive last) (IsLive id) older entries b.live),
  );
  gone = All-mono _ _ weaken past b.gone;
  once = b.once;
}
  where
    older : (e : ℕ × ConnRecord) → IsLive last e → IsLive id e
    older e l = record {
      own_id = l.own_id;
      known = omega (arith, l.known);
      status_open = l.status_open;
    }

    weaken : (r : ConnRecord) → IsGone entries last r → IsGone (insert id rec entries) id r
    weaken r g = record {
      not_active = ground (arith, lookup-insert id r.id rec entries, g.not_active, g.known);
      known = omega (arith, g.known);
      status_final = g.status_final;
    }

-- A record of the map changes, and keeps its id.
pub Books-update :
    (entries : List (ℕ × ConnRecord)) (past : List ConnRecord) (last id : ℕ) (old rec : ConnRecord)
    → Books entries past last
    → lookup id entries ≡ some old
    → rec.id ≡ old.id
    → IsOpen rec.status
    → Books (insert id rec entries) past last
Books-update entries past last id old rec b found same is_open = record {
  distinct = insert-Distinct id rec entries b.distinct;
  live = (
    record { own_id = same ∙ l.own_id; known = l.known; status_open = is_open },
    All-delete (IsLive last) id entries b.live,
  );
  gone = All-mono _ _ weaken past b.gone;
  once = b.once;
}
  where
    l : IsLive last (id, old)
    l = All-lookup (IsLive last) id old entries b.live found

    weaken : (r : ConnRecord) → IsGone entries last r → IsGone (insert id rec entries) last r
    weaken r g = record {
      not_active = ground (arith, lookup-insert id r.id rec entries, g.not_active, found);
      known = g.known;
      status_final = g.status_final;
    }

-- Old records leave the history.
pub Books-expire :
    (entries : List (ℕ × ConnRecord)) (past : List ConnRecord) (last now max_age : ℕ)
    → Books entries past last
    → Books entries (expire now max_age past) last
Books-expire entries past last now max_age b = record {
  distinct = b.distinct;
  live = b.live;
  gone = All-expire _ now max_age past b.gone;
  once = DistinctIds-expire now max_age past b.once;
}
