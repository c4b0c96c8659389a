-- ===== src/Web/Totals.antt =====
-- health.go: the totals of the status page.
use ssh_gate.Prelude.{
  ℕ, ◌+◌, ◌≡◌, refl, sym, ap, ◌∙◌, inl, inr, Bool, true, false, List, [], ◌∷◌, some, Text, codes,
  text_beq, text_beq_iff, length, ◌||◌, Bool-cases, arith,
}
use ssh_gate.Config.Values.{contains}
use ssh_gate.Conntrack.Records.{ConnRecord, ConnTracker}
use ssh_gate.Conntrack.Tracker.{drop_stalled}
use ssh_gate.Conntrack.Listing.{active_by_proto, count_proto}
use ssh_gate.Web.Status.{
  Report, SshProbe, StatusPage, protos, sum_active, page_with, status_handler,
}

text_beq_sym : (s t : Text) → text_beq s t ≡ text_beq t s
text_beq_sym s t = ground (arith, text_beq_iff s t, text_beq_iff t s)

-- No text twice.
abbrev Once : List Text → Type 0
Once [] = Unit
Once (p ∷ ps) = (contains ps p ≡ false) × Once ps

protos-Once : (m : List (ℕ × ConnRecord)) → Once (protos m)
unfolding protos
protos-Once [] = tt
protos-Once ((id, r) ∷ m) = elim (Bool-cases (contains (protos m) r.proto)) [
  | inl e ↦ rw (e, protos) (protos-Once m)
  | inr e ↦ rw (e, protos) (e, protos-Once m)
]

||-eq_false : (a b : Bool) → (a || b) ≡ false → (a ≡ false) × (b ≡ false)
||-eq_false a b h = ground arith

-- What is a key differs from what is none.
beq_out :
    (q p : Text) (keys : List Text)
    → contains keys q ≡ true
    → contains keys p ≡ false
    → text_beq q p ≡ false
beq_out q p keys there gone = elim (Bool-cases (text_beq q p)) [
  | inr e ↦ e
  | inl e ↦
      let same : q ≡ p = (text_beq_iff q p).0 e in
      let clash : true ≡ false = sym there ∙ ap (contains keys) same ∙ gone in
      absurd (ground (arith, clash))
]

-- A protocol that is no key has no connection.
pub count_proto_none :
    (p : Text) (m : List (ℕ × ConnRecord)) → contains (protos m) p ≡ false → count_proto p m ≡ 0
unfolding protos count_proto
count_proto_none p [] h = refl
count_proto_none p ((id, r) ∷ m) h = elim (Bool-cases (contains (protos m) r.proto)) [
  | inl e ↦
      let out : contains (protos m) p ≡ false = rw (e, protos) at h in
      rw (beq_out r.proto p (protos m) e out) (count_proto_none p m out)
  | inr e ↦
      let both : (text_beq r.proto p || contains (protos m) p) ≡ false = rw (e, protos) at h in
      rw (||-eq_false (text_beq r.proto p) (contains (protos m) p) both).0
        (count_proto_none p m (||-eq_false (text_beq r.proto p) (contains (protos m) p) both).1)
]

-- One more connection of a protocol adds one to the sum, if the protocol is a key.
sum_other :
    (id : ℕ) (r : ConnRecord) (m : List (ℕ × ConnRecord)) (keys : List Text)
    → contains keys r.proto ≡ false
    → sum_active (λ p. count_proto p ((id, r) ∷ m)) keys ≡ sum_active (λ p. count_proto p m) keys
unfolding count_proto
sum_other id r m [] h = refl
sum_other id r m (p ∷ keys) h =
    let (first, rest) = ||-eq_false (text_beq p r.proto) (contains keys r.proto) h in
    rw (text_beq_sym r.proto p, first) (ap (λ k. count_proto p m + k) (sum_other id r m keys rest))

sum_key :
    (id : ℕ) (r : ConnRecord) (m : List (ℕ × ConnRecord)) (keys : List Text)
    → Once keys
    → contains keys r.proto ≡ true
    → sum_active (λ p. count_proto p ((id, r) ∷ m)) keys
      ≡ sum_active (λ p. count_proto p m) keys + 1
unfolding count_proto
sum_key id r m [] h k = absurd (ground arith)
sum_key id r m (p ∷ keys) h k = elim (Bool-cases (text_beq p r.proto)) [
  | inl e ↦
      let same : p ≡ r.proto = (text_beq_iff p r.proto).0 e in
      let gone : contains keys r.proto ≡ false = sym (ap (contains keys) same) ∙ h.0 in
      rw (text_beq_sym r.proto p, e) (omega (arith, sum_other id r m keys gone))
  | inr e ↦
      let later : contains keys r.proto ≡ true = ground (arith, e, k) in
      rw (text_beq_sym r.proto p, e) (omega (arith, sum_key id r m keys h.1 later))
]

pub sum_active-protos :
    (m : List (ℕ × ConnRecord)) → sum_active (λ p. count_proto p m) (protos m) ≡ length m
unfolding protos count_proto
sum_active-protos [] = refl
sum_active-protos ((id, r) ∷ m) = elim (Bool-cases (contains (protos m) r.proto)) [
  | inl e ↦
      rw (e, protos)
        (omega (arith, sum_key id r m (protos m) (protos-Once m) e, sum_active-protos m))
  | inr e ↦
      rw (e, protos)
        (rw ((text_beq_iff r.proto r.proto).1 refl, count_proto_none r.proto m e)
          (omega (arith, sum_other id r m (protos m) e, sum_active-protos m)))
]

-- The status page counts every active connection once: over the protocols, active_total is the
-- number of connections that are active once the stalled dials are dropped.
pub status_handler-total :
    (now : ℕ) (stalled : List (ℕ × ℕ)) (d : Report) (probe : SshProbe) (t : ConnTracker)
    → (page : StatusPage) × ((status_handler now stalled d probe (codes "GET") (some t)).1
        ≡ some page)
      × (page.active_total ≡ length (drop_stalled now stalled t).active)
unfolding status_handler active_by_proto
status_handler-total now stalled d probe t =
    let t' = drop_stalled now stalled t in
    (
      page_with now stalled d probe (λ p. count_proto p t'.active) (protos t'.active),
      refl,
      sum_active-protos t'.active,
    )
