-- ===== src/Conntrack/Pages.antt =====
-- conntrack.go: what a reader of List may rely on.
use mathlib.Core.List.{Perm, Permᴰ}
use mathlib.Core.Logic.{∥∥₁_elim}
use native.Mathlib.Nat.{zero-mul, suc-mul}
use ssh_gate.Prelude.{
  ℕ, zero, suc, ◌+◌, ◌-◌, ◌*◌, ◌%◌, ◌^◌, ◌≤◌, ◌<◌, ◌≡◌, ◌≢◌, ◌⊎◌, refl, sym, ap, subst, ◌∙◌, ltb,
  leb, ◌==◌, true, false, ◌||◌, List, [], ◌∷◌, ◌++◌, map, Text, codes, take, drop, length, All,
  nat_eq, text_beq, Bool-cases, leb→le, le→leb, length-drop, take_over, drop_over, take-nil,
  take_add, codes, inl, inr, arith,
}
use ssh_gate.Conntrack.Records.{ConnRecord, ConnTracker}
use ssh_gate.Conntrack.Invariant.{DistinctIds, OtherId}
use ssh_gate.Conntrack.Listing.{
  list, list_state, tab_records, filter_records, to_view, map_page, newer, insert_record,
  sort_records, page_of, ok, err, panic, Outcome,
}

insert_record_swap :
    (r s : ConnRecord) (xs : List ConnRecord)
    → r.id ≢ s.id
    → insert_record r (insert_record s xs) ≡ insert_record s (insert_record r xs)
unfolding insert_record newer
insert_record_swap r s [] h = ground arith
insert_record_swap r s (x ∷ xs) h = ground (arith, insert_record_swap r s xs h)

All-perm : (P : ConnRecord → Type 0) {xs ys : List ConnRecord} → Permᴰ xs ys → All P xs → All P ys
All-perm P Permᴰ.nil h = h
All-perm P (Permᴰ.cons e p) h = (subst P e h.0, All-perm P p h.1)
All-perm P (Permᴰ.swap e f) h = (subst P f h.1.0, (subst P e h.0, h.1.1))
All-perm P (Permᴰ.trans p q) h = All-perm P q (All-perm P p h)

DistinctIds-perm : {xs ys : List ConnRecord} → Permᴰ xs ys → DistinctIds xs → DistinctIds ys
DistinctIds-perm Permᴰ.nil h = h
DistinctIds-perm (Permᴰ.cons {l₂ = ys} e p) h =
    (subst (λ r. All (OtherId r.id) ys) e (All-perm _ p h.0), DistinctIds-perm p h.1)
DistinctIds-perm (Permᴰ.swap {l = l} e f) h = (
  (
    λ same. h.0.0 (ap (λ r. r.id) f ∙ sym same ∙ ap (λ r. r.id) (sym e)),
    subst (λ r. All (OtherId r.id) l) f h.1.0,
  ),
  (subst (λ r. All (OtherId r.id) l) e h.0.1, h.1.1),
)
DistinctIds-perm (Permᴰ.trans p q) h = DistinctIds-perm q (DistinctIds-perm p h)

sort_records-perm :
    {xs ys : List ConnRecord} → Permᴰ xs ys → DistinctIds xs → sort_records xs ≡ sort_records ys
unfolding sort_records
sort_records-perm Permᴰ.nil h = refl
sort_records-perm (Permᴰ.cons e p) h = rw (e, sort_records-perm p h.1)
sort_records-perm (Permᴰ.swap {l = l} e f) h =
    rw (← e, ← f) (insert_record_swap _ _ (sort_records l) (λ same. h.0.0 (sym same)))
sort_records-perm (Permᴰ.trans p q) h =
    sort_records-perm p h ∙ sort_records-perm q (DistinctIds-perm p h)

ConnRecord-set : IsSet (List ConnRecord)
ConnRecord-set = hlevel

-- The page does not depend on the order in which Go visits the active map: records with distinct ids
-- are sorted to the same list from any order.
pub sort_records-order :
    (xs ys : List ConnRecord) → Perm xs ys → DistinctIds xs → sort_records xs ≡ sort_records ys
sort_records-order xs ys p h = ∥∥₁_elim p (ConnRecord-set _ _) (λ q. sort_records-perm q h)

module _ {ℓ} {A : Type ℓ} where
  pub page_of_lem :
      (xs : List A) (page size : ℕ)
      → (page - 1) * size < 2 ^ 63
      → page_of xs page size ≡ ok (take size (drop ((page - 1) * size) xs), length xs)
  unfolding page_of
  page_of_lem xs page size h =
      let e : (page - 1) * size % 2 ^ 64 ≡ (page - 1) * size = omega arith in
      let fits : leb (2 ^ 63) ((page - 1) * size) ≡ false = ground arith in
      let start = (page - 1) * size in
      rw (e, fits)
        (elim (Bool-cases (leb (length xs) start)) [
          | inl over ↦ rw (over, drop_over start xs (leb→le _ _ over), take-nil size)
          | inr within ↦ rw within (elim (Bool-cases (ltb (length xs) (start + size))) [
            | inl last ↦ rw (
              last,
              take_over (length xs - start) (drop start xs) (omega (arith, length-drop start xs)),
              take_over size (drop start xs) (ground (arith, length-drop start xs)),
            )
            | inr full ↦ let width : start + size - start ≡ size = omega arith in rw (full, width)
          ])
        ])

  pub page_of_panics :
      (xs : List A) (half : ℕ) → 1 ≤ half → half ≤ 100 → page_of xs (2 ^ 63 - 1) (2 * half) ≡ panic
  unfolding page_of
  page_of_panics xs half h k =
      let negative : leb (2 ^ 63) ((2 ^ 63 - 1 - 1) * (2 * half) % 2 ^ 64) ≡ true =
        le→leb _ _ (omega arith) in
      rw negative

  abbrev items : Outcome (List A × ℕ) → List A
  items (ok (xs, total)) = xs
  items (err e) = []
  items panic = []

  -- Pages 1 to `pages` behind one another.
  pub joined : List A → ℕ → ℕ → List A
  unfolding page_of
  joined xs size zero = []
  joined xs size (suc pages) = joined xs size pages ++ items (page_of xs (suc pages) size)

  -- The pages tile the list: the first `pages` pages behind one another are its first
  -- `pages * size` entries, so no entry is lost, repeated or moved between pages.
  pub joined-take :
      (xs : List A) (size pages : ℕ)
      → pages * size < 2 ^ 63
      → joined xs size pages ≡ take (pages * size) xs
  unfolding joined
  joined-take xs size zero h = rw (zero-mul size)
  joined-take xs size (suc pages) h =
      let one : suc pages - 1 ≡ pages = omega arith in
      let before : pages * size < 2 ^ 63 = omega (arith, suc-mul pages size) in
      rw (
        joined-take xs size pages before,
        page_of_lem xs (suc pages) size (rw one before),
        one,
        suc-mul pages size,
        take_add (pages * size) size xs,
      )

abbrev pub IsTab : Text → Type 0
IsTab tab = (tab ≡ codes "active") ⊎ (tab ≡ codes "history")

-- The records that List pages through.
abbrev pub sorted : ℕ → List (ℕ × ℕ) → List ℕ → Text → Text → Text → ConnTracker → List ConnRecord
sorted now stalled visits tab q proto t =
    sort_records (filter_records q proto (tab_records tab visits (list_state now stalled t)))

module _ (counters : ℕ → ℕ × ℕ) (now : ℕ) (stalled : List (ℕ × ℕ)) (visits : List ℕ)
    (tab q proto : Text) (page size : ℕ) (t : ConnTracker) where
  list_valid :
      IsTab tab
      → 1 ≤ page
      → 1 ≤ size
      → size ≤ 200
      → list counters now stalled visits tab q proto page size t ≡ (
        list_state now stalled t,
        map_page
            (to_view counters now)
            (page_of (sorted now stalled visits tab q proto t) page size),
      )
  unfolding list
  list_valid k p h h' =
      let is_tab : (text_beq tab (codes "active") || text_beq tab (codes "history")) ≡ true =
        elim k [ inl e ↦ rw e | inr e ↦ rw e ] in
      let page_ok : (page == 0) ≡ false = ground arith in
      let size_ok : (size == 0 || ltb 200 size) ≡ false = ground arith in
      rw (is_tab, page_ok, size_ok)

  -- A valid request whose offset (page-1)*page_size is below 2 ^ 63 gets its page: the views of that
  -- stretch of the filtered and sorted records of the tab, and the number of all of them.
  pub list_returns :
      IsTab tab
      → 1 ≤ page
      → 1 ≤ size
      → size ≤ 200
      → (page - 1) * size < 2 ^ 63
      → (list counters now stalled visits tab q proto page size t).1
        ≡ ok (
          map
              (to_view counters now)
              (take size (drop ((page - 1) * size) (sorted now stalled visits tab q proto t))),
          length (sorted now stalled visits tab q proto t),
        )
  list_returns k p h h' fits = rw (list_valid k p h h') (rw (page_of_lem _ page size fits))

-- With the last page number of an int64 and any even page size from 2 to 200, List panics,
-- for every tracker, tab and filter, because the offset of the page wraps to a negative number.
pub list_panics :
    (counters : ℕ → ℕ × ℕ) (now : ℕ) (stalled : List (ℕ × ℕ)) (visits : List ℕ) (tab q proto : Text)
    (half : ℕ) (t : ConnTracker)
    → IsTab tab
    → 1 ≤ half
    → half ≤ 100
    → (list counters now stalled visits tab q proto (2 ^ 63 - 1) (2 * half) t).1 ≡ panic
list_panics counters now stalled visits tab q proto half t k h h' =
    rw
      (list_valid counters now stalled visits tab q proto (2 ^ 63 - 1) (2 * half) t k (omega arith)
        (omega arith) (omega arith))
      (rw (page_of_panics (sorted now stalled visits tab q proto t) half h h'))
