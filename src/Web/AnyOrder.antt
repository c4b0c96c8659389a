-- ===== src/Web/AnyOrder.antt =====
-- conntrack.go and health.go: the counts of the status page as functions of a map without an order. Go
-- ranges over the active connections in any order; the abstract map is the quotient of the lists by
-- reordering.
use mathlib.Core.Quot
use mathlib.Core.Quot.{Quot}
use native.Mathlib.Nat.{ℕ_set}
use ssh_gate.Prelude.{
  ℕ, suc, ◌≡◌, refl, sym, ap, ◌∙◌, inl, inr, List, [], ◌∷◌, some, Text, codes, text_beq,
  text_beq_iff, length, subst, false, if◌then◌else◌, Bool-cases, arith,
}
use ssh_gate.Config.Values.{contains}
use ssh_gate.Conntrack.Records.{ConnRecord, ConnTracker}
use ssh_gate.Conntrack.Tracker.{drop_stalled}
use ssh_gate.Conntrack.Listing.{active_by_proto, count_proto}
use ssh_gate.Web.Status.{
  Report, SshProbe, StatusPage, protos, entries_of, page_with, status_handler,
}
use ssh_gate.Web.Totals.{sum_active-protos, count_proto_none}

abbrev pub Entries : Type 0
Entries = List (ℕ × ConnRecord)

-- One list of entries is another one in a different order.
pub data Reordered : Entries → Entries → Type 0 where
  same : (m : Entries) → Reordered m m
  behind : {m n : Entries} (e : ℕ × ConnRecord) → Reordered m n → Reordered (e ∷ m) (e ∷ n)
  swapped : (d e : ℕ × ConnRecord) (m : Entries) → Reordered (d ∷ e ∷ m) (e ∷ d ∷ m)
  chained : {l m n : Entries} → Reordered l m → Reordered m n → Reordered l n

-- The map, of which no function can see an order.
abbrev pub ActiveMap : Type 0
ActiveMap = Quot Reordered

pub count_proto-Reordered :
    (proto : Text) {m n : Entries} → Reordered m n → count_proto proto m ≡ count_proto proto n
unfolding count_proto
count_proto-Reordered proto (same m) = refl
count_proto-Reordered proto (behind e r) =
    let rest = count_proto-Reordered proto r in ground (arith, rest)
count_proto-Reordered proto (swapped d e m) = ground arith
count_proto-Reordered proto (chained r s) =
    count_proto-Reordered proto r ∙ count_proto-Reordered proto s

pub length-Reordered : {m n : Entries} → Reordered m n → length m ≡ length n
length-Reordered (same m) = refl
length-Reordered (behind e r) = ap suc (length-Reordered r)
length-Reordered (swapped d e m) = refl
length-Reordered (chained r s) = length-Reordered r ∙ length-Reordered s

-- The connections of a protocol, and all of them.
unfoldable pub count_in : Text → ActiveMap → ℕ
count_in proto = Quot.lift ℕ_set (count_proto proto) (λ m n r. count_proto-Reordered proto r)

unfoldable pub size_of : ActiveMap → ℕ
size_of = Quot.lift ℕ_set length (λ m n r. length-Reordered r)

-- What the page shows of a protocol: nothing is no connection.
abbrev pub shown : List (Text × ℕ) → Text → ℕ
shown [] proto = 0
shown ((key, n) ∷ entries) proto =
    let rest = shown entries proto in if text_beq key proto then n else rest

shown-entries_of :
    (counts : Text → ℕ) (keys : List Text) (proto : Text)
    → (contains keys proto ≡ false → counts proto ≡ 0)
    → shown (entries_of counts keys) proto ≡ counts proto
shown-entries_of counts [] proto none_there = sym (none_there refl)
shown-entries_of counts (key ∷ keys) proto none_there = elim (Bool-cases (text_beq key proto)) [
  | inl e ↦ rw e (ap counts ((text_beq_iff key proto).0 e))
  | inr e ↦ rw e (shown-entries_of counts keys proto (λ gone. none_there (rw e gone)))
]

-- The page has the counts of the map.
abbrev pub IsPageOf : ActiveMap → StatusPage → Type 0
IsPageOf m page =
    ((proto : Text) → shown page.active proto ≡ count_in proto m) × (page.active_total ≡ size_of m)

page_with-IsPageOf :
    (now : ℕ) (stalled : List (ℕ × ℕ)) (d : Report) (probe : SshProbe) (m : Entries)
    → IsPageOf (Quot.mk m) (page_with now stalled d probe (λ proto. count_proto proto m) (protos m))
unfolding count_in size_of
page_with-IsPageOf now stalled d probe m =
    ((λ proto. shown-entries_of _ (protos m) proto (count_proto_none proto m)), sum_active-protos m)

-- The status page is one of the map, not of its order: in whatever order Go's range takes the
-- connections that are active behind the drop of the stalled ones, a GET is answered with the
-- counts of that map, for a protocol with connections and for one without, and active_total is its
-- size.
pub status_handler-IsPageOf :
    (now : ℕ) (stalled : List (ℕ × ℕ)) (d : Report) (probe : SshProbe) (t : ConnTracker)
    (order : Entries)
    → Reordered (drop_stalled now stalled t).active order
    → (page : StatusPage) × ((status_handler now stalled d probe (codes "GET") (some t)).1
        ≡ some page)
      × IsPageOf (Quot.mk order) page
unfolding status_handler active_by_proto
status_handler-IsPageOf now stalled d probe t order reordered =
    let held = (drop_stalled now stalled t).active in
    let page = page_with now stalled d probe (λ proto. count_proto proto held) (protos held) in
    (
      page,
      refl,
      subst (λ m. IsPageOf m page) (Quot.sound reordered)
          (page_with-IsPageOf now stalled d probe held),
    )
