-- ===== src/Conntrack/Listing.antt =====
-- conntrack.go: List and toView, the reading side of the tracker.
use ssh_gate.Prelude.{
  ℕ, ◌+◌, ◌-◌, ◌*◌, ◌/◌, ◌%◌, ◌^◌, ltb, leb, ◌==◌, Bool, true, false, ◌||◌, List, [], ◌∷◌, map,
  Option, none, some, Text, codes, if◌then◌else◌, keep, take, drop, length, lookup, nat_eq,
  text_beq, to_lower, contains_text,
}
use ssh_gate.Conntrack.Records.{ConnState, dialing, active, ConnRecord, ConnTracker}
use ssh_gate.Conntrack.Ring.{prune_ring, history}
use ssh_gate.Conntrack.Tracker.{drop_stalled}

pub record ConnView : Type 0 where
  pub id : ℕ
  pub proto : Text
  pub src : Text
  pub host : Text
  pub dst_ip : Text
  pub port : ℕ
  pub status : ConnState
  pub started_at : ℕ
  pub duration_ms : ℕ
  pub bytes_up : ℕ
  pub bytes_down : ℕ
  pub reason : Text

abbrev pub is_open : ConnState → Bool
is_open dialing = true
is_open active = true
is_open _ = false

abbrev pub no_live : Option ℕ → Bool
no_live none = true
no_live (some id) = false

-- toView; `counters` are the counters of the wrapped connections. Times carry the monotonic clock,
-- so a difference is not negative.
unfoldable pub to_view : (ℕ → ℕ × ℕ) → ℕ → ConnRecord → ConnView
to_view counters now r = record {
  id = r.id;
  proto = r.proto;
  src = r.src;
  host = r.host;
  dst_ip = r.dst_ip;
  port = r.port;
  status = r.status;
  started_at = r.started_at / 10 ^ 9;
  duration_ms =
      (if is_open r.status then now - r.started_at else r.closed_at - r.started_at) / 10 ^ 6;
  bytes_up = bytes.0;
  bytes_down = bytes.1;
  reason = r.reason;
}
  where
    bytes : ℕ × ℕ
    bytes = elim r.live [
      | none ↦ (r.bytes_up, r.bytes_down)
      | some conn ↦ if is_open r.status then counters conn else (r.bytes_up, r.bytes_down)
    ]

-- The order of List: newest first, and of two that started together the later id.
unfoldable pub newer : ConnRecord → ConnRecord → Bool
newer r s = if r.started_at == s.started_at then ltb s.id r.id else ltb s.started_at r.started_at

-- sort.Slice, as an insertion sort.
unfoldable pub insert_record : ConnRecord → List ConnRecord → List ConnRecord
insert_record r [] = r ∷ []
insert_record r (s ∷ rs) = if newer r s then r ∷ s ∷ rs else s ∷ insert_record r rs

unfoldable pub sort_records : List ConnRecord → List ConnRecord
sort_records [] = []
sort_records (r ∷ rs) = insert_record r (sort_records rs)

abbrev pub matches_query : Text → ConnRecord → Bool
matches_query q r =
    let fq = to_lower q in
    contains_text (to_lower r.host) fq
    || (contains_text (to_lower r.dst_ip) fq || contains_text (to_lower r.src) fq)

abbrev pub matches_proto : Text → ConnRecord → Bool
matches_proto proto r = text_beq r.proto proto

-- The two filters; an empty value disables one.
unfoldable pub filter_records : Text → Text → List ConnRecord → List ConnRecord
filter_records q proto recs =
    let found = if text_beq q [] then recs else keep (matches_query q) recs in
    if text_beq proto [] then found else keep (matches_proto proto) found

pub data ListError : Type 0 where
  invalid_tab invalid_page invalid_page_size : ListError

-- A Go slice expression with a negative bound panics.
pub data Outcome {ℓ} (A : Type ℓ) : Type ℓ where
  ok : A → Outcome A
  err : ListError → Outcome A
  panic : Outcome A

-- The slice of a page. `start` is an int: at 2 ^ 63 and above its bits are a negative number, which
-- passes `start >= total`, and `recs[start:end]` panics.
unfoldable pub page_of {ℓ} : {A : Type ℓ} → List A → ℕ → ℕ → Outcome (List A × ℕ)
page_of recs page page_size =
    let total = length recs in
    let start = (page - 1) * page_size % 2 ^ 64 in
    let end = if ltb total (start + page_size) then total else start + page_size in
    if leb (2 ^ 63) start
    then panic
    else if leb total start
    then ok ([], total)
    else ok (take (end - start) (drop start recs), total)

abbrev pub map_page {ℓ κ} :
    {A : Type ℓ} {B : Type κ} → (A → B) → Outcome (List A × ℕ) → Outcome (List B × ℕ)
map_page f (ok (xs, total)) = ok (map f xs, total)
map_page f (err e) = err e
map_page f panic = panic

-- The records of the active map in the order of the visits.
unfoldable pub visit_records : List ℕ → ConnTracker → List ConnRecord
visit_records [] t = []
visit_records (id ∷ ids) t =
    let rest = visit_records ids t in elim (lookup id t.active) [ none ↦ rest | some r ↦ r ∷ rest ]

unfoldable pub tab_records : Text → List ℕ → ConnTracker → List ConnRecord
unfolding visit_records
tab_records tab visits t =
    if text_beq tab (codes "active") then visit_records visits t else history t

-- What List does under the lock.
unfoldable pub list_state : ℕ → List (ℕ × ℕ) → ConnTracker → ConnTracker
list_state now stalled t = drop_stalled now stalled (prune_ring now t)

-- List. `stalled` and `visits` are the orders in which Go visits the map.
unfoldable pub list :
    (ℕ → ℕ × ℕ)
    → ℕ
    → List (ℕ × ℕ)
    → List ℕ
    → Text
    → Text
    → Text
    → ℕ
    → ℕ
    → ConnTracker
    → ConnTracker × Outcome (List ConnView × ℕ)
list counters now stalled visits tab q proto page page_size t =
    if valid_tab
    then if page == 0
      then (t, err invalid_page)
      else if page_size == 0 || ltb 200 page_size
      then (t, err invalid_page_size)
      else (t', views)
    else (t, err invalid_tab)
  where
    valid_tab : Bool
    valid_tab = text_beq tab (codes "active") || text_beq tab (codes "history")

    t' : ConnTracker
    t' = list_state now stalled t

    views : Outcome (List ConnView × ℕ)
    views =
        map_page (to_view counters now) (
          page_of (sort_records (filter_records q proto (tab_records tab visits t'))) page
            page_size)

unfoldable pub count_proto : Text → List (ℕ × ConnRecord) → ℕ
count_proto proto [] = 0
count_proto proto ((id, r) ∷ m) =
    let rest = count_proto proto m in if text_beq r.proto proto then rest + 1 else rest

-- ActiveByProto: the state that it leaves, and the count of each protocol.
unfoldable pub active_by_proto : ℕ → List (ℕ × ℕ) → ConnTracker → ConnTracker × (Text → ℕ)
unfolding count_proto
active_by_proto now stalled t =
    let t' = drop_stalled now stalled t in (t', λ proto. count_proto proto t'.active)
