-- ===== src/Web/Pages.antt =====
-- webui.go: what a request for the connections is answered with.
use ssh_gate.Prelude.{
  ℕ, ◌-◌, ◌*◌, ◌^◌, ◌≤◌, ◌<◌, ◌≡◌, ap, ◌∙◌, false, List, [], map, some, Text, codes, text_beq,
  text_beq_ne, take, drop, length, arith,
}
use ssh_gate.Syntax.Decimal.{itoa, atoi-itoa, itoa-ne-nil, max_int}
use ssh_gate.Conntrack.Records.{ConnTracker}
use ssh_gate.Conntrack.Listing.{Outcome, list, to_view}
use ssh_gate.Conntrack.Pages.{IsTab, sorted, list_returns, list_panics}
use ssh_gate.Web.Connections.{
  panicked, page_of_items, reply_to, page_number, size_number, tab_of, list_page,
  handle_connections,
}

page_number-itoa : (default n : ℕ) → 1 ≤ n → n ≤ max_int → page_number default (itoa n) ≡ some n
page_number-itoa default n h fits =
    let given : text_beq (itoa n) [] ≡ false = text_beq_ne (itoa n) [] (itoa-ne-nil n) in
    rw (given, atoi-itoa n fits) (ground arith)

size_number-itoa : (n : ℕ) → 1 ≤ n → n ≤ 200 → size_number (itoa n) ≡ some n
size_number-itoa n h fits = rw (page_number-itoa 50 n h (omega (arith, fits))) (ground arith)

module _ (counters : ℕ → ℕ × ℕ) (now : ℕ) (stalled : List (ℕ × ℕ)) (visits : List ℕ)
    (query : Text → Text) (page size : ℕ) (t : ConnTracker)
    (page_given : query (codes "page") ≡ itoa page)
    (size_given : query (codes "page_size") ≡ itoa size)
    (known : IsTab (tab_of (query (codes "tab")))) where
  asked :
      1 ≤ page
      → page ≤ max_int
      → 1 ≤ size
      → size ≤ 200
      → handle_connections counters now stalled visits (codes "GET") query (some t)
        ≡ list_page counters now stalled visits query page size (some t)
  unfolding handle_connections
  asked h fits k small =
      rw (page_given, size_given, page_number-itoa 1 page h fits, size_number-itoa size k small)

  -- A GET for a page of a known tab is answered with exactly that page: the views of the records
  -- that the filters leave, newest first, and the number of all of them, as long as the offset of the
  -- page is an int64.
  pub handle_connections_page :
      1 ≤ page
      → page ≤ max_int
      → 1 ≤ size
      → size ≤ 200
      → (page - 1) * size < 2 ^ 63
      → let tab = tab_of (query (codes "tab")) in
        let recs = sorted now stalled visits tab (query (codes "q")) (query (codes "proto")) t in
        (handle_connections counters now stalled visits (codes "GET") query (some t)).1
        ≡ page_of_items
            (length recs)
            page
            size
            (map (to_view counters now) (take size (drop ((page - 1) * size) recs)))
  handle_connections_page h fits k small near =
      ap (λ r. r.1) (asked h fits k small)
      ∙ ap (reply_to page size)
          (list_returns counters now stalled visits _ _ _ page size t known h k small near)

  -- With the last page number that the handler accepts, and any even page size, the handler panics: a
  -- request with these two parameters brings the panic of List about.
  pub handle_connections_panics :
      (half : ℕ)
      → page ≡ max_int
      → size ≡ 2 * half
      → 1 ≤ half
      → half ≤ 100
      → (handle_connections counters now stalled visits (codes "GET") query (some t)).1 ≡ panicked
  handle_connections_panics half last even h small =
      let tab = tab_of (query (codes "tab")) in
      let fails : (list counters now stalled visits tab (query (codes "q")) (query (codes "proto"))
            page size t).1
          ≡ Outcome.panic =
        rw (last, even) (list_panics counters now stalled visits _ _ _ half t known h small) in
      ap (λ r. r.1)
        (asked (omega (arith, last)) (omega (arith, last)) (omega (arith, even, h))
          (omega (arith, even, small)))
      ∙ ap (reply_to page size) fails
