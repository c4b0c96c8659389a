-- ===== src/Web/Connections.antt =====
-- webui.go: handleConnections. The query is a function, empty on what is not given; encoding the
-- answer is encoding/json.
use ssh_gate.Prelude.{
  ℕ, ltb, not, List, [], Option, none, some, Text, codes, text_beq, if◌then◌else◌,
}
use ssh_gate.Syntax.Decimal.{atoi}
use ssh_gate.Config.Values.{positive, and_then}
use ssh_gate.Conntrack.Records.{ConnTracker}
use ssh_gate.Conntrack.Listing.{ConnView, Outcome, ListError, list}

pub data PageReply : Type 0 where
  method_not_allowed panicked : PageReply
  invalid_page invalid_page_size : PageReply
  refused : ListError → PageReply
  -- The total, the page, the page size, and the items.
  page_of_items : ℕ → ℕ → ℕ → List ConnView → PageReply

-- What a call of List leaves for the handler; a panic is passed on to net/http.
abbrev pub reply_to : ℕ → ℕ → Outcome (List ConnView × ℕ) → PageReply
reply_to page page_size (Outcome.ok (items, total)) = page_of_items total page page_size items
reply_to page page_size (Outcome.err e) = refused e
reply_to page page_size Outcome.panic = panicked

-- The number of a parameter, at least 1; the default where it is not given.
abbrev pub page_number : ℕ → Text → Option ℕ
page_number default v = if text_beq v [] then some default else and_then (atoi v) positive

abbrev pub at_most : ℕ → ℕ → Option ℕ
at_most limit n = if ltb limit n then none else some n

abbrev pub size_number : Text → Option ℕ
size_number v = and_then (page_number 50 v) (at_most 200)

abbrev pub tab_of : Text → Text
tab_of tab = if text_beq tab [] then codes "active" else tab

module _ (counters : ℕ → ℕ × ℕ) (now : ℕ) (stalled : List (ℕ × ℕ)) (visits : List ℕ) where
  abbrev pub list_page : (Text → Text) → ℕ → ℕ → Option ConnTracker → Option ConnTracker × PageReply
  list_page query page page_size none = (none, page_of_items 0 page page_size [])
  list_page query page page_size (some t) =
      let (t', answer) =
        list counters now stalled visits (tab_of (query (codes "tab"))) (query (codes "q"))
          (query (codes "proto")) page page_size t in
      (some t', reply_to page page_size answer)

  abbrev pub list_pages :
      (Text → Text) → Option ℕ → Option ℕ → Option ConnTracker → Option ConnTracker × PageReply
  list_pages query none size t = (t, invalid_page)
  list_pages query (some page) none t = (t, invalid_page_size)
  list_pages query (some page) (some size) t = list_page query page size t

  -- handleConnections.
  unfoldable pub handle_connections :
      Text → (Text → Text) → Option ConnTracker → Option ConnTracker × PageReply
  handle_connections method query t =
      if not (text_beq method (codes "GET"))
      then (t, method_not_allowed)
      else list_pages query (page_number 1 (query (codes "page")))
          (size_number (query (codes "page_size"))) t
