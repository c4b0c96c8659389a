-- ===== src/Web/Examples.antt =====
-- health.go and webui.go: the theorems at concrete inputs.
use ssh_gate.Prelude.{
  ℕ, ◌≡◌, inl, refl, Bool, true, List, [], ◌∷◌, Option, none, some, Text, codes, text_beq,
  if◌then◌else◌, arith,
}
use ssh_gate.Syntax.Decimal.{itoa, max_int}
use mathlib.Core.Quot.{Quot}
use ssh_gate.Conntrack.Records.{ConnRecord, ConnTracker, zero_record}
use ssh_gate.Web.AnyOrder.{
  Entries, Reordered, swapped, behind, chained, IsPageOf, status_handler-IsPageOf,
}
use ssh_gate.Conntrack.Tracker.{drop_stalled}
use ssh_gate.Conntrack.Ring.{new_conn_tracker}
use ssh_gate.Web.Status.{Report, SshProbe, run_probe, StatusPage, status_handler}
use ssh_gate.Web.Connections.{panicked, handle_connections}
use ssh_gate.Web.Pages.{handle_connections_panics}

abbrev any_address : Text → Option Bool
any_address t = if text_beq t (codes "0.0.0.0") then some true else none

abbrev lan : List Text
lan = codes "gate.lan" ∷ []

abbrev first_page : Text → Text
first_page key =
    if text_beq key (codes "page")
    then itoa 1
    else if text_beq key (codes "page_size")
    then itoa 50
    else []

abbrev last_page : Text → Text
last_page key =
    if text_beq key (codes "page")
    then itoa max_int
    else if text_beq key (codes "page_size")
    then itoa 50
    else []

abbrev no_counters : ℕ → ℕ × ℕ
no_counters conn = (0, 0)

abbrev quiet : ConnTracker
quiet = new_conn_tracker 2 1000

handle_connections_panics_example :
    (handle_connections no_counters 60 [] [] (codes "GET") last_page (some quiet)).1 ≡ panicked
handle_connections_panics_example =
    handle_connections_panics no_counters 60 [] [] last_page max_int 50 quiet refl refl (inl refl)
      25 refl (omega arith) (omega arith) (omega arith)

abbrev up_report : Report
up_report = record { is_up = true; status = none; tcp_rtt = some 12 }

abbrev first_probe : SshProbe
first_probe = (run_probe up_report 50 none).0

abbrev of_proto : Text → ℕ → ConnRecord
of_proto proto id = record zero_record { id = id; proto = proto }

abbrev socks_one : ℕ × ConnRecord
socks_one = (1, of_proto (codes "socks5") 1)

abbrev http_two : ℕ × ConnRecord
http_two = (2, of_proto (codes "http") 2)

abbrev socks_three : ℕ × ConnRecord
socks_three = (3, of_proto (codes "socks5") 3)

abbrev busy : ConnTracker
busy = record (new_conn_tracker 2 1000) {
  active = socks_three ∷ http_two ∷ socks_one ∷ [];
  next_id = 3;
}

abbrev other_order : Entries
other_order = http_two ∷ socks_one ∷ socks_three ∷ []

drop_stalled-other_order : Reordered (drop_stalled 60 [] busy).active other_order
unfolding drop_stalled
drop_stalled-other_order =
    chained (swapped socks_three http_two (socks_one ∷ []))
      (behind http_two (swapped socks_three socks_one []))

status_handler-IsPageOf_example :
    (page : StatusPage) × ((status_handler 60 [] up_report first_probe (codes "GET") (some busy)).1
      ≡ some page)
    × IsPageOf (Quot.mk other_order) page
status_handler-IsPageOf_example =
    status_handler-IsPageOf 60 [] up_report first_probe busy other_order drop_stalled-other_order
