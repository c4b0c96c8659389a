-- ===== src/Http/Examples.antt =====
-- httpproxy.go: tests, and the theorems at concrete inputs.
use ssh_gate.Prelude.{
  ℕ, ◌+◌, ◌*◌, ◌≤◌, ◌<◌, ◌≡◌, ◌≢◌, refl, true, false, List, [], ◌∷◌, none, some, Text, codes,
  length, arith,
}
use ssh_gate.Config.Values.{second}
use ssh_gate.Syntax.Decimal.{pos, negsuc, atoi, itoa}
use ssh_gate.Syntax.HostPort.{split_host_port}
use ssh_gate.Http.Message.{
  Url, Request, reframed, plan_body, is_skipped, head_lines, request_head, request_host,
  max_reframed_body, write_http_err,
}
use ssh_gate.Http.Forward.{
  parsed, connected, answers, idles_client, idles_upstream, Peer, opens, establishes, relays_both,
  sends, relays_response, closes, handle_conn, handle_connect, handle_http, forward,
}
use ssh_gate.Http.Rewrite.{field_values, head_lines_own}
use ssh_gate.Http.Framing.{plan_body-reframed}
use ssh_gate.Http.Phases.{start, over}
use ssh_gate.Http.Watched.{Watch, quiet, client_closed, watched}
use ssh_gate.Http.Handling.{handle_conn-Ends}
use ssh_gate.Http.Guard.{new_idle_guard, check_period, Event, moves, ticks, watch, handle, ticker}
use ssh_gate.Http.Idle.{watch-ticker}

abbrev site : Url
site = record {
  scheme = codes "http";
  host = codes "site.example:8080";
  hostname = codes "site.example";
  port = codes "8080";
  request_uri = codes "/form";
}

-- A chunked POST with credentials for the proxy.
abbrev post : Request
post = record {
  method = codes "POST";
  url = site;
  host = codes "site.example:8080";
  transfer_encoding = codes "chunked" ∷ [];
  content_length = negsuc 0;
  header =
      (codes "Proxy-Authorization", codes "Basic eDp5" ∷ [])
      ∷ (codes "Accept", codes "text/html" ∷ codes "text/plain" ∷ [])
      ∷ [];
  body = record { bytes = codes "a=1"; broken = false };
}

abbrev working : Peer
working = record {
  dial_host = λ host port. connected;
  write_body = λ b. true;
  copy_body = true;
  idle = none;
}

-- The guard closes both sides while the body is sent.
abbrev stuck : Peer
stuck = record working { write_body = λ b. false; idle = some (2, 1) }

abbrev status_text : ℕ → Text
status_text code = codes "Status"

abbrev tunnel_request : Request
tunnel_request = record post {
  method = codes "CONNECT";
  url = record site { host = codes "site.example:443" };
}

tunnel_actions :
    handle_conn status_text working (parsed tunnel_request)
    ≡ opens (codes "site.example") (pos 443) connected ∷ establishes ∷ relays_both ∷ closes ∷ []
unfolding handle_conn handle_connect split_host_port atoi
tunnel_actions = refl

post_plan : plan_body post ≡ reframed (codes "a=1")
unfolding plan_body
post_plan = refl

post_actions :
    handle_conn status_text working (parsed post)
    ≡ opens (codes "site.example") (pos 8080) connected
      ∷ sends (request_head post (some (codes "a=1")))
      ∷ sends (codes "a=1")
      ∷ relays_response
      ∷ closes
      ∷ []
unfolding handle_conn handle_http forward plan_body atoi
post_actions = refl

stuck_actions :
    handle_conn status_text stuck (parsed post)
    ≡ opens (codes "site.example") (pos 8080) connected
      ∷ sends (request_head post (some (codes "a=1")))
      ∷ sends (codes "a=1")
      ∷ idles_client
      ∷ answers (write_http_err status_text 502 (codes "Body transfer failed"))
      ∷ idles_upstream
      ∷ closes
      ∷ []
unfolding handle_conn handle_http forward plan_body atoi
stuck_actions = refl

handle_conn-Ends_example :
    (w : Watch) × (watched start quiet (handle_conn status_text stuck (parsed post))
      ≡ some (over, w))
    × (w ≢ client_closed)
handle_conn-Ends_example = handle_conn-Ends status_text stuck (parsed post)

head_lines_own_example :
    (field_values (codes "host") (head_lines post none) ≡ request_host post ∷ [])
    × (field_values (codes "connection") (head_lines post none) ≡ codes "close" ∷ [])
    × (field_values (codes "proxy-connection") (head_lines post none) ≡ [])
    × (field_values (codes "proxy-authorization") (head_lines post none) ≡ [])
    × (field_values (codes "transfer-encoding") (head_lines post none) ≡ [])
head_lines_own_example = head_lines_own post none

accept_kept : is_skipped (codes "accept") ≡ false
unfolding is_skipped
accept_kept = refl

plan_body-reframed_example :
    (codes "a=1" ≡ post.body.bytes)
    × (post.body.broken ≡ false)
    × (length (codes "a=1") ≤ max_reframed_body)
    × (field_values (codes "content-length") (head_lines post (some (codes "a=1"))) ≡ itoa 3 ∷ [])
    × (atoi (itoa 3) ≡ some (pos 3))
plan_body-reframed_example = plan_body-reframed post (codes "a=1") refl post_plan

abbrev moved : List Event
moved = ticks 12 ∷ moves 15 4 ∷ ticks 22 ∷ moves 23 0 ∷ ticks 40 ∷ []

idle_fired : (watch 20 (new_idle_guard 10) moved).fired ≡ some 40
unfolding watch handle
idle_fired = refl

watch-ticker_example :
    (t : ℕ) × ((watch
        (300 * second)
        (new_idle_guard 7)
        (ticker (check_period (300 * second)) (7 + second) 301)).fired
      ≡ some t)
    × (7 + 300 * second ≤ t)
    × (t < 7 + 300 * second + second)
watch-ticker_example =
    watch-ticker (300 * second) (check_period (300 * second)) (7 + second) 300 (new_idle_guard 7)
      refl (omega arith) (omega arith)
