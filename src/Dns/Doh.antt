-- ===== src/Dns/Doh.antt =====
-- dns.go: the DNS-over-HTTPS endpoint, and the classification of a DNS server's errors. A request and
-- its decoded body are parameters.
use ssh_gate.Prelude.{
  ℕ, ◌≡◌, ◌≢◌, refl, ◌==◌, Bool, not, ◌||◌, List, [], ◌∷◌, ◌++◌, Option, none, some, Text, codes,
  if◌then◌else◌,
}
use ssh_gate.Net.Addr.{Addr, unmap}
use ssh_gate.Dns.Upstream.{not_found, unreachable, other_error}
use ssh_gate.Dns.Lookup.{Reply, answer, failure}

-- dohResponse.
pub record DohAnswer : Type 0 where
  pub type : ℕ
  pub data_text : Text

pub record DohResponse : Type 0 where
  pub status : ℕ
  pub answers : List DohAnswer

-- What client.Do and the decoder give: an error (with its text), or the HTTP status and the body.
pub data Exchange : Type 0 where
  request_failed : Text → Exchange
  undecoded : Text → Exchange
  response : ℕ → DohResponse → Exchange

-- dohQuery.
pub record DohQuery : Type 0 where
  pub name : Text
  pub want : ℕ

abbrev pub doh_query_a : DohQuery
doh_query_a = record { name = codes "A"; want = 1 }

abbrev pub doh_query_aaaa : DohQuery
doh_query_aaaa = record { name = codes "AAAA"; want = 28 }

module _ (parse_addr : Text → Option Addr) where
  -- The loop of dohJSONQuery over the answers.
  abbrev pub wanted : ℕ → List DohAnswer → List Addr
  wanted want [] = []
  wanted want (a ∷ answers) =
      let rest = wanted want answers in
      if not (a.type == want)
      then rest
      else elim (parse_addr a.data_text) [ none ↦ rest | some ip ↦ unmap ip ∷ rest ]

  -- dohJSONQuery.
  unfoldable pub doh_json_query : DohQuery → Exchange → Reply (List Addr)
  doh_json_query q (request_failed e) = failure (other_error e)
  doh_json_query q (undecoded e) = failure (other_error e)
  doh_json_query q (response code d) =
      if d.status == 3
      then failure not_found
      else if not (code == 200) || not (d.status == 0)
      then failure (other_error (codes "doh: status"))
      else answer (wanted q.want d.answers)

  -- The loop of dohLookup over the queries: each with its exchange and with whether a connection had
  -- been made by its end (GotConn).
  unfoldable pub run_queries : List (DohQuery × (Exchange × Bool)) → List Addr → Reply (List Addr)
  run_queries [] out = elim out [ [] ↦ failure not_found | a ∷ addrs ↦ answer (a ∷ addrs) ]
  run_queries ((q, (exchange, connected)) ∷ queries) out = elim (doh_json_query q exchange) [
    | answer addrs ↦ run_queries queries (out ++ addrs)
    | failure not_found ↦ failure not_found
    | failure e ↦
        if not connected then failure (unreachable (codes "server unreachable")) else failure e
  ]

  -- dohLookup.
  unfoldable pub doh_lookup : Exchange × Bool → Exchange × Bool → Reply (List Addr)
  doh_lookup a aaaa = run_queries ((doh_query_a, a) ∷ (doh_query_aaaa, aaaa) ∷ []) []

  -- When both queries are answered, the lookup gives the IPv4 addresses and then the IPv6 ones; when
  -- there are none, the name does not exist, whichever connections were made.
  pub doh_lookup_answered :
      (a aaaa : Exchange × Bool) (v4s v6s : List Addr)
      → doh_json_query doh_query_a a.0 ≡ answer v4s
      → doh_json_query doh_query_aaaa aaaa.0 ≡ answer v6s
      → (v4s ++ v6s ≢ [] → doh_lookup a aaaa ≡ answer (v4s ++ v6s))
        × (v4s ++ v6s ≡ [] → doh_lookup a aaaa ≡ failure not_found)
  unfolding doh_lookup run_queries
  doh_lookup_answered a aaaa v4s v6s e f = (
    λ given. rw (e, run_queries) (rw (f, run_queries) (to_answer (v4s ++ v6s) given)),
    λ empty. rw (e, run_queries) (rw (f, run_queries) (rw (empty, run_queries))),
  )
    where
      to_answer :
          (out : List Addr)
          → out ≢ []
          → (elim out as (λ x. Reply (List Addr)) [
            | [] ↦ failure not_found
            | b ∷ addrs ↦ answer (b ∷ addrs)
          ])
            ≡ answer out
      to_answer [] h = absurd (h refl)
      to_answer (b ∷ addrs) h = refl
