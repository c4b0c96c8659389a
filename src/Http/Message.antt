-- ===== src/Http/Message.antt =====
-- httpproxy.go: requests as http.ReadRequest gives them, the forwarded head, and error responses.
-- Numbers of bytes are natural numbers; a header is the list of what `range` visits.
use ssh_gate.Prelude.{
  ℕ, ◌+◌, ◌*◌, ◌^◌, ◌==◌, leb, ltb, Bool, true, false, ◌||◌, ◌&&◌, not, List, [], ◌∷◌, ◌++◌, map,
  Option, none, some, Text, codes, text_beq, to_lower, length, take, if◌then◌else◌,
}
use ssh_gate.Syntax.Decimal.{ℤ, pos, negsuc, itoa}
use ssh_gate.Config.Values.{contains}

-- A url.URL, with what its methods Hostname, Port and RequestURI return. IsAbs is a scheme that is
-- not empty.
pub record Url : Type 0 where
  pub scheme : Text
  pub host : Text
  pub hostname : Text
  pub port : Text
  pub request_uri : Text

-- What is read from a request's body: its bytes, and then its end or an error.
pub record Body : Type 0 where
  pub bytes : Text
  pub broken : Bool

-- ReadRequest sets the URL of every request.
pub record Request : Type 0 where
  pub method : Text
  pub url : Url
  pub host : Text
  pub transfer_encoding : List Text
  pub content_length : ℤ
  pub header : List (Text × List Text)
  pub body : Body

-- maxReframedBody.
abbrev pub max_reframed_body : ℕ
max_reframed_body = 32 * 2 ^ 20

-- io.ReadAll(io.LimitReader(body, limit)): an error behind the limit is not seen.
abbrev pub read_limited : ℕ → Body → Option Text
read_limited limit body =
    if leb limit (length body.bytes)
    then some (take limit body.bytes)
    else if body.broken
    then none
    else some body.bytes

-- How handleHTTP treats the body.
pub data BodyPlan : Type 0 where
  no_body streamed read_failed too_large : BodyPlan
  reframed : Text → BodyPlan

abbrev pub is_nonempty : List Text → Bool
is_nonempty [] = false
is_nonempty (x ∷ xs) = true

abbrev pub is_zero : ℤ → Bool
is_zero (pos n) = n == 0
is_zero (negsuc n) = false

abbrev pub is_negative : ℤ → Bool
is_negative (pos n) = false
is_negative (negsuc n) = true

abbrev pub check_size : Option Text → BodyPlan
check_size none = read_failed
check_size (some b) = if ltb max_reframed_body (length b) then too_large else reframed b

unfoldable pub plan_body : Request → BodyPlan
plan_body r =
    let chunked = is_nonempty r.transfer_encoding in
    let close_delimited = is_negative r.content_length in
    let has_body = not (is_zero r.content_length) in
    if has_body && (chunked || close_delimited)
    then check_size (read_limited (max_reframed_body + 1) r.body)
    else if has_body
    then streamed
    else no_body

-- The names that the header loop skips.
abbrev pub skipped : List Text
skipped =
    codes "host"
    ∷ codes "connection"
    ∷ codes "proxy-connection"
    ∷ codes "proxy-authorization"
    ∷ codes "transfer-encoding"
    ∷ []

unfoldable pub is_skipped : Text → Bool
is_skipped lk = contains skipped lk

-- The header loop: the name and the value of each line that it writes.
unfoldable pub forward_header : List (Text × List Text) → List (Text × Text)
forward_header [] = []
forward_header ((k, vs) ∷ header) =
    let rest = forward_header header in
    if is_skipped (to_lower k) then rest else map (λ v. (k, v)) vs ++ rest

abbrev pub request_host : Request → Text
request_host r = if text_beq r.host [] then r.url.host else r.host

abbrev pub length_line : Option Text → List (Text × Text)
length_line none = []
length_line (some body) = (codes "Content-Length", itoa (length body)) ∷ []

-- All header lines of the forwarded request; the body is there if it is re-framed.
unfoldable pub head_lines : Request → Option Text → List (Text × Text)
unfolding forward_header
head_lines r body =
    (codes "Host", request_host r)
    ∷ (length_line body ++ (forward_header r.header ++ (codes "Connection", codes "close") ∷ []))

abbrev pub crlf : Text
crlf = 13 ∷ 10 ∷ []

abbrev pub render_lines : List (Text × Text) → Text
render_lines [] = []
render_lines ((k, v) ∷ lines) = k ++ (codes ": " ++ (v ++ (crlf ++ render_lines lines)))

-- The head as it is sent.
unfoldable pub request_head : Request → Option Text → Text
unfolding head_lines
request_head r body =
    r.method
    ++ (codes " "
        ++ (r.url.request_uri
            ++ (codes " HTTP/1.1" ++ (crlf ++ (render_lines (head_lines r body) ++ crlf)))))

-- writeHTTPErr, over http.StatusText.
unfoldable pub write_http_err : (ℕ → Text) → ℕ → Text → Text
write_http_err status_text code msg =
    let body = msg ++ crlf in
    codes "HTTP/1.1 "
    ++ (itoa code
        ++ (codes " "
            ++ (status_text code
                ++ (crlf
                    ++ (render_lines (
                          (codes "Content-Length", itoa (length body))
                          ∷ (codes "Connection", codes "close")
                          ∷ [])
                        ++ (crlf ++ body))))))
