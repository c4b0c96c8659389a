-- ===== src/Http/Framing.antt =====
-- httpproxy.go: the bodies that handleHTTP re-frames with a Content-Length.
use ssh_gate.Prelude.{
  ℕ, zero, suc, ◌+◌, ◌≤◌, ◌<◌, ◌≡◌, ◌≢◌, refl, ap, ◌∙◌, Bool, true, false, not, ◌&&◌, ◌||◌, [], ◌∷◌,
  Option, none, some, Text, codes, length, take, if◌then◌else◌, inl, inr, Bool-cases, ltb, leb,
  leb→le, arith,
}
use ssh_gate.Syntax.Decimal.{pos, itoa, atoi, atoi-itoa}
use ssh_gate.Http.Message.{
  Request, Body, plan_body, reframed, streamed, no_body, check_size, read_limited,
  max_reframed_body, head_lines, is_skipped, is_nonempty, is_negative, is_zero,
}
use ssh_gate.Http.Rewrite.{field_values, header_lines, field_values-head_lines, forward_header-kept}

length-take : (n : ℕ) (xs : Text) → n ≤ length xs → length (take n xs) ≡ n
length-take zero xs h = refl
length-take (suc n) [] h = absurd (omega arith)
length-take (suc n) (x ∷ xs) h = omega (arith, length-take n xs)

-- A limited read that stays below its limit has read everything.
read_limited-whole :
    (limit : ℕ) (body : Body) (b : Text)
    → read_limited limit body ≡ some b
    → length b < limit
    → (b ≡ body.bytes) × (body.broken ≡ false)
read_limited-whole limit body b h small = elim (Bool-cases (leb limit (length body.bytes))) [
  | inl e ↦
      let same : take limit body.bytes ≡ b = ground (arith, h, e) in
      absurd (omega (arith, small, ap length same, length-take limit body.bytes (leb→le _ _ e)))
  | inr e ↦ ground (arith, h, e)
]

check_size-reframed :
    (read : Option Text) (b : Text)
    → check_size read ≡ reframed b
    → (read ≡ some b) × (length b ≤ max_reframed_body)
check_size-reframed none b h = absurd (ground arith)
check_size-reframed (some a) b h = elim (Bool-cases (ltb max_reframed_body (length a))) [
  | inl e ↦ absurd (ground arith)
  | inr e ↦
      let same : reframed a ≡ reframed b = rw e at h in
      let one : a ≡ b = cc in
      let small : length a ≤ max_reframed_body = ground arith in
      (ap some one, omega (arith, small, ap length one))
]

streamed_ne : (b : Bool) (t : Text) → (if b then streamed else no_body) ≢ reframed t
streamed_ne true t h = ground arith
streamed_ne false t h = ground arith

-- Only a limited read gives a body to re-frame.
plan_body-read :
    (r : Request) (b : Text)
    → plan_body r ≡ reframed b
    → check_size (read_limited (max_reframed_body + 1) r.body) ≡ reframed b
unfolding plan_body
plan_body-read r b h =
    elim (Bool-cases (
      not (is_zero r.content_length)
      && (is_nonempty r.transfer_encoding || is_negative r.content_length))) [
        | inl e ↦ rw (e, plan_body) at h
        | inr e ↦ absurd (streamed_ne _ b (rw (e, plan_body) at h))
      ]

-- A body that is re-framed was read to its end and is within the limit. Where the header that
-- ReadRequest leaves has no Content-Length, as for every chunked request, the forwarded head has
-- exactly one, which an upstream reads as the number of bytes that follow.
pub plan_body-reframed :
    (r : Request) (b : Text)
    → field_values (codes "content-length") (header_lines r.header) ≡ []
    → plan_body r ≡ reframed b
    → (b ≡ r.body.bytes)
      × (r.body.broken ≡ false)
      × (length b ≤ max_reframed_body)
      × (field_values (codes "content-length") (head_lines r (some b)) ≡ itoa (length b) ∷ [])
      × (atoi (itoa (length b)) ≡ some (pos (length b)))
unfolding is_skipped
plan_body-reframed r b bare h =
    let (read, fits) = check_size-reframed _ b (plan_body-read r b h) in
    let (whole, unbroken) = read_limited-whole _ r.body b read (omega (arith, fits)) in
    (
      whole,
      unbroken,
      fits,
      field_values-head_lines r (some b) (codes "content-length")
          ∙ rw (forward_header-kept (codes "content-length") r.header refl, bare),
      atoi-itoa (length b) (omega (arith, fits)),
    )
