-- ===== src/Http/Rewrite.antt =====
-- httpproxy.go: the fields of the forwarded request's head.
use ssh_gate.Prelude.{
  ◌≡◌, ◌≢◌, refl, ap, ◌∙◌, sym, Bool, true, false, not, List, [], ◌∷◌, ◌++◌, map, Option, none,
  some, Text, codes, text_beq, text_beq_iff, text_beq_ne, to_lower, if◌then◌else◌, inl, inr,
  Bool-cases, arith,
}
use ssh_gate.Http.Message.{
  Request, is_skipped, forward_header, request_host, length_line, head_lines,
}

pub append_nil : {A : Type 0} (xs : List A) → xs ++ [] ≡ xs
append_nil [] = refl
append_nil (x ∷ xs) = ap (◌∷◌ x) (append_nil xs)

-- The values of a field, whose name is in lower case, in the order of the lines.
abbrev pub field_values : Text → List (Text × Text) → List Text
field_values n [] = []
field_values n ((k, v) ∷ lines) =
    if text_beq (to_lower k) n then v ∷ field_values n lines else field_values n lines

-- The lines of a whole header.
abbrev pub header_lines : List (Text × List Text) → List (Text × Text)
header_lines [] = []
header_lines ((k, vs) ∷ header) = map (λ v. (k, v)) vs ++ header_lines header

field_values-append :
    (n : Text) (a b : List (Text × Text))
    → field_values n (a ++ b) ≡ field_values n a ++ field_values n b
field_values-append n [] b = refl
field_values-append n ((k, v) ∷ a) b = ground (arith, field_values-append n a b)

field_values-other :
    (n k : Text) (vs : List Text)
    → text_beq (to_lower k) n ≡ false
    → field_values n (map (λ v. (k, v)) vs) ≡ []
field_values-other n k [] h = refl
field_values-other n k (v ∷ vs) h = rw h (field_values-other n k vs h)

no_fixed : (b : Bool) → b ≢ not b
no_fixed b e = ground arith

-- A name that is skipped is not one that is not.
skipped_other :
    (n m : Text) (b : Bool) → is_skipped n ≡ b → is_skipped m ≡ not b → text_beq m n ≡ false
skipped_other n m b h g = elim (Bool-cases (text_beq m n)) [
  | inr e ↦ e
  | inl e ↦
      let same = (text_beq_iff m n).0 e in
      absurd (no_fixed b (sym h ∙ sym (ap is_skipped same) ∙ g))
]

module _ (n k : Text) (vs : List Text) (header : List (Text × List Text)) where
  -- One round of the header loop, by whether it skips the field.
  field_values-skip :
      is_skipped (to_lower k) ≡ true
      → field_values n (forward_header ((k, vs) ∷ header)) ≡ field_values n (forward_header header)
  unfolding forward_header
  field_values-skip e = rw (e, forward_header)

  field_values-forward :
      is_skipped (to_lower k) ≡ false
      → field_values n (forward_header ((k, vs) ∷ header))
        ≡ field_values n (map (λ v. (k, v)) vs) ++ field_values n (forward_header header)
  unfolding forward_header
  field_values-forward e =
      rw (e, forward_header) (field_values-append n (map (λ v. (k, v)) vs) (forward_header header))

forward_header-skipped :
    (n : Text) (header : List (Text × List Text))
    → is_skipped n ≡ true
    → field_values n (forward_header header) ≡ []
unfolding forward_header
forward_header-skipped n [] h = refl
forward_header-skipped n ((k, vs) ∷ header) h = elim (Bool-cases (is_skipped (to_lower k))) [
  | inl e ↦ field_values-skip n k vs header e ∙ forward_header-skipped n header h
  | inr e ↦
      field_values-forward n k vs header e
      ∙ rw (field_values-other n k vs (skipped_other n (to_lower k) true h e))
          (forward_header-skipped n header h)
]

pub forward_header-kept :
    (n : Text) (header : List (Text × List Text))
    → is_skipped n ≡ false
    → field_values n (forward_header header) ≡ field_values n (header_lines header)
unfolding forward_header
forward_header-kept n [] h = refl
forward_header-kept n ((k, vs) ∷ header) h = elim (Bool-cases (is_skipped (to_lower k))) [
  | inl e ↦
      field_values-skip n k vs header e
      ∙ forward_header-kept n header h
      ∙ rw (
        field_values-append n (map (λ v. (k, v)) vs) (header_lines header),
        field_values-other n k vs (skipped_other n (to_lower k) false h e),
      )
  | inr e ↦
      field_values-forward n k vs header e
      ∙ rw (
        field_values-append n (map (λ v. (k, v)) vs) (header_lines header),
        forward_header-kept n header h,
      )
]

module _ (r : Request) (body : Option Text) where
  -- The fields of the whole head, by the parts of the head.
  pub field_values-head_lines :
      (n : Text)
      → field_values n (head_lines r body)
        ≡ field_values n ((codes "Host", request_host r) ∷ [])
          ++ (field_values n (length_line body)
              ++ (field_values n (forward_header r.header)
                  ++ field_values n ((codes "Connection", codes "close") ∷ [])))
  unfolding head_lines
  field_values-head_lines n =
      field_values-append n ((codes "Host", request_host r) ∷ []) _
      ∙ ap (λ x. field_values n ((codes "Host", request_host r) ∷ []) ++ x)
          (field_values-append n (length_line body) _
            ∙ ap (λ x. field_values n (length_line body) ++ x)
                (field_values-append n (forward_header r.header) _))

  -- The line that re-framing adds is a content length only.
  length_line-other :
      (n : Text) (b : Option Text)
      → text_beq (codes "content-length") n ≡ false
      → field_values n (length_line b) ≡ []
  length_line-other n none h = refl
  length_line-other n (some b) h = rw h

  own_field :
      (n : Text)
      → is_skipped n ≡ true
      → text_beq (codes "content-length") n ≡ false
      → field_values n (head_lines r body)
        ≡ field_values n ((codes "Host", request_host r) ∷ [])
          ++ field_values n ((codes "Connection", codes "close") ∷ [])
  own_field n h other =
      field_values-head_lines n
      ∙ rw (length_line-other n body other, forward_header-skipped n r.header h)

  -- The forwarded request has exactly one Host, which is the one that the client asked for, and one
  -- Connection, which is close; the fields Proxy-Connection, Proxy-Authorization and
  -- Transfer-Encoding of the request never reach the upstream.
  pub head_lines_own :
      (field_values (codes "host") (head_lines r body) ≡ request_host r ∷ [])
      × (field_values (codes "connection") (head_lines r body) ≡ codes "close" ∷ [])
      × (field_values (codes "proxy-connection") (head_lines r body) ≡ [])
      × (field_values (codes "proxy-authorization") (head_lines r body) ≡ [])
      × (field_values (codes "transfer-encoding") (head_lines r body) ≡ [])
  unfolding is_skipped
  head_lines_own = (
    own_field (codes "host") refl refl,
    own_field (codes "connection") refl refl,
    own_field (codes "proxy-connection") refl refl,
    own_field (codes "proxy-authorization") refl refl,
    own_field (codes "transfer-encoding") refl refl,
  )

  -- Every other field but the length reaches the upstream with all of its values, in their order.
  pub head_lines_others :
      (n : Text)
      → is_skipped n ≡ false
      → n ≢ codes "content-length"
      → field_values n (head_lines r body) ≡ field_values n (header_lines r.header)
  unfolding is_skipped
  head_lines_others n h other =
      field_values-head_lines n
      ∙ rw
          (
            skipped_other n (codes "host") false h refl,
            skipped_other n (codes "connection") false h refl,
            length_line-other n body (text_beq_ne (codes "content-length") n (λ e. other (sym e))),
            append_nil (field_values n (forward_header r.header)),
          )
          (forward_header-kept n r.header h)
