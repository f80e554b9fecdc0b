-- ===== src/Http/Framing.antt =====
-- When the request parser asks for more bytes, and that it reads no byte behind the blank line.
use rpsiod.Prelude.{
  Bytes, ◌++◌, ◌≡◌, ◌≢◌, ◌↔◌, inl, inr, sym, ap, ◌∙◌, Option, some, none, find, find_sound,
  find-append, find-ne-none, is_prefix_iff, Option-cases,
}
use rpsiod.Http.Request.{Request}
use rpsiod.Http.Headers.{crlf}
use rpsiod.Http.Parse.{need_more, crlf_crlf, parse_block, outcome_of, parse_request}

outcome_of-ne-need_more : (o : Option Request) → outcome_of o ≢ need_more
unfolding outcome_of
outcome_of-ne-need_more none h = cc
outcome_of-ne-need_more (some req) h = cc

-- a buffer with a blank line has a line end
first_line :
    (buf : Bytes) {a b : Bytes}
    → find crlf_crlf buf ≡ some (a, b)
    → (l : Bytes) × (r : Bytes) × (find crlf buf ≡ some (l, r))
first_line buf {a} {b} h = elim (Option-cases (find crlf buf)) [
  | inr ((l, r), q) ↦ (l, r, q)
  | inl q ↦
      let (e, p) = find_sound crlf_crlf buf h in
      let (t, u) = (is_prefix_iff crlf_crlf b).0 p in
      absurd
        (find-ne-none crlf a (crlf ++ t) (ap (find crlf) (ap (λ x. a ++ x) (sym u) ∙ sym e) ∙ q))
]

-- the outcome, once the blank line and the first line are found
parse_request_found :
    (buf : Bytes) {a b l r : Bytes}
    → find crlf_crlf buf ≡ some (a, b)
    → find crlf buf ≡ some (l, r)
    → parse_request buf ≡ outcome_of (parse_block a l)
unfolding parse_request
parse_request_found buf h q = rw (h, q, parse_request)

parse_request_not_found : (buf : Bytes) → find crlf_crlf buf ≡ none → parse_request buf ≡ need_more
unfolding parse_request
parse_request_not_found buf h = rw (h, parse_request)

-- The parser asks for more bytes exactly when the buffer holds no blank line.
pub need_more_iff :
    (buf : Bytes) → (parse_request buf ≡ need_more) ↔ ((a b : Bytes) → buf ≢ a ++ (crlf_crlf ++ b))
need_more_iff buf = elim (Option-cases (find crlf_crlf buf)) [
  | inl q ↦ (
    λ _ a b e. find-ne-none crlf_crlf a b (ap (find crlf_crlf) (sym e) ∙ q),
    λ _. parse_request_not_found buf q,
  )
  | inr ((a, b), q) ↦
      let (l, r, f) = first_line buf q in
      let (e, p) = find_sound crlf_crlf buf q in
      let (t, u) = (is_prefix_iff crlf_crlf b).0 p in
      (
        λ h.
            absurd
              (outcome_of-ne-need_more (parse_block a l) (sym (parse_request_found buf q f) ∙ h)),
        λ h. absurd (h a t (e ∙ ap (λ x. a ++ x) u)),
      )
]

-- Once the blank line has arrived, bytes behind it change nothing of the outcome: a request is
-- parsed alike alone and with the next ones behind it.
pub parse_request-append :
    (buf extra : Bytes)
    → parse_request buf ≢ need_more
    → parse_request (buf ++ extra) ≡ parse_request buf
parse_request-append buf extra h = elim (Option-cases (find crlf_crlf buf)) [
  | inl q ↦ absurd (h (parse_request_not_found buf q))
  | inr ((a, b), q) ↦
      let (l, r, f) = first_line buf q in
      parse_request_found (buf ++ extra) (find-append crlf_crlf buf extra q)
        (find-append crlf buf extra f)
      ∙ sym (parse_request_found buf q f)
]
