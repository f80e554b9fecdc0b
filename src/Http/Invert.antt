-- ===== src/Http/Invert.antt =====
-- What a request that was parsed has passed: the steps of the parser, taken apart.
use rpsiod.Prelude.{
  ◌+◌, ◌≤◌, true, false, not, ◌&&◌, Bytes, [], ◌∷◌, ◌++◌, ◌≡◌, ◌⊎◌, inl, inr, refl, Option, some,
  none, arith, length, find, drop, Option-cases, guard-eq-some, >>=-eq-some, ltb, split_at,
}
use rpsiod.Http.Lexical.{valid_header_block_newlines}
use rpsiod.Http.Host.{authority_matches_host}
use rpsiod.Http.Request.{Request, RequestLine, parse_request_line}
use rpsiod.Http.Headers.{
  Seen, crlf, header_of, apply_header, split_header, apply_line, process_line, process_lines,
  header_lines,
}
use rpsiod.Http.Parse.{done, crlf_crlf, start, finish, parse_block, outcome_of, parse_request}

pub record Parsed (buf : Bytes) (req : Request) : Type 0 where
  pub head : Bytes
  pub behind : Bytes
  pub first : Bytes
  pub after : Bytes
  pub line : RequestLine
  pub seen : Seen
  pub head_found : find crlf_crlf buf ≡ some (head, behind)
  pub first_found : find crlf buf ≡ some (first, after)
  pub head_small : length head + 4 ≤ 16384
  pub newlines : valid_header_block_newlines (head ++ crlf_crlf) ≡ true
  pub line_parsed : parse_request_line first ≡ some line
  pub lines_parsed :
      process_lines
        (header_lines (length head) (drop (length first + 2) head))
        (start (length head + 4) line)
      ≡ some seen
  pub finished : finish line.target.absolute_authority seen ≡ some req

outcome_done : {req : Request} (o : Option Request) → outcome_of o ≡ done req → o ≡ some req
unfolding outcome_of
outcome_done none h = absurd (cc)
outcome_done (some r) h = cc

module _ {buf : Bytes} {req : Request} where
  parse_block-Parsed :
      (head behind first after : Bytes)
      → find crlf_crlf buf ≡ some (head, behind)
      → find crlf buf ≡ some (first, after)
      → parse_block head first ≡ some req
      → Parsed buf req
  unfolding parse_block
  parse_block-Parsed head behind first after h f e =
      let (small, e1) = guard-eq-some (not (ltb 16384 (length head + 4))) _ e in
      let (nl, e2) = guard-eq-some (valid_header_block_newlines (head ++ crlf_crlf)) _ e1 in
      let (short, e3) = guard-eq-some (not (ltb 2048 (length first))) _ e2 in
      let (line, e4, e5) = >>=-eq-some (parse_request_line first) _ e3 in
      let (s, e6, e7) =
        >>=-eq-some
          (process_lines (header_lines (length head) (drop (length first + 2) head))
            (start (length head + 4) line))
          _ e5 in
      record {
        head = head;
        behind = behind;
        first = first;
        after = after;
        line = line;
        seen = s;
        head_found = h;
        first_found = f;
        head_small = ground arith;
        newlines = nl;
        line_parsed = e4;
        lines_parsed = e6;
        finished = e7;
      }

  pub parse_request-Parsed : parse_request buf ≡ done req → Parsed buf req
  unfolding parse_request
  parse_request-Parsed e = elim (Option-cases (find crlf_crlf buf)) [
    | inl q ↦ absurd (cc (rw (q, parse_request) at e))
    | inr ((head, behind), q) ↦ elim (Option-cases (find crlf buf)) [
      | inl f ↦ absurd (cc (rw (q, f, parse_request) at e))
      | inr ((first, after), f) ↦
          parse_block-Parsed head behind first after q f
            (outcome_done (parse_block head first) (rw (q, f, parse_request) at e))
    ]
  ]

-- what the checks behind the loop have passed
pub record Finished (authority : Bytes) (s : Seen) (req : Request) : Type 0 where
  pub no_transfer_encoding : s.have_transfer_encoding ≡ false
  pub host_seen : s.have_host ≡ true
  pub authority_matches :
      s.req.absolute_form ≡ true → authority_matches_host authority s.req.host ≡ true
  pub result :
      req ≡ record (s.req) { upgrade_websocket = s.connection_upgrade && s.upgrade_websocket }

pub finish-Finished :
    (authority : Bytes) (s : Seen) {req : Request}
    → finish authority s ≡ some req
    → Finished authority s req
unfolding finish
finish-Finished authority s e = ground arith

-- what one round of the loop did: nothing for an empty line, else it applied one header
pub record Applied (line : Bytes) (s t : Seen) : Type 0 where
  pub name : Bytes
  pub value : Bytes
  pub split : split_header line ≡ some (name, value)
  pub few : s.header_count + 1 ≤ 100
  pub applied :
      apply_header (header_of name) value (record s { header_count = s.header_count + 1 }) ≡ some t

apply_line-Applied : (line : Bytes) (s t : Seen) → apply_line line s ≡ some t → Applied line s t
unfolding apply_line
apply_line-Applied line s t e =
    let (few, e1) = guard-eq-some (not (ltb 100 (s.header_count + 1))) _ e in
    let (field, e2, e3) = >>=-eq-some (split_header line) _ e1 in
    record { name = field.0; value = field.1; split = e2; few = ground arith; applied = e3 }

pub process_line_cases :
    (line : Bytes) (s t : Seen)
    → process_line line s ≡ some t
    → ((split_header line ≡ none) × (t ≡ s)) ⊎ Applied line s t
unfolding process_line split_header split_at
process_line_cases [] s t e = inl (refl, ground arith)
process_line_cases (c ∷ l) s t e =
    let step : apply_line (c ∷ l) s ≡ some t = ground arith in
    inr (apply_line-Applied (c ∷ l) s t step)
