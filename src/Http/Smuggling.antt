-- ===== src/Http/Smuggling.antt =====
-- The framing headers of a request that was parsed: one Host, no Transfer-Encoding, and one length of
-- the body however often it is given.
use rpsiod.Prelude.{
  ℕ, ◌+◌, Bool, true, false, ◌||◌, Bytes, List, [], ◌∷◌, ◌≡◌, inl, inr, refl, sym, ap, ◌∙◌, some,
  none, arith, length, find, drop, if◌then◌else◌, All, >>=-eq-some,
}
use mathlib.Core.Path.{subst}
use rpsiod.Http.Values.{parse_content_length}
use rpsiod.Http.Request.{Request}
use rpsiod.Http.Headers.{
  Seen, Header, host, content_length, transfer_encoding, crlf, header_of, apply_header,
  split_header, process_line, process_lines, header_lines,
}
use rpsiod.Http.Parse.{done, crlf_crlf, start, parse_request}
use rpsiod.Http.Invert.{
  Parsed, parse_request-Parsed, Finished, finish-Finished, Applied, process_line_cases,
}

abbrev pub Field : Type 0
Field = Bytes × Bytes

-- the headers of the lines, the malformed ones left out
abbrev pub fields : List Bytes → List Field
fields [] = []
fields (line ∷ lines) = elim (split_header line) [ none ↦ fields lines | some f ↦ f ∷ fields lines ]

-- the headers between the first line of a buffer and its blank line
abbrev pub request_fields : Bytes → List Field
request_fields buf = elim (find crlf_crlf buf) [
  | none ↦ []
  | some (head, _) ↦ elim (find crlf buf) [
    | none ↦ []
    | some (first, _) ↦ fields (header_lines (length head) (drop (length first + 2) head))
  ]
]

abbrev pub is_host : Header → Bool
is_host host = true
is_host _ = false

abbrev pub is_transfer_encoding : Header → Bool
is_transfer_encoding transfer_encoding = true
is_transfer_encoding _ = false

abbrev pub is_content_length : Header → Bool
is_content_length content_length = true
is_content_length _ = false

-- how many of the headers have a name of a kind
abbrev pub count : (Header → Bool) → List Field → ℕ
count kind [] = 0
count kind ((name, value) ∷ fs) = (if kind (header_of name) then 1 else 0) + count kind fs

-- a Content-Length header gives the length `n`
abbrev pub Gives : ℕ → Field → Type 0
Gives n (name, value) =
    is_content_length (header_of name) ≡ true → parse_content_length value ≡ some n

abbrev bit : Bool → ℕ
bit b = if b then 1 else 0

-- what one header does to the flags of the loop
record Effect (k : Header) (value : Bytes) (s t : Seen) : Type 0 where
  host_bit : bit (is_host k) + bit s.have_host ≡ bit t.have_host
  encoding : t.have_transfer_encoding ≡ (is_transfer_encoding k || s.have_transfer_encoding)
  gives : is_content_length k ≡ true → parse_content_length value ≡ some t.req.content_length
  has_length : t.have_content_length ≡ (is_content_length k || s.have_content_length)
  same_length : s.have_content_length ≡ true → t.seen_content_length ≡ s.seen_content_length
  agrees :
      s.req.content_length ≡ s.seen_content_length → t.req.content_length ≡ t.seen_content_length
  untouched : is_content_length k ≡ false → t.req.content_length ≡ s.req.content_length

apply_header-Effect :
    (k : Header) (value : Bytes) (s t : Seen) → apply_header k value s ≡ some t → Effect k value s t
unfolding apply_header
apply_header-Effect host value s t e = ground arith
apply_header-Effect _ value s t e = ground arith

-- what a run over the lines does to the flags, in terms of the headers on them
record Ran (fs : List Field) (s t : Seen) : Type 0 where
  hosts : count is_host fs + bit s.have_host ≡ bit t.have_host
  encodings : t.have_transfer_encoding ≡ false → count is_transfer_encoding fs ≡ 0
  encoding_before : t.have_transfer_encoding ≡ false → s.have_transfer_encoding ≡ false
  lengths : s.req.content_length ≡ s.seen_content_length → All (Gives t.req.content_length) fs
  agrees :
      s.req.content_length ≡ s.seen_content_length → t.req.content_length ≡ t.seen_content_length
  same_length :
      s.have_content_length ≡ true
      → (t.seen_content_length ≡ s.seen_content_length) × (t.have_content_length ≡ true)
  no_length : count is_content_length fs ≡ 0 → t.req.content_length ≡ s.req.content_length

Ran-nil : (s : Seen) → Ran [] s s
Ran-nil s = record {
  hosts = omega arith;
  encodings = λ _. refl;
  encoding_before = λ h. h;
  lengths = λ _. tt;
  agrees = λ h. h;
  same_length = λ h. (refl, h);
  no_length = λ _. refl;
}

Ran-cons :
    (name value : Bytes) {fs : List Field} {s t u : Seen}
    → Effect (header_of name) value s t
    → Ran fs t u
    → Ran ((name, value) ∷ fs) s u
Ran-cons name value {fs} {s} {t} {u} e r = record {
  hosts = ground (arith, e.host_bit, r.hosts);
  encodings = λ h. ground (arith, e.encoding, r.encodings h, r.encoding_before h);
  encoding_before = λ h. ground (arith, e.encoding, r.encoding_before h);
  lengths = λ h. (
    λ c.
        let has : t.have_content_length ≡ true = ground (arith, e.has_length) in
        e.gives c ∙ ap some (e.agrees h ∙ sym (r.same_length has).0 ∙ sym (r.agrees (e.agrees h))),
    r.lengths (e.agrees h),
  );
  agrees = λ h. r.agrees (e.agrees h);
  same_length = λ h.
      let has : t.have_content_length ≡ true = ground (arith, e.has_length) in
      ((r.same_length has).0 ∙ e.same_length h, (r.same_length has).1);
  no_length = λ h. r.no_length (ground arith) ∙ e.untouched (ground arith);
}

-- the counter plays no part
Effect-counted :
    (k : Header) (value : Bytes) (s t : Seen) (n : ℕ)
    → Effect k value (record s { header_count = n }) t
    → Effect k value s t
Effect-counted k value s t n e = record {
  host_bit = e.host_bit;
  encoding = e.encoding;
  gives = e.gives;
  has_length = e.has_length;
  same_length = e.same_length;
  agrees = e.agrees;
  untouched = e.untouched;
}

Ran-empty_line :
    (line : Bytes) (lines : List Bytes) (s t u : Seen)
    → split_header line ≡ none
    → t ≡ s
    → Ran (fields lines) t u
    → Ran (fields (line ∷ lines)) s u
Ran-empty_line line lines s t u empty same r =
    rw (empty, fields) (subst (λ x. Ran (fields lines) x u) same r)

Ran-header_line :
    (line : Bytes) (lines : List Bytes) (s t u : Seen)
    → Applied line s t
    → Ran (fields lines) t u
    → Ran (fields (line ∷ lines)) s u
Ran-header_line line lines s t u a r =
    rw (a.split, fields)
      (Ran-cons a.name a.value
        (Effect-counted (header_of a.name) a.value s t (s.header_count + 1)
          (apply_header-Effect (header_of a.name) a.value _ t a.applied))
        r)

some-same : (s u : Seen) → some s ≡ some u → s ≡ u
some-same s u e = ground arith

process_lines-Ran :
    (lines : List Bytes) (s u : Seen) → process_lines lines s ≡ some u → Ran (fields lines) s u
unfolding process_lines
process_lines-Ran [] s u e = subst (λ x. Ran [] s x) (some-same s u e) (Ran-nil s)
process_lines-Ran (line ∷ lines) s u e =
    let (t, step, more) = >>=-eq-some (process_line line s) (process_lines lines) e in
    let rest = process_lines-Ran lines t u more in
    elim (process_line_cases line s t step) [
      | inl (empty, same) ↦ Ran-empty_line line lines s t u empty same rest
      | inr a ↦ Ran-header_line line lines s t u a rest
    ]

request_fields-Parsed :
    {buf : Bytes} {req : Request} (p : Parsed buf req)
    → request_fields buf ≡ fields (header_lines (length p.head) (drop (length p.first + 2) p.head))
request_fields-Parsed p = rw (p.head_found, p.first_found, request_fields)

-- what the framing headers of a request are
pub record Framed (fs : List Field) (req : Request) : Type 0 where
  pub one_host : count is_host fs ≡ 1
  pub no_transfer_encoding : count is_transfer_encoding fs ≡ 0
  pub one_length : All (Gives req.content_length) fs
  pub default_length : count is_content_length fs ≡ 0 → req.content_length ≡ 0

Framed-Ran :
    (fs : List Field) (authority : Bytes) (s t : Seen) (req : Request)
    → s.have_host ≡ false
    → s.seen_content_length ≡ 0
    → s.req.content_length ≡ 0
    → Ran fs s t
    → Finished authority t req
    → Framed fs req
Framed-Ran fs authority s t req h n c r f = record {
  one_host = ground (arith, r.hosts, f.host_seen);
  no_transfer_encoding = r.encodings f.no_transfer_encoding;
  one_length = rw f.result (r.lengths (c ∙ sym n));
  default_length = λ none_given. rw f.result (r.no_length none_given ∙ c);
}

-- A request that is accepted has exactly one Host header, no Transfer-Encoding header, and every
-- Content-Length header on it gives the length that is reported, which is 0 if there is none.
pub parse_request-Framed :
    (buf : Bytes) {req : Request} → parse_request buf ≡ done req → Framed (request_fields buf) req
unfolding start
parse_request-Framed buf {req} e =
    let p = parse_request-Parsed e in
    rw (request_fields-Parsed p) (
      Framed-Ran _ p.line.target.absolute_authority (start (length p.head + 4) p.line) p.seen req
        refl refl refl (process_lines-Ran _ _ p.seen p.lines_parsed)
        (finish-Finished _ p.seen p.finished))
