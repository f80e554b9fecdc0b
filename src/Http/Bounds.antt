-- ===== src/Http/Bounds.antt =====
-- Every buffer of a request that was parsed fits its array, and holds only the bytes that it may.
use rpsiod.Prelude.{
  ℕ, ◌+◌, ◌≤◌, ◌<◌, true, false, not, Bytes, List, [], ◌∷◌, ◌++◌, ◌≡◌, inl, inr, refl, sym, ap, ◌∙◌,
  some, arith, length, find, find_sound, >>=-eq-some, guard-eq-some, split_at, length-append,
  is_prefix_iff, Option-cases,
}
use rpsiod.Util.Strings.{safe_copy, safe_copy_bounds, char_at}
use rpsiod.Http.Lexical.{valid_token_char, target_char}
use rpsiod.Http.Lexical.Sound.{Holds}
use rpsiod.Http.Host.{parse_host_value}
use rpsiod.Http.Host.Sound.{IsHost, parse_host_value-IsHost}
use rpsiod.Http.Request.{Request, RequestLine}
use rpsiod.Http.Request.Sound.{IsTarget, parse_request_line-IsRequestLine}
use rpsiod.Http.Headers.{Seen, Header, host, apply_header, header_of, process_line, process_lines}
use rpsiod.Http.Smuggling.{is_host}
use rpsiod.Http.Parse.{done, crlf_crlf, start, query_of, parse_request}
use rpsiod.Http.Invert.{parse_request-Parsed, Finished, finish-Finished, process_line_cases}

-- what the loop over the headers keeps
record Kept (s t : Seen) : Type 0 where
  method : t.req.method ≡ s.req.method
  path : t.req.path ≡ s.req.path
  query_string : t.req.query_string ≡ s.req.query_string
  header_len : t.req.header_len ≡ s.req.header_len
  head_only : t.req.head_only ≡ s.req.head_only
  absolute_form : t.req.absolute_form ≡ s.req.absolute_form

-- the buffers that it fills
record Filled (s : Seen) : Type 0 where
  host_ok : s.have_host ≡ true → IsHost 256 s.req.host
  accept_encoding : length s.req.accept_encoding < 256
  if_none_match : length s.req.if_none_match < 256
  if_modified_since : length s.req.if_modified_since < 256

copied : (s : Bytes) → length (safe_copy 256 s) < 256
copied s = (safe_copy_bounds 256 s (omega arith)).0

apply_header-Kept :
    (k : Header) (value : Bytes) (s t : Seen) → apply_header k value s ≡ some t → Kept s t
unfolding apply_header
apply_header-Kept host value s t e = ground arith
apply_header-Kept _ value s t e = ground arith

host_filled :
    (value : Bytes) (s t : Seen) → apply_header host value s ≡ some t → IsHost 256 t.req.host
unfolding apply_header
host_filled value s t e =
    let (_, e1) = guard-eq-some (not s.have_host) _ e in
    let (h, found, e2) = >>=-eq-some (parse_host_value value 256) _ e1 in
    let same : t.req.host ≡ h = ground arith in rw same (parse_host_value-IsHost value 256 found)

host_kept :
    (k : Header) (value : Bytes) (s t : Seen)
    → is_host k ≡ false
    → apply_header k value s ≡ some t
    → (t.req.host ≡ s.req.host) × (t.have_host ≡ s.have_host)
unfolding apply_header
host_kept host value s t h e = absurd (cc)
host_kept _ value s t h e = ground arith

apply_header-Filled :
    (k : Header) (value : Bytes) (s t : Seen)
    → apply_header k value s ≡ some t
    → Filled s
    → Filled t
unfolding apply_header
apply_header-Filled host value s t e f = record {
  host_ok = λ _. host_filled value s t e;
  accept_encoding = ground (arith, f.accept_encoding);
  if_none_match = ground (arith, f.if_none_match);
  if_modified_since = ground (arith, f.if_modified_since);
}
apply_header-Filled k value s t e f = record {
  host_ok =
      λ h. let (same, flag) = host_kept k value s t refl e in rw same (f.host_ok (sym flag ∙ h));
  accept_encoding = ground (arith, f.accept_encoding, copied value);
  if_none_match = ground (arith, f.if_none_match, copied value);
  if_modified_since = ground (arith, f.if_modified_since, copied value);
}

Filled-counted : (s : Seen) (n : ℕ) → Filled s → Filled (record s { header_count = n })
Filled-counted s n f = record {
  host_ok = f.host_ok;
  accept_encoding = f.accept_encoding;
  if_none_match = f.if_none_match;
  if_modified_since = f.if_modified_since;
}

Kept-counted : (s t : Seen) (n : ℕ) → Kept (record s { header_count = n }) t → Kept s t
Kept-counted s t n k = record {
  method = k.method;
  path = k.path;
  query_string = k.query_string;
  header_len = k.header_len;
  head_only = k.head_only;
  absolute_form = k.absolute_form;
}

Kept-refl : (s : Seen) → Kept s s
Kept-refl s = record {
  method = refl;
  path = refl;
  query_string = refl;
  header_len = refl;
  head_only = refl;
  absolute_form = refl;
}

Kept-trans : {s t u : Seen} → Kept s t → Kept t u → Kept s u
Kept-trans a b = record {
  method = b.method ∙ a.method;
  path = b.path ∙ a.path;
  query_string = b.query_string ∙ a.query_string;
  header_len = b.header_len ∙ a.header_len;
  head_only = b.head_only ∙ a.head_only;
  absolute_form = b.absolute_form ∙ a.absolute_form;
}

process_line-Filled :
    (line : Bytes) (s t : Seen) → process_line line s ≡ some t → Filled s → Kept s t × Filled t
process_line-Filled line s t e f = elim (process_line_cases line s t e) [
  | inl (_, same) ↦ rw same (Kept-refl s, f)
  | inr a ↦ (
    Kept-counted s t _ (apply_header-Kept (header_of a.name) a.value _ t a.applied),
    apply_header-Filled (header_of a.name) a.value _ t a.applied (Filled-counted s _ f),
  )
]

process_lines-Filled :
    (lines : List Bytes) (s u : Seen)
    → process_lines lines s ≡ some u
    → Filled s
    → Kept s u × Filled u
unfolding process_lines
process_lines-Filled [] s u e f = let same : u ≡ s = ground arith in rw same (Kept-refl s, f)
process_lines-Filled (line ∷ lines) s u e f =
    let (t, step, more) = >>=-eq-some (process_line line s) (process_lines lines) e in
    let (k, ft) = process_line-Filled line s t step f in
    let (k', fu) = process_lines-Filled lines t u more ft in (Kept-trans k k', fu)

-- what a request holds that was parsed from a buffer
pub record IsRequest (buf : Bytes) (req : Request) : Type 0 where
  pub method_token : Holds valid_token_char req.method
  pub method_size : (0 < length req.method) × (length req.method < 16)
  pub path_slash : char_at req.path 0 ≡ b'/'
  pub path_bytes : Holds target_char req.path
  pub path_size : length req.path < 2048
  pub query_size : length req.query_string < 2048
  pub host_ok : IsHost 256 req.host
  pub accept_encoding_size : length req.accept_encoding < 256
  pub if_none_match_size : length req.if_none_match < 256
  pub if_modified_since_size : length req.if_modified_since < 256
  pub header_start : 4 ≤ req.header_len
  pub header_size : (req.header_len ≤ 16384) × (req.header_len ≤ length buf)

length-query_of : (path : Bytes) → length (query_of path) < 2048
unfolding query_of
length-query_of path = elim (Option-cases (split_at b'?' path)) [
  | inl q ↦ rw (q, query_of) (omega arith)
  | inr ((a, b), q) ↦ rw (q, query_of) ((safe_copy_bounds 2048 b (omega arith)).0)
]

length-head :
    (buf : Bytes) {head behind : Bytes}
    → find crlf_crlf buf ≡ some (head, behind)
    → length head + 4 ≤ length buf
length-head buf {head} {behind} h =
    let (e, p) = find_sound crlf_crlf buf h in
    let (r, q) = (is_prefix_iff crlf_crlf behind).0 p in
    let size : length buf ≡ length (head ++ (crlf_crlf ++ r)) =
      ap length (e ∙ ap (λ b. head ++ b) q) in
    omega (arith, size, length-append head (crlf_crlf ++ r))

IsRequest-of :
    (buf : Bytes) (head_size : ℕ) (r : RequestLine) (s : Seen) (req : Request)
    → 4 ≤ head_size
    → head_size ≤ 16384
    → head_size ≤ length buf
    → IsTarget 2048 256 r.target
    → (0 < length r.method) × (length r.method < 16)
    → Holds valid_token_char r.method
    → Kept (start head_size r) s
    → Filled s
    → Finished r.target.absolute_authority s req
    → IsRequest buf req
unfolding start
IsRequest-of buf n r s req start_size small inside t size token k f e = rw e.result (record {
  method_token = rw k.method token;
  method_size = rw k.method size;
  path_slash = rw k.path t.slash;
  path_bytes = rw k.path t.path_bytes;
  path_size = rw k.path t.path_fits;
  query_size = rw k.query_string (length-query_of r.target.path);
  host_ok = f.host_ok e.host_seen;
  accept_encoding_size = f.accept_encoding;
  if_none_match_size = f.if_none_match;
  if_modified_since_size = f.if_modified_since;
  header_start = rw k.header_len start_size;
  header_size = rw k.header_len (small, inside);
})

start-Filled : (n : ℕ) (r : RequestLine) → Filled (start n r)
unfolding start
start-Filled n r = record {
  host_ok = λ h. absurd (cc);
  accept_encoding = omega arith;
  if_none_match = omega arith;
  if_modified_since = omega arith;
}

-- A request that is accepted fits its buffers: the method is a token of 1 to 15 bytes, the path begins
-- with a slash, has fewer than 2048 bytes and no control byte or blank, the host has 1 to 255 bytes of
-- a host name, the copied headers leave room for their NUL, and the header block has 4 to 16384
-- bytes and ends inside the buffer.
pub parse_request-IsRequest :
    (buf : Bytes) {req : Request} → parse_request buf ≡ done req → IsRequest buf req
parse_request-IsRequest buf {req} e =
    let p = parse_request-Parsed e in
    let line = parse_request_line-IsRequestLine p.first p.line_parsed in
    let (kept, filled) =
      process_lines-Filled _ (start (length p.head + 4) p.line) p.seen p.lines_parsed
        (start-Filled (length p.head + 4) p.line) in
    IsRequest-of buf (length p.head + 4) p.line p.seen req (omega arith) p.head_small
      (length-head buf p.head_found) line.target_ok (line.method_nonempty, line.method_fits)
      line.method_token kept filled
      (finish-Finished p.line.target.absolute_authority p.seen p.finished)
