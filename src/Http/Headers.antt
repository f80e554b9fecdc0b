-- ===== src/Http/Headers.antt =====
-- src/http.c: the header lines of a request, the second half of `rpsiod_http_parse_request`.
use rpsiod.Prelude.{
  ℕ, zero, suc, ◌+◌, Bool, true, false, ◌&&◌, ◌||◌, not, Bytes, codes, List, [], ◌∷◌, Option, some,
  none, ltb, leb, ◌==◌, if◌then◌else◌, length, split_at, find, ◌>>=◌, ◌>>◌, guard, drop,
}
use rpsiod.Util.Strings.{streq_ci, safe_copy}
use rpsiod.Http.Lexical.{copy_trimmed_value, valid_header_name, valid_header_value, host_len}
use rpsiod.Http.Host.{parse_host_value}
use rpsiod.Http.Values.{parse_content_length, header_token_present, parse_byte_range}
use rpsiod.Http.Request.{Request}

-- the locals of the loop, with the request that it fills
pub record Seen : Type 0 where
  pub req : Request
  pub connection_upgrade : Bool
  pub upgrade_websocket : Bool
  pub have_content_length : Bool
  pub seen_content_length : ℕ
  pub have_transfer_encoding : Bool
  pub have_host : Bool
  pub header_count : ℕ

-- the branches of the chain on the name
pub data Header : Type 0 where
  host accept_encoding if_none_match if_modified_since range content_length : Header
  transfer_encoding connection upgrade internal_scheme trace other : Header

unfoldable pub header_of : Bytes → Header
header_of name =
    if streq_ci name (codes "Host")
    then host
    else if streq_ci name (codes "Accept-Encoding")
    then accept_encoding
    else if streq_ci name (codes "If-None-Match")
    then if_none_match
    else if streq_ci name (codes "If-Modified-Since")
    then if_modified_since
    else if streq_ci name (codes "Range")
    then range
    else if streq_ci name (codes "Content-Length")
    then content_length
    else if streq_ci name (codes "Transfer-Encoding")
    then transfer_encoding
    else if streq_ci name (codes "Connection")
    then connection
    else if streq_ci name (codes "Upgrade")
    then upgrade
    else if streq_ci name (codes "X-Rpsiod-Internal-Scheme")
    then internal_scheme
    else if streq_ci name (codes "X-Rpsiod-Trace")
    then trace
    else other

abbrev encoding_len : ℕ
encoding_len = 256

abbrev validator_len : ℕ
validator_len = 256

-- the keep-alive flag behind a Connection header
connection_keep_alive : Bytes → Bool → Bool
connection_keep_alive value before =
    if header_token_present value (codes "close")
    then false
    else if header_token_present value (codes "keep-alive")
    then true
    else before

-- the body of each branch; `none` is `return -1`
unfoldable pub apply_header : Header → Bytes → Seen → Option Seen
unfolding connection_keep_alive
apply_header host value s = do
  guard (not s.have_host)
  h ← parse_host_value value host_len
  some (record s { req = record (s.req) { host = h }; have_host = true })
apply_header accept_encoding value s =
    some (record s { req = record (s.req) { accept_encoding = safe_copy encoding_len value } })
apply_header if_none_match value s =
    some (record s { req = record (s.req) { if_none_match = safe_copy validator_len value } })
apply_header if_modified_since value s =
    some (record s { req = record (s.req) { if_modified_since = safe_copy validator_len value } })
apply_header range value s = do
  r ← parse_byte_range value s.req.range
  some (record s { req = record (s.req) { range = r } })
apply_header content_length value s = do
  n ← parse_content_length value
  guard (not (s.have_content_length && not (n == s.seen_content_length)))
  some (record s {
    req = record (s.req) { content_length = n };
    have_content_length = true;
    seen_content_length = n;
  })
apply_header transfer_encoding value s = do
  guard (streq_ci value (codes "chunked"))
  some (record s { have_transfer_encoding = true })
apply_header connection value s = some (record s {
  req = record (s.req) { keep_alive = connection_keep_alive value s.req.keep_alive };
  connection_upgrade = s.connection_upgrade || header_token_present value (codes "upgrade");
})
apply_header upgrade value s =
    some
      (record s { upgrade_websocket = s.upgrade_websocket || streq_ci value (codes "websocket") })
apply_header internal_scheme value s = some (record s {
  req = record (s.req) { internal_https = s.req.internal_https || streq_ci value (codes "https") };
})
apply_header trace value s = some (record s {
  req = record (s.req) {
    trace_request = streq_ci value (codes "1") || streq_ci value (codes "true");
  };
})
apply_header other value s = some s

-- the name and the trimmed value of a line that is not empty
unfoldable pub split_header : Bytes → Option (Bytes × Bytes)
split_header line = do
  (name, raw_value) ← split_at b':' line
  guard (valid_header_name name)
  guard (valid_header_value raw_value)
  guard (not (leb 128 (length name)))
  value ← copy_trimmed_value 1024 raw_value
  some (name, value)

-- a line that is not empty
unfoldable pub apply_line : Bytes → Seen → Option Seen
apply_line line s = do
  guard (not (ltb 100 (s.header_count + 1)))
  (name, value) ← split_header line
  apply_header (header_of name) value (record s { header_count = s.header_count + 1 })

-- one round of the loop
unfoldable pub process_line : Bytes → Seen → Option Seen
unfolding apply_line
process_line line s =
    if leb 1024 (length line) then none else if length line == 0 then some s else apply_line line s

unfoldable pub process_lines : List Bytes → Seen → Option Seen
process_lines [] s = some s
process_lines (line ∷ lines) s = do t ← process_line line s; process_lines lines t

abbrev pub crlf : Bytes
crlf = 13 ∷ 10 ∷ []

-- the lines that the loop visits between `p` and `end`, on fuel: every round passes over a byte
unfoldable pub header_lines : ℕ → Bytes → List Bytes
header_lines fuel [] = []
header_lines zero (c ∷ s) = []
header_lines (suc fuel) (c ∷ s) = elim (find crlf (c ∷ s)) [
  | none ↦ (c ∷ s) ∷ []
  | some (line, behind) ↦ line ∷ header_lines fuel (drop 2 behind)
]
