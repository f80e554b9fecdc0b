-- ===== src/Http2/Answer.antt =====
-- src/http2.c: the answer of the own server is read, `parse_loopback_response`. A failed `malloc` is left out.
pub mod Passes
use rpsiod.Prelude.{
  ℕ, zero, suc, ◌<◌, ◌≤◌, Bool, true, false, ◌&&◌, ◌||◌, not, Bytes, codes, List, [], ◌∷◌, ◌++◌,
  Option, some, none, leb, ◌==◌, if◌then◌else◌, length, drop, drop_while, drop_end, take_while,
  find, is_prefix, split_at, isspace, ℤ, strtol, ◌≡◌, refl, ap, inl, inr, arith, Bool-cases,
  Option-cases, All, All-append, length-append, map, tolower, ◌≢◌, sym, ◌∙◌, ltb, ltb→lt, take,
  take-append-drop, length-drop,
}
use rpsiod.Util.Strings.{streq_ci, streq_ci_iff, safe_copy, safe_copy_bounds, trim}
use rpsiod.Server.PhpHeaders.{line_pieces}
use rpsiod.Http2.Chunked.{decoded, refused, out_of_fuel, decode_chunked_body}

-- `h2_response_header` and `h2_response`
pub record AnswerHeader : Type 0 where
  pub name : Bytes
  pub value : Bytes

pub record Answer : Type 0 where
  pub status : ℤ
  pub headers : List AnswerHeader
  pub body : Bytes

is_gap : ℕ → Bool
is_gap c = c == 32 || c == 9

is_filler : ℕ → Bool
is_filler c = c == 32 || c == 9 || c == b','

in_token : ℕ → Bool
in_token c = not (c == b',') && not (c == b';')

in_item : ℕ → Bool
in_item c = not (c == b',')

-- the loop over the items of a value, on fuel for them
token_loop : ℕ → Bytes → Bytes → Bool
unfolding is_gap is_filler in_token in_item
token_loop zero value token = false
token_loop (suc fuel) [] token = false
token_loop (suc fuel) (c ∷ s) token =
    let p = drop_while is_filler (c ∷ s) in
    let item = drop_end is_gap (take_while in_token p) in
    let later = token_loop fuel (drop_while in_item (drop_while in_token p)) token in
    if streq_ci item token then true else later

-- `header_value_has_token`
unfoldable pub header_value_has_token : Bytes → Bytes → Bool
unfolding token_loop
header_value_has_token value token = token_loop (length value) value token

-- `blocked_h2_header`
unfoldable pub blocked_h2_header : Bytes → Bool
blocked_h2_header name =
    streq_ci name (codes "connection")
    || streq_ci name (codes "transfer-encoding")
    || streq_ci name (codes "upgrade")
    || streq_ci name (codes "keep-alive")
    || streq_ci name (codes "proxy-connection")

-- the text that the string functions see of bytes
until_nul : Bytes → Bytes
until_nul b = take_while (λ c. not (c == 0)) b

-- the pieces that `strtok_r` gives
nonempty : List Bytes → List Bytes
nonempty [] = []
nonempty (line ∷ lines) = if length line == 0 then nonempty lines else line ∷ nonempty lines

-- what the loop over the lines has read
record Read : Type 0 where
  headers : List AnswerHeader
  chunked : Bool

-- a header with its name and value trimmed
read_header : Read → Bytes → Bytes → Read
read_header r name value =
    let chunked =
      r.chunked
      || streq_ci name (codes "Transfer-Encoding")
        && header_value_has_token value (codes "chunked") in
    if blocked_h2_header name || length name == 0 || leb 96 (length r.headers)
    then record r { chunked = chunked }
    else record {
      headers =
          r.headers ++ (record { name = safe_copy 128 name; value = safe_copy 4096 value } ∷ []);
      chunked = chunked;
    }

read_lines : List Bytes → Read → Read
unfolding read_header
read_lines [] r = r
read_lines (line ∷ lines) r = elim (split_at b':' line) [
  | none ↦ read_lines lines r
  | some (name, value) ↦ read_lines lines (read_header r (trim name) (trim value))
]

-- `HTTP/%*s %d` of `sscanf`
read_status : Bytes → Option ℤ
read_status line =
    let version = drop_while isspace (drop 5 line) in
    if not (is_prefix (codes "HTTP/") line)
      || length (take_while (λ c. not (isspace c)) version) == 0
    then none
    else elim (strtol (drop_while (λ c. not (isspace c)) version)) [
      | none ↦ none
      | some n ↦ some n.value
    ]

-- the body, which is decoded if it is chunked
read_body : Bool → Bytes → Option Bytes
read_body chunked body =
    if chunked
    then elim (decode_chunked_body body) [
      | decoded b ↦ some b
      | refused ↦ none
      | out_of_fuel ↦ none
    ]
    else some body

-- the answer behind a status that is read
read_answer : ℤ → List Bytes → Bytes → Option Answer
unfolding read_lines read_body
read_answer status lines body =
    let r = read_lines lines (record { headers = []; chunked = false }) in
    elim (read_body r.chunked body) [
      | none ↦ none
      | some b ↦ some (record { status = status; headers = r.headers; body = b })
    ]

read_head : List Bytes → Bytes → Option Answer
unfolding read_status read_answer
read_head [] body = none
read_head (first ∷ lines) body = elim (read_status first) [
  | none ↦ none
  | some status ↦ read_answer status lines body
]

-- `parse_loopback_response`
unfoldable pub parse_loopback_response : Bytes → Option Answer
unfolding read_head nonempty until_nul
parse_loopback_response raw = elim (find (13 ∷ 10 ∷ 13 ∷ 10 ∷ []) raw) [
  | none ↦ none
  | some (head, behind) ↦ read_head (nonempty (line_pieces (until_nul head))) (drop 4 behind)
]
