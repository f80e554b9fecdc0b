-- ===== src/Http/Lexical.antt =====
-- src/http.c: the tests on the bytes of a header block, of names, values, methods and targets.
pub mod Sound
use rpsiod.Prelude.{
  ℕ, ◌≤◌, ◌<◌, Bool, true, false, ◌&&◌, ◌||◌, not, Bytes, [], ◌∷◌, ◌≡◌, refl, Option, some, none,
  arith, ltb, leb, ◌==◌, if◌then◌else◌, length, drop_while, drop_end,
}

-- `valid_header_block_newlines`: a CR only before an LF, and an LF only behind a CR
unfoldable pub valid_header_block_newlines : Bytes → Bool
valid_header_block_newlines [] = true
valid_header_block_newlines (c ∷ []) = not (c == 13) && not (c == 10)
valid_header_block_newlines (c ∷ d ∷ s) =
    let pair = if not (d == 10) then false else valid_header_block_newlines s in
    let plain = if c == 10 then false else valid_header_block_newlines (d ∷ s) in
    if c == 13 then pair else plain

-- `valid_token_char`
unfoldable pub valid_token_char : ℕ → Bool
valid_token_char ch =
    leb b'0' ch && leb ch b'9'
    || leb b'A' ch && leb ch b'Z'
    || leb b'a' ch && leb ch b'z'
    || ch == b'!'
    || ch == b'#'
    || ch == b'$'
    || ch == b'%'
    || ch == b'&'
    || ch == b'\''
    || ch == b'*'
    || ch == b'+'
    || ch == b'-'
    || ch == b'.'
    || ch == b'^'
    || ch == b'_'
    || ch == b'`'
    || ch == b'|'
    || ch == b'~'

-- a loop that returns `false` at the first byte that fails a test
abbrev pub all : (ℕ → Bool) → Bytes → Bool
all test [] = true
all test (c ∷ s) = if not (test c) then false else all test s

-- `valid_header_name`
unfoldable pub valid_header_name : Bytes → Bool
valid_header_name name = if length name == 0 then false else all valid_token_char name

abbrev pub value_char : ℕ → Bool
value_char ch = not (ltb ch 0x20 && not (ch == 9) || ch == 0x7f)

-- `valid_header_value`
unfoldable pub valid_header_value : Bytes → Bool
valid_header_value value = all value_char value

abbrev pub is_blank : ℕ → Bool
is_blank c = c == 32 || c == 9

-- `copy_trimmed_value`; `none` is `false`
unfoldable pub copy_trimmed_value : ℕ → Bytes → Option Bytes
copy_trimmed_value out_len value =
    let t = drop_end is_blank (drop_while is_blank value) in
    if leb out_len (length t) then none else some t

abbrev pub method_len : ℕ
method_len = 16

abbrev pub path_len : ℕ
path_len = 2048

abbrev pub host_len : ℕ
host_len = 256

-- `valid_method`
unfoldable pub valid_method : Bytes → Bool
valid_method method =
    if length method == 0 || leb method_len (length method)
    then false
    else all valid_token_char method

abbrev pub target_char : ℕ → Bool
target_char ch = not (leb ch 0x20 || ch == 0x7f)

-- `valid_request_target_bytes`
unfoldable pub valid_request_target_bytes : Bytes → Bool
valid_request_target_bytes target =
    if length target == 0 || leb path_len (length target) then false else all target_char target
