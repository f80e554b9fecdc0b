-- ===== src/Http/Request.antt =====
-- src/http.h and src/http.c: the request record, the request target and the request line.
pub mod Sound
use rpsiod.Prelude.{
  ℕ, zero, suc, ◌+◌, ◌-◌, ◌*◌, ◌≤◌, ◌<◌, Bool, true, false, ◌&&◌, ◌||◌, not, Bytes, codes, [], ◌∷◌,
  ◌++◌, ◌≡◌, refl, Option, some, none, arith, ltb, leb, ◌==◌, if◌then◌else◌, length, split_at,
  has_byte, ◌>>=◌, ◌>>◌, guard, take, drop,
}
use rpsiod.Util.Strings.{streq_ci, char_at}
use rpsiod.Http.Lexical.{
  all, method_len, path_len, host_len, valid_method, valid_request_target_bytes, target_char,
}
use rpsiod.Http.Values.{Range}

-- `rpsiod_http_request`, with the fields of a Range header in a record of their own
pub record Request : Type 0 where
  pub method : Bytes
  pub path : Bytes
  pub host : Bytes
  pub accept_encoding : Bytes
  pub if_none_match : Bytes
  pub if_modified_since : Bytes
  pub query_string : Bytes
  pub header_len : ℕ
  pub content_length : ℕ
  pub range : Range
  pub keep_alive : Bool
  pub head_only : Bool
  pub upgrade_websocket : Bool
  pub internal_https : Bool
  pub trace_request : Bool
  pub absolute_form : Bool

-- `memset(req, 0, sizeof(*req))`
abbrev pub empty_request : Request
empty_request = record {
  method = [];
  path = [];
  host = [];
  accept_encoding = [];
  if_none_match = [];
  if_modified_since = [];
  query_string = [];
  header_len = 0;
  content_length = 0;
  range = record {
    range_start = 0;
    range_end = 0;
    range_present = false;
    range_suffix = false;
    range_has_end = false;
  };
  keep_alive = false;
  head_only = false;
  upgrade_websocket = false;
  internal_https = false;
  trace_request = false;
  absolute_form = false;
}

-- what `parse_request_target` writes: the path, the authority of an absolute form, and its flag
pub record Target : Type 0 where
  pub path : Bytes
  pub absolute_authority : Bytes
  pub absolute_form : Bool

-- `strncasecmp(target, scheme, strlen(scheme)) == 0` with enough bytes
has_scheme : Bytes → Bytes → Bool
has_scheme target scheme =
    leb (length scheme) (length target) && streq_ci (take (length scheme) target) scheme

-- the check of the path, which is the same for both forms
finish_target : ℕ → Bytes → Bytes → Bool → Option Target
finish_target path_size origin authority absolute =
    if length origin == 0 || not (char_at origin 0 == b'/') || leb path_size (length origin)
    then none
    else some (record { path = origin; absolute_authority = authority; absolute_form = absolute })

absolute_target : ℕ → ℕ → Bytes → Bytes → Option Target
absolute_target path_size authority_len authority origin =
    if length authority == 0 || leb authority_len (length authority)
    then none
    else finish_target path_size origin authority true

-- the authority behind the scheme, and the path from its slash on, or `/`
split_authority : ℕ → ℕ → Bytes → Option Target
split_authority path_size authority_len text = elim (split_at b'/' text) [
  | none ↦ absolute_target path_size authority_len text (codes "/")
  | some (authority, behind) ↦ absolute_target path_size authority_len authority (b'/' ∷ behind)
]

-- `parse_request_target`; `none` is `false`
unfoldable pub parse_request_target : Bytes → ℕ → ℕ → Option Target
unfolding has_scheme finish_target absolute_target split_authority
parse_request_target target path_size authority_len =
    if not (valid_request_target_bytes target)
    then none
    else if has_scheme target (codes "http://") || has_scheme target (codes "https://")
    then split_authority path_size authority_len
        (drop (if char_at target 4 == b':' then 7 else 8) target)
    else finish_target path_size target [] false

abbrev pub version_len : ℕ
version_len = 32

pub record RequestLine : Type 0 where
  pub method : Bytes
  pub version : Bytes
  pub target : Target

abbrev line_char : ℕ → Bool
line_char ch = not (ltb ch 0x20 || ch == 0x7f)

unfoldable pub known_version : Bytes → Bool
known_version version = streq_ci version (codes "HTTP/1.0") || streq_ci version (codes "HTTP/1.1")

-- `parse_request_line`; `none` is `false`
unfoldable pub parse_request_line : Bytes → Option RequestLine
unfolding known_version
parse_request_line line = do
  guard (not (length line == 0))
  guard (all line_char line)
  (method, behind) ← split_at 32 line
  (target, version) ← split_at 32 behind
  guard (not (has_byte 32 version || length version == 0 || leb version_len (length version)))
  guard (valid_method method)
  guard (known_version version)
  t ← parse_request_target target path_len host_len
  some (record { method = method; version = version; target = t })
