-- ===== src/Server/PhpHeaders.antt =====
-- src/server.c: the headers that a script adds to its response, `append_php_response_headers` and
-- `write_php_response_headers`.
pub mod Rows
pub mod Safe
use rpsiod.Prelude.{
  ℕ, ◌+◌, ◌-◌, Bool, true, false, ◌&&◌, ◌||◌, not, Bytes, codes, List, [], ◌∷◌, ◌++◌, Option, some,
  none, leb, ltb, ◌==◌, if◌then◌else◌, length, take, split_at, isdigit, ℤ,
}
use rpsiod.Util.Strings.{streq_ci, trim, char_at}
use rpsiod.Config.Site.{Site}
use rpsiod.Server.Headers.{
  Machine, Connection, Options, no_options, append_header, build_response_headers, header_removed,
  close_head, crlf, head_len,
}

-- a byte of a name
unfoldable pub token_byte : ℕ → Bool
token_byte ch =
    isdigit ch
    || leb b'A' ch && leb ch b'Z'
    || leb b'a' ch && leb ch b'z'
    || ch == b'!'
    || ch == b'#'
    || ch == b'$'
    || ch == b'%'
    || ch == b'&'
    || ch == b'\''
    || ch == b'*'
    || ch == b'+'
    || ch == b'-'
    || ch == b'.'
    || ch == b'^'
    || ch == b'_'
    || ch == b'`'
    || ch == b'|'
    || ch == b'~'

all_token : Bytes → Bool
unfolding token_byte
all_token [] = true
all_token (ch ∷ s) = if not (token_byte ch) then false else all_token s

-- `response_header_token_valid`
unfoldable pub response_header_token_valid : Bytes → Bool
unfolding all_token
response_header_token_valid name = if length name == 0 then false else all_token name

-- a byte that no value has
abbrev pub control_byte : ℕ → Bool
control_byte ch = ltb ch 32 && not (ch == 9) || ch == 127

-- `response_header_value_valid`
unfoldable pub response_header_value_valid : Bytes → Bool
response_header_value_valid [] = true
response_header_value_valid (ch ∷ s) =
    if control_byte ch then false else response_header_value_valid s

-- `php_response_header_allowed`
unfoldable pub php_response_header_allowed : Bytes → Bool
php_response_header_allowed name =
    not (streq_ci name (codes "Status"))
    && not (streq_ci name (codes "Content-Type"))
    && not (streq_ci name (codes "Content-Length"))
    && not (streq_ci name (codes "Connection"))
    && not (streq_ci name (codes "Keep-Alive"))
    && not (streq_ci name (codes "Proxy-Authenticate"))
    && not (streq_ci name (codes "Proxy-Authorization"))
    && not (streq_ci name (codes "TE"))
    && not (streq_ci name (codes "Trailer"))
    && not (streq_ci name (codes "Transfer-Encoding"))
    && not (streq_ci name (codes "Upgrade"))
    && not (streq_ci name (codes "Server"))
    && not (streq_ci name (codes "Date"))
    && not (streq_ci name (codes "Strict-Transport-Security"))
    && not (streq_ci name (codes "X-Served-By"))
    && not (streq_ci name (codes "X-Cache"))
    && not (streq_ci name (codes "X-Cache-Hits"))
    && not (streq_ci name (codes "X-Timer"))
    && not (streq_ci name (codes "X-Request-ID"))
    && not (streq_ci name (codes "Alt-Svc"))

cons_line : ℕ → List Bytes → List Bytes
cons_line c [] = (c ∷ []) ∷ []
cons_line c (line ∷ lines) = (c ∷ line) ∷ lines

-- the pieces between the bytes of `\r\n`; `strtok_r` passes over the empty ones, as the loop below does,
-- since they have no colon
unfoldable pub line_pieces : Bytes → List Bytes
unfolding cons_line
line_pieces [] = [] ∷ []
line_pieces (c ∷ s) = if c == 13 || c == 10 then [] ∷ line_pieces s else cons_line c (line_pieces s)

-- whether a header of a script is written
unfoldable pub php_header_written : Option Site → Bytes → Bytes → Bool
php_header_written site name value =
    response_header_token_valid name
    && response_header_value_valid value
    && php_response_header_allowed name
    && not (header_removed site name)

-- the header of a line is written or passed over
append_named : ℕ → Option Site → Bytes → Bytes → Bytes → Option Bytes
unfolding php_header_written
append_named headers_len site used name value =
    if php_header_written site name value
    then append_header headers_len used name value
    else some used

-- the loop over the lines
append_lines : ℕ → Option Site → List Bytes → Bytes → Option Bytes
unfolding append_named
append_lines headers_len site [] used = some used
append_lines headers_len site (line ∷ lines) used = elim (split_at b':' line) [
  | none ↦ append_lines headers_len site lines used
  | some (name, value) ↦ elim (append_named headers_len site used (trim name) (trim value)) [
    | none ↦ none
    | some more ↦ append_lines headers_len site lines more
  ]
]

-- `append_php_response_headers`
unfoldable pub append_php_response_headers : ℕ → Option Site → Bytes → Bytes → Option Bytes
unfolding append_lines line_pieces
append_php_response_headers headers_len site cgi_headers used =
    append_lines headers_len site (line_pieces cgi_headers) used

-- whether the head ends in a CRLF
ends_crlf : Bytes → Bool
ends_crlf head =
    leb 2 (length head)
    && char_at head (length head - 2) == 13
    && char_at head (length head - 1) == 10

-- the options of a response of a script
abbrev pub php_options : Site → Bool → Options
php_options site chunked = record no_options {
  site = some site;
  suppress_default_cache_control = true;
  chunked_response = chunked;
}

-- the headers of the script between the head and its blank line
insert_headers : Site → Option Bytes → Option Bytes → Option Bytes
unfolding ends_crlf
insert_headers site cgi_headers none = none
insert_headers site none (some head) =
    if not (ends_crlf head) then none else close_head head_len (some (take (length head - 2) head))
insert_headers site (some cgi) (some head) =
    if not (ends_crlf head)
    then none
    else close_head head_len
        (append_php_response_headers head_len (some site) cgi (take (length head - 2) head))

-- `write_php_response_headers`: the text that is sent
unfoldable pub write_php_response_headers :
    Machine → Connection → Site → ℤ → Bytes → ℤ → Bool → Option Bytes → Bool → Option Bytes
unfolding insert_headers
write_php_response_headers m conn site status content_type content_length keep_alive cgi chunked =
    insert_headers site cgi (
      build_response_headers m conn status content_type content_length keep_alive
        (php_options site chunked) head_len)
