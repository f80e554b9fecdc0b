-- ===== src/Http/Parse.antt =====
-- src/http.c: `rpsiod_http_parse_request`.
use rpsiod.Prelude.{
  ℕ, ◌+◌, false, ◌&&◌, not, Bytes, codes, [], ◌∷◌, ◌++◌, Option, some, none, ltb, length, split_at,
  find, ◌>>=◌, ◌>>◌, guard, drop,
}
use rpsiod.Util.Strings.{streq_ci, safe_copy}
use rpsiod.Http.Lexical.{valid_header_block_newlines, path_len}
use rpsiod.Http.Host.{authority_matches_host}
use rpsiod.Http.Request.{Request, empty_request, RequestLine, parse_request_line}
use rpsiod.Http.Headers.{Seen, process_lines, header_lines, crlf}

-- what the parser returns: 0, -1, or 1 with the request
pub data Outcome : Type 0 where
  need_more bad : Outcome
  done : Request → Outcome

abbrev pub crlf_crlf : Bytes
crlf_crlf = 13 ∷ 10 ∷ 13 ∷ 10 ∷ []

-- the query of a path, copied into its buffer
unfoldable pub query_of : Bytes → Bytes
query_of path = elim (split_at b'?' path) [ none ↦ [] | some (_, query) ↦ safe_copy path_len query ]

-- the locals and the request before the loop
unfoldable pub start : ℕ → RequestLine → Seen
start header_len line = record {
  req = record empty_request {
    method = line.method;
    path = line.target.path;
    query_string = query_of line.target.path;
    header_len = header_len;
    head_only = streq_ci line.method (codes "HEAD");
    keep_alive = streq_ci line.version (codes "HTTP/1.1");
    absolute_form = line.target.absolute_form;
  };
  connection_upgrade = false;
  upgrade_websocket = false;
  have_content_length = false;
  seen_content_length = 0;
  have_transfer_encoding = false;
  have_host = false;
  header_count = 0;
}

-- the checks behind the loop
unfoldable pub finish : Bytes → Seen → Option Request
finish absolute_authority s = do
  guard (not (s.have_content_length && s.have_transfer_encoding))
  guard (not s.have_transfer_encoding)
  guard s.have_host
  guard (not (s.req.absolute_form && not (authority_matches_host absolute_authority s.req.host)))
  some (record (s.req) { upgrade_websocket = s.connection_upgrade && s.upgrade_websocket })

-- the header block `head` with its blank line behind it, and the first line of the buffer
unfoldable pub parse_block : Bytes → Bytes → Option Request
parse_block head first = do
  guard (not (ltb 16384 (length head + 4)))
  guard (valid_header_block_newlines (head ++ crlf_crlf))
  guard (not (ltb 2048 (length first)))
  line ← parse_request_line first
  s ←
      process_lines (header_lines (length head) (drop (length first + 2) head))
        (start (length head + 4) line)
  finish line.target.absolute_authority s

unfoldable pub outcome_of : Option Request → Outcome
outcome_of none = bad
outcome_of (some req) = done req

-- `rpsiod_http_parse_request`
unfoldable pub parse_request : Bytes → Outcome
unfolding outcome_of
parse_request buf = elim (find crlf_crlf buf) [
  | none ↦ need_more
  | some (head, _) ↦ elim (find crlf buf) [
    | none ↦ bad
    | some (first, _) ↦ outcome_of (parse_block head first)
  ]
]
