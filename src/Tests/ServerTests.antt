-- ===== src/Tests/ServerTests.antt =====
-- The server at concrete requests.
use rpsiod.Prelude.{
  Bool, true, false, Bytes, codes, [], ◌∷◌, ◌++◌, Option, some, none, ◌≡◌, ◌≢◌, refl, ◌↔◌, ◌<◌,
  arith, pos, negsuc, ℤ, decimal, decimal_int, ℕ, hexadecimal, split_at, All,
}
use rpsiod.Util.Strings.{streq_ci, trim}
use rpsiod.Http.Values.{Range}
use rpsiod.Config.Site.{Site, site_defaults, config_defaults}
use rpsiod.Server.Headers.{
  Machine, Connection, no_options, build_response_headers, response_rows, header_removed,
  header_added, protected_response_header, write_head, append_header, append_rows, close_head,
  status_line, crlf,
}
use rpsiod.Server.Headers.Head.{fit, rows_text, build_response_headers-fit}
use rpsiod.Server.Headers.Framing.{FramedBy, response_rows-FramedBy}
use rpsiod.Server.PhpHeaders.{
  php_options, write_php_response_headers, append_php_response_headers, line_pieces,
  php_header_written, response_header_token_valid, response_header_value_valid,
  php_response_header_allowed, token_byte,
}
use rpsiod.Server.PhpHeaders.Rows.{all_rows, script_rows}
use rpsiod.Server.PhpHeaders.Safe.{Clean, write_php_response_headers-Framed}
use rpsiod.Http.Status.{status_text}
use rpsiod.Server.SendFile.{resolve_range}
use rpsiod.Server.SendFile.Ranges.{Covers, asked, resolve_range_iff}
use rpsiod.Server.Connection.{
  Client, Handlers, bytes, interrupted, handle_client_event, out_of_fuel,
}
use rpsiod.Server.Connection.Frames.{Served, handle_client_event-Served}
use rpsiod.Server.Connection.Ends.{handle_client_event_ends}
use rpsiod.Http2.Chunked.{chunked_body, decode_chunked_body, decoded}
use rpsiod.Http2.Chunked.RoundTrip.{decode-chunked_body}
use rpsiod.Http2.Chunked.Ends.{Ends, decode_chunked_body-Ends}

abbrev machine : Machine
machine = record {
  date = codes "Thu, 01 Jan 1970 00:00:00 GMT";
  http_time = λ t. codes "Thu, 01 Jan 1970 00:00:00 GMT";
  hostname = codes "host";
  now_sec = 5;
  now_ms = 7;
}

abbrev connection : Connection
connection = record {
  tls = false;
  request_id = 10;
  started_sec = 0;
  started_ms = 0;
  elapsed_ms = 3;
}

build_response_headers-fit_example :
    build_response_headers machine connection
      (pos 200)
      (codes "text/html")
      (pos 12)
      true
      no_options
      16384
    ≡ fit 16384 (
        status_line (pos 200)
        ++ rows_text (response_rows machine connection (codes "text/html") (pos 12) true no_options)
        ++ crlf)
build_response_headers-fit_example =
    build_response_headers-fit machine connection (pos 200) (codes "text/html") (pos 12) true
      no_options 16384

not_removed : header_removed none (codes "Content-Length") ≡ false
unfolding header_removed
not_removed = refl

response_rows-FramedBy_example :
    FramedBy
      (pos 12)
      false
      (response_rows machine connection (codes "text/html") (pos 12) true no_options)
response_rows-FramedBy_example =
    response_rows-FramedBy machine connection (codes "text/html") (pos 12) true no_options
      not_removed

abbrev first_five : Range
first_five = record {
  range_start = 0;
  range_end = 4;
  range_present = true;
  range_suffix = false;
  range_has_end = true;
}

resolve_range-five : resolve_range 100 first_five ≡ some (0, 4)
unfolding resolve_range
resolve_range-five = refl

resolve_range_iff_example :
    (Covers (resolve_range 100 first_five) 4 ↔ ((4 < 100) × (true ≡ true)))
    × ((resolve_range 100 first_five ≡ none)
        ↔ ¬ ((j : ℕ) × (j < 100) × (asked 100 first_five j ≡ true)))
resolve_range_iff_example = resolve_range_iff 100 first_five 4 (λ e. cc)

-- two requests that arrive in three reads
abbrev client : Client
client = record {
  arrivals =
      bytes (codes "POST /a HTTP/1.1\r\nHost: a.org\r\nContent-Le")
      ∷ interrupted
      ∷ bytes (codes "ngth: 3\r\n\r\nxyzGET /b HTTP/1.1\r\nHo")
      ∷ bytes (codes "st: a.org\r\n\r\n")
      ∷ [];
  buf = [];
  keep_alive_requests = 0;
  idle_keep_alive = false;
  served = [];
}

abbrev handlers : Handlers
handlers = record {
  site_of = λ req. some site_defaults;
  serve_ok = λ req body. true;
  nonblocking_ok = true;
}

abbrev stream : Bytes
stream =
    codes
      "POST /a HTTP/1.1\r\nHost: a.org\r\nContent-Length: 3\r\n\r\nxyzGET /b HTTP/1.1\r\nHost: a.org\r\n\r\n"

handle_client_event-Served_example :
    Served config_defaults handlers stream (handle_client_event config_defaults handlers 300 client)
handle_client_event-Served_example =
    handle_client_event-Served config_defaults handlers 300 stream client refl (omega arith)

handle_client_event_ends_example :
    handle_client_event config_defaults handlers 300 client ≢ out_of_fuel
handle_client_event_ends_example =
    handle_client_event_ends config_defaults handlers 300 client (omega arith)

decode-chunked_body_example :
    decode_chunked_body (chunked_body (codes "abc" ∷ [] ∷ codes "defghijklmnopqrst" ∷ []))
    ≡ decoded (codes "abcdefghijklmnopqrst")
decode-chunked_body_example =
    decode-chunked_body (codes "abc" ∷ [] ∷ codes "defghijklmnopqrst" ∷ []) (omega arith)

decode_chunked_body-Ends_example : Ends (decode_chunked_body (codes "5;x\r\nabc"))
decode_chunked_body-Ends_example = decode_chunked_body-Ends (codes "5;x\r\nabc")

abbrev cgi_headers : Bytes
cgi_headers = codes "X-A: 1\r\nContent-Length: 9\r\nX-B: \u{7f}\r\n"

php_head : Machine → Connection → Site → ℤ → Bytes → ℤ → Bool → Option Bytes → Bool → Option Bytes
unfolding write_php_response_headers build_response_headers response_rows write_head append_header
    append_rows close_head header_removed header_added protected_response_header
    append_php_response_headers line_pieces php_header_written response_header_token_valid
    response_header_value_valid php_response_header_allowed token_byte trim streq_ci split_at
    decimal decimal_int hexadecimal status_text
php_head = write_php_response_headers

abbrev php_text : Bytes
php_text =
    status_line (pos 200)
    ++ rows_text (
        all_rows machine connection site_defaults (codes "text/html") (negsuc 0) true
          (some cgi_headers) true)
    ++ crlf

php_head_sent :
    write_php_response_headers machine connection site_defaults
      (pos 200)
      (codes "text/html")
      (negsuc 0)
      true
      (some cgi_headers)
      true
    ≡ some php_text
unfolding php_head
php_head_sent = refl

site_keeps : header_removed (some site_defaults) (codes "Content-Length") ≡ false
unfolding header_removed streq_ci
site_keeps = refl

write_php_response_headers-Framed_example :
    (php_text
      ≡ status_line (pos 200)
        ++ rows_text (
            response_rows machine connection
              (codes "text/html")
              (negsuc 0)
              true
              (php_options site_defaults true)
            ++ script_rows site_defaults (some cgi_headers))
        ++ crlf)
    × All Clean (script_rows site_defaults (some cgi_headers))
    × FramedBy (negsuc 0) true (
        response_rows machine connection
          (codes "text/html")
          (negsuc 0)
          true
          (php_options site_defaults true)
        ++ script_rows site_defaults (some cgi_headers))
write_php_response_headers-Framed_example =
    write_php_response_headers-Framed machine connection site_defaults (pos 200) (codes "text/html")
      (negsuc 0) true (some cgi_headers) true site_keeps php_head_sent
