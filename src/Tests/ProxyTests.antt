-- ===== src/Tests/ProxyTests.antt =====
-- What is sent to an upstream and to PHP, at concrete requests.
use rpsiod.Prelude.{
  false, Bytes, codes, List, [], ◌∷◌, ◌++◌, some, ◌≡◌, refl, ◌≤◌, arith, length, find, is_prefix,
  split_at,
}
use rpsiod.Util.Strings.{streq_ci}
use rpsiod.Http.Request.{Request, empty_request}
use rpsiod.Config.Site.{Site, site_defaults}
use rpsiod.Server.Headers.{append_header}
use rpsiod.Server.Headers.Head.{fit}
use rpsiod.Server.Fcgi.{add_params, add_param, name_value, name_length}
use rpsiod.Server.Fcgi.Decode.{Pairs, add_params-Pairs}
use rpsiod.Proxy.{
  build_proxy_request, forward_loop, request_header_name_is, proxy_skip_header,
  parse_proxy_status_line,
}
use rpsiod.Proxy.Forwarded.{kept_lines, lines_text, forward_loop-lines}

abbrev header_lines : List Bytes
header_lines = codes "Accept: *" ∷ codes "Host: b" ∷ codes "X-A: 1" ∷ []

forward_loop-lines_example :
    forward_loop 100 64 (lines_text header_lines ++ codes "X-B: 2") (codes "start")
    ≡ fit 64 (codes "start" ++ lines_text (kept_lines header_lines))
forward_loop-lines_example =
    forward_loop-lines 100 64 header_lines (codes "X-B: 2") (codes "start") (ground arith)
      (ground arith) (omega arith) refl

abbrev upstream_site : Site
upstream_site = record site_defaults {
  proxy_host = codes "up";
  proxy_real_ip = false;
  proxy_forwarded_for = false;
  proxy_forwarded_proto = false;
}

abbrev posted : Request
posted = record empty_request {
  method = codes "POST";
  path = codes "/";
  host = codes "a";
  header_len = 47;
}

-- The last line of the request, its Content-Length, does not reach the upstream, while the body does.
last_line_lost :
    build_proxy_request 4096
      (record { client_ip = codes "1.1.1.1"; server_ip = codes "1.1.1.2"; local_port = 80 })
      upstream_site
      posted
      (codes "POST / HTTP/1.1\r\nHost: a\r\nContent-Length: 5\r\n\r\nabcde")
      (codes "abcde")
    ≡ some (codes "POST / HTTP/1.1\r\nHost: a\r\nConnection: close\r\n\r\nabcde")
unfolding build_proxy_request append_header find is_prefix forward_loop proxy_skip_header
    request_header_name_is streq_ci
last_line_lost = refl

status-example : parse_proxy_status_line (codes "HTTP/1.1 404 Not Found\r\n") ≡ some 404
unfolding parse_proxy_status_line find is_prefix split_at
status-example = refl

abbrev parameters : List (Bytes × Bytes)
parameters = (codes "QUERY_STRING", []) ∷ (codes "HTTPS", codes "on") ∷ []

abbrev parameter_bytes : Bytes
parameter_bytes = 12 ∷ 0 ∷ codes "QUERY_STRING" ++ (5 ∷ 2 ∷ codes "HTTPSon")

parameters_written : add_params 8192 [] parameters ≡ some parameter_bytes
unfolding add_params add_param name_value name_length
parameters_written = refl

add_params-Pairs_example :
    (text : Bytes) × (parameter_bytes ≡ text)
    × (length parameter_bytes ≤ 8192)
    × Pairs text parameters
add_params-Pairs_example =
    add_params-Pairs 8192 [] parameters (omega arith, omega arith, (omega arith, omega arith, tt))
      (omega arith) parameters_written
