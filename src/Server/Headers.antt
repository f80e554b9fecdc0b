-- ===== src/Server/Headers.antt =====
-- src/server.c: the head of a response, `build_response_headers` and `write_response_headers`.
pub mod Head
pub mod Framing
use rpsiod.Prelude.{
  ℕ, ◌+◌, ◌-◌, ◌/◌, Bool, true, false, ◌&&◌, ◌||◌, not, Bytes, codes, List, [], ◌∷◌, ◌++◌, Option,
  some, none, leb, ltb, ◌==◌, if◌then◌else◌, length, ℤ, pos, negsuc, decimal, decimal_int,
  hexadecimal,
}
use rpsiod.Util.Strings.{streq_ci, safe_copy}
use rpsiod.Http.Status.{status_text}
use rpsiod.Config.Site.{Site, HeaderPair}
use rpsiod.Server.Files.{Stat}
use rpsiod.Server.MetaCache.{etag_of}

-- What the head reads of the clocks and of the machine: the texts of `cached_date_value`, `format_http_time`
-- and `served_by_value`, and the wall clock in seconds and milliseconds.
pub record Machine : Type 0 where
  pub date : Bytes
  pub http_time : ℕ → Bytes
  pub hostname : Bytes
  pub now_sec : ℕ
  pub now_ms : ℕ

-- what the head reads of `client_object`; `started_sec` is 0 before a request began
pub record Connection : Type 0 where
  pub tls : Bool
  pub request_id : ℕ
  pub started_sec : ℕ
  pub started_ms : ℕ
  pub elapsed_ms : ℕ

-- `response_options`, where NULL is `none`
pub record Options : Type 0 where
  pub site : Option Site
  pub location : Option Bytes
  pub content_range : Option Bytes
  pub retry_after : Option Bytes
  pub content_encoding : Option Bytes
  pub etag : Option Bytes
  pub file_stat : Option Stat
  pub cache_control : Bool
  pub accept_ranges : Bool
  pub vary_accept_encoding : Bool
  pub suppress_default_cache_control : Bool
  pub chunked_response : Bool

abbrev pub no_options : Options
no_options = record {
  site = none;
  location = none;
  content_range = none;
  retry_after = none;
  content_encoding = none;
  etag = none;
  file_stat = none;
  cache_control = false;
  accept_ranges = false;
  vary_accept_encoding = false;
  suppress_default_cache_control = false;
  chunked_response = false;
}

-- a header that is written where its condition holds
pub record Row : Type 0 where
  pub written : Bool
  pub name : Bytes
  pub value : Bytes

removed_in : List Bytes → Bytes → Bool
removed_in [] name = false
removed_in (r ∷ rs) name = streq_ci r name || removed_in rs name

-- `header_removed`
unfoldable pub header_removed : Option Site → Bytes → Bool
unfolding removed_in
header_removed none name = false
header_removed (some site) name = removed_in site.headers_remove name

added_in : List HeaderPair → Bytes → Bool
added_in [] name = false
added_in (h ∷ hs) name = streq_ci h.name name || added_in hs name

-- `header_added`
unfoldable pub header_added : Option Site → Bytes → Bool
unfolding added_in
header_added none name = false
header_added (some site) name = added_in site.headers_add name

-- `protected_response_header`
unfoldable pub protected_response_header : Bytes → Bool
protected_response_header name =
    streq_ci name (codes "Content-Length")
    || streq_ci name (codes "Connection")
    || streq_ci name (codes "Transfer-Encoding")
    || streq_ci name (codes "Content-Type")
    || streq_ci name (codes "Content-Encoding")
    || streq_ci name (codes "Location")
    || streq_ci name (codes "Content-Range")
    || streq_ci name (codes "Retry-After")
    || streq_ci name (codes "Cache-Control")
    || streq_ci name (codes "Date")
    || streq_ci name (codes "ETag")
    || streq_ci name (codes "Last-Modified")
    || streq_ci name (codes "Strict-Transport-Security")
    || streq_ci name (codes "Accept-Ranges")
    || streq_ci name (codes "X-Served-By")
    || streq_ci name (codes "X-Cache")
    || streq_ci name (codes "X-Cache-Hits")
    || streq_ci name (codes "X-Timer")
    || streq_ci name (codes "X-Request-ID")
    || streq_ci name (codes "Vary")
    || streq_ci name (codes "Alt-Svc")
    || streq_ci name (codes "Server")

abbrev pub crlf : Bytes
crlf = 13 ∷ 10 ∷ []

-- `%s: %s\r\n`
abbrev pub header_line : Bytes → Bytes → Bytes
header_line name value = name ++ (codes ": " ++ (value ++ crlf))

-- `append_header` on what is written so far, or that it does not fit
unfoldable pub append_header : ℕ → Bytes → Bytes → Bytes → Option Bytes
append_header buf_len used name value =
    if leb buf_len (length used)
    then none
    else if leb (buf_len - length used) (length (header_line name value))
    then none
    else some (used ++ header_line name value)

is_given : Option Bytes → Bool
is_given none = false
is_given (some v) = true

given : Option Bytes → Bytes
given none = []
given (some v) = v

-- a header that is written where its value is given
optional : Option Site → Bytes → Option Bytes → Row
unfolding is_given given
optional site name value = record {
  written = is_given value && not (header_removed site name);
  name = name;
  value = given value;
}

-- a header of the server with a condition of its own
default : Option Site → Bool → Bytes → Bytes → Row
default site b name value = record {
  written = b && not (header_removed site name);
  name = name;
  value = value;
}

hides_server : Option Site → Bool
hides_server none = false
hides_server (some site) = site.hide_server_header

-- the value of Cache-Control
cache_value : Option Site → Bool → Bytes
cache_value none cache_control = codes "no-cache"
cache_value (some site) cache_control =
    if cache_control && site.cache_enabled && not (length site.cache_default == 0)
    then site.cache_default
    else codes "no-cache"

-- the tag that is given, or that of the file
tag_of : Option Bytes → Option Stat → Option Bytes
tag_of (some tag) st = some tag
tag_of none (some st) = some (etag_of st)
tag_of none none = none

modified : Machine → Option Stat → Option Bytes
modified m none = none
modified m (some st) = some (m.http_time st.mtime)

-- `%03ld` of milliseconds
three_digits : ℕ → Bytes
three_digits n =
    if ltb n 10 then codes "00" ++ decimal n else if ltb n 100 then b'0' ∷ decimal n else decimal n

-- the value of X-Timer
timer_value : Machine → Connection → Bytes
unfolding three_digits
timer_value m conn =
    let fresh = conn.started_sec == 0 in
    codes "S"
    ++ decimal (if fresh then m.now_sec else conn.started_sec)
    ++ three_digits (if fresh then m.now_ms else conn.started_ms)
    ++ codes ",VS0,VE"
    ++ decimal conn.elapsed_ms

-- the rows that say how long the body is
length_rows : Option Site → ℤ → Bool → List Row
unfolding default
length_rows site (pos n) chunked = default site true (codes "Content-Length") (decimal n) ∷ []
length_rows site (negsuc n) chunked =
    record { written = chunked; name = codes "Transfer-Encoding"; value = codes "chunked" } ∷ []

-- the rows above them
first_rows : Machine → Bytes → Options → List Row
unfolding optional default hides_server
first_rows m content_type opts =
    default opts.site true (codes "Date") m.date
    ∷ default opts.site (not (hides_server opts.site)) (codes "Server") (codes "rpsiod")
    ∷ optional opts.site (codes "Location") opts.location
    ∷ optional opts.site (codes "Content-Range") opts.content_range
    ∷ optional opts.site (codes "Retry-After") opts.retry_after
    ∷ default opts.site true (codes "Content-Type") content_type
    ∷ []

-- the rows below them
last_rows : Machine → Connection → Bool → Options → List Row
unfolding optional default cache_value tag_of modified timer_value
last_rows m conn keep_alive opts =
    optional opts.site (codes "Content-Encoding") opts.content_encoding
    ∷ default opts.site (not opts.suppress_default_cache_control) (codes "Cache-Control")
        (cache_value opts.site opts.cache_control)
    ∷ optional opts.site (codes "ETag") (tag_of opts.etag opts.file_stat)
    ∷ optional opts.site (codes "Last-Modified") (modified m opts.file_stat)
    ∷ default opts.site conn.tls (codes "Strict-Transport-Security")
        (codes "max-age=31536000; includeSubDomains")
    ∷ default opts.site opts.accept_ranges (codes "Accept-Ranges") (codes "bytes")
    ∷ default opts.site true (codes "Connection")
        (if keep_alive then codes "keep-alive" else codes "close")
    ∷ default opts.site true (codes "X-Served-By") m.hostname
    ∷ default opts.site true (codes "X-Cache") (codes "MISS")
    ∷ default opts.site true (codes "X-Cache-Hits") (codes "0")
    ∷ default opts.site true (codes "X-Timer") (timer_value m conn)
    ∷ default opts.site true (codes "X-Request-ID") (hexadecimal conn.request_id)
    ∷ default opts.site opts.vary_accept_encoding (codes "Vary") (codes "Accept-Encoding")
    ∷ default opts.site true (codes "Alt-Svc") (codes "clear")
    ∷ default opts.site (not (header_added opts.site (codes "X-Content-Type-Options")))
        (codes "X-Content-Type-Options") (codes "nosniff")
    ∷ []

-- the headers that the site adds
added_rows : Option Site → List HeaderPair → List Row
added_rows site [] = []
added_rows site (h ∷ hs) =
    record {
      written = not (protected_response_header h.name) && not (header_removed site h.name);
      name = h.name;
      value = h.value;
    }
    ∷ added_rows site hs

site_rows : Option Site → List Row
unfolding added_rows
site_rows none = []
site_rows (some site) = added_rows (some site) site.headers_add

-- all rows of a head, in their order
unfoldable pub response_rows : Machine → Connection → Bytes → ℤ → Bool → Options → List Row
unfolding first_rows length_rows last_rows site_rows
response_rows m conn content_type content_length keep_alive opts =
    first_rows m content_type opts
    ++ (length_rows opts.site content_length opts.chunked_response
        ++ (last_rows m conn keep_alive opts ++ site_rows opts.site))

unfoldable pub append_rows : ℕ → Bytes → List Row → Option Bytes
append_rows buf_len used [] = some used
append_rows buf_len used (row ∷ rows) =
    if row.written
    then elim (append_header buf_len used row.name row.value) [
      | none ↦ none
      | some more ↦ append_rows buf_len more rows
    ]
    else append_rows buf_len used rows

abbrev pub status_line : ℤ → Bytes
status_line status =
    codes "HTTP/1.1 " ++ (decimal_int status ++ (codes " " ++ (status_text status ++ crlf)))

-- the blank line, with its guard
unfoldable pub close_head : ℕ → Option Bytes → Option Bytes
close_head headers_len none = none
close_head headers_len (some used) =
    if leb headers_len (length used + 2) then none else some (used ++ crlf)

-- the rows behind a status line that fits
unfoldable pub write_head : ℕ → Bytes → List Row → Option Bytes
unfolding append_rows
write_head headers_len line rows =
    if leb headers_len (length line)
    then none
    else close_head headers_len (append_rows headers_len line rows)

-- `build_response_headers`
unfoldable pub build_response_headers :
    Machine → Connection → ℤ → Bytes → ℤ → Bool → Options → ℕ → Option Bytes
build_response_headers m conn status content_type content_length keep_alive opts headers_len =
    write_head headers_len (status_line status)
      (response_rows m conn content_type content_length keep_alive opts)

-- the buffer of `write_response_headers` and of `write_php_response_headers`
abbrev pub head_len : ℕ
head_len = 16384
