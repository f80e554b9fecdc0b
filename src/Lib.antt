-- ===== src/Lib.antt =====
-- rpsiod, a web server in C: its request parser, its path tests, its route table and its limits.
--
-- A connection's bytes go to the parser of src/http.c (Http). The host of an accepted request and
-- the port it came in on are looked up in the route table of src/config.c (Config/Routes), which
-- gives the site; the site's limit (src/rate_limit.c, RateLimit) is charged; the path is decoded and
-- tested by src/util.c (Util) and src/security.c (Security) before a file below the site's root
-- is opened (Server/Static), and src/server.c writes the head and the body of the answer (Server).
--
-- How the code is modelled. A C string is the list of its bytes without the NUL, and a buffer of n
-- bytes is a list that `safe_copy` or a test keeps shorter than n. An array with a counter is a
-- list. A function that fills its arguments returns them, in an Option where it can fail. What the
-- functions of the C library do on texts (strchr, memmem, strtol, isspace in the C locale) is in
-- Prelude/Text, Prelude/Scan and Prelude/Numbers. Unsigned arithmetic wraps at 2^64 where it is
-- written out.
--
-- Prelude    shared helpers on lists, tests, texts and numbers
-- Util       src/util.c: Strings (comparison, copying, trimming, hosts), Numbers (sizes, durations),
--            Percent (rpsiod_percent_decode_path), Path (forbidden segments, joins, roots)
-- Http       src/http.c: Lexical (byte classes), Host (Host values and authorities), Values
--            (lengths, tokens, ranges), Request (request line and target), Headers (the header loop),
--            Parse (rpsiod_http_parse_request)
-- Config     src/config.c and src/config.h: Site (the structs and their defaults), Text (lines, the
--            stack of keys, single values), Server, Sites and SiteLists (the setter of each key), Load
--            (the loops over the files), Validate (rpsiod_config_validate), Methods (allowed methods
--            and error pages), Routes (the hash table and its lookups), Routes/Build
--            (build_route_table)
-- RateLimit  src/rate_limit.c
-- Security   src/security.c and src/static.c
-- Php        src/php.c
-- Route      src/route.c
-- Compress   src/compress.c: the negotiation of a content coding, and Store (rpsiod_gzip_store)
-- Server     src/server.c: Connection (handle_client_event), Request (serve_request), Static
--            (serve_static), OpenCache and MetaCache (the caches of files), Validators and SendFile
--            (send_file_fd), Headers (build_response_headers), PhpHeaders (the headers of scripts),
--            and Fcgi (the bytes of FastCGI records and parameters)
-- Proxy      src/proxy.c, and build_proxy_request and parse_proxy_status_line of src/server.c
-- Http2      src/http2.c: Chunked (decode_chunked_body, beside the writer of src/server.c), Buffer
--            (append_bytes) and Answer (parse_loopback_response)
-- Tests      runs of the models, and the theorems at concrete inputs
--
-- Loops over a text whose step is not its tail (decoding, segments, header lines, occurrences) run
-- on fuel that starts at the length of the text: every round passes over a byte, and the theorems
-- on these loops, where there are some, show that it does not run out. The probing loops count down from the table's 4096
-- slots, as the code does.
--
-- A file of the configuration is what a parameter gives for its path, and a document root opens unless
-- a parameter gives the text of a failure; both stand for system calls.
--
-- The file system is a parameter (Server/Files) that does not change within one request; what a read of
-- a connection gives is a list of arrivals; the clocks, the host name, strptime and the compressors are
-- records of functions. The loop of a connection runs on fuel: each read and each byte takes a turn at
-- most twice. The loop over the chunks of a body starts with the length of the body.
--
-- Not modelled: the event loop, TLS and HTTP/2 sessions, the connections to PHP and to upstreams (system
-- calls and libraries), the logs, and the command line tools. Writes that fail are seen as the result of
-- serve_request alone, and the sending of a head and a body is the text that is sent.
pub mod Prelude
pub mod Util
pub mod Http
pub mod Config
pub mod RateLimit
pub mod Security
pub mod Php
pub mod Route
pub mod Compress
pub mod Server
pub mod Http2
pub mod Proxy
mod Tests
