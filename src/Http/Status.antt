-- ===== src/Http/Status.antt =====
-- src/http.c: `rpsiod_http_status_text`.
use rpsiod.Prelude.{ℕ, Bytes, codes, ◌==◌, if◌then◌else◌, ℤ, pos, negsuc}

-- the `switch`, on a status that is not negative
text_of : ℕ → Bytes
text_of n =
    if n == 200
    then codes "OK"
    else if n == 206
    then codes "Partial Content"
    else if n == 304
    then codes "Not Modified"
    else if n == 301
    then codes "Moved Permanently"
    else if n == 302
    then codes "Found"
    else if n == 400
    then codes "Bad Request"
    else if n == 403
    then codes "Forbidden"
    else if n == 404
    then codes "Not Found"
    else if n == 405
    then codes "Method Not Allowed"
    else if n == 413
    then codes "Payload Too Large"
    else if n == 414
    then codes "URI Too Long"
    else if n == 416
    then codes "Range Not Satisfiable"
    else if n == 429
    then codes "Too Many Requests"
    else if n == 502
    then codes "Bad Gateway"
    else if n == 504
    then codes "Gateway Timeout"
    else if n == 500
    then codes "Internal Server Error"
    else if n == 503
    then codes "Service Unavailable"
    else codes "Error"

-- `rpsiod_http_status_text`
unfoldable pub status_text : ℤ → Bytes
unfolding text_of
status_text (pos n) = text_of n
status_text (negsuc n) = codes "Error"
