-- ===== src/Util/Mime.antt =====
-- src/util.c: `rpsiod_mime_type`.

use rpsiod.Prelude.{◌||◌, Bytes, codes, ◌∷◌, none, some, if◌then◌else◌, split_at_last}
use rpsiod.Util.Strings.{streq_ci}

-- the chain on the extension, with its dot
mime_of : Bytes → Bytes
mime_of ext =
    if streq_ci ext (codes ".html") || streq_ci ext (codes ".htm")
    then codes "text/html; charset=utf-8"
    else if streq_ci ext (codes ".css")
    then codes "text/css; charset=utf-8"
    else if streq_ci ext (codes ".js")
    then codes "application/javascript; charset=utf-8"
    else if streq_ci ext (codes ".json")
    then codes "application/json; charset=utf-8"
    else if streq_ci ext (codes ".txt")
    then codes "text/plain; charset=utf-8"
    else if streq_ci ext (codes ".png")
    then codes "image/png"
    else if streq_ci ext (codes ".jpg") || streq_ci ext (codes ".jpeg")
    then codes "image/jpeg"
    else if streq_ci ext (codes ".gif")
    then codes "image/gif"
    else if streq_ci ext (codes ".svg")
    then codes "image/svg+xml"
    else if streq_ci ext (codes ".webp")
    then codes "image/webp"
    else if streq_ci ext (codes ".ico")
    then codes "image/x-icon"
    else if streq_ci ext (codes ".pdf")
    then codes "application/pdf"
    else codes "application/octet-stream"

-- `rpsiod_mime_type`
unfoldable pub mime_type : Bytes → Bytes
unfolding mime_of
mime_type path = elim (split_at_last b'.' path) [
  | none ↦ codes "application/octet-stream"
  | some (before, ext) ↦ mime_of (b'.' ∷ ext)
]
