-- ===== src/Server/SendFile.antt =====
-- src/server.c: what is sent of a file, `send_file_fd`.
pub mod Ranges
use rpsiod.Prelude.{
  ℕ, ◌+◌, ◌-◌, ◌*◌, Bool, true, false, ◌&&◌, ◌||◌, not, Bytes, codes, List, [], ◌∷◌, ◌++◌, Option,
  some, none, leb, ltb, ◌==◌, if◌then◌else◌, length, ℤ, pos, negsuc, decimal,
}
use rpsiod.Util.Mime.{mime_type}
use rpsiod.Http.Values.{Range}
use rpsiod.Http.Request.{Request}
use rpsiod.Compress.{accepts_gzip, accepts_br, content_type_compressible, path_already_compressed}
use rpsiod.Compress.Store.{gzip_store}
use rpsiod.Config.Site.{Site}
use rpsiod.Server.Files.{FileSystem, Opened, failed, no_stat, file, Stat, is_regular}
use rpsiod.Server.MetaCache.{MetaEntry}
use rpsiod.Server.Validators.{Clock, request_cache_validator_matches}

-- The outcomes: nothing (304), a range that is refused (416) or sent (206) with its `Content-Range`, a variant
-- that stands beside the file or is made now, with its coding and size, or the file.
pub data Answer : Type 0 where
  not_modified : Answer
  unsatisfiable : Bytes → Answer
  partial : ℕ → ℕ → Bytes → Answer
  variant : Bytes → ℕ → Answer
  compressed : Bytes → Bytes → Answer
  whole : ℕ → Answer

-- the first and the last byte of a range that a file of `total` bytes has
unfoldable pub resolve_range : ℕ → Range → Option (ℕ × ℕ)
resolve_range total r =
    if total == 0
    then none
    else if r.range_suffix
    then some (if leb total r.range_start then 0 else total - r.range_start, total - 1)
    else if leb total r.range_start
    then none
    else (let last =
          if not r.range_has_end
          then total - 1
          else if leb total r.range_end
          then total - 1
          else r.range_end in
        if ltb last r.range_start then none else some (r.range_start, last))

abbrev pub content_range : ℕ → ℕ → ℕ → Bytes
content_range first last total =
    codes "bytes "
    ++ (decimal first ++ (codes "-" ++ (decimal last ++ (codes "/" ++ decimal total))))

-- the answer to a request for a range
range_answer : ℕ → Option (ℕ × ℕ) → Answer
range_answer total none = unsatisfiable (codes "bytes */" ++ decimal total)
range_answer total (some (first, last)) =
    partial first (last - first + 1) (content_range first last total)

-- The compressors that are loaded at run time, and `pread` of a whole file.
pub record Compressors : Type 0 where
  pub brotli : Bytes → Option Bytes
  pub gzip : Bytes → Option Bytes
  pub contents : Bytes → Option Bytes

-- the type, the tag and the variants that a cached entry knows
mime_of_entry : Option MetaEntry → Bytes → Bytes
mime_of_entry none path = mime_type path
mime_of_entry (some meta) path = if not (length meta.mime == 0) then meta.mime else mime_type path

etag_of_entry : Option MetaEntry → Bytes
etag_of_entry none = []
etag_of_entry (some meta) = meta.etag

has_br : Option MetaEntry → Bool
has_br none = true
has_br (some meta) = elim meta.br [ none ↦ false | some v ↦ true ]

has_gzip : Option MetaEntry → Bool
has_gzip none = true
has_gzip (some meta) = elim meta.gzip [ none ↦ false | some v ↦ true ]

-- `status == 200`
abbrev status_is_ok : ℤ → Bool
status_is_ok (pos n) = n == 200
status_is_ok (negsuc n) = false

-- whether a file is worth compressing
unfoldable pub can_compress : Site → Request → ℤ → Bytes → Bytes → Stat → Bool
can_compress site req status mime path st =
    status_is_ok status
    && site.compression_enabled
    && not req.upgrade_websocket
    && content_type_compressible mime
    && not (path_already_compressed path)
    && leb site.compression_minimum_size st.size
    && leb st.size 16777216

-- a variant that is a regular file below the root
variant_of : Bytes → Opened → Option Answer
variant_of coding (failed e) = none
variant_of coding (no_stat e) = none
variant_of coding (file st) = if is_regular st.kind then some (variant coding st.size) else none

try_variant : FileSystem → Bool → Bytes → Bytes → Bytes → Option Answer
unfolding variant_of
try_variant fs wanted path suffix coding =
    if wanted && ltb (length (path ++ suffix)) 4096
    then variant_of coding (fs.open_below (path ++ suffix))
    else none

-- the bytes of the file in a coding that is made now
compress_with : Compressors → Bool → Bool → Bytes → Option Answer
compress_with z use_br use_gzip plain =
    let gzipped =
      if use_gzip
      then elim (z.gzip plain) [
        | some out ↦ some (compressed (codes "gzip") out)
        | none ↦ some (compressed (codes "gzip") (gzip_store plain))
      ]
      else none in
    if use_br
    then elim (z.brotli plain) [ some out ↦ some (compressed (codes "br") out) | none ↦ gzipped ]
    else gzipped

compress_file : Compressors → Bool → Bool → Bytes → ℕ → Option Answer
unfolding compress_with
compress_file z use_br use_gzip path size = elim (z.contents path) [
  | none ↦ none
  | some plain ↦ if length plain == size then compress_with z use_br use_gzip plain else none
]

first_of : Option Answer → Option Answer → Option Answer
first_of (some a) other = some a
first_of none other = other

or_whole : Option Answer → ℕ → Answer
or_whole (some a) size = a
or_whole none size = whole size

-- the file, in the best coding that the client and the site allow
coded_answer :
    FileSystem → Compressors → Site → Request → ℤ → Bytes → Bytes → Stat → Option MetaEntry → Answer
unfolding has_br has_gzip try_variant compress_file first_of or_whole
coded_answer fs z site req status path mime st meta =
    let can = can_compress site req status mime path st in
    let use_br = can && site.compression_br && accepts_br req.accept_encoding in
    let use_gzip =
      can
      && (site.compression_gzip || not site.compression_br)
      && accepts_gzip req.accept_encoding in
    or_whole
      (first_of (try_variant fs (use_br && has_br meta) path (codes ".br") (codes "br")) (
        first_of (try_variant fs (use_gzip && has_gzip meta) path (codes ".gz") (codes "gzip"))
          (if use_gzip || use_br then compress_file z use_br use_gzip path st.size else none)))
      st.size

-- `send_file_fd`
unfoldable pub send_file :
    FileSystem → Clock → Compressors → Site → Request → ℤ → Bytes → Stat → Option MetaEntry → Answer
unfolding range_answer mime_of_entry etag_of_entry coded_answer
send_file fs clock z site req status path st meta =
    if status_is_ok status
      && not req.range.range_present
      && request_cache_validator_matches clock req st (etag_of_entry meta)
    then not_modified
    else if status_is_ok status && req.range.range_present
    then range_answer st.size (resolve_range st.size req.range)
    else coded_answer fs z site req status path (mime_of_entry meta path) st meta
