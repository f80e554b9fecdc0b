-- ===== src/Server/Validators.antt =====
-- src/server.c: whether the client's copy of a file is current, `request_cache_validator_matches`.
use rpsiod.Prelude.{
  ℕ, zero, suc, Bool, true, false, ◌&&◌, ◌||◌, not, Bytes, codes, [], ◌∷◌, Option, some, none, leb,
  ◌==◌, if◌then◌else◌, length, drop, drop_while, drop_end, take_while, str_eq, ℤ, pos, negsuc,
}
use rpsiod.Util.Strings.{streq_ci, char_at}
use rpsiod.Http.Request.{Request}
use rpsiod.Server.Files.{Stat}

-- `strptime` with a format and `timegm` of what it read: the time, and the text behind it
pub record Clock : Type 0 where
  pub strptime : Bytes → Bytes → Option (ℤ × Bytes)

is_blank : ℕ → Bool
is_blank c = c == 32 || c == 9

is_filler : ℕ → Bool
is_filler c = c == 32 || c == 9 || c == b','

-- the text behind `W/`
strong : Bytes → Bytes
strong tag =
    if leb 2 (length tag) && char_at tag 0 == b'W' && char_at tag 1 == b'/' then drop 2 tag else tag

-- `etag_opaque_matches`
unfoldable pub etag_opaque_matches : Bytes → Bytes → Bool
unfolding strong
etag_opaque_matches candidate etag = str_eq (strong candidate) (strong etag)

-- one item of the list
item_matches : Bytes → Bytes → Bool
item_matches etag item = str_eq item (codes "*") || etag_opaque_matches item etag

not_comma : ℕ → Bool
not_comma c = not (c == b',')

-- the loop over the items, on fuel for them
match_loop : ℕ → Bytes → Bytes → Bool
unfolding is_blank is_filler item_matches not_comma
match_loop zero etag p = false
match_loop (suc fuel) etag [] = false
match_loop (suc fuel) etag (c ∷ s) =
    let q = drop_while is_filler (c ∷ s) in
    let item = drop_end is_blank (take_while not_comma q) in
    let later = match_loop fuel etag (drop_while not_comma q) in
    if item_matches etag item then true else later

-- `if_none_match_matches`
unfoldable pub if_none_match_matches : Bytes → Bytes → Bool
unfolding match_loop
if_none_match_matches value etag =
    if length value == 0 || length etag == 0 then false else match_loop (length value) etag value

-- the first of two readings
or_else : Option (ℤ × Bytes) → Option (ℤ × Bytes) → Option (ℤ × Bytes)
or_else (some r) other = some r
or_else none other = other

whole_time : Option (ℤ × Bytes) → Option ℤ
unfolding is_blank
whole_time none = none
whole_time (some (t, rest)) = if length (drop_while is_blank rest) == 0 then some t else none

-- `parse_http_time`
unfoldable pub parse_http_time : Clock → Bytes → Option ℤ
unfolding or_else whole_time
parse_http_time clock value =
    if length value == 0
    then none
    else whole_time (
        or_else (clock.strptime (codes "%a, %d %b %Y %H:%M:%S GMT") value) (
          or_else (clock.strptime (codes "%A, %d-%b-%y %H:%M:%S GMT") value)
            (clock.strptime (codes "%a %b %e %H:%M:%S %Y") value)))

-- `st_mtime <= since`; a time before 1970 is negative
not_after : ℕ → Option ℤ → Bool
not_after mtime none = false
not_after mtime (some (pos since)) = leb mtime since
not_after mtime (some (negsuc since)) = false

-- `request_cache_validator_matches`, where no tag is the empty one
unfoldable pub request_cache_validator_matches : Clock → Request → Stat → Bytes → Bool
unfolding not_after
request_cache_validator_matches clock req st etag =
    if not (streq_ci req.method (codes "GET")) && not (streq_ci req.method (codes "HEAD"))
    then false
    else if not (length req.if_none_match == 0)
    then if_none_match_matches req.if_none_match etag
    else if not (length req.if_modified_since == 0)
    then not_after st.mtime (parse_http_time clock req.if_modified_since)
    else false
