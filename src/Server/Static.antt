-- ===== src/Server/Static.antt =====
-- src/server.c: which file, script, redirect or error a request for a site's files gets:
-- `try_open_static` and `serve_static`.
pub mod Open
pub mod Replies
pub mod Guarded
use rpsiod.Prelude.{
  ℕ, ◌+◌, ◌-◌, Bool, true, false, ◌&&◌, ◌||◌, not, Bytes, codes, List, [], ◌∷◌, ◌++◌, Option, some,
  none, leb, ltb, ◌==◌, if◌then◌else◌, length, split_at, str_eq, ℤ, pos,
}
use rpsiod.Util.Strings.{streq_ci, safe_copy, char_at}
use rpsiod.Util.Percent.{percent_decode_path}
use rpsiod.Util.Path.{path_has_forbidden_segment}
use rpsiod.Http.Request.{Request}
use rpsiod.Config.Site.{Site, Config}
use rpsiod.Config.Methods.{site_allows_method, site_error_page}
use rpsiod.Security.{blocked_direct_access, static_relative_request_path}
use rpsiod.Php.{php_path_is_php, php_path_is_source_like}
use rpsiod.Server.Files.{
  FileSystem, Opened, failed, no_stat, file, Stat, is_regular, is_directory, Errno, enoent, eacces,
  eisdir, eother,
}
use rpsiod.Server.OpenCache.{OpenCache, open_static_path}
use rpsiod.Server.MetaCache.{MetaCache, MetaEntry, static_meta_get}

-- What is sent: a static file with status 200, a page of the site with its status, the text of a status,
-- a redirect, or the output of a script.
pub data Reply : Type 0 where
  static_file : Bytes → Stat → MetaEntry → Reply
  page_file : ℤ → Bytes → Stat → Reply
  status_page : ℤ → Reply
  redirect : ℤ → Bytes → Reply
  script : Bytes → Reply

-- the caches of a site
pub record Caches : Type 0 where
  pub open_files : OpenCache
  pub meta : MetaCache

abbrev path_max : ℕ
path_max = 4096

abbrev pub path_len : ℕ
path_len = 2048

-- what opening a path under an index or as it is gives to the caller
pub data Found : Type 0 where
  found : Bytes → Stat → Found
  missing : Errno → Found

-- the path of an index in the request's directory, with and without its slash
unfoldable pub first_index : Bytes → Bytes → Bytes
first_index rel index = if str_eq rel (codes ".") then index else rel ++ index

unfoldable pub inner_index : Bytes → Bytes → Bytes
inner_index rel index = if str_eq rel (codes ".") then index else rel ++ (b'/' ∷ index)

-- a regular file that was opened
regular_file : Opened → Option Stat
regular_file (failed e) = none
regular_file (no_stat e) = none
regular_file (file st) = if is_regular st.kind then some st else none

-- the first index that is a regular file
unfoldable pub try_indexes :
    FileSystem
    → Config
    → Site
    → (Bytes → Bytes)
    → List Bytes
    → OpenCache
    → OpenCache × Option (Bytes × Stat)
unfolding regular_file
try_indexes fs cfg site path_of [] c = (c, none)
try_indexes fs cfg site path_of (index ∷ indexes) c =
    let path = path_of index in
    let opened = open_static_path fs cfg site c path in
    let skip = try_indexes fs cfg site path_of indexes c in
    let next = try_indexes fs cfg site path_of indexes opened.0 in
    if leb path_max (length path)
    then skip
    else elim (regular_file opened.1) [ some st ↦ (opened.0, some (path, st)) | none ↦ next ]

-- an index of a directory, or that the directory has none
index_found : OpenCache × Option (Bytes × Stat) → OpenCache × Found
index_found (c, some (path, st)) = (c, found path st)
index_found (c, none) = (c, missing eisdir)

-- what becomes of the path itself
open_self : FileSystem → Config → Site → Bytes → OpenCache × Opened → OpenCache × Found
unfolding index_found
open_self fs cfg site rel (c, failed e) = (c, missing e)
open_self fs cfg site rel (c, no_stat e) = (c, missing e)
open_self fs cfg site rel (c, file st) =
    if is_directory st.kind
    then index_found (try_indexes fs cfg site (inner_index rel) site.indexes c)
    else if not (is_regular st.kind)
    then (c, missing eacces)
    else (c, found rel st)

-- the path asks for the index of a directory
wants_index : Bytes → Bool
wants_index rel =
    str_eq rel (codes ".") || ltb 0 (length rel) && char_at rel (length rel - 1) == b'/'

open_first :
    FileSystem → Config → Site → Bytes → OpenCache × Option (Bytes × Stat) → OpenCache × Found
unfolding open_self
open_first fs cfg site rel (c, some (path, st)) = (c, found path st)
open_first fs cfg site rel (c, none) =
    open_self fs cfg site rel (open_static_path fs cfg site c rel)

-- `try_open_static`
unfoldable pub try_open_static : FileSystem → Config → Site → Bytes → OpenCache → OpenCache × Found
unfolding wants_index open_first
try_open_static fs cfg site request_path c =
    let rel = static_relative_request_path request_path in
    open_first fs cfg site rel (
      if wants_index rel
      then try_indexes fs cfg site (first_index rel) site.indexes c
      else (c, none))

-- a page that is opened by its absolute path, if that is a regular file
page_of : Bytes → ℤ → Opened → Option Reply
unfolding regular_file
page_of page status o = elim (regular_file o) [
  | none ↦ none
  | some st ↦ some (page_file status page st)
]

page_or : Option Reply → Reply → Reply
page_or (some r) other = r
page_or none other = other

error_page_or : FileSystem → ℤ → Option Bytes → Reply
unfolding page_of page_or
error_page_or fs status none = status_page status
error_page_or fs status (some page) =
    if length page == 0
    then status_page status
    else page_or (page_of page status (fs.open_path page)) (status_page status)

-- `send_error_page`
unfoldable pub error_reply : FileSystem → Site → ℤ → Reply
unfolding error_page_or
error_reply fs site status = error_page_or fs status (site_error_page site status)

-- the branch of a site in maintenance
pub maintenance_reply : FileSystem → Site → Reply
unfolding page_of page_or
maintenance_reply fs site =
    if length site.maintenance_page == 0
    then error_reply fs site site.maintenance_status
    else page_or
        (page_of site.maintenance_page site.maintenance_status (fs.open_path site.maintenance_page))
        (error_reply fs site site.maintenance_status)

-- the path of a request before its query, and the query with its mark
before_query : Bytes → Bytes
before_query path = elim (split_at b'?' path) [ none ↦ path | some (before, query) ↦ before ]

query_part : Bytes → Bytes
query_part path = elim (split_at b'?' path) [ none ↦ [] | some (before, query) ↦ b'?' ∷ query ]

-- `request_path_has_trailing_slash`
unfoldable pub request_path_has_trailing_slash : Bytes → Bool
unfolding before_query
request_path_has_trailing_slash path =
    let p = before_query path in ltb 0 (length p) && char_at p (length p - 1) == b'/'

is_directory_file : Opened → Bool
is_directory_file (failed e) = false
is_directory_file (no_stat e) = false
is_directory_file (file st) = is_directory st.kind

-- `site_path_is_directory`
unfoldable pub site_path_is_directory : FileSystem → Bytes → Bool
unfolding is_directory_file
site_path_is_directory fs decoded_path =
    is_directory_file (fs.open_below (static_relative_request_path decoded_path))

-- `redirect_directory_slash`
unfoldable pub redirect_directory_slash : FileSystem → Site → Bytes → Reply
unfolding before_query query_part
redirect_directory_slash fs site path =
    let location = before_query path ++ (b'/' ∷ query_part path) in
    if leb (path_len + 2) (length location)
    then error_reply fs site (pos 414)
    else redirect (pos 301) location

-- `selected_path_blocked_direct_access`
unfoldable pub selected_path_blocked : Site → Bytes → Bool
selected_path_blocked site selected =
    let request_path = if char_at selected 0 == b'/' then selected else b'/' ∷ selected in
    if leb path_max (length request_path) then true else blocked_direct_access site request_path

-- the status of a path that is not opened
open_status : Errno → ℤ
open_status eacces = pos 403
open_status eisdir = pos 403
open_status _ = pos 404

-- the script that stands for a path of a site that is routed to PHP
php_target : Site → Bytes → Bytes
php_target site decoded =
    if php_path_is_php decoded
    then safe_copy path_len decoded
    else if not (length site.fallback == 0)
    then safe_copy path_len site.fallback
    else codes "/index.php"

-- the output of a script, unless the body is too long for it
run_script : FileSystem → Site → Request → Bytes → Reply
run_script fs site req selected =
    if ltb site.php_max_body_size req.content_length
    then error_reply fs site (pos 413)
    else script selected

-- what a site that is routed to PHP makes of the script that was opened
php_found : FileSystem → Site → Request → Found → Reply
unfolding open_status run_script
php_found fs site req (missing e) = error_reply fs site (open_status e)
php_found fs site req (found selected st) =
    if selected_path_blocked site selected
    then error_reply fs site (pos 403)
    else if not (php_path_is_php selected)
    then error_reply fs site (pos 403)
    else run_script fs site req selected

-- the end of `serve_static`: the file is sent, unless its entry says that it is blocked
send_found : FileSystem → Site → Caches → Bytes → Stat → MetaCache × MetaEntry → Caches × Reply
send_found fs site c selected st (m, entry) = (
  record c { meta = m },
  if entry.blocked then error_reply fs site (pos 403) else static_file selected st entry,
)

-- what a static site makes of the file that was opened
file_found : FileSystem → Site → Request → Caches → Found → Caches × Reply
unfolding open_status run_script send_found
file_found fs site req c (missing e) = (c, error_reply fs site (open_status e))
file_found fs site req c (found selected st) =
    if selected_path_blocked site selected
    then (c, error_reply fs site (pos 403))
    else if site.php_enabled && php_path_is_php selected
    then (c, run_script fs site req selected)
    else if not (streq_ci req.method (codes "GET")) && not (streq_ci req.method (codes "HEAD"))
    then (c, error_reply fs site (pos 405))
    else if php_path_is_source_like selected
    then (c, error_reply fs site (pos 403))
    else send_found fs site c selected st (static_meta_get fs site c.meta selected st)

is_enoent : Errno → Bool
is_enoent enoent = true
is_enoent _ = false

-- the fallback of a static site, where the path does not exist
with_fallback : FileSystem → Config → Site → Bytes → OpenCache × Found → OpenCache × Found
unfolding is_enoent
with_fallback fs cfg site decoded (c, found path st) = (c, found path st)
with_fallback fs cfg site decoded (c, missing e) =
    if not (length site.fallback == 0) && is_enoent e && not (str_eq decoded (codes "/"))
    then try_open_static fs cfg site site.fallback c
    else (c, missing e)

-- the part of `serve_static` behind the tests on the path
serve_path : FileSystem → Config → Site → Request → Caches → Bytes → Caches × Reply
unfolding php_target php_found file_found with_fallback
serve_path fs cfg site req c decoded =
    if streq_ci site.routing_type (codes "php")
    then (let opened = try_open_static fs cfg site (php_target site decoded) c.open_files in
        (record c { open_files = opened.0 }, php_found fs site req opened.1))
    else (let opened =
          with_fallback fs cfg site decoded (try_open_static fs cfg site decoded c.open_files) in
        file_found fs site req (record c { open_files = opened.0 }) opened.1)

-- the tests on a path that was decoded
serve_decoded : FileSystem → Config → Site → Request → Caches → Option Bytes → Caches × Reply
unfolding serve_path
serve_decoded fs cfg site req c none = (c, error_reply fs site (pos 400))
serve_decoded fs cfg site req c (some decoded) =
    if path_has_forbidden_segment decoded
    then (c, error_reply fs site (pos 400))
    else if blocked_direct_access site decoded
    then (c, error_reply fs site (pos 403))
    else if not (request_path_has_trailing_slash req.path) && site_path_is_directory fs decoded
    then (c, redirect_directory_slash fs site req.path)
    else serve_path fs cfg site req c decoded

-- `serve_static`
unfoldable pub serve_static : FileSystem → Config → Site → Request → Caches → Caches × Reply
unfolding maintenance_reply serve_decoded
serve_static fs cfg site req c =
    if site.maintenance_enabled
    then (c, maintenance_reply fs site)
    else if not (site_allows_method site req.method)
    then (c, error_reply fs site (pos 405))
    else serve_decoded fs cfg site req c (percent_decode_path req.path path_len)
