-- ===== src/Tests/StaticTests.antt =====
-- The files of a site, and the headers of a script, at concrete requests.
use rpsiod.Prelude.{
  ℕ, zero, suc, ◌-◌, set, true, false, codes, [], ◌∷◌, some, none, ◌≡◌, refl, if◌then◌else◌, get_or,
  replicate, length-replicate, u64, ◌≤◌, arith, All, str_eq, is_prefix, find, split_at,
}
use rpsiod.Util.Strings.{streq_ci, safe_copy, starts_with, cut_before, strip_port}
use rpsiod.Util.Percent.{percent_decode_path}
use rpsiod.Util.Path.{path_has_forbidden_segment, scan_segments, is_dots}
use rpsiod.Util.Mime.{mime_type}
use rpsiod.Http.Request.{Request, empty_request}
use rpsiod.Config.Site.{Site, Config, site_defaults, config_defaults}
use rpsiod.Config.Methods.{site_allows_method}
use rpsiod.Config.Routes.{
  Table, RouteKey, table_size, empty_entry, new_entry, index_of, route_key, route_hash_key,
  normalize_route_host, find_site_for_listener, lookup_route, lookup_loop, route_entry_matches,
}
use rpsiod.Route.{build_redirect_location, redirect_of, move_host, upgrade, first_host}
use rpsiod.RateLimit.{rate_limit_exceeded}
use rpsiod.Security.{
  blocked_direct_access, blocked_loop, left_ok, right_ok, static_relative_request_path,
}
use rpsiod.Php.{
  php_path_is_php, php_path_is_source_like, path_has_suffix_ci, clean_path_copy,
  path_has_php_source_extension,
}
use rpsiod.Server.Files.{FileSystem, file, failed, enoent, Stat, regular}
use rpsiod.Server.OpenCache.{
  Entry, no_entry, OpenCache, open_static_path, static_cache_path_blocked, open_cache_lookup,
  slot_loop, open_cache_store, holds,
}
use rpsiod.Server.OpenCache.Transparent.{open_static_path-open_below}
use rpsiod.Server.OpenCache.Slots.{Busy, slot_loop_victim}
use rpsiod.Server.OpenCache.OneEach.{OneEach, open_static_path-OneEach}
use rpsiod.Server.MetaCache.{
  MetaEntry, meta_entry, static_meta_get, meta_loop, static_meta_store, etag_of, variant_of,
}
use rpsiod.Server.Static.{
  Reply, Caches, serve_static, try_open_static, selected_path_blocked,
  request_path_has_trailing_slash, site_path_is_directory,
}
use rpsiod.Server.Static.Replies.{sent, reply_of}
use rpsiod.Server.Static.Guarded.{Guarded}
use rpsiod.Server.Request.{reply, Peer, SiteState, serve_request, serve_site, request_site}
use rpsiod.Server.Request.Composed.{Answered, serve_request-Answered}

abbrev page : Stat
page = record { kind = regular; size = 20; mtime = 9; inode = 4 }

abbrev files : FileSystem
files = record {
  open_below = λ path. if str_eq path (codes "a.txt") then file page else failed enoent;
  open_path = λ path. failed enoent;
  dup_ok = true;
}

abbrev no_files : OpenCache
no_files = record { entries = replicate 256 no_entry; count = 0; tick = 0 }

open_static_path-open_below_example :
    (open_static_path files config_defaults site_defaults no_files (codes "a.txt")).1 ≡ file page
unfolding str_eq
open_static_path-open_below_example =
    open_static_path-open_below files config_defaults site_defaults no_files (codes "a.txt")

abbrev older : Entry
older = record no_entry { valid = true; relative_path = codes "b"; last_used = 3 }

abbrev newer : Entry
newer = record no_entry { valid = true; relative_path = codes "c"; last_used = 8 }

victim_found : slot_loop 0 (newer ∷ older ∷ []) (codes "a") none (u64 - 1) ≡ some 1
unfolding slot_loop str_eq
victim_found = refl

not_held : holds older (codes "a") ≡ false
unfolding str_eq
not_held = refl

slot_loop_victim_example :
    All (Busy (codes "a")) (newer ∷ older ∷ [])
    × All (λ e. older.last_used ≤ e.last_used) (newer ∷ older ∷ [])
slot_loop_victim_example =
    slot_loop_victim (newer ∷ older ∷ []) (codes "a") 1 victim_found refl not_held

get_or-replicate : (n i : ℕ) (e : Entry) → get_or (replicate n e) i e ≡ e
get_or-replicate zero i e = refl
get_or-replicate (suc n) zero e = refl
get_or-replicate (suc n) (suc i) e = get_or-replicate n i e

empty-OneEach : OneEach config_defaults no_files
empty-OneEach = record {
  size = length-replicate 256 no_entry;
  distinct = λ i j lt lt' vi vj same. absurd (cc (get_or-replicate 256 i no_entry));
}

open_static_path-OneEach_example :
    OneEach config_defaults
      (open_static_path files config_defaults site_defaults no_files (codes "a.txt")).0
open_static_path-OneEach_example =
    open_static_path-OneEach files config_defaults site_defaults no_files (codes "a.txt")
      empty-OneEach (omega arith)

abbrev get_page : Request
get_page = record empty_request {
  method = codes "GET";
  path = codes "/a.txt";
  host = codes "a.org";
}

abbrev uncached : Config
uncached = record config_defaults { open_file_cache_enabled = false }

abbrev caches : Caches
caches = record { open_files = no_files; meta = record { entries = []; clock = 0 } }

abbrev page_entry : MetaEntry
page_entry =
    (static_meta_get files site_defaults (record { entries = []; clock = 0 }) (codes "a.txt")
      page).1

run_static : FileSystem → Config → Site → Request → Caches → Caches × Reply
unfolding serve_static site_allows_method streq_ci percent_decode_path path_has_forbidden_segment
    blocked_direct_access request_path_has_trailing_slash site_path_is_directory
    static_relative_request_path try_open_static open_static_path static_cache_path_blocked
    php_path_is_source_like php_path_is_php str_eq selected_path_blocked safe_copy
    path_has_suffix_ci clean_path_copy path_has_php_source_extension scan_segments is_dots
    blocked_loop left_ok right_ok open_cache_lookup open_cache_store is_prefix find starts_with
    split_at static_meta_get etag_of meta_entry static_meta_store meta_loop mime_type variant_of
run_static = serve_static

abbrev example_site : Site
example_site = record site_defaults { domains = codes "a.org" ∷ []; rate_limit_enabled = false }

abbrev site_key : RouteKey
site_key = route_key (codes "a.org") 80 (codes "0.0.0.0") false

abbrev site_table : Table
site_table = set (replicate table_size empty_entry) (index_of site_key 0) (new_entry site_key 0)

abbrev peer : Peer
peer = record { client_ip = codes "192.0.2.1"; server_ip = codes "0.0.0.0"; local_port = 80 }

abbrev site_state : Site → SiteState
site_state site = record { caches = caches; buckets = []; ip_number = some 7; now = 100 }

request_answered :
    (serve_request files uncached site_table (example_site ∷ []) peer get_page site_state).1
    ≡ reply (reply_of (sent (codes "a.txt") page page_entry))
unfolding run_static serve_request serve_site request_site find_site_for_listener lookup_route
    lookup_loop route_entry_matches route_hash_key route_key normalize_route_host
    build_redirect_location redirect_of move_host upgrade first_host rate_limit_exceeded streq_ci
    str_eq starts_with is_prefix strip_port cut_before
request_answered = refl

serve_request-Answered_example :
    Answered files site_table
      (example_site ∷ [])
      peer
      get_page
      site_state
      (sent (codes "a.txt") page page_entry)
serve_request-Answered_example =
    serve_request-Answered (sent (codes "a.txt") page page_entry) files uncached site_table
      (example_site ∷ []) peer get_page site_state request_answered
