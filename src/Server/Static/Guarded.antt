-- ===== src/Server/Static/Guarded.antt =====
-- What stands between a request and a file or a script.
use rpsiod.Prelude.{
  ℕ, ◌≤◌, [], ◌∷◌, Bool, true, false, ◌&&◌, ◌||◌, not, Bytes, codes, Option, some, none, ltb, ◌==◌,
  length, str_eq, ◌≡◌, ◌≢◌, ◌⊎◌, inl, inr, refl, sym, arith, Bool-cases, pos,
}
use rpsiod.Util.Strings.{streq_ci, safe_copy}
use rpsiod.Util.Percent.{percent_decode_path}
use rpsiod.Util.Path.{path_has_forbidden_segment}
use rpsiod.Http.Request.{Request}
use rpsiod.Config.Site.{Site, Config}
use rpsiod.Config.Methods.{site_allows_method}
use rpsiod.Security.{blocked_direct_access, static_relative_request_path}
use rpsiod.Php.{php_path_is_php, php_path_is_source_like}
use rpsiod.Server.Files.{FileSystem, Stat, Errno}
use rpsiod.Server.OpenCache.{OpenCache}
use rpsiod.Server.MetaCache.{MetaCache, MetaEntry, static_meta_get}
use rpsiod.Server.Static.{
  static_file, script, Caches, Found, found, missing, path_len, try_open_static, error_reply,
  maintenance_reply, redirect_directory_slash, request_path_has_trailing_slash,
  site_path_is_directory, selected_path_blocked, open_status, php_target, run_script, php_found,
  send_found, file_found, is_enoent, with_fallback, serve_path, serve_decoded, serve_static,
}
use rpsiod.Server.Static.Open.{IsFile, Answers, try_open_static-found}
use rpsiod.Server.Static.Replies.{
  Served, sent, run, reply_of, error_reply-ne, maintenance_reply-ne, redirect_directory_slash-ne,
  pass, pass_reply,
}

-- what stands between a request and an answer of either kind
pub record Guarded (site : Site) (req : Request) (decoded : Bytes) : Type 0 where
  pub not_maintenance : site.maintenance_enabled ≡ false
  pub method_allowed : site_allows_method site req.method ≡ true
  pub decodes : percent_decode_path req.path path_len ≡ some decoded
  pub no_forbidden_segment : path_has_forbidden_segment decoded ≡ false
  pub path_not_blocked : blocked_direct_access site decoded ≡ false

-- The path that a script is looked for at: on a site that is routed to PHP the path of the request if it names a
-- script, else the fallback, or /index.php where there is none; on another the path or the fallback.
abbrev pub Target : Site → Bytes → Bytes → Type 0
Target site decoded target =
    (streq_ci site.routing_type (codes "php") ≡ true)
      × ((php_path_is_php decoded ≡ true) × (target ≡ safe_copy path_len decoded)
          ⊎ (php_path_is_php decoded ≡ false)
            × (site.fallback ≢ [])
            × (target ≡ safe_copy path_len site.fallback)
          ⊎ (php_path_is_php decoded ≡ false)
            × (site.fallback ≡ [])
            × (target ≡ codes "/index.php"))
    ⊎ (streq_ci site.routing_type (codes "php") ≡ false)
      × ((target ≡ decoded) ⊎ (target ≡ site.fallback))

php_target-Target :
    (site : Site) (decoded : Bytes)
    → streq_ci site.routing_type (codes "php") ≡ true
    → Target site decoded (php_target site decoded)
unfolding php_target
php_target-Target site decoded php = elim (Bool-cases (php_path_is_php decoded)) [
  | inl p ↦ inl (php, inl (p, rw (php_target, p) refl))
  | inr p ↦ elim (Bool-cases (length site.fallback == 0)) [
    | inl z ↦ inl (php, inr (inr (p, empty site.fallback z, rw (php_target, p, z) refl)))
    | inr z ↦ inl (php, inr (inl (p, nonempty site.fallback z, rw (php_target, p, z) refl)))
  ]
]
  where
    empty : (b : Bytes) → (length b == 0) ≡ true → b ≡ []
    empty [] z = refl
    empty (x ∷ b) z = absurd (ground arith)

    nonempty : (b : Bytes) → (length b == 0) ≡ false → b ≢ []
    nonempty [] z e = cc
    nonempty (x ∷ b) z e = cc

-- the answer, with what was opened
abbrev pub Serves : FileSystem → Site → Request → Bytes → Served → Type 0
Serves fs site req decoded (sent path st entry) =
    (Answers site (static_relative_request_path decoded) path
      ⊎ Answers site (static_relative_request_path site.fallback) path)
    × IsFile fs path st
    × (selected_path_blocked site path ≡ false)
    × ((streq_ci req.method (codes "GET") || streq_ci req.method (codes "HEAD")) ≡ true)
    × (php_path_is_source_like path ≡ false)
    × ((site.php_enabled && php_path_is_php path) ≡ false)
    × (streq_ci site.routing_type (codes "php") ≡ false)
Serves fs site req decoded (run path) =
    (php_path_is_php path ≡ true)
    × (selected_path_blocked site path ≡ false)
    × (req.content_length ≤ site.php_max_body_size)
    × ((target : Bytes) × (st : Stat) × Target site decoded target
        × Answers site (static_relative_request_path target) path
        × IsFile fs path st)

fits_body : (limit n : ℕ) → ltb limit n ≡ false → n ≤ limit
fits_body limit n h = ground arith

script_run : (s : Served) (path : Bytes) → script path ≡ reply_of s → s ≡ run path
script_run (sent p st entry) path e = cc
script_run (run p) path e = cc

run_script-lem :
    (s : Served) (fs : FileSystem) (site : Site) (req : Request) (path : Bytes)
    → run_script fs site req path ≡ reply_of s
    → (s ≡ run path) × (req.content_length ≤ site.php_max_body_size)
unfolding run_script
run_script-lem s fs site req path h =
    let (fits, e) =
      pass_reply s (ltb site.php_max_body_size req.content_length) (error_reply fs site (pos 413))
        (script path) h (error_reply-ne s fs site (pos 413)) in
    (script_run s path e, fits_body site.php_max_body_size req.content_length fits)

not-false : (b : Bool) → not b ≡ false → b ≡ true
not-false true h = refl
not-false false h = cc

-- What a site that is routed to PHP answers with is the script that was opened.
php_found-lem :
    (s : Served) (fs : FileSystem) (site : Site) (req : Request) (decoded target : Bytes)
    (o : Found)
    → ((path : Bytes) (st : Stat)
        → o ≡ found path st
        → IsFile fs path st × Answers site (static_relative_request_path target) path)
    → Target site decoded target
    → php_found fs site req o ≡ reply_of s
    → Serves fs site req decoded s
unfolding php_found
php_found-lem s fs site req decoded target (missing e) at_path t h =
    absurd (error_reply-ne s fs site (open_status e) h)
php_found-lem s fs site req decoded target (found path st) at_path t h =
    let seen = at_path path st refl in
    let (free, h1) =
      pass_reply s (selected_path_blocked site path) (error_reply fs site (pos 403)) _ h
        (error_reply-ne s fs site (pos 403)) in
    let (php, h2) =
      pass_reply s (not (php_path_is_php path)) (error_reply fs site (pos 403))
        (run_script fs site req path) h1 (error_reply-ne s fs site (pos 403)) in
    let (e, fits) = run_script-lem s fs site req path h2 in
    rw e (not-false (php_path_is_php path) php, free, fits, (target, st, t, seen.1, seen.0))

not_neither : (a b : Bool) → (not a && not b) ≡ false → (a || b) ≡ true
not_neither true b h = refl
not_neither false true h = refl
not_neither false false h = cc

send_found-lem :
    (s : Served) (fs : FileSystem) (site : Site) (c : Caches) (path : Bytes) (st : Stat)
    (m : MetaCache × MetaEntry)
    → (send_found fs site c path st m).1 ≡ reply_of s
    → s ≡ sent path st m.1
unfolding send_found
send_found-lem s fs site c path st (m, entry) h =
    sent_of s
      (pass_reply s entry.blocked (error_reply fs site (pos 403)) (static_file path st entry) h
        (error_reply-ne s fs site (pos 403))).1
  where
    sent_of : (s : Served) → static_file path st entry ≡ reply_of s → s ≡ sent path st entry
    sent_of (sent p t e) h = cc
    sent_of (run p) h = cc

-- What a static site answers with is the file that was opened, or the script.
file_found-lem :
    (s : Served) (fs : FileSystem) (site : Site) (req : Request) (c : Caches) (decoded : Bytes)
    (o : Found)
    → ((path : Bytes) (st : Stat)
        → o ≡ found path st
        → IsFile fs path st
          × (Answers site (static_relative_request_path decoded) path
              ⊎ Answers site (static_relative_request_path site.fallback) path))
    → streq_ci site.routing_type (codes "php") ≡ false
    → (file_found fs site req c o).1 ≡ reply_of s
    → Serves fs site req decoded s
unfolding file_found
file_found-lem s fs site req c decoded (missing e) at_path r h =
    absurd (error_reply-ne s fs site (open_status e) h)
file_found-lem s fs site req c decoded (found path st) at_path r h =
    let (is_file, answers) = at_path path st refl in
    let (free, h1) =
      pass s (selected_path_blocked site path) (c, error_reply fs site (pos 403)) _ h
        (error_reply-ne s fs site (pos 403)) in
    elim (Bool-cases (site.php_enabled && php_path_is_php path)) [
      | inl php ↦
          let (e, fits) = run_script-lem s fs site req path (rw php at h1) in
          rw e (
            and_right site.php_enabled (php_path_is_php path) php,
            free,
            fits,
            elim answers [
              | inl a ↦ (decoded, st, inr (r, inl refl), a, is_file)
              | inr a ↦ (site.fallback, st, inr (r, inr refl), a, is_file)
            ],
          )
      | inr static ↦
          let (method, h3) =
            pass s
              (not (streq_ci req.method (codes "GET")) && not (streq_ci req.method (codes "HEAD")))
              (c, error_reply fs site (pos 405)) _ (rw static at h1)
              (error_reply-ne s fs site (pos 405)) in
          let (source, h4) =
            pass s (php_path_is_source_like path) (c, error_reply fs site (pos 403))
              (send_found fs site c path st (static_meta_get fs site c.meta path st)) h3
              (error_reply-ne s fs site (pos 403)) in
          let e = send_found-lem s fs site c path st (static_meta_get fs site c.meta path st) h4 in
          rw e (
            answers,
            is_file,
            free,
            not_neither (streq_ci req.method (codes "GET")) (streq_ci req.method (codes "HEAD"))
                method,
            source,
            static,
            r,
          )
    ]
  where
    and_right : (a b : Bool) → (a && b) ≡ true → b ≡ true
    and_right true b h = h
    and_right false b h = cc

found_ne : (path : Bytes) (st : Stat) (n : Errno) → missing n ≢ found path st
found_ne path st n e = cc

module _ (s : Served) (fs : FileSystem) (cfg : Config) (site : Site) (req : Request) where
  serve_path-lem :
      (c : Caches) (decoded : Bytes)
      → (serve_path fs cfg site req c decoded).1 ≡ reply_of s
      → Serves fs site req decoded s
  unfolding serve_path with_fallback
  serve_path-lem c decoded h = elim (Bool-cases (streq_ci site.routing_type (codes "php"))) [
    | inl php ↦
        php_found-lem s fs site req decoded (php_target site decoded)
          (try_open_static fs cfg site (php_target site decoded) c.open_files).1
          (λ path st e. try_open_static-found fs cfg site (php_target site decoded) c.open_files e)
          (php_target-Target site decoded php) (rw php at h)
    | inr static ↦
        file_found-lem s fs site req _ decoded _
          (fallback_found (try_open_static fs cfg site decoded c.open_files)
            (λ path st e. try_open_static-found fs cfg site decoded c.open_files e))
          static (rw static at h)
  ]
    where
      fallback_found :
          (r : OpenCache × Found)
          → ((path : Bytes) (st : Stat)
              → r.1 ≡ found path st
              → IsFile fs path st × Answers site (static_relative_request_path decoded) path)
          → (path : Bytes) (st : Stat) → (with_fallback fs cfg site decoded r).1 ≡ found path st
          → IsFile fs path st
            × (Answers site (static_relative_request_path decoded) path
                ⊎ Answers site (static_relative_request_path site.fallback) path)
      fallback_found (c, found p t) at_path path st e = let (f, a) = at_path path st e in (f, inl a)
      fallback_found (c, missing n) at_path path st e =
          elim (Bool-cases
            (not (length site.fallback == 0) && is_enoent n && not (str_eq decoded (codes "/")))) [
              | inl b ↦
                  let (f, a) = try_open_static-found fs cfg site site.fallback c (rw b at e) in
                  (f, inr a)
              | inr b ↦ absurd (found_ne path st n (rw b at e))
            ]

  serve_decoded-lem :
      (c : Caches) (d : Option Bytes)
      → d ≡ percent_decode_path req.path path_len
      → site.maintenance_enabled ≡ false
      → site_allows_method site req.method ≡ true
      → (serve_decoded fs cfg site req c d).1 ≡ reply_of s
      → (decoded : Bytes) × Guarded site req decoded × Serves fs site req decoded s
  unfolding serve_decoded
  serve_decoded-lem c none d maintenance method h = absurd (error_reply-ne s fs site (pos 400) h)
  serve_decoded-lem c (some decoded) d maintenance method h =
      let (segments, h1) =
        pass s (path_has_forbidden_segment decoded) (c, error_reply fs site (pos 400)) _ h
          (error_reply-ne s fs site (pos 400)) in
      let (blocked, h2) =
        pass s (blocked_direct_access site decoded) (c, error_reply fs site (pos 403)) _ h1
          (error_reply-ne s fs site (pos 403)) in
      let (slash, h3) =
        pass s (not (request_path_has_trailing_slash req.path) && site_path_is_directory fs decoded)
          (c, redirect_directory_slash fs site req.path) (serve_path fs cfg site req c decoded) h2
          (redirect_directory_slash-ne s fs site req.path) in
      let guarded : Guarded site req decoded = record {
        not_maintenance = maintenance;
        method_allowed = method;
        decodes = sym d;
        no_forbidden_segment = segments;
        path_not_blocked = blocked;
      } in
      (decoded, guarded, serve_path-lem c decoded h3)

  pub serve_static-Serves :
      (c : Caches)
      → (serve_static fs cfg site req c).1 ≡ reply_of s
      → (decoded : Bytes) × Guarded site req decoded × Serves fs site req decoded s
  unfolding serve_static
  serve_static-Serves c h =
      let (maintenance, h1) =
        pass s site.maintenance_enabled (c, maintenance_reply fs site) _ h
          (maintenance_reply-ne s fs site) in
      let (method, h2) =
        pass s (not (site_allows_method site req.method)) (c, error_reply fs site (pos 405))
          (serve_decoded fs cfg site req c (percent_decode_path req.path path_len)) h1
          (error_reply-ne s fs site (pos 405)) in
      serve_decoded-lem c (percent_decode_path req.path path_len) refl maintenance
        (not-false (site_allows_method site req.method) method) h2
