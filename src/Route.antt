-- ===== src/Route.antt =====
-- src/route.c: where a request is redirected to, and with which status.
pub mod Location
use rpsiod.Prelude.{
  ℕ, ◌+◌, Bool, true, false, ◌&&◌, ◌||◌, not, Bytes, codes, List, [], ◌∷◌, ◌++◌, Option, some, none,
  leb, ltb, ◌==◌, if◌then◌else◌, length, drop, get_or, decimal, ℤ, pos,
}
use rpsiod.Util.Strings.{streq_ci, safe_copy, starts_with}
use rpsiod.Http.Request.{Request}
use rpsiod.Config.Site.{Site}

-- `target_host`, `https`, `*status` and `changed`; the status is the caller's until it is set
pub record Redirect : Type 0 where
  pub target_host : Bytes
  pub https : Bool
  pub status : ℤ
  pub changed : Bool

-- the redirect from HTTP to HTTPS
unfoldable pub upgrade : Site → ℕ → Bool → Redirect → Redirect
upgrade site port suppress_http_to_https r =
    if not suppress_http_to_https
      && site.redirect_http_to_https
      && port == site.http_port
      && not (site.https_port == 0)
    then record r { https = true; status = pos 301; changed = true }
    else r

-- the redirect between `www.` and the bare name
unfoldable pub move_host : Site → Redirect → Redirect
move_host site r =
    if not site.redirect_www_enabled
    then r
    else if streq_ci site.redirect_www_mode (codes "apexToWww")
        && not (starts_with r.target_host (codes "www."))
    then (if ltb (length (codes "www." ++ r.target_host)) 256
        then record r {
          target_host = codes "www." ++ r.target_host;
          status = site.redirect_www_status;
          changed = true;
        }
        else r)
    else if streq_ci site.redirect_www_mode (codes "wwwToApex")
        && starts_with r.target_host (codes "www.")
    then record r {
      target_host = drop 4 r.target_host;
      status = site.redirect_www_status;
      changed = true;
    }
    else r

-- the scheme is `https`
unfoldable pub is_secure : Site → Redirect → Bool
is_secure site r = r.https || streq_ci site.serve_as (codes "https")

-- a port that is not the scheme's own
unfoldable pub port_text : Site → Bool → Bytes
port_text site true = if site.https_port == 443 then [] else codes ":" ++ decimal site.https_port
port_text site false = if site.http_port == 80 then [] else codes ":" ++ decimal site.http_port

-- the text of the location
unfoldable pub location_of : Site → Bytes → Redirect → Bytes
location_of site path r =
    (if is_secure site r then codes "https" else codes "http")
    ++ (codes "://" ++ (r.target_host ++ (port_text site (is_secure site r) ++ path)))

-- the host of the request, or the first domain of the site
unfoldable pub first_host : Site → Request → Bytes
first_host site req = if length req.host == 0 then get_or site.domains 0 [] else req.host

unfoldable pub redirect_of : Site → Request → ℕ → Bool → Redirect
redirect_of site req port suppress_http_to_https = move_host site (
    upgrade site port suppress_http_to_https (record {
      target_host = safe_copy 256 (first_host site req);
      https = false;
      status = pos 0;
      changed = false;
    }))

-- `rpsiod_route_build_redirect_location`: the location and the status; `none` is `false`
unfoldable pub build_redirect_location : Site → Request → ℕ → Bool → ℕ → Option (Bytes × ℤ)
build_redirect_location site req port suppress_http_to_https out_len =
    let r = redirect_of site req port suppress_http_to_https in
    let location = location_of site req.path r in
    if not r.changed
    then none
    else if leb out_len (length location)
    then none
    else some (location, r.status)
