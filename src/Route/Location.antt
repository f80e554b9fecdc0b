-- ===== src/Route/Location.antt =====
-- What a redirect leads to.
use rpsiod.Prelude.{
  ℕ, ◌<◌, Bool, true, false, Bytes, some, leb, length, ◌≡◌, ◌⊎◌, refl, sym, ℤ, pos, arith,
}
use rpsiod.Http.Request.{Request}
use rpsiod.Config.Site.{Site}
use rpsiod.Route.{Redirect, upgrade, move_host, location_of, redirect_of, build_redirect_location}

-- what a redirect is made of
pub record Redirects (site : Site) (req : Request) (port : ℕ) (suppressed : Bool) (out_len : ℕ)
    (location : Bytes) (status : ℤ) : Type 0 where
  pub fits : length location < out_len
  pub is_location : location ≡ location_of site req.path (redirect_of site req port suppressed)
  pub wanted :
      (site.redirect_www_enabled ≡ true) × (status ≡ site.redirect_www_status)
      ⊎ (suppressed ≡ false)
        × (site.redirect_http_to_https ≡ true)
        × (port ≡ site.http_port)
        × (status ≡ pos 301)

-- the status of a redirect that is made, by the option that asks for it
abbrev Wanted : Site → ℕ → Bool → Redirect → Type 0
Wanted site port suppressed r =
    (site.redirect_www_enabled ≡ true) × (r.status ≡ site.redirect_www_status)
    ⊎ (suppressed ≡ false)
      × (site.redirect_http_to_https ≡ true)
      × (port ≡ site.http_port)
      × (r.status ≡ pos 301)

upgrade-Wanted :
    (site : Site) (port : ℕ) (suppressed : Bool) (r : Redirect)
    → r.changed ≡ false
    → (upgrade site port suppressed r).changed ≡ true
    → Wanted site port suppressed (upgrade site port suppressed r)
unfolding upgrade
upgrade-Wanted site port suppressed r was h = ground arith

move_host-Wanted :
    (site : Site) (port : ℕ) (suppressed : Bool) (r : Redirect)
    → (r.changed ≡ true → Wanted site port suppressed r)
    → (move_host site r).changed ≡ true
    → Wanted site port suppressed (move_host site r)
unfolding move_host
move_host-Wanted site port suppressed r before h = ground (arith, before)

redirect_of-Wanted :
    (site : Site) (req : Request) (port : ℕ) (suppressed : Bool)
    → (redirect_of site req port suppressed).changed ≡ true
    → Wanted site port suppressed (redirect_of site req port suppressed)
unfolding redirect_of
redirect_of-Wanted site req port suppressed h =
    move_host-Wanted site port suppressed _ (upgrade-Wanted site port suppressed _ refl) h

short_of_leb : (a b : ℕ) → leb a b ≡ false → b < a
short_of_leb a b h = ground arith

-- A redirect is made only by an option of the site: it has the status of the redirect between `www.`
-- and the bare name, or 301 for the one to HTTPS, asked on the HTTP port; its location is complete
-- in the buffer.
pub build_redirect_location-Redirects :
    (site : Site) (req : Request) (port : ℕ) (suppressed : Bool) (out_len : ℕ) {location : Bytes}
    {status : ℤ}
    → build_redirect_location site req port suppressed out_len ≡ some (location, status)
    → Redirects site req port suppressed out_len location status
unfolding build_redirect_location
build_redirect_location-Redirects site req port suppressed out_len {location} {status} e =
    let r = redirect_of site req port suppressed in
    let changed : r.changed ≡ true = ground arith in
    let short : leb out_len (length (location_of site req.path r)) ≡ false = ground arith in
    let same : location_of site req.path r ≡ location = ground arith in
    let status_of : r.status ≡ status = ground arith in
    record {
      fits = rw (← same) (short_of_leb out_len (length (location_of site req.path r)) short);
      is_location = sym same;
      wanted = rw (← status_of) (redirect_of-Wanted site req port suppressed changed);
    }
