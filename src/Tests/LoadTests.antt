-- ===== src/Tests/LoadTests.antt =====
-- The reading and the checks of the configuration, and the redirects, at concrete inputs.
use rpsiod.Prelude.{
  Bytes, codes, [], ◌∷◌, ◌≡◌, refl, true, false, Option, some, none, str_eq, decimal, pos,
}
use rpsiod.Util.Strings.{streq_ci, starts_with, safe_copy}
use rpsiod.Http.Request.{Request, empty_request}
use rpsiod.Config.Site.{Site, Config, site_defaults, config_defaults}
use rpsiod.Config.Text.{done}
use rpsiod.Config.Validate.{
  validate, validate_sites, validate_site, validate_server, value_is_one_of_ci, is_absolute, log_ok,
  is_allowed_runtime_path,
}
use rpsiod.Config.Validate.Valid.{Checked, validate-Valid}
use rpsiod.Route.{
  build_redirect_location, redirect_of, move_host, upgrade, location_of, is_secure, port_text,
  first_host,
}
use rpsiod.Route.Location.{Redirects, build_redirect_location-Redirects}

-- a file system in which every document root opens
abbrev no_error : Bytes → Option Bytes
no_error path = none

abbrev one_site : Config
one_site = record config_defaults {
  sites = record site_defaults { domains = codes "a.org" ∷ []; static_root = codes "/srv/a" } ∷ [];
}

abbrev one_site_checked : Config
one_site_checked = record config_defaults {
  sites =
      record site_defaults {
        name = codes "site-1";
        domains = codes "a.org" ∷ [];
        static_root = codes "/srv/a";
        indexes = codes "index.html" ∷ [];
      }
      ∷ [];
}

validate-example : validate no_error one_site ≡ done one_site_checked
unfolding validate validate_sites validate_site validate_server value_is_one_of_ci is_absolute
    log_ok is_allowed_runtime_path streq_ci starts_with str_eq safe_copy decimal
validate-example = refl

validate-Valid_example : Checked one_site one_site_checked
validate-Valid_example = validate-Valid no_error one_site validate-example

abbrev secure_site : Site
secure_site = record site_defaults { domains = codes "a.org" ∷ []; redirect_http_to_https = true }

abbrev plain_request : Request
plain_request = record empty_request { path = codes "/x"; host = codes "a.org" }

redirect-example :
    build_redirect_location secure_site plain_request 80 false 4096
    ≡ some (codes "https://a.org/x", pos 301)
unfolding build_redirect_location redirect_of move_host upgrade location_of is_secure port_text
    first_host streq_ci starts_with safe_copy
redirect-example = refl

build_redirect_location-Redirects_example :
    Redirects secure_site plain_request 80 false 4096 (codes "https://a.org/x") (pos 301)
build_redirect_location-Redirects_example =
    build_redirect_location-Redirects secure_site plain_request 80 false 4096 redirect-example
