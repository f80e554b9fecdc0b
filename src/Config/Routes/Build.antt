-- ===== src/Config/Routes/Build.antt =====
-- src/config.c: `build_route_table`, which adds the routes of every site.
pub mod Reaches
use rpsiod.Prelude.{
  ℕ, zero, suc, ◌+◌, ◌≤◌, ◌<◌, Bool, true, false, ◌&&◌, ◌||◌, not, Bytes, codes, List, [], ◌∷◌,
  ◌++◌, ◌≡◌, ◌≢◌, ◌⊎◌, inl, inr, refl, sym, ap, ◌∙◌, Option, some, none, arith, ltb, leb, ◌==◌,
  if◌then◌else◌, length, drop, str_eq, replicate, Bool-cases, All,
}
use rpsiod.Util.Strings.{streq_ci, starts_with, safe_copy}
use rpsiod.Config.Site.{Site}
use rpsiod.Config.Routes.{
  Table, table_size, empty_entry, Added, added, duplicate, full, add_route_entry, add_loop,
  route_key, RouteKey,
}

-- the arguments of one call of `add_route_entry`
pub record Route : Type 0 where
  pub host : Bytes
  pub port : ℕ
  pub listen_ip : Bytes
  pub site_index : ℕ
  pub default_site : Bool

-- `explicit_default_domain`
unfoldable pub explicit_default_domain : Bytes → Bool
explicit_default_domain domain = str_eq domain (codes "*") || streq_ci domain (codes "default")

-- the calls for one host, on both ports
abbrev pub both_ports : Site → ℕ → Bytes → Bool → List Route
both_ports site i host default_site =
    record {
      host = host;
      port = site.http_port;
      listen_ip = site.listen_ip;
      site_index = i;
      default_site = default_site;
    }
    ∷ record {
      host = host;
      port = site.https_port;
      listen_ip = site.listen_ip;
      site_index = i;
      default_site = default_site;
    }
    ∷ []

-- the host that a redirect between `www.` and the bare name adds
unfoldable pub redirect_hosts : Site → Bytes → List Bytes
redirect_hosts site domain =
    if explicit_default_domain domain || not site.redirect_www_enabled
    then []
    else if streq_ci site.redirect_www_mode (codes "apexToWww")
        && not (starts_with domain (codes "www."))
        && ltb (length (codes "www." ++ domain)) 256
    then (codes "www." ++ domain) ∷ []
    else if streq_ci site.redirect_www_mode (codes "wwwToApex") && starts_with domain (codes "www.")
    then safe_copy 256 (drop 4 domain) ∷ []
    else []

redirect_routes : Site → ℕ → List Bytes → List Route
redirect_routes site i [] = []
redirect_routes site i (host ∷ hosts) = both_ports site i host false ++ redirect_routes site i hosts

unfoldable pub domain_routes : Site → ℕ → List Bytes → List Route
unfolding redirect_routes
domain_routes site i [] = []
domain_routes site i (domain ∷ domains) =
    both_ports site i domain (explicit_default_domain domain)
    ++ (redirect_routes site i (redirect_hosts site domain) ++ domain_routes site i domains)

-- the calls for all sites, in order; a disabled site has none
unfoldable pub site_routes : ℕ → List Site → List Route
site_routes i [] = []
site_routes i (site ∷ sites) =
    if not site.enabled
    then site_routes (i + 1) sites
    else domain_routes site i site.domains ++ site_routes (i + 1) sites

-- `if (add_route_entry(...) < 0) return -1;`
abbrev pub and_then : Added → (Table → Added) → Added
and_then (added t) f = f t
and_then duplicate f = duplicate
and_then full f = full

-- the calls one after the other, up to the first that fails
unfoldable pub add_routes : Table → List Route → Added
add_routes table [] = added table
add_routes table (r ∷ rs) =
    and_then (add_route_entry table r.host r.port r.listen_ip r.site_index r.default_site)
      (λ t. add_routes t rs)

-- `build_route_table`, on a cleared table
unfoldable pub build_route_table : List Site → Added
build_route_table sites = add_routes (replicate table_size empty_entry) (site_routes 0 sites)
