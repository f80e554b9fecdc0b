-- ===== src/Config/Validate.antt =====
-- src/config.c: `rpsiod_config_validate`, up to the route table. The document root of a site is
-- resolved and opened by system calls: `root_error` gives the text of their failure, if they fail.
pub mod Valid
use Prim.Native.String.{String}
use rpsiod.Prelude.{
  ℕ, ◌+◌, Bool, true, false, ◌&&◌, ◌||◌, not, Bytes, codes, List, [], ◌∷◌, ◌++◌, Option, some, none,
  ltb, ◌==◌, if◌then◌else◌, length, get_or, str_eq, is_prefix, decimal, ℤ, pos, negsuc,
}
use rpsiod.Util.Strings.{streq_ci, safe_copy, starts_with, char_at}
use rpsiod.Config.Site.{Site, Config, LogPath}
use rpsiod.Config.Text.{Applied, done, fail, ◌>>=◌, ◌>>◌, require}

-- `is_absolute`
unfoldable pub is_absolute : Bytes → Bool
is_absolute path = char_at path 0 == b'/'

-- `is_allowed_runtime_path`
unfoldable pub is_allowed_runtime_path : Bytes → Bool
is_allowed_runtime_path path =
    starts_with path (codes "/var/log/rpsiod/")
    || starts_with path (codes "/var/cache/rpsiod/")
    || starts_with path (codes "/var/lib/rpsiod/ssl/")
    || starts_with path (codes "/run/rpsiod/")

-- `value_is_one_of_ci`, with the arguments that are not NULL
unfoldable pub value_is_one_of_ci : Bytes → List String → Bool
value_is_one_of_ci value [] = false
value_is_one_of_ci value (a ∷ rest) = streq_ci value (codes a) || value_is_one_of_ci value rest

-- a log is off, or stands below the directory of the logs
unfoldable pub log_ok : LogPath → Bool
log_ok log =
    not log.enabled || is_absolute log.path && starts_with log.path (codes "/var/log/rpsiod/")

-- a message about a site
site_message : Site → Bytes → Bytes
site_message site text = codes "site '" ++ site.name ++ codes "': " ++ text

-- some domain of the list is this one
domain_in : Bytes → List Bytes → Bool
domain_in domain [] = false
domain_in domain (d ∷ ds) = streq_ci domain d || domain_in domain ds

-- the two loops over the domains of a site
check_domains : Site → List Bytes → Applied (Unit {0})
unfolding site_message domain_in
check_domains site [] = done tt
check_domains site (d ∷ ds) = do
  require (not (length d == 0))
      (site_message site (codes "match.domains entries must not be empty"))
  require (not (domain_in d ds)) (site_message site (codes "duplicate domain '" ++ d ++ codes "'"))
  check_domains site ds

int_is : ℤ → ℕ → Bool
int_is (pos m) n = m == n
int_is (negsuc m) n = false

pub is_static : Site → Bool
is_static site = streq_ci site.routing_type (codes "static")

pub is_proxy : Site → Bool
is_proxy site = streq_ci site.routing_type (codes "proxy")

pub is_php : Site → Bool
is_php site = streq_ci site.routing_type (codes "php")

-- a root that was opened, or the text of the failure
rooted : Site → Option Bytes → Applied Site
unfolding site_message is_php
rooted site (some text) = fail (site_message site text)
rooted site none = done (if is_php site then record site { php_enabled = true } else site)

-- the document root of a site that serves files, or the upstream of one that does not
check_root : (Bytes → Option Bytes) → Site → Applied Site
unfolding site_message is_static is_php rooted
check_root root_error site =
    if is_static site || is_php site
    then (do
      require (is_absolute site.static_root)
          (site_message site (codes "static.root must be absolute"))
      rooted site (root_error site.static_root))
    else (do
      require (streq_ci site.proxy_scheme (codes "http"))
          (site_message site (codes "Phase 2 proxy supports HTTP upstreams only"))
      require (not (length site.proxy_host == 0) && not (site.proxy_port == 0))
          (site_message site (codes "proxy.upstream.host and port are required"))
      done site)

-- a list, or another if it is empty
or_default : List Bytes → List Bytes → List Bytes
or_default [] other = other
or_default (x ∷ xs) other = x ∷ xs

-- the lists that must not be empty
fill_lists : Site → Site
unfolding or_default
fill_lists site = record site {
  indexes = or_default site.indexes (codes "index.html" ∷ []);
  allowed_methods = or_default site.allowed_methods (codes "GET" ∷ codes "HEAD" ∷ []);
}

-- the storage of the certificates, by default that of the first domain
ssl_storage_of : Site → Bytes
ssl_storage_of site =
    if length site.ssl_storage == 0
    then safe_copy 512 (codes "/var/lib/rpsiod/ssl/" ++ get_or site.domains 0 [])
    else site.ssl_storage

check_ssl : Site → Applied Site
unfolding site_message ssl_storage_of
check_ssl site = if not site.ssl_enabled then done site else (do
  require (value_is_one_of_ci site.ssl_mode ("auto" ∷ "manual" ∷ []))
      (site_message site (codes "ssl.mode must be auto or manual"))
  require (value_is_one_of_ci site.ssl_provider ("letsEncrypt" ∷ "local" ∷ []))
      (site_message site (codes "ssl.provider must be letsEncrypt or local"))
  require (value_is_one_of_ci site.ssl_challenge ("http" ∷ "dns" ∷ []))
      (site_message site (codes "ssl.challenge must be http or dns"))
  require
      (is_absolute (ssl_storage_of site)
        && starts_with (ssl_storage_of site) (codes "/var/lib/rpsiod/ssl/"))
      (site_message site (codes "ssl.storage must be under /var/lib/rpsiod/ssl"))
  done (record site { ssl_storage = ssl_storage_of site }))

check_php : Site → Applied (Unit {0})
unfolding site_message
check_php site = if not site.php_enabled then done tt else (do
  require
      (streq_ci site.php_handler_type (codes "socket")
        || streq_ci site.php_handler_type (codes "tcp"))
      (site_message site (codes "php.handler.type must be socket or tcp"))
  require (not (streq_ci site.php_handler_type (codes "socket")) || is_absolute site.php_socket)
      (site_message site (codes "php.handler.socket must be absolute")))

-- the checks up to the document root
check_site_head : Site → Applied (Unit {0})
unfolding site_message check_domains int_is is_static is_proxy is_php
check_site_head site = do
  require (not (length site.domains == 0))
      (codes "site '" ++ site.name ++ codes "' must define match.domains")
  require (value_is_one_of_ci site.serve_as ("http" ∷ "https" ∷ []))
      (site_message site (codes "serveAs must be http or https"))
  check_domains site site.domains
  require
      (not
        (site.http_port == 0 || site.https_port == 0 || site.php_port == 0 || site.proxy_port == 0))
      (site_message site (codes "configured ports must be between 1 and 65535"))
  require (is_static site || is_proxy site || is_php site)
      (site_message site (codes "routing.type must be static, proxy, or php"))
  require (value_is_one_of_ci site.redirect_www_mode ("apexToWww" ∷ "wwwToApex" ∷ []))
      (site_message site (codes "redirects.www.mode must be apexToWww or wwwToApex"))
  require
      (int_is site.redirect_www_status 301
        || int_is site.redirect_www_status 302
        || int_is site.redirect_www_status 307
        || int_is site.redirect_www_status 308)
      (site_message site (codes "redirects.www.status must be 301, 302, 307, or 308"))

-- the name of a site that has none is made of its number
named : ℕ → Site → Site
named i site = record site {
  name =
      if length site.name == 0 then safe_copy 128 (codes "site-" ++ decimal (i + 1)) else site.name;
}

-- one round of the loop over the sites
unfoldable pub validate_site : (Bytes → Option Bytes) → ℕ → Site → Applied Site
unfolding named check_site_head check_root fill_lists check_ssl check_php site_message
validate_site root_error i unnamed = do
  site ← done (named i unnamed)
  check_site_head site
  opened ← check_root root_error site
  filled ← done (fill_lists opened)
  require (log_ok filled.access_log)
      (site_message filled (codes "access log must be under /var/log/rpsiod"))
  require (log_ok filled.error_log)
      (site_message filled (codes "error log must be under /var/log/rpsiod"))
  secured ← check_ssl filled
  check_php secured
  done secured

unfoldable pub validate_sites : (Bytes → Option Bytes) → ℕ → List Site → Applied (List Site)
validate_sites root_error i [] = done []
validate_sites root_error i (site ∷ sites) = do
  checked ← validate_site root_error i site
  rest ← validate_sites root_error (i + 1) sites
  done (checked ∷ rest)

-- the checks of the server's own keys
validate_keys : Config → Applied (Unit {0})
validate_keys cfg = do
  require (value_is_one_of_ci cfg.logging_level ("debug" ∷ "info" ∷ "warn" ∷ "error" ∷ []))
      (codes "logging.level must be debug, info, warn, or error")
  require (value_is_one_of_ci cfg.logging_format ("text" ∷ []))
      (codes "logging.format must be text")
  require (not (cfg.benchmarks_port == 0))
      (codes "benchmarks.listen.port must be between 1 and 65535")
  require (is_absolute cfg.sites_file) (codes "server.config.sitesFile must be absolute")
  require
      (str_eq cfg.sites_file (codes "/etc/rpsiod/sites.yml")
        || is_prefix (codes "/etc/rpsiod/") cfg.sites_file)
      (codes "configuration must live under /etc/rpsiod")
  require (is_absolute cfg.pid_file && is_allowed_runtime_path cfg.pid_file)
      (codes "linux.pidFile must be an allowed runtime path")
  require (log_ok cfg.access_log) (codes "global access log must be under /var/log/rpsiod")
  require (log_ok cfg.error_log) (codes "global error log must be under /var/log/rpsiod")
  require (streq_ci cfg.benchmarks_ip (codes "127.0.0.1"))
      (codes "benchmark HTTP API must default to 127.0.0.1")

-- the checks before the loop over the sites
unfoldable pub validate_server : Config → Applied (Unit {0})
unfolding validate_keys
validate_server cfg = do
  validate_keys cfg
  require (not (length cfg.sites == 0)) (codes "sites.yml must define at least one site")

-- `rpsiod_config_validate`, less the route table
unfoldable pub validate : (Bytes → Option Bytes) → Config → Applied Config
validate root_error cfg = do
  validate_server cfg
  sites ← validate_sites root_error 0 cfg.sites
  done (record cfg {
    open_file_cache_max = if ltb 256 cfg.open_file_cache_max then 256 else cfg.open_file_cache_max;
    sites = sites;
  })
