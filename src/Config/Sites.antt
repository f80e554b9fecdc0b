-- ===== src/Config/Sites.antt =====
-- src/config.c: `apply_site_value`, which sets one key of a site.
use rpsiod.Prelude.{
  ℕ, ◌%◌, ◌^◌, ◌&&◌, Bytes, [], ◌∷◌, ◌++◌, ltb, ◌==◌, if◌then◌else◌, length, isdigit, ℤ, pos,
  negsuc,
}
use rpsiod.Util.Strings.{safe_copy, char_at}
use rpsiod.Util.Numbers.{parse_size, parse_duration_sec}
use rpsiod.Config.Text.{
  Line, key_is, has, Applied, done, map_applied, apply_bool_value, apply_port_value, parse_long,
  to_int,
}
use rpsiod.Config.Site.{Site}

-- `append_header_add`
unfoldable pub append_header_add : Site → Bytes → Bytes → Site
append_header_add site key value =
    if ltb (length site.headers_add) 32
    then record site {
      headers_add =
          site.headers_add ++ record { name = safe_copy 128 key; value = safe_copy 512 value } ∷ [];
    }
    else site

-- the branch of a key that is a status
append_error_page : Line → Site → Site
append_error_page l site =
    if ltb (length site.error_pages) 16
    then record site {
      error_pages =
          site.error_pages
          ++ record { code = to_int (parse_long l.key (pos 0)); path = safe_copy 512 l.value } ∷ [];
    }
    else site

-- a number above 0, cast to 32 bits
positive : ℤ → ℕ → ℕ
positive (pos n) fallback = if ltb 0 n then n % 2 ^ 32 else fallback
positive (negsuc n) fallback = fallback

-- the keys from the number of the rate limit to the end
set_delivery : Line → Site → Applied Site
unfolding positive
set_delivery l site =
    if key_is l "requests" && has l "rateLimit"
    then done (record site {
      rate_limit_requests =
          positive (parse_long l.value (pos site.rate_limit_requests)) site.rate_limit_requests;
    })
    else if key_is l "window" && has l "rateLimit"
    then done (record site {
      rate_limit_window_sec = parse_duration_sec l.value site.rate_limit_window_sec;
    })
    else if key_is l "enabled" && has l "compression"
    then map_applied (λ b. record site { compression_enabled = b })
        (apply_bool_value "compression.enabled" l.value)
    else if key_is l "minimumSize" && has l "compression"
    then done (record site {
      compression_minimum_size = parse_size l.value site.compression_minimum_size;
    })
    else if key_is l "enabled" && has l "cache"
    then map_applied (λ b. record site { cache_enabled = b })
        (apply_bool_value "cache.enabled" l.value)
    else if key_is l "default" && has l "cache"
    then done (record site { cache_default = safe_copy 256 l.value })
    else if has l "headers" && has l "add"
    then done (append_header_add site l.key l.value)
    else if key_is l "scheme" && has l "upstream" && has l "proxy"
    then done (record site { proxy_scheme = safe_copy 16 l.value })
    else if key_is l "host" && has l "upstream" && has l "proxy"
    then done (record site { proxy_host = safe_copy 256 l.value })
    else if key_is l "port" && has l "upstream" && has l "proxy"
    then map_applied (λ n. record site { proxy_port = n })
        (apply_port_value "proxy.upstream.port" l.value)
    else if key_is l "websocket" && has l "proxy"
    then map_applied (λ b. record site { proxy_websocket = b })
        (apply_bool_value "proxy.websocket" l.value)
    else if key_is l "passHost" && has l "headers" && has l "proxy"
    then map_applied (λ b. record site { proxy_pass_host = b })
        (apply_bool_value "proxy.headers.passHost" l.value)
    else if key_is l "realIp" && has l "headers" && has l "proxy"
    then map_applied (λ b. record site { proxy_real_ip = b })
        (apply_bool_value "proxy.headers.realIp" l.value)
    else if key_is l "forwardedFor" && has l "headers" && has l "proxy"
    then map_applied (λ b. record site { proxy_forwarded_for = b })
        (apply_bool_value "proxy.headers.forwardedFor" l.value)
    else if key_is l "forwardedProto" && has l "headers" && has l "proxy"
    then map_applied (λ b. record site { proxy_forwarded_proto = b })
        (apply_bool_value "proxy.headers.forwardedProto" l.value)
    else if key_is l "connect" && has l "timeouts" && has l "proxy"
    then done (record site {
      proxy_connect_timeout_sec = parse_duration_sec l.value site.proxy_connect_timeout_sec;
    })
    else if key_is l "read" && has l "timeouts" && has l "proxy"
    then done (record site {
      proxy_read_timeout_sec = parse_duration_sec l.value site.proxy_read_timeout_sec;
    })
    else if key_is l "write" && has l "timeouts" && has l "proxy"
    then done (record site {
      proxy_write_timeout_sec = parse_duration_sec l.value site.proxy_write_timeout_sec;
    })
    else if key_is l "enabled" && has l "healthCheck" && has l "proxy"
    then map_applied (λ b. record site { proxy_health_enabled = b })
        (apply_bool_value "proxy.healthCheck.enabled" l.value)
    else if key_is l "path" && has l "healthCheck" && has l "proxy"
    then done (record site { proxy_health_path = safe_copy 256 l.value })
    else if key_is l "enabled" && has l "access"
    then map_applied (λ b. record site { access_log = record (site.access_log) { enabled = b } })
        (apply_bool_value "logging.access.enabled" l.value)
    else if key_is l "path" && has l "access"
    then done
        (record site { access_log = record (site.access_log) { path = safe_copy 512 l.value } })
    else if key_is l "enabled" && has l "error"
    then map_applied (λ b. record site { error_log = record (site.error_log) { enabled = b } })
        (apply_bool_value "logging.error.enabled" l.value)
    else if key_is l "path" && has l "error"
    then done (record site { error_log = record (site.error_log) { path = safe_copy 512 l.value } })
    else done site

-- the keys from the body sizes to those of PHP
set_limits_and_php : Line → Site → Applied Site
unfolding append_error_page
set_limits_and_php l site =
    if key_is l "maxBodySize" && has l "limits" && has l "php"
    then done (record site { php_max_body_size = parse_size l.value site.php_max_body_size })
    else if key_is l "maxBodySize"
    then done (record site { max_body_size = parse_size l.value site.max_body_size })
    else if key_is l "hideServerHeader"
    then map_applied (λ b. record site { hide_server_header = b })
        (apply_bool_value "security.hideServerHeader" l.value)
    else if key_is l "allowSymlinks"
    then map_applied (λ b. record site { allow_symlinks = b })
        (apply_bool_value "security.allowSymlinks" l.value)
    else if key_is l "enabled" && has l "php"
    then map_applied (λ b. record site { php_enabled = b }) (apply_bool_value "php.enabled" l.value)
    else if key_is l "type" && has l "handler" && has l "php"
    then done (record site { php_handler_type = safe_copy 32 l.value })
    else if key_is l "socket" && has l "handler" && has l "php"
    then done (record site { php_socket = safe_copy 256 l.value })
    else if key_is l "host" && has l "handler" && has l "php"
    then done (record site { php_host = safe_copy 256 l.value })
    else if key_is l "port" && has l "handler" && has l "php"
    then map_applied (λ n. record site { php_port = n })
        (apply_port_value "php.handler.port" l.value)
    else if key_is l "allowPathInfo" && has l "security" && has l "php"
    then map_applied (λ b. record site { php_allow_path_info = b })
        (apply_bool_value "php.security.allowPathInfo" l.value)
    else if key_is l "connect" && has l "timeouts" && has l "php"
    then done (record site {
      php_connect_timeout_sec = parse_duration_sec l.value site.php_connect_timeout_sec;
    })
    else if key_is l "read" && has l "timeouts" && has l "php"
    then done (record site {
      php_read_timeout_sec = parse_duration_sec l.value site.php_read_timeout_sec;
    })
    else if key_is l "write" && has l "timeouts" && has l "php"
    then done (record site {
      php_write_timeout_sec = parse_duration_sec l.value site.php_write_timeout_sec;
    })
    else if key_is l "maxExecutionTime" && has l "limits" && has l "php"
    then done (record site {
      php_max_execution_time_sec = parse_duration_sec l.value site.php_max_execution_time_sec;
    })
    else if key_is l "enabled" && has l "rateLimit"
    then map_applied (λ b. record site { rate_limit_enabled = b })
        (apply_bool_value "limits.rateLimit.enabled" l.value)
    else set_delivery l site

-- the chain on the key
site_value : Line → Site → Applied Site
site_value l site =
    if key_is l "name"
    then done (record site { name = safe_copy 128 l.value })
    else if key_is l "enabled" && l.level == 2
    then map_applied (λ b. record site { enabled = b }) (apply_bool_value "site.enabled" l.value)
    else if key_is l "serveAs"
    then done (record site { serve_as = safe_copy 16 l.value })
    else if key_is l "ip" && has l "listen"
    then done (record site { listen_ip = safe_copy 64 l.value })
    else if key_is l "http" && has l "ports"
    then map_applied (λ n. record site { http_port = n })
        (apply_port_value "listen.ports.http" l.value)
    else if key_is l "https" && has l "ports"
    then map_applied (λ n. record site { https_port = n })
        (apply_port_value "listen.ports.https" l.value)
    else if key_is l "type" && has l "routing"
    then done (record site { routing_type = safe_copy 32 l.value })
    else if key_is l "httpToHttps" && has l "redirects"
    then map_applied (λ b. record site { redirect_http_to_https = b })
        (apply_bool_value "redirects.httpToHttps" l.value)
    else if key_is l "enabled" && has l "www" && has l "redirects"
    then map_applied (λ b. record site { redirect_www_enabled = b })
        (apply_bool_value "redirects.www.enabled" l.value)
    else if key_is l "mode" && has l "www" && has l "redirects"
    then done (record site { redirect_www_mode = safe_copy 32 l.value })
    else if key_is l "status" && has l "www" && has l "redirects"
    then done
        (record site { redirect_www_status = to_int (parse_long l.value site.redirect_www_status) })
    else if key_is l "enabled" && has l "ssl"
    then map_applied (λ b. record site { ssl_enabled = b }) (apply_bool_value "ssl.enabled" l.value)
    else if key_is l "mode" && has l "ssl"
    then done (record site { ssl_mode = safe_copy 32 l.value })
    else if key_is l "provider" && has l "ssl"
    then done (record site { ssl_provider = safe_copy 64 l.value })
    else if key_is l "email" && has l "ssl"
    then done (record site { ssl_email = safe_copy 256 l.value })
    else if key_is l "storage" && has l "ssl"
    then done (record site { ssl_storage = safe_copy 512 l.value })
    else if key_is l "challenge" && has l "ssl"
    then done (record site { ssl_challenge = safe_copy 32 l.value })
    else if key_is l "renewBefore" && has l "ssl"
    then done (record site {
      ssl_renew_before_sec = parse_duration_sec l.value site.ssl_renew_before_sec;
    })
    else if key_is l "root" && has l "static"
    then done (record site { static_root = safe_copy 512 l.value })
    else if key_is l "fallback" && has l "static"
    then done (record site { fallback = safe_copy 256 l.value })
    else if key_is l "directoryListing"
    then map_applied (λ b. record site { directory_listing = b })
        (apply_bool_value "static.directoryListing" l.value)
    else if key_is l "enabled" && has l "maintenance"
    then map_applied (λ b. record site { maintenance_enabled = b })
        (apply_bool_value "maintenance.enabled" l.value)
    else if key_is l "status" && has l "maintenance"
    then done
        (record site { maintenance_status = to_int (parse_long l.value site.maintenance_status) })
    else if key_is l "page" && has l "maintenance"
    then done (record site { maintenance_page = safe_copy 512 l.value })
    else if isdigit (char_at l.key 0) && has l "pages"
    then done (append_error_page l site)
    else set_limits_and_php l site

-- `apply_site_value`, on a site
unfoldable pub apply_site_value : Line → Site → Applied Site
unfolding site_value set_limits_and_php set_delivery
apply_site_value l site = if length l.value == 0 then done site else site_value l site
