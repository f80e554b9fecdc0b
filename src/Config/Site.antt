-- ===== src/Config/Site.antt =====
-- src/config.h: the configuration of a site and of the server, with their defaults. An array with
-- its counter is a list. Left out are what is only filled at run time (descriptors, caches, the
-- resolved root, the rate buckets, the route table), which stands with the modules that use it, and the
-- two fields of the parse error, which the setters return instead.
use rpsiod.Prelude.{ℕ, Bool, Bytes, List, [], ◌∷◌, true, false, codes, ℤ, pos, ◌*◌}

-- `rpsiod_error_page`
pub record ErrorPage : Type 0 where
  pub code : ℤ
  pub path : Bytes

-- `rpsiod_log_path`, less its descriptor
pub record LogPath : Type 0 where
  pub enabled : Bool
  pub path : Bytes

-- `rpsiod_header_pair`
pub record HeaderPair : Type 0 where
  pub name : Bytes
  pub value : Bytes

-- `rpsiod_site_config`
pub record Site : Type 0 where
  pub name : Bytes
  pub enabled : Bool
  pub serve_as : Bytes
  pub domains : List Bytes
  pub listen_ip : Bytes
  pub http_port : ℕ
  pub https_port : ℕ
  pub routing_type : Bytes
  pub redirect_http_to_https : Bool
  pub redirect_www_enabled : Bool
  pub redirect_www_mode : Bytes
  pub redirect_www_status : ℤ
  pub ssl_enabled : Bool
  pub ssl_mode : Bytes
  pub ssl_provider : Bytes
  pub ssl_email : Bytes
  pub ssl_storage : Bytes
  pub ssl_challenge : Bytes
  pub ssl_renew_before_sec : ℕ
  pub static_root : Bytes
  pub indexes : List Bytes
  pub fallback : Bytes
  pub directory_listing : Bool
  pub maintenance_enabled : Bool
  pub maintenance_status : ℤ
  pub maintenance_page : Bytes
  pub error_pages : List ErrorPage
  pub max_body_size : ℕ
  pub hide_server_header : Bool
  pub allow_symlinks : Bool
  pub allowed_methods : List Bytes
  pub blocked_direct_access : List Bytes
  pub php_enabled : Bool
  pub php_handler_type : Bytes
  pub php_socket : Bytes
  pub php_host : Bytes
  pub php_port : ℕ
  pub php_allow_path_info : Bool
  pub php_connect_timeout_sec : ℕ
  pub php_read_timeout_sec : ℕ
  pub php_write_timeout_sec : ℕ
  pub php_max_body_size : ℕ
  pub php_max_execution_time_sec : ℕ
  pub rate_limit_enabled : Bool
  pub rate_limit_requests : ℕ
  pub rate_limit_window_sec : ℕ
  pub compression_enabled : Bool
  pub compression_gzip : Bool
  pub compression_br : Bool
  pub compression_minimum_size : ℕ
  pub cache_enabled : Bool
  pub cache_default : Bytes
  pub headers_add : List HeaderPair
  pub headers_remove : List Bytes
  pub proxy_scheme : Bytes
  pub proxy_host : Bytes
  pub proxy_port : ℕ
  pub proxy_websocket : Bool
  pub proxy_pass_host : Bool
  pub proxy_real_ip : Bool
  pub proxy_forwarded_for : Bool
  pub proxy_forwarded_proto : Bool
  pub proxy_connect_timeout_sec : ℕ
  pub proxy_read_timeout_sec : ℕ
  pub proxy_write_timeout_sec : ℕ
  pub proxy_health_enabled : Bool
  pub proxy_health_path : Bytes
  pub access_log : LogPath
  pub error_log : LogPath

-- `rpsiod_config`
pub record Config : Type 0 where
  pub name : Bytes
  pub environment : Bytes
  pub linux_user : Bytes
  pub linux_group : Bytes
  pub pid_file : Bytes
  pub reuse_port : Bool
  pub tcp_fast_open : Bool
  pub backlog : ℤ
  pub open_files : ℕ
  pub max_processes : ℕ
  pub workers : ℤ
  pub workers_auto : Bool
  pub max_connections : ℕ
  pub keep_alive_enabled : Bool
  pub keep_alive_timeout_sec : ℕ
  pub keep_alive_max_requests : ℤ
  pub request_header_buffer : ℕ
  pub response_buffer : ℕ
  pub sendfile_enabled : Bool
  pub read_ahead_enabled : Bool
  pub open_file_cache_enabled : Bool
  pub open_file_cache_max : ℕ
  pub hide_version : Bool
  pub drop_privileges : Bool
  pub prevent_core_dumps : Bool
  pub logging_level : Bytes
  pub logging_format : Bytes
  pub access_log : LogPath
  pub error_log : LogPath
  pub benchmarks_enabled : Bool
  pub benchmarks_ip : Bytes
  pub benchmarks_port : ℕ
  pub benchmarks_storage_path : Bytes
  pub server_file : Bytes
  pub sites_file : Bytes
  pub loaded_sites_file : Bytes
  pub chroot_enabled : Bool
  pub chroot_path : Bytes
  pub sites : List Site

-- `site_defaults`
abbrev pub site_defaults : Site
site_defaults = record {
  name = [];
  enabled = true;
  serve_as = codes "http";
  domains = [];
  listen_ip = codes "0.0.0.0";
  http_port = 80;
  https_port = 443;
  routing_type = codes "static";
  redirect_http_to_https = false;
  redirect_www_enabled = false;
  redirect_www_mode = codes "apexToWww";
  redirect_www_status = pos 301;
  ssl_enabled = false;
  ssl_mode = codes "auto";
  ssl_provider = codes "letsEncrypt";
  ssl_email = [];
  ssl_storage = [];
  ssl_challenge = codes "http";
  ssl_renew_before_sec = 30 * 86400;
  static_root = [];
  indexes = [];
  fallback = [];
  directory_listing = false;
  maintenance_enabled = false;
  maintenance_status = pos 503;
  maintenance_page = [];
  error_pages = [];
  max_body_size = 25 * 1024 * 1024;
  hide_server_header = true;
  allow_symlinks = false;
  allowed_methods = codes "GET" ∷ codes "HEAD" ∷ [];
  blocked_direct_access = [];
  php_enabled = false;
  php_handler_type = codes "socket";
  php_socket = codes "/run/php/php-fpm.sock";
  php_host = codes "127.0.0.1";
  php_port = 9000;
  php_allow_path_info = false;
  php_connect_timeout_sec = 5;
  php_read_timeout_sec = 30;
  php_write_timeout_sec = 30;
  php_max_body_size = 25 * 1024 * 1024;
  php_max_execution_time_sec = 60;
  rate_limit_enabled = false;
  rate_limit_requests = 100;
  rate_limit_window_sec = 60;
  compression_enabled = false;
  compression_gzip = false;
  compression_br = false;
  compression_minimum_size = 1024;
  cache_enabled = false;
  cache_default = [];
  headers_add = [];
  headers_remove = [];
  proxy_scheme = codes "http";
  proxy_host = [];
  proxy_port = 3000;
  proxy_websocket = false;
  proxy_pass_host = true;
  proxy_real_ip = true;
  proxy_forwarded_for = true;
  proxy_forwarded_proto = true;
  proxy_connect_timeout_sec = 5;
  proxy_read_timeout_sec = 30;
  proxy_write_timeout_sec = 30;
  proxy_health_enabled = false;
  proxy_health_path = codes "/health";
  access_log = record { enabled = false; path = [] };
  error_log = record { enabled = false; path = [] };
}

-- `rpsiod_config_defaults`
abbrev pub config_defaults : Config
config_defaults = record {
  name = codes "rpsiod";
  environment = codes "production";
  linux_user = codes "rpsiod";
  linux_group = codes "rpsiod";
  pid_file = codes "/run/rpsiod/rpsiod.pid";
  reuse_port = true;
  tcp_fast_open = true;
  backlog = pos 4096;
  open_files = 1048576;
  max_processes = 4096;
  workers = pos 1;
  workers_auto = true;
  max_connections = 50000;
  keep_alive_enabled = true;
  keep_alive_timeout_sec = 30;
  keep_alive_max_requests = pos 1000;
  request_header_buffer = 16 * 1024;
  response_buffer = 64 * 1024;
  sendfile_enabled = true;
  read_ahead_enabled = true;
  open_file_cache_enabled = true;
  open_file_cache_max = 64;
  hide_version = true;
  drop_privileges = true;
  prevent_core_dumps = true;
  logging_level = codes "info";
  logging_format = codes "text";
  access_log = record { enabled = true; path = codes "/var/log/rpsiod/access.log" };
  error_log = record { enabled = true; path = codes "/var/log/rpsiod/error.log" };
  benchmarks_enabled = true;
  benchmarks_ip = codes "127.0.0.1";
  benchmarks_port = 9191;
  benchmarks_storage_path = codes "/var/cache/rpsiod/benchmarks";
  server_file = codes "/etc/rpsiod/server.yml";
  sites_file = codes "/etc/rpsiod/sites.yml";
  loaded_sites_file = [];
  chroot_enabled = false;
  chroot_path = [];
  sites = [];
}
