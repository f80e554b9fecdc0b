-- ===== src/Config/Server.antt =====
-- src/config.c: `apply_server_value`, which sets one key of the server's file.
use rpsiod.Prelude.{ℕ, true, false, ◌&&◌, ◌||◌, codes, ltb, ◌==◌, if◌then◌else◌, length}
use rpsiod.Util.Strings.{streq_ci, safe_copy}
use rpsiod.Util.Numbers.{parse_size, parse_duration_sec}
use rpsiod.Config.Text.{
  Line, key_is, has, below, Applied, done, map_applied, apply_bool_value, apply_port_value,
  parse_long, to_int,
}
use rpsiod.Config.Site.{Config}

abbrev open_file_cache_limit : ℕ
open_file_cache_limit = 256

-- a number, or the limit if it is above it
capped : ℕ → ℕ → ℕ
capped limit n = if ltb limit n then limit else n

-- the keys from `preventCoreDumps` on
set_chroot_and_logs : Line → Config → Applied Config
unfolding capped
set_chroot_and_logs l cfg =
    if key_is l "preventCoreDumps"
    then map_applied (λ b. record cfg { prevent_core_dumps = b })
        (apply_bool_value "security.preventCoreDumps" l.value)
    else if key_is l "enabled" && has l "chroot"
    then map_applied (λ b. record cfg { chroot_enabled = b })
        (apply_bool_value "security.chroot.enabled" l.value)
    else if key_is l "path" && has l "chroot"
    then done (record cfg { chroot_path = safe_copy 512 l.value })
    else if key_is l "level" && has l "logging"
    then done (record cfg { logging_level = safe_copy 32 l.value })
    else if key_is l "format" && has l "logging"
    then done (record cfg { logging_format = safe_copy 32 l.value })
    else if key_is l "enabled" && has l "access"
    then map_applied (λ b. record cfg { access_log = record (cfg.access_log) { enabled = b } })
        (apply_bool_value "logging.access.enabled" l.value)
    else if key_is l "path" && has l "access"
    then done (record cfg { access_log = record (cfg.access_log) { path = safe_copy 512 l.value } })
    else if key_is l "enabled" && has l "error"
    then map_applied (λ b. record cfg { error_log = record (cfg.error_log) { enabled = b } })
        (apply_bool_value "logging.error.enabled" l.value)
    else if key_is l "path" && has l "error"
    then done (record cfg { error_log = record (cfg.error_log) { path = safe_copy 512 l.value } })
    else if key_is l "enabled" && has l "benchmarks"
    then map_applied (λ b. record cfg { benchmarks_enabled = b })
        (apply_bool_value "benchmarks.enabled" l.value)
    else if key_is l "ip" && has l "benchmarks"
    then done (record cfg { benchmarks_ip = safe_copy 64 l.value })
    else if key_is l "port" && has l "benchmarks"
    then map_applied (λ n. record cfg { benchmarks_port = n })
        (apply_port_value "benchmarks.listen.port" l.value)
    else if key_is l "path" && has l "storage"
    then done (record cfg { benchmarks_storage_path = safe_copy 512 l.value })
    else if key_is l "sitesFile"
    then done (record cfg { sites_file = safe_copy 512 l.value })
    else done cfg

-- the chain on the key
server_value : Line → Config → Applied Config
unfolding capped
server_value l cfg =
    if key_is l "name" && below l "server"
    then done (record cfg { name = safe_copy 64 l.value })
    else if key_is l "environment"
    then done (record cfg { environment = safe_copy 64 l.value })
    else if key_is l "user" && has l "linux"
    then done (record cfg { linux_user = safe_copy 64 l.value })
    else if key_is l "group" && has l "linux"
    then done (record cfg { linux_group = safe_copy 64 l.value })
    else if key_is l "pidFile"
    then done (record cfg { pid_file = safe_copy 256 l.value })
    else if key_is l "reusePort"
    then map_applied (λ b. record cfg { reuse_port = b })
        (apply_bool_value "linux.sockets.reusePort" l.value)
    else if key_is l "tcpFastOpen"
    then map_applied (λ b. record cfg { tcp_fast_open = b })
        (apply_bool_value "linux.sockets.tcpFastOpen" l.value)
    else if key_is l "backlog"
    then done (record cfg { backlog = to_int (parse_long l.value cfg.backlog) })
    else if key_is l "openFiles"
    then done (record cfg { open_files = parse_size l.value cfg.open_files })
    else if key_is l "maxProcesses"
    then done (record cfg { max_processes = parse_size l.value cfg.max_processes })
    else if key_is l "workers"
    then (if streq_ci l.value (codes "auto")
        then done (record cfg { workers_auto = true })
        else done (record cfg {
          workers_auto = false;
          workers = to_int (parse_long l.value cfg.workers);
        }))
    else if key_is l "maxConnections"
    then done (record cfg { max_connections = parse_size l.value cfg.max_connections })
    else if key_is l "enabled" && has l "keepAlive"
    then map_applied (λ b. record cfg { keep_alive_enabled = b })
        (apply_bool_value "performance.keepAlive.enabled" l.value)
    else if key_is l "timeout" && has l "keepAlive"
    then done (record cfg {
      keep_alive_timeout_sec = parse_duration_sec l.value cfg.keep_alive_timeout_sec;
    })
    else if key_is l "maxRequests"
    then done (record cfg {
      keep_alive_max_requests = to_int (parse_long l.value cfg.keep_alive_max_requests);
    })
    else if key_is l "requestHeader"
    then done (record cfg { request_header_buffer = parse_size l.value cfg.request_header_buffer })
    else if key_is l "response" && has l "buffers"
    then done (record cfg { response_buffer = parse_size l.value cfg.response_buffer })
    else if key_is l "sendfile"
    then map_applied (λ b. record cfg { sendfile_enabled = b })
        (apply_bool_value "performance.staticFiles.sendfile" l.value)
    else if key_is l "readAhead"
    then map_applied (λ b. record cfg { read_ahead_enabled = b })
        (apply_bool_value "performance.staticFiles.readAhead" l.value)
    else if key_is l "enabled" && has l "openFileCache"
    then map_applied (λ b. record cfg { open_file_cache_enabled = b })
        (apply_bool_value "performance.openFileCache.enabled" l.value)
    else if (key_is l "maxFiles" || key_is l "max") && has l "openFileCache"
    then done (record cfg {
      open_file_cache_max =
          capped open_file_cache_limit (parse_size l.value cfg.open_file_cache_max);
    })
    else if key_is l "hideVersion"
    then map_applied (λ b. record cfg { hide_version = b })
        (apply_bool_value "security.hideVersion" l.value)
    else if key_is l "dropPrivileges"
    then map_applied (λ b. record cfg { drop_privileges = b })
        (apply_bool_value "security.dropPrivileges" l.value)
    else set_chroot_and_logs l cfg

-- `apply_server_value`
unfoldable pub apply_server_value : Line → Config → Applied Config
unfolding server_value set_chroot_and_logs
apply_server_value l cfg = if length l.value == 0 then done cfg else server_value l cfg
