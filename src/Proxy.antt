-- ===== src/Proxy.antt =====
-- src/proxy.c, and `build_proxy_request` and `parse_proxy_status_line` of src/server.c: what is sent to a
-- site's upstream, and the status that comes back.
pub mod Forwarded
use rpsiod.Prelude.{
  ℕ, zero, suc, ◌+◌, ◌-◌, ◌*◌, Bool, true, false, ◌&&◌, ◌||◌, not, Bytes, codes, List, [], ◌∷◌,
  ◌++◌, Option, some, none, leb, ltb, ◌==◌, if◌then◌else◌, length, take, drop, find, is_prefix,
  split_at, isdigit,
}
use rpsiod.Util.Strings.{streq_ci, char_at}
use rpsiod.Http.Request.{Request}
use rpsiod.Config.Site.{Site}
use rpsiod.Server.Request.{Peer}
use rpsiod.Server.Headers.{append_header, crlf}

-- `request_header_name_is`
unfoldable pub request_header_name_is : Bytes → Bytes → Bool
request_header_name_is line name =
    if leb (length line) (length name) || not (char_at line (length name) == b':')
    then false
    else streq_ci (take (length name) line) name

-- `rpsiod_proxy_skip_header`
unfoldable pub proxy_skip_header : Bytes → Bool
proxy_skip_header line =
    request_header_name_is line (codes "Host")
    || request_header_name_is line (codes "Connection")
    || request_header_name_is line (codes "Proxy-Connection")
    || request_header_name_is line (codes "X-Real-IP")
    || request_header_name_is line (codes "X-Forwarded-For")
    || request_header_name_is line (codes "X-Forwarded-Proto")

-- a line is copied, or passed over
forward_line : ℕ → Bytes → Bytes → Option Bytes
forward_line out_len used line =
    if ltb 0 (length line) && not (proxy_skip_header line)
    then if leb out_len (length used + length line + 2) then none else some (used ++ (line ++ crlf))
    else some used

-- the loop over the lines of the header block, on fuel for them
unfoldable pub forward_loop : ℕ → ℕ → Bytes → Bytes → Option Bytes
unfolding forward_line
forward_loop zero out_len block used = some used
forward_loop (suc fuel) out_len block used = elim (find crlf block) [
  | none ↦ some used
  | some (line, behind) ↦ elim (forward_line out_len used line) [
    | none ↦ none
    | some more ↦ forward_loop fuel out_len (drop 2 behind) more
  ]
]

-- a header that is appended where the site asks for it
append_if : Bool → ℕ → Bytes → Bytes → Option Bytes → Option Bytes
append_if b out_len name value none = none
append_if b out_len name value (some used) =
    if b then append_header out_len used name value else some used

-- the host that the upstream is told
proxy_host_of : Site → Request → Bytes
proxy_host_of site req =
    if site.proxy_pass_host && not (length req.host == 0) then req.host else site.proxy_host

-- the request line with the two headers that are always written
proxy_start : ℕ → Site → Request → Option Bytes
unfolding append_if proxy_host_of
proxy_start out_len site req =
    let line = req.method ++ (codes " " ++ (req.path ++ (codes " HTTP/1.1" ++ crlf))) in
    append_if true out_len (codes "Connection")
      (if req.upgrade_websocket && site.proxy_websocket then codes "Upgrade" else codes "close")
      (append_if true out_len (codes "Host") (proxy_host_of site req)
        (if leb out_len (length line) then none else some line))

-- the header block of the request, from its second line on and before the blank line
header_block : Request → Bytes → Option Bytes
header_block req raw = elim (find crlf raw) [
  | none ↦ none
  | some (first, behind) ↦
      if ltb req.header_len 4 || ltb (length raw) req.header_len
      then none
      else some (drop (length first + 2) (take (req.header_len - 4) raw))
]

-- the lines of the request behind what is written
forward_block : ℕ → Option Bytes → Option Bytes → Option Bytes
forward_block out_len none block = none
forward_block out_len (some used) none = none
forward_block out_len (some used) (some block) = forward_loop (length block) out_len block used

-- the blank line and the body, where they fit
proxy_end : ℕ → Bytes → Option Bytes → Option Bytes
proxy_end out_len body none = none
proxy_end out_len body (some used) =
    if leb out_len (length used + 2 + length body) then none else some (used ++ (crlf ++ body))

-- `build_proxy_request`
unfoldable pub build_proxy_request : ℕ → Peer → Site → Request → Bytes → Bytes → Option Bytes
unfolding proxy_start header_block forward_block append_if proxy_end
build_proxy_request out_len peer site req raw body =
    let forwarded = forward_block out_len (proxy_start out_len site req) (header_block req raw) in
    proxy_end out_len body (
      append_if site.proxy_forwarded_proto out_len (codes "X-Forwarded-Proto")
        (if peer.local_port == site.https_port then codes "https" else codes "http")
        (append_if site.proxy_forwarded_for out_len (codes "X-Forwarded-For") peer.client_ip
          (append_if site.proxy_real_ip out_len (codes "X-Real-IP") peer.client_ip forwarded)))

-- the three digits of a status, and what follows them
status_digits : Bytes → Option ℕ
status_digits (a ∷ b ∷ c ∷ rest) =
    if leb b'1' a
      && leb a b'5'
      && isdigit b
      && isdigit c
      && (length rest == 0 || char_at rest 0 == b' ')
    then some ((a - b'0') * 100 + (b - b'0') * 10 + (c - b'0'))
    else none
status_digits s = none

first_line : Bytes → Bytes
first_line buf = elim (find crlf buf) [ none ↦ buf | some (a, b) ↦ a ]

-- `parse_proxy_status_line`
unfoldable pub parse_proxy_status_line : Bytes → Option ℕ
unfolding status_digits first_line
parse_proxy_status_line buf =
    let line = first_line buf in
    if ltb (length line) 12 || not (is_prefix (codes "HTTP/") buf)
    then none
    else elim (split_at b' ' line) [ none ↦ none | some (version, behind) ↦ status_digits behind ]
