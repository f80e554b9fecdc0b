-- ===== src/Server/Request.antt =====
-- src/server.c: which answer a request gets, `serve_request`, with `send_redirect` and `send_rate_limited`.
pub mod Composed
use rpsiod.Prelude.{
  ℕ, Bool, true, false, ◌&&◌, ◌||◌, not, Bytes, codes, List, [], ◌∷◌, ◌++◌, Option, some, none, leb,
  ltb, ◌==◌, if◌then◌else◌, length, str_eq, ℤ, pos, decimal, decimal_int, get_elem?,
}
use rpsiod.Util.Strings.{streq_ci}
use rpsiod.Http.Request.{Request}
use rpsiod.Http.Status.{status_text}
use rpsiod.Config.Site.{Site, Config}
use rpsiod.Config.Routes.{Table, find_site_for_listener}
use rpsiod.Config.Methods.{site_allows_method}
use rpsiod.Route.{build_redirect_location}
use rpsiod.RateLimit.{Bucket, Verdict, rate_limit_exceeded}
use rpsiod.Server.Files.{FileSystem}
use rpsiod.Server.Static.{Reply, Caches, error_reply, serve_static}

-- The answers: a text of the server, a redirect with its location and body, a refusal with its Retry-After,
-- a failure that closes the connection, what the site's upstream answers, or a reply of the site.
pub data Response : Type 0 where
  text : ℤ → Bytes → Response
  redirected : ℤ → Bytes → Bytes → Response
  rate_limited : Bytes → Response
  failed : Response
  proxied : Response
  reply : Reply → Response

-- the peer and the listener of a connection
pub record Peer : Type 0 where
  pub client_ip : Bytes
  pub server_ip : Bytes
  pub local_port : ℕ

-- what a site keeps between requests, with the address of the client as a number and the time
pub record SiteState : Type 0 where
  pub caches : Caches
  pub buckets : List Bucket
  pub ip_number : Option ℕ
  pub now : ℕ

-- `send_redirect`
send_redirect : ℤ → Bytes → Response
send_redirect status location =
    let body =
      decimal_int status
      ++ (codes " " ++ (status_text status ++ (codes "\n" ++ (location ++ codes "\n")))) in
    if leb 1024 (length body) then failed else redirected status location body

-- `send_rate_limited`
send_rate_limited : ℕ → Response
send_rate_limited retry_after =
    rate_limited (decimal (if ltb 0 retry_after then retry_after else 1))

-- the site's own part, by its kind of routing
route_request : FileSystem → Config → Site → Request → SiteState → SiteState × Response
route_request fs cfg site req s =
    if streq_ci site.routing_type (codes "proxy")
    then if not (site_allows_method site req.method)
      then (s, reply (error_reply fs site (pos 405)))
      else (s, proxied)
    else (let (caches, r) = serve_static fs cfg site req s.caches in
        (record s { caches = caches }, reply r))

-- the limit on requests
limit_request : FileSystem → Config → Site → Request → SiteState → SiteState × Response
unfolding route_request send_rate_limited
limit_request fs cfg site req s =
    let v = rate_limit_exceeded site s.buckets s.ip_number s.now in
    let s' = record s { buckets = v.buckets } in
    if v.exceeded then (s', send_rate_limited v.retry_after) else route_request fs cfg site req s'

-- the request came from the own TLS side
unfoldable pub trusted_internal_https : Peer → Request → Bool
trusted_internal_https peer req =
    req.internal_https
    && (str_eq peer.client_ip (codes "127.0.0.1") || str_eq peer.client_ip (codes "::1"))

-- the redirect, where the site asks for one
redirect_or :
    FileSystem → Config → Site → Request → SiteState → Option (Bytes × ℤ) → SiteState × Response
unfolding send_redirect limit_request
redirect_or fs cfg site req s (some (location, status)) = (s, send_redirect status location)
redirect_or fs cfg site req s none = limit_request fs cfg site req s

-- the part behind the choice of the site
unfoldable pub serve_site :
    FileSystem → Config → Peer → Site → Request → SiteState → SiteState × Response
unfolding trusted_internal_https redirect_or
serve_site fs cfg peer site req s =
    if not (str_eq site.listen_ip (codes "0.0.0.0")) && not (str_eq site.listen_ip peer.server_ip)
    then (s, text (pos 400) (codes "400 Bad Request\n"))
    else redirect_or fs cfg site req s
        (build_redirect_location site req peer.local_port (trusted_internal_https peer req) 1024)

-- the site of a request
unfoldable pub request_site : Table → List Site → Peer → Request → Option Site
request_site table sites peer req =
    elim (find_site_for_listener table (length sites) req.host peer.local_port peer.server_ip) [
      | none ↦ none
      | some i ↦ get_elem? sites i
    ]

serve_found :
    FileSystem
    → Config
    → Peer
    → Request
    → (Site → SiteState)
    → Option Site
    → Option (Site × SiteState) × Response
serve_found fs cfg peer req state none = (none, text (pos 404) (codes "404 Not Found\n"))
serve_found fs cfg peer req state (some site) =
    let (s, r) = serve_site fs cfg peer site req (state site) in (some (site, s), r)

-- `serve_request`: the answer, and the site whose state changed
unfoldable pub serve_request :
    FileSystem
    → Config
    → Table
    → List Site
    → Peer
    → Request
    → (Site → SiteState)
    → Option (Site × SiteState) × Response
unfolding serve_found
serve_request fs cfg table sites peer req state =
    if streq_ci req.method (codes "TRACE") || streq_ci req.method (codes "CONNECT")
    then (none, text (pos 405) (codes "405 Method Not Allowed\n"))
    else serve_found fs cfg peer req state (request_site table sites peer req)
