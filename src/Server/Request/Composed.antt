-- ===== src/Server/Request/Composed.antt =====
-- What stands between any request and a file or a script of a site.
use rpsiod.Prelude.{
  ℕ, ◌≤◌, ◌⊎◌, Bool, leb, leb→le, length, false, ◌&&◌, ◌||◌, not, Bytes, codes, List, some, none,
  str_eq, ℤ, pos, ◌≡◌, ◌≢◌, arith, inl, inr, Bool-cases, Option-cases,
}
use rpsiod.Util.Strings.{streq_ci}
use rpsiod.Http.Request.{Request}
use rpsiod.Config.Site.{Site, Config}
use rpsiod.Config.Methods.{site_allows_method}
use rpsiod.Config.Routes.{Table}
use rpsiod.Route.{build_redirect_location, redirect_of, location_of}
use rpsiod.RateLimit.{rate_limit_exceeded}
use rpsiod.Server.Files.{FileSystem}
use rpsiod.Server.Static.{Reply, error_reply}
use rpsiod.Server.Static.Replies.{Served, reply_of, error_reply-ne}
use rpsiod.Server.Static.Guarded.{Guarded, Serves, serve_static-Serves}
use rpsiod.Server.Request.{
  reply, Peer, SiteState, send_redirect, send_rate_limited, route_request, limit_request,
  redirect_or, trusted_internal_https, serve_site, request_site, serve_found, serve_request,
}

-- No option of the site asks for a redirect, or its location has no room in the 1024 bytes of its buffer.
abbrev pub NoRedirect : Site → Peer → Request → Type 0
NoRedirect site peer req =
    let r = redirect_of site req peer.local_port (trusted_internal_https peer req) in
    (r.changed ≡ false) ⊎ (1024 ≤ length (location_of site req.path r))

no_location :
    (site : Site) (req : Request) (port : ℕ) (suppressed : Bool)
    → build_redirect_location site req port suppressed 1024 ≡ none
    → ((redirect_of site req port suppressed).changed ≡ false)
      ⊎ (1024 ≤ length (location_of site req.path (redirect_of site req port suppressed)))
unfolding build_redirect_location location_of rpsiod.Route.is_secure
no_location site req port suppressed h =
    let r = redirect_of site req port suppressed in
    elim (Bool-cases r.changed) [
      | inr c ↦ inl c
      | inl c ↦ elim (Bool-cases (leb 1024 (length (location_of site req.path r)))) [
        | inl l ↦ inr (leb→le 1024 (length (location_of site req.path r)) l)
        | inr l ↦ absurd (cc (rw (build_redirect_location, c, l) at h))
      ]
    ]

-- what holds of a request that a file or a script answers
pub record Answered (fs : FileSystem) (table : Table) (sites : List Site) (peer : Peer)
    (req : Request) (state : Site → SiteState) (s : Served) : Type 0 where
  pub site : Site
  pub decoded : Bytes
  pub method :
      (streq_ci req.method (codes "TRACE") || streq_ci req.method (codes "CONNECT")) ≡ false
  pub routed : request_site table sites peer req ≡ some site
  pub listens :
      (not (str_eq site.listen_ip (codes "0.0.0.0")) && not (str_eq site.listen_ip peer.server_ip))
      ≡ false
  pub no_redirect : NoRedirect site peer req
  pub within_limit :
      (rate_limit_exceeded site
        (state site).buckets
        (state site).ip_number
        (state site).now).exceeded
      ≡ false
  pub not_proxy : streq_ci site.routing_type (codes "proxy") ≡ false
  pub guarded : Guarded site req decoded
  pub serves : Serves fs site req decoded s

reply_inj : (a b : Reply) → reply a ≡ reply b → a ≡ b
reply_inj a b e = cc

module _ (s : Served) (fs : FileSystem) (cfg : Config) (site : Site) (req : Request) where
  route_request-lem :
      (st : SiteState)
      → (route_request fs cfg site req st).1 ≡ reply (reply_of s)
      → (streq_ci site.routing_type (codes "proxy") ≡ false)
        × ((decoded : Bytes) × Guarded site req decoded × Serves fs site req decoded s)
  unfolding route_request
  route_request-lem st h = elim (Bool-cases (streq_ci site.routing_type (codes "proxy"))) [
    | inr p ↦ (
      p,
      serve_static-Serves s fs cfg site req st.caches (reply_inj _ _ (rw (route_request, p) at h)),
    )
    | inl p ↦ elim (Bool-cases (site_allows_method site req.method)) [
      | inl m ↦ absurd (cc (rw (route_request, p, m) at h))
      | inr m ↦ absurd (
          error_reply-ne s fs site (pos 405) (
            reply_inj (error_reply fs site (pos 405)) (reply_of s) (rw (route_request, p, m) at h)))
    ]
  ]

  limit_request-lem :
      (st : SiteState)
      → (limit_request fs cfg site req st).1 ≡ reply (reply_of s)
      → ((rate_limit_exceeded site st.buckets st.ip_number st.now).exceeded ≡ false)
        × (streq_ci site.routing_type (codes "proxy") ≡ false)
        × ((decoded : Bytes) × Guarded site req decoded × Serves fs site req decoded s)
  unfolding limit_request send_rate_limited
  limit_request-lem st h =
      elim (Bool-cases (rate_limit_exceeded site st.buckets st.ip_number st.now).exceeded) [
        | inl x ↦ absurd (cc (rw (limit_request, x) at h))
        | inr x ↦ let (p, rest) = route_request-lem _ (rw (limit_request, x) at h) in (x, p, rest)
      ]

  serve_site-lem :
      (table : Table) (sites : List Site) (peer : Peer) (state : Site → SiteState)
      → (streq_ci req.method (codes "TRACE") || streq_ci req.method (codes "CONNECT")) ≡ false
      → request_site table sites peer req ≡ some site
      → (serve_site fs cfg peer site req (state site)).1 ≡ reply (reply_of s)
      → Answered fs table sites peer req state s
  unfolding serve_site redirect_or send_redirect
  serve_site-lem table sites peer state m routed h =
      elim (Bool-cases (
        not (str_eq site.listen_ip (codes "0.0.0.0"))
        && not (str_eq site.listen_ip peer.server_ip))) [
          | inl l ↦ absurd (cc (rw (serve_site, l) at h))
          | inr l ↦
              elim (Option-cases (
                build_redirect_location site req peer.local_port (trusted_internal_https peer req)
                  1024)) [
                    | inr ((location, status), q) ↦
                        absurd (redirect_ne status location (rw (serve_site, l, q) at h))
                    | inl q ↦
                        let (x, p, (decoded, g, v)) =
                          limit_request-lem (state site) (rw (serve_site, l, q) at h) in
                        record {
                          site = site;
                          decoded = decoded;
                          method = m;
                          routed = routed;
                          listens = l;
                          no_redirect =
                              no_location site req peer.local_port (trusted_internal_https peer req)
                                q;
                          within_limit = x;
                          not_proxy = p;
                          guarded = g;
                          serves = v;
                        }
                  ]
        ]
    where
      redirect_ne :
          (status : ℤ) (location : Bytes) → send_redirect status location ≢ reply (reply_of s)
      redirect_ne status location e = ground arith

-- Where a file or a script of a site is the answer to a request, the request is neither TRACE nor CONNECT, the
-- site is the one its host leads to and listens at the address, asks for no redirect or for one whose
-- location has 1024 bytes or more, is within its limit and is not passed on to an upstream; and the guards of the site's own part hold.
pub serve_request-Answered :
    (s : Served) (fs : FileSystem) (cfg : Config) (table : Table) (sites : List Site) (peer : Peer)
    (req : Request) (state : Site → SiteState)
    → (serve_request fs cfg table sites peer req state).1 ≡ reply (reply_of s)
    → Answered fs table sites peer req state s
unfolding serve_request serve_found
serve_request-Answered s fs cfg table sites peer req state h =
    elim (Bool-cases
      (streq_ci req.method (codes "TRACE") || streq_ci req.method (codes "CONNECT"))) [
        | inl m ↦ absurd (cc (rw (serve_request, m) at h))
        | inr m ↦ elim (Option-cases (request_site table sites peer req)) [
          | inl q ↦ absurd (cc (rw (serve_request, m, q) at h))
          | inr (site, q) ↦
              serve_site-lem s fs cfg site req table sites peer state m q
                (rw (serve_request, m, q) at h)
        ]
      ]
