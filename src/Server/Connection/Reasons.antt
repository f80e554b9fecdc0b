-- ===== src/Server/Connection/Reasons.antt =====
-- Why a connection is closed or waits.
use rpsiod.Prelude.{
  ℕ, zero, suc, ◌+◌, ◌-◌, ◌%◌, ◌<◌, ◌≤◌, true, false, ◌&&◌, Bytes, codes, List, [], ◌∷◌, ◌++◌,
  Option, some, none, ltb, ◌==◌, length, take, ◌≡◌, ◌≢◌, refl, ◌⊎◌, inl, inr, arith, Bool-cases, ℤ,
  pos,
}
use rpsiod.Util.Strings.{streq_ci}
use rpsiod.Http.Request.{Request}
use rpsiod.Http.Parse.{parse_request, Outcome, need_more, done, bad}
use rpsiod.Config.Site.{Site, Config}
use rpsiod.Server.Connection.{
  Arrival, bytes, eof, read_error, Exchange, Client, buffer_size, Handlers, ready_of,
  buffered_request_ready, exceeds, unsigned_of, is_proxy, should_keep_alive, exchange_of,
}
use rpsiod.Server.Connection.Stream.{Frames, unserved, header_fits}

-- The connection cannot be kept behind a request: keeping is off, the request does not want it, as many
-- requests as are configured were served, the site passes its requests on, or the answer failed.
pub data NoKeep (cfg : Config) (h : Handlers) (c : Client) (e : Exchange) : Type 0 where
  keeping_off : cfg.keep_alive_enabled ≡ false → NoKeep cfg h c e
  not_wanted : e.request.keep_alive ≡ false → NoKeep cfg h c e
  many_served :
      unsigned_of cfg.keep_alive_max_requests ≤ (c.keep_alive_requests + 1) % 4294967296
      → NoKeep cfg h c e
  passed_on :
      (site : Site)
      → h.site_of e.request ≡ some site
      → streq_ci site.routing_type (codes "proxy") ≡ true
      → NoKeep cfg h c e
  answer_failed :
      h.serve_ok (record (e.request) { keep_alive = true }) e.body ≡ false → NoKeep cfg h c e

-- The body of a request is longer than its site allows, or than the buffer has room for.
abbrev pub TooLarge : Handlers → Request → Type 0
TooLarge h req =
    ((site : Site) × (h.site_of req ≡ some site) × (site.max_body_size < req.content_length))
    ⊎ (buffer_size < req.header_len + req.content_length)

-- A read gives nothing: the stream has ended, an error, or there is no byte or no room.
abbrev pub ReadsNothing : Client → Type 0
ReadsNothing c =
    (later : List Arrival) × ((c.arrivals ≡ eof ∷ later)
      ⊎ (c.arrivals ≡ read_error ∷ later)
      ⊎ ((b : Bytes) × (c.arrivals ≡ bytes b ∷ later) × ((b ≡ []) ⊎ (buffer_size ≤ length c.buf))))

-- The buffer holds no whole request.
abbrev pub Idle : Bytes → Type 0
Idle buf =
    (buf ≡ [])
    ⊎ (parse_request buf ≡ need_more)
    ⊎ ((req : Request) × (parse_request buf ≡ done req)
        × (length buf < req.header_len + req.content_length))

-- Why a connection is closed, with the status that is answered other than by `serve_request`. But for a request
-- that was served last, whatever is not served stands in the buffer or is still to come.
pub data Closes (cfg : Config) (h : Handlers) (s : Bytes) (c : Client) : Option ℤ → Type 0 where
  buffer_full :
      Frames s c.served (unserved c)
      → length c.buf ≡ buffer_size
      → Closes cfg h s c (some (pos 400))
  bad_request :
      Frames s c.served (unserved c) → parse_request c.buf ≡ bad → Closes cfg h s c (some (pos 400))
  too_large :
      Frames s c.served (unserved c)
      → (req : Request) → parse_request c.buf ≡ done req
      → TooLarge h req
      → Closes cfg h s c (some (pos 413))
  served_last :
      (tail : Bytes)
      → Frames s c.served tail
      → (before : List Exchange) (e : Exchange) → c.served ≡ before ++ (e ∷ [])
      → NoKeep cfg h c e
      → Closes cfg h s c none
  stays_blocking : Frames s c.served (unserved c) → h.nonblocking_ok ≡ false → Closes cfg h s c none
  no_bytes : Frames s c.served (unserved c) → ReadsNothing c → Closes cfg h s c none

-- A connection waits without a whole request, and either nothing more has arrived or a request was served.
abbrev pub Waits : Bytes → Client → Type 0
Waits s c = Frames s c.served (unserved c) × Idle c.buf × ((c.arrivals ≡ []) ⊎ (c.served ≢ []))

is_proxy-site :
    (o : Option Site)
    → is_proxy o ≡ true
    → (site : Site) × (o ≡ some site) × (streq_ci site.routing_type (codes "proxy") ≡ true)
unfolding is_proxy
is_proxy-site none h = cc
is_proxy-site (some site) h = (site, refl, h)

exceeds-site :
    (o : Option Site) (req : Request)
    → exceeds o req ≡ true
    → (site : Site) × (o ≡ some site) × (site.max_body_size < req.content_length)
unfolding exceeds
exceeds-site none req h = cc
exceeds-site (some site) req h = (site, refl, ground arith)

pub exceeds-TooLarge :
    (h : Handlers) (req : Request) → exceeds (h.site_of req) req ≡ true → TooLarge h req
exceeds-TooLarge h req x = inl (exceeds-site (h.site_of req) req x)

pub not_ready-Idle : (buf : Bytes) → buffered_request_ready buf ≡ false → Idle buf
unfolding buffered_request_ready ready_of
not_ready-Idle [] r = inl refl
not_ready-Idle (x ∷ buf) r =
    let some_bytes : (suc (length buf) == 0) ≡ false = ground arith in
    outcome_idle (parse_request (x ∷ buf)) refl (rw some_bytes at r)
  where
    outcome_idle :
        (o : Outcome) → parse_request (x ∷ buf) ≡ o → ready_of (x ∷ buf) o ≡ false → Idle (x ∷ buf)
    outcome_idle need_more p r = inr (inl p)
    outcome_idle bad p r = absurd cc
    outcome_idle (done req) p r =
        let fits = header_fits (x ∷ buf) req p in inr (inr (req, p, ground arith))

take_none : (n : ℕ) (b : Bytes) → (length (take n b) == 0) ≡ true → (b ≡ []) ⊎ (n ≡ 0)
take_none zero b h = inr refl
take_none (suc n) [] h = inl refl
take_none (suc n) (x ∷ b) h = absurd (ground arith)

pub nothing_taken :
    (c : Client) (b : Bytes) (later : List Arrival)
    → c.arrivals ≡ bytes b ∷ later
    → (length (take (buffer_size - length c.buf) b) == 0) ≡ true
    → ReadsNothing c
nothing_taken c b later q z = (
  later,
  inr (
      inr (
        b,
        q,
        elim (take_none (buffer_size - length c.buf) b z) [
          | inl e ↦ inl e
          | inr e ↦ inr (omega arith)
        ],
      )),
)

module _ (cfg : Config) (h : Handlers) where
  pub dropped-NoKeep :
      (c c' : Client) (req : Request)
      → c'.keep_alive_requests ≡ c.keep_alive_requests
      → ((exchange_of cfg h c req).keep_alive
          && h.serve_ok
              (record req { keep_alive = (exchange_of cfg h c req).keep_alive })
              (exchange_of cfg h c req).body)
        ≡ false
      → NoKeep cfg h c' (exchange_of cfg h c req)
  unfolding exchange_of should_keep_alive
  dropped-NoKeep c c' req same k = elim (Bool-cases cfg.keep_alive_enabled) [
    | inr a ↦ keeping_off a
    | inl a ↦ elim (Bool-cases req.keep_alive) [
      | inr b ↦ not_wanted b
      | inl b ↦
          let limit = unsigned_of cfg.keep_alive_max_requests in
          elim (Bool-cases (ltb ((c.keep_alive_requests + 1) % 4294967296) limit)) [
            | inr m ↦
                many_served (rw same (reached ((c.keep_alive_requests + 1) % 4294967296) limit m))
            | inl m ↦ elim (Bool-cases (is_proxy (h.site_of req))) [
              | inl p ↦ let (site, q, t) = is_proxy-site (h.site_of req) p in passed_on site q t
              | inr p ↦ answer_failed (rw (p, m, a, b) at k)
            ]
          ]
    ]
  ]
    where
      reached : (n limit : ℕ) → ltb n limit ≡ false → limit ≤ n
      reached n limit m = ground arith
