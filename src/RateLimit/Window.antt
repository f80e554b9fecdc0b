-- ===== src/RateLimit/Window.antt =====
-- How many requests of one address a window admits.
use rpsiod.Prelude.{
  ℕ, ◌+◌, ◌-◌, ◌%◌, ◌^◌, ◌≤◌, ◌<◌, true, false, List, [], ◌∷◌, ◌≡◌, ◌≢◌, refl, ◌∙◌, ◌⊎◌, inl, inr,
  some, arith, leb, if◌then◌else◌, get_or, set, u64, length, All, get_or-set_self, length-set,
  Bool-cases, min,
}
use rpsiod.Config.Site.{Site}
use rpsiod.RateLimit.{
  Bucket, rate_buckets, empty_bucket, bucket_step, is_limited, rate_limit_exceeded,
}

abbrev pub bucket_of : List Bucket → ℕ → Bucket
bucket_of buckets ip = get_or buckets (ip % rate_buckets) empty_bucket

-- the requests of one address at some seconds, one after the other: how many of them pass
unfoldable pub admitted : Site → List Bucket → ℕ → List ℕ → ℕ
admitted site buckets ip [] = 0
admitted site buckets ip (now ∷ later) =
    let v = rate_limit_exceeded site buckets (some ip) now in
    (if v.exceeded then 0 else 1) + admitted site v.buckets ip later

-- in the window that the bucket of the address holds
abbrev pub InWindow : Site → Bucket → ℕ → ℕ → Type 0
InWindow site b ip now =
    (b.ip ≡ ip) × (b.window_start ≤ now) × (now < b.window_start + site.rate_limit_window_sec)

module _ (site : Site) (limited : is_limited site ≡ true) where
  exceeded-step :
      (buckets : List Bucket) (ip now : ℕ)
      → rate_limit_exceeded site buckets (some ip) now ≡ (
          let s = bucket_step site (bucket_of buckets ip) ip now in
          record {
            buckets = set buckets (ip % rate_buckets) s.bucket;
            exceeded = s.exceeded;
            retry_after = s.retry_after;
          })
  unfolding rate_limit_exceeded
  exceeded-step buckets ip now = rw limited

  -- inside the window a request passes until the count is reached, and is counted
  bucket_step_inside :
      (b : Bucket) (ip now : ℕ)
      → b.window_start + site.rate_limit_window_sec < u64
      → InWindow site b ip now
      → ((bucket_step site b ip now).exceeded ≡ leb site.rate_limit_requests b.count)
        × ((bucket_step site b ip now).bucket ≡ (
            if leb site.rate_limit_requests b.count then b else record b { count = b.count + 1 }))
  unfolding bucket_step
  bucket_step_inside b ip now small w = ground arith

  bucket_step_opens :
      (b : Bucket) (ip now : ℕ)
      → b.window_start + site.rate_limit_window_sec < u64
      → (b.ip ≢ ip) ⊎ (b.window_start + site.rate_limit_window_sec ≤ now)
      → ((bucket_step site b ip now).exceeded ≡ false)
        × ((bucket_step site b ip now).bucket ≡ record { ip = ip; window_start = now; count = 1 })
  unfolding bucket_step
  bucket_step_opens b ip now small w = ground arith

  admitted-inside :
      (times : List ℕ) (buckets : List Bucket) (b : Bucket) (ip : ℕ)
      → length buckets ≡ rate_buckets
      → bucket_of buckets ip ≡ b
      → b.window_start + site.rate_limit_window_sec < u64
      → All (InWindow site b ip) times
      → admitted site buckets ip times ≡ min (length times) (site.rate_limit_requests - b.count)
  unfolding admitted
  admitted-inside [] buckets b ip size at small _ = omega arith
  admitted-inside (now ∷ later) buckets b ip size at small (w, ws) =
      let (over, next) = bucket_step_inside b ip now small w in
      let s = bucket_step site b ip now in
      let slot : bucket_of (set buckets (ip % rate_buckets) s.bucket) ip ≡ s.bucket =
        get_or-set_self buckets (ip % rate_buckets) s.bucket empty_bucket (rw size (omega arith)) in
      let size' = length-set buckets (ip % rate_buckets) s.bucket ∙ size in
      rw (exceeded-step buckets ip now, at)
        (elim (Bool-cases (leb site.rate_limit_requests b.count)) [
          | inl full ↦
              let same : s.bucket ≡ b = ground arith in
              let ih =
                admitted-inside later (set buckets (ip % rate_buckets) s.bucket) b ip size'
                  (slot ∙ same) small ws in
              ground (arith, ih)
          | inr room ↦
              let same : s.bucket ≡ record b { count = b.count + 1 } = ground arith in
              let ih =
                admitted-inside later (set buckets (ip % rate_buckets) s.bucket)
                  (record b { count = b.count + 1 }) ip size' (slot ∙ same) small ws in
              ground (arith, ih)
        ])

in_fresh :
    (site : Site) (ip now : ℕ) (later : List ℕ)
    → All (λ t. (now ≤ t) × (t < now + site.rate_limit_window_sec)) later
    → All (InWindow site (record { ip = ip; window_start = now; count = 1 }) ip) later
in_fresh site ip now [] h = tt
in_fresh site ip now (t ∷ later) ((a, b), h) = ((refl, a, b), in_fresh site ip now later h)

-- With the limit on, the requests of one address in the window that the first of them opens pass
-- until the configured number is reached, and no further one does. No other address comes between, all
-- buckets are there, the address has no window that is still open, and no end of a window reaches 2^64.
pub admitted_window :
    (site : Site) (buckets : List Bucket) (ip now : ℕ) (later : List ℕ)
    → is_limited site ≡ true
    → length buckets ≡ rate_buckets
    → (bucket_of buckets ip).window_start + site.rate_limit_window_sec < u64
    → now + site.rate_limit_window_sec < u64
    → ((bucket_of buckets ip).ip ≢ ip)
      ⊎ ((bucket_of buckets ip).window_start + site.rate_limit_window_sec ≤ now)
    → All (λ t. (now ≤ t) × (t < now + site.rate_limit_window_sec)) later
    → admitted site buckets ip (now ∷ later) ≡ min (length (now ∷ later)) site.rate_limit_requests
unfolding admitted
admitted_window site buckets ip now later on size small small' opens inside =
    let b = bucket_of buckets ip in
    let (over, next) = bucket_step_opens site on b ip now small opens in
    let s = bucket_step site b ip now in
    let fresh : Bucket = record { ip = ip; window_start = now; count = 1 } in
    let slot : bucket_of (set buckets (ip % rate_buckets) s.bucket) ip ≡ s.bucket =
      get_or-set_self buckets (ip % rate_buckets) s.bucket empty_bucket (rw size (omega arith)) in
    let size' = length-set buckets (ip % rate_buckets) s.bucket ∙ size in
    let rest =
      admitted-inside site on later (set buckets (ip % rate_buckets) s.bucket) fresh ip size'
        (slot ∙ next) small' (in_fresh site ip now later inside) in
    rw (exceeded-step site on buckets ip now) (ground (arith, rest, over))

-- Where a request exceeds the limit the reply names a wait of at least a second and at most the
-- window, if the window began by now, ends below 2^64 and is shorter than 2^31 seconds.
pub retry_after_bounds :
    (site : Site) (buckets : List Bucket) (ip now : ℕ)
    → (bucket_of buckets ip).window_start ≤ now
    → (bucket_of buckets ip).window_start + site.rate_limit_window_sec < u64
    → site.rate_limit_window_sec < 2 ^ 31
    → (rate_limit_exceeded site buckets (some ip) now).exceeded ≡ true
    → (1 ≤ (rate_limit_exceeded site buckets (some ip) now).retry_after)
      × ((rate_limit_exceeded site buckets (some ip) now).retry_after ≤ site.rate_limit_window_sec)
unfolding rate_limit_exceeded bucket_step
retry_after_bounds site buckets ip now past small int h = ground arith
