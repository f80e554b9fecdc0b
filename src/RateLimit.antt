-- ===== src/RateLimit.antt =====
-- src/rate_limit.c: the fixed windows of the request limit, one bucket for each hash of an address.
-- `inet_pton` and `time` enter as arguments: the IPv4 address, if the text is one, and the second.
pub mod Window
use rpsiod.Prelude.{
  ℕ, ◌+◌, ◌-◌, ◌%◌, ◌^◌, ◌≤◌, ◌<◌, Bool, true, false, ◌&&◌, ◌||◌, not, List, [], ◌∷◌, ◌≡◌, refl,
  Option, some, none, arith, ltb, leb, ◌==◌, if◌then◌else◌, get_or, set, u64, length,
}
use rpsiod.Config.Site.{Site}

-- `rpsiod_rate_bucket`
pub record Bucket : Type 0 where
  pub ip : ℕ
  pub window_start : ℕ
  pub count : ℕ

abbrev pub rate_buckets : ℕ
rate_buckets = 1024

abbrev pub empty_bucket : Bucket
empty_bucket = record { ip = 0; window_start = 0; count = 0 }

-- the buckets behind a request, whether it exceeds the limit, and the seconds of `Retry-After`
pub record Verdict : Type 0 where
  pub buckets : List Bucket
  pub exceeded : Bool
  pub retry_after : ℕ

-- the cast of a positive difference to `int`
as_int : ℕ → ℕ
as_int n = n % 2 ^ 32

-- what the limit does at one bucket
pub record Step : Type 0 where
  pub bucket : Bucket
  pub exceeded : Bool
  pub retry_after : ℕ

unfoldable pub bucket_step : Site → Bucket → ℕ → ℕ → Step
unfolding as_int
bucket_step site b ip now =
    let reset = (b.window_start + site.rate_limit_window_sec) % u64 in
    if not (b.ip == ip) || leb reset now
    then record {
      bucket = record { ip = ip; window_start = now; count = 1 };
      exceeded = false;
      retry_after = 0;
    }
    else if leb site.rate_limit_requests b.count
    then record {
      bucket = b;
      exceeded = true;
      retry_after = if ltb now reset then as_int (reset - now) else 1;
    }
    else record { bucket = record b { count = b.count + 1 }; exceeded = false; retry_after = 0 }

-- the bucket of an address is replaced
store : List Bucket → ℕ → Step → Verdict
store buckets idx s = record {
  buckets = set buckets idx s.bucket;
  exceeded = s.exceeded;
  retry_after = s.retry_after;
}

limit : Site → List Bucket → Option ℕ → ℕ → Verdict
limit site buckets none now = record { buckets = buckets; exceeded = false; retry_after = 0 }
limit site buckets (some ip) now =
    let idx = ip % rate_buckets in
    store buckets idx (bucket_step site (get_or buckets idx empty_bucket) ip now)

abbrev pub is_limited : Site → Bool
is_limited site =
    site.rate_limit_enabled
    && not (site.rate_limit_requests == 0)
    && not (site.rate_limit_window_sec == 0)

-- `rpsiod_rate_limit_exceeded`
unfoldable pub rate_limit_exceeded : Site → List Bucket → Option ℕ → ℕ → Verdict
unfolding limit store
rate_limit_exceeded site buckets address now =
    if not (is_limited site)
    then record { buckets = buckets; exceeded = false; retry_after = 0 }
    else limit site buckets address now
