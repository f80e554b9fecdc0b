-- ===== src/Tests/LimitTests.antt =====
-- The theorems on the request limit and on the blocked paths at concrete inputs.
use rpsiod.Prelude.{Some}
use rpsiod.Prelude.{codes, List, [], ◌∷◌, ◌≡◌, ◌↔◌, ◌≤◌, refl, true, some, inl}
use rpsiod.Prelude.{arith, replicate, min}
use rpsiod.Config.Site.{Site, site_defaults}
use rpsiod.RateLimit.{Bucket, rate_buckets, empty_bucket, rate_limit_exceeded, bucket_step}
use rpsiod.RateLimit.Window.{admitted, admitted_window, retry_after_bounds}
use rpsiod.Security.{blocked_direct_access}
use rpsiod.Security.Segments.{blocked_direct_access_iff, StandsBetween}

abbrev limited_site : Site
limited_site = record site_defaults {
  domains = [];
  http_port = 80;
  https_port = 0;
  blocked_direct_access = codes ".git" ∷ [];
  rate_limit_enabled = true;
  rate_limit_requests = 2;
  rate_limit_window_sec = 60;
}

abbrev no_buckets : List Bucket
no_buckets = replicate rate_buckets empty_bucket

abbrev full_bucket : Bucket
full_bucket = record { ip = 7; window_start = 1000; count = 2 }

abbrev full_buckets : List Bucket
full_buckets = replicate rate_buckets full_bucket

admitted_window_example : admitted limited_site no_buckets 7 (1000 ∷ 1001 ∷ 1059 ∷ []) ≡ min 3 2
admitted_window_example =
    admitted_window limited_site no_buckets 7 1000 (1001 ∷ 1059 ∷ []) refl refl (omega arith)
      (omega arith) (inl (omega arith)) (omega arith)

exceeded-example : (rate_limit_exceeded limited_site full_buckets (some 7) 1010).exceeded ≡ true
unfolding rate_limit_exceeded bucket_step
exceeded-example = refl

retry_after_bounds_example :
    (1 ≤ (rate_limit_exceeded limited_site full_buckets (some 7) 1010).retry_after)
    × ((rate_limit_exceeded limited_site full_buckets (some 7) 1010).retry_after ≤ 60)
retry_after_bounds_example =
    retry_after_bounds limited_site full_buckets 7 1010 (omega arith) (omega arith) (omega arith)
      exceeded-example

blocked_direct_access_iff_example :
    (blocked_direct_access limited_site (codes "/a/.git/config") ≡ true)
    ↔ Some (StandsBetween (codes "/a/.git/config")) (codes ".git" ∷ [])
blocked_direct_access_iff_example =
    blocked_direct_access_iff limited_site (codes "/a/.git/config") (((λ e. cc), omega arith), tt)
