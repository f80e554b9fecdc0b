-- ===== src/Server/OpenCache/Transparent.antt =====
-- The cache of open files changes nothing of what a path gives.
use rpsiod.Prelude.{ℕ, Bytes, Option, some, none, arith, ◌≡◌, refl, sym, inl, inr, Bool-cases}
use rpsiod.Config.Site.{Site, Config}
use rpsiod.Server.Files.{FileSystem, Opened, failed, no_stat, file, Stat}
use rpsiod.Server.OpenCache.{
  OpenCache, refresh, refresh_found, open_cache_lookup, open_fresh, open_cached, open_static_path,
  cache_off,
}

refresh-file :
    (c : OpenCache) (i : ℕ) (o : Opened) {st : Stat} → (refresh c i o).1 ≡ some st → o ≡ file st
unfolding refresh
refresh-file c i (failed e) h = cc
refresh-file c i (no_stat e) h = cc
refresh-file c i (file st) h = ground arith

refresh_found-file :
    (fs : FileSystem) (c : OpenCache) (path : Bytes) (found : Option ℕ) {st : Stat}
    → (refresh_found fs c path found).1 ≡ some st
    → fs.open_below path ≡ file st
unfolding refresh_found
refresh_found-file fs c path none h = cc
refresh_found-file fs c path (some i) h = refresh-file c i (fs.open_below path) h

lookup-file :
    (fs : FileSystem) (cfg : Config) (site : Site) (c : OpenCache) (path : Bytes) {st : Stat}
    → (open_cache_lookup fs cfg site c path).1 ≡ some st
    → fs.open_below path ≡ file st
unfolding open_cache_lookup
lookup-file fs cfg site c path h = elim (Bool-cases (cache_off cfg site path)) [
  | inl e ↦ absurd (cc (rw e at h))
  | inr e ↦ refresh_found-file fs c path _ (rw e at h)
]

open_fresh-result :
    (fs : FileSystem) (cfg : Config) (site : Site) (c : OpenCache) (path : Bytes) (o : Opened)
    → (open_fresh fs cfg site c path o).1 ≡ o
unfolding open_fresh
open_fresh-result fs cfg site c path (failed e) = refl
open_fresh-result fs cfg site c path (no_stat e) = refl
open_fresh-result fs cfg site c path (file st) = refl

open_cached-result :
    (fs : FileSystem) (cfg : Config) (site : Site) (path : Bytes) (l : OpenCache × Option Stat)
    → ((st : Stat) → l.1 ≡ some st → fs.open_below path ≡ file st)
    → (open_cached fs cfg site path l).1 ≡ fs.open_below path
unfolding open_cached
open_cached-result fs cfg site path (c, some st) h = sym (h st refl)
open_cached-result fs cfg site path (c, none) h =
    open_fresh-result fs cfg site c path (fs.open_below path)

-- Whatever the cache holds, a path that is opened through it gives what opening it below the root
-- gives, errors included.
pub open_static_path-open_below :
    (fs : FileSystem) (cfg : Config) (site : Site) (c : OpenCache) (path : Bytes)
    → (open_static_path fs cfg site c path).1 ≡ fs.open_below path
unfolding open_static_path
open_static_path-open_below fs cfg site c path =
    open_cached-result fs cfg site path (open_cache_lookup fs cfg site c path)
      (λ st h. lookup-file fs cfg site c path h)
