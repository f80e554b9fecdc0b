-- ===== src/Server/OpenCache.antt =====
-- src/server.c: the cache of open files of a site, and `open_static_path`, which goes through it.
pub mod Transparent
pub mod Slots
pub mod OneEach
use rpsiod.Prelude.{
  ℕ, zero, suc, ◌+◌, ◌-◌, ◌%◌, Bool, true, false, ◌&&◌, ◌||◌, not, Bytes, List, [], ◌∷◌, Option,
  some, none, leb, ltb, ◌==◌, if◌then◌else◌, length, get_or, set, take, min, str_eq, u64,
}
use rpsiod.Util.Strings.{safe_copy}
use rpsiod.Config.Site.{Site, Config}
use rpsiod.Security.{blocked_direct_access}
use rpsiod.Php.{php_path_is_source_like}
use rpsiod.Server.Files.{FileSystem, Opened, failed, no_stat, file, Stat, Kind, regular, is_regular}

-- `rpsiod_open_file_cache_entry`; an entry has a descriptor exactly while it is valid
pub record Entry : Type 0 where
  pub valid : Bool
  pub relative_path : Bytes
  pub size : ℕ
  pub mtime : ℕ
  pub inode : ℕ
  pub last_used : ℕ

-- an entry that is zeroed, less its descriptor of -1
abbrev pub no_entry : Entry
no_entry = record {
  valid = false;
  relative_path = [];
  size = 0;
  mtime = 0;
  inode = 0;
  last_used = 0;
}

-- the fields of the site that hold the cache
pub record OpenCache : Type 0 where
  pub entries : List Entry
  pub count : ℕ
  pub tick : ℕ

abbrev pub cache_slots : ℕ
cache_slots = 256

abbrev path_max : ℕ
path_max = 4096

-- `static_cache_path_blocked`
unfoldable pub static_cache_path_blocked : Site → Bytes → Bool
static_cache_path_blocked site relative_path =
    if php_path_is_source_like relative_path
    then true
    else if leb path_max (length (b'/' ∷ relative_path))
    then true
    else blocked_direct_access site (b'/' ∷ relative_path)

-- `max`, the slots that are in use
unfoldable pub cache_limit : Config → ℕ
cache_limit cfg =
    if ltb cache_slots cfg.open_file_cache_max then cache_slots else cfg.open_file_cache_max

-- the first guard of both operations
cache_off : Config → Site → Bytes → Bool
cache_off cfg site relative_path =
    not cfg.open_file_cache_enabled
    || cfg.open_file_cache_max == 0
    || static_cache_path_blocked site relative_path

abbrev pub holds : Entry → Bytes → Bool
holds e relative_path = e.valid && str_eq e.relative_path relative_path

-- the first entry that holds the path, from index `i` on
unfoldable pub find_entry : ℕ → List Entry → Bytes → Option ℕ
find_entry i [] relative_path = none
find_entry i (e ∷ es) relative_path =
    if holds e relative_path then some i else find_entry (i + 1) es relative_path

-- `static_open_cache_invalidate_entry`, and the counter
drop_entry : OpenCache → ℕ → OpenCache
drop_entry c i = record c { entries = set c.entries i no_entry; count = c.count - 1 }

next_tick : OpenCache → ℕ
next_tick c = (c.tick + 1) % u64

entry_of : OpenCache → ℕ → Entry
entry_of c i = get_or c.entries i no_entry

same_file : Entry → Stat → Bool
same_file e st =
    is_regular st.kind && st.size == e.size && st.mtime == e.mtime && st.inode == e.inode

-- what the path is now, for the entry that holds it: the cache, and the file if the entry still fits
refresh : OpenCache → ℕ → Opened → OpenCache × Option Stat
unfolding drop_entry next_tick entry_of same_file
refresh c i (failed e) = (drop_entry c i, none)
refresh c i (no_stat e) = (drop_entry c i, none)
refresh c i (file st) =
    if same_file (entry_of c i) st
    then (
      record c {
        entries = set c.entries i (record (entry_of c i) { last_used = next_tick c });
        tick = next_tick c;
      },
      some st,
    )
    else (drop_entry c i, none)

refresh_found : FileSystem → OpenCache → Bytes → Option ℕ → OpenCache × Option Stat
unfolding refresh
refresh_found fs c relative_path none = (c, none)
refresh_found fs c relative_path (some i) = refresh c i (fs.open_below relative_path)

-- `static_open_cache_lookup`
unfoldable pub open_cache_lookup :
    FileSystem → Config → Site → OpenCache → Bytes → OpenCache × Option Stat
unfolding cache_off refresh_found
open_cache_lookup fs cfg site c relative_path =
    if cache_off cfg site relative_path
    then (c, none)
    else refresh_found fs c relative_path
        (find_entry 0 (take (cache_limit cfg) c.entries) relative_path)

-- the loop that looks for a slot: the slot and the oldest tick so far
unfoldable pub slot_loop : ℕ → List Entry → Bytes → Option ℕ → ℕ → Option ℕ
slot_loop i [] relative_path slot oldest = slot
slot_loop i (e ∷ es) relative_path slot oldest =
    let older = ltb e.last_used oldest in
    let rest =
      slot_loop (i + 1) es relative_path (if older then some i else slot)
        (if older then e.last_used else oldest) in
    if holds e relative_path then some i else if not e.valid then some i else rest

new_entry : OpenCache → Bytes → Stat → Entry
unfolding next_tick
new_entry c relative_path st = record {
  valid = true;
  relative_path = safe_copy 512 relative_path;
  size = st.size;
  mtime = st.mtime;
  inode = st.inode;
  last_used = next_tick c;
}

-- a slot is taken; where `dup` fails it is only emptied
fill_slot : Bool → ℕ → OpenCache → ℕ → Bytes → Stat → OpenCache
unfolding new_entry next_tick entry_of
fill_slot dup_ok limit c i relative_path st =
    if not dup_ok
    then (if (entry_of c i).valid then record c { entries = set c.entries i no_entry } else c)
    else record {
      entries = set c.entries i (new_entry c relative_path st);
      count = if not (entry_of c i).valid && ltb c.count limit then c.count + 1 else c.count;
      tick = next_tick c;
    }

fill_found : Bool → ℕ → OpenCache → Option ℕ → Bytes → Stat → OpenCache
unfolding fill_slot
fill_found dup_ok limit c none relative_path st = c
fill_found dup_ok limit c (some i) relative_path st = fill_slot dup_ok limit c i relative_path st

-- `static_open_cache_store`
unfoldable pub open_cache_store : FileSystem → Config → Site → OpenCache → Bytes → Stat → OpenCache
unfolding cache_off fill_found
open_cache_store fs cfg site c relative_path st =
    if cache_off cfg site relative_path || not (is_regular st.kind)
    then c
    else fill_found fs.dup_ok (cache_limit cfg) c
        (slot_loop 0 (take (cache_limit cfg) c.entries) relative_path none (u64 - 1)) relative_path
        st

-- a path that is opened without the cache
open_fresh : FileSystem → Config → Site → OpenCache → Bytes → Opened → OpenCache × Opened
open_fresh fs cfg site c relative_path (failed e) = (c, failed e)
open_fresh fs cfg site c relative_path (no_stat e) = (c, no_stat e)
open_fresh fs cfg site c relative_path (file st) =
    (open_cache_store fs cfg site c relative_path st, file st)

open_cached : FileSystem → Config → Site → Bytes → OpenCache × Option Stat → OpenCache × Opened
unfolding open_fresh
open_cached fs cfg site relative_path (c, some st) = (c, file st)
open_cached fs cfg site relative_path (c, none) =
    open_fresh fs cfg site c relative_path (fs.open_below relative_path)

-- `open_static_path`
unfoldable pub open_static_path :
    FileSystem → Config → Site → OpenCache → Bytes → OpenCache × Opened
unfolding open_cached
open_static_path fs cfg site c relative_path =
    open_cached fs cfg site relative_path (open_cache_lookup fs cfg site c relative_path)
