-- ===== src/Server/MetaCache.antt =====
-- src/server.c: the cache of what is known of static files.
use rpsiod.Prelude.{
  ℕ, ◌+◌, ◌%◌, Bool, true, false, ◌&&◌, ◌||◌, not, Bytes, codes, List, [], ◌∷◌, ◌++◌, Option, some,
  none, leb, ltb, ◌==◌, if◌then◌else◌, length, set, str_eq, u64, hexadecimal,
}
use rpsiod.Util.Strings.{safe_copy}
use rpsiod.Util.Mime.{mime_type}
use rpsiod.Config.Site.{Site}
use rpsiod.Security.{blocked_direct_access}
use rpsiod.Server.Files.{FileSystem, Opened, failed, no_stat, file, Stat, is_regular, is_directory}

-- a precompressed variant of a file: its size, time and inode
pub record Variant : Type 0 where
  pub size : ℕ
  pub mtime : ℕ
  pub inode : ℕ

-- `rpsiod_static_meta_cache_entry`, less the absolute path, which nothing reads; a variant with its
-- flag is an option
pub record MetaEntry : Type 0 where
  pub valid : Bool
  pub relative_path : Bytes
  pub mime : Bytes
  pub etag : Bytes
  pub size : ℕ
  pub mtime : ℕ
  pub inode : ℕ
  pub blocked : Bool
  pub directory : Bool
  pub br : Option Variant
  pub gzip : Option Variant

pub record MetaCache : Type 0 where
  pub entries : List MetaEntry
  pub clock : ℕ

abbrev pub meta_slots : ℕ
meta_slots = 128

-- the comparison of an entry with the file as it is now
unfoldable pub is_current : MetaEntry → Stat → Bool
is_current e st = e.size == st.size && e.mtime == st.mtime && e.inode == st.inode

-- The loop of `static_meta_lookup`: the entry, if the first one of the path is current, and the
-- entries, where one that is not current is given up.
unfoldable pub meta_loop : List MetaEntry → Bytes → Stat → List MetaEntry × Option MetaEntry
meta_loop [] relative_path st = ([], none)
meta_loop (e ∷ es) relative_path st =
    let rest = meta_loop es relative_path st in
    if not e.valid || not (str_eq e.relative_path relative_path)
    then (e ∷ rest.0, rest.1)
    else if is_current e st
    then (e ∷ es, some e)
    else ((record e { valid = false }) ∷ es, none)

-- `static_meta_store_variant`: what it finds
unfoldable pub variant_of : Opened → Option Variant
variant_of (failed e) = none
variant_of (no_stat e) = none
variant_of (file st) =
    if is_regular st.kind
    then some (record { size = st.size; mtime = st.mtime; inode = st.inode })
    else none

variant_at : FileSystem → Bytes → Bytes → Option Variant
variant_at fs relative_path suffix =
    if leb 4096 (length (relative_path ++ suffix))
    then none
    else variant_of (fs.open_below (relative_path ++ suffix))

-- `W/"%llx-%llx-%llx"`
unfoldable pub etag_of : Stat → Bytes
etag_of st =
    codes "W/\""
    ++ hexadecimal st.inode
    ++ codes "-"
    ++ hexadecimal st.size
    ++ codes "-"
    ++ hexadecimal st.mtime
    ++ codes "\""

-- the entry that `static_meta_store` fills
unfoldable pub meta_entry : FileSystem → Site → Bytes → Stat → MetaEntry
unfolding variant_at
meta_entry fs site relative_path st = record {
  valid = true;
  relative_path = safe_copy 512 relative_path;
  mime = safe_copy 96 (mime_type relative_path);
  etag = safe_copy 128 (etag_of st);
  size = st.size;
  mtime = st.mtime;
  inode = st.inode;
  blocked =
      if ltb (length (b'/' ∷ relative_path)) 4096
      then blocked_direct_access site (b'/' ∷ relative_path)
      else false;
  directory = is_directory st.kind;
  br = variant_at fs relative_path (codes ".br");
  gzip = variant_at fs relative_path (codes ".gz");
}

-- `static_meta_store`
unfoldable pub static_meta_store :
    FileSystem → Site → MetaCache → Bytes → Stat → MetaCache × MetaEntry
static_meta_store fs site c relative_path st =
    let entry = meta_entry fs site relative_path st in
    (
      record { entries = set c.entries (c.clock % meta_slots) entry; clock = (c.clock + 1) % u64 },
      entry,
    )

meta_found : FileSystem → Site → MetaCache → Bytes → Stat → Option MetaEntry → MetaCache × MetaEntry
meta_found fs site c relative_path st (some e) = (c, e)
meta_found fs site c relative_path st none = static_meta_store fs site c relative_path st

-- `static_meta_get`, with `static_meta_lookup`
unfoldable pub static_meta_get :
    FileSystem → Site → MetaCache → Bytes → Stat → MetaCache × MetaEntry
unfolding meta_found
static_meta_get fs site c relative_path st =
    let looked = meta_loop c.entries relative_path st in
    meta_found fs site (record c { entries = looked.0 }) relative_path st looked.1
