-- ===== src/Server/Files.antt =====
-- What src/server.c and src/static.c ask of the file system, as a parameter. Within one request the
-- files do not change: a path that is opened twice gives the same answer.
use rpsiod.Prelude.{ℕ, Bool, true, false, Bytes}

-- `st_mode`, as far as it is read
pub data Kind : Type 0 where
  regular directory other : Kind

-- `struct stat`, as far as it is read; a size is not negative
pub record Stat : Type 0 where
  pub kind : Kind
  pub size : ℕ
  pub mtime : ℕ
  pub inode : ℕ

-- `errno`, as far as it is read
pub data Errno : Type 0 where
  enoent eacces eisdir eother : Errno

-- A path that cannot be opened, one whose `fstat` fails, and an open file.
pub data Opened : Type 0 where
  failed : Errno → Opened
  no_stat : Errno → Opened
  file : Stat → Opened

-- The calls: `rpsiod_static_open_site_path` below the root of the site with `fstat`, `open` of an
-- absolute path with `fstat`, and whether `dup` succeeds.
pub record FileSystem : Type 0 where
  pub open_below : Bytes → Opened
  pub open_path : Bytes → Opened
  pub dup_ok : Bool

abbrev pub is_regular : Kind → Bool
is_regular regular = true
is_regular _ = false

abbrev pub is_directory : Kind → Bool
is_directory directory = true
is_directory _ = false
