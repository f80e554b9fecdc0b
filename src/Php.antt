-- ===== src/Php.antt =====
-- src/php.c: which request paths are scripts, and which are copies of their source.
use Prim.Native.String.{String}
use rpsiod.Prelude.{
  ℕ, zero, suc, ◌-◌, Bool, false, ◌&&◌, ◌||◌, Bytes, codes, List, [], ◌∷◌, Option, some, none, leb,
  ltb, ◌==◌, if◌then◌else◌, length, take, drop, split_at,
}
use rpsiod.Util.Strings.{streq_ci, safe_copy, char_at}

-- `path_has_suffix_ci`, with `ascii_streq_ci_n`
unfoldable pub path_has_suffix_ci : Bytes → Bytes → Bool
path_has_suffix_ci path suffix =
    leb (length suffix) (length path) && streq_ci (drop (length path - length suffix) path) suffix

abbrev path_max : ℕ
path_max = 4096

-- `clean_path_copy`
unfoldable pub clean_path_copy : ℕ → Bytes → Bytes
clean_path_copy out_len path = elim (split_at b'?' (safe_copy out_len path)) [
  | none ↦ safe_copy out_len path
  | some (before, query) ↦ before
]

-- the first suffix of a list that the path has
first_suffix : Bytes → List String → Option Bytes
first_suffix path [] = none
first_suffix path (suffix ∷ suffixes) =
    if path_has_suffix_ci path (codes suffix)
    then some (codes suffix)
    else first_suffix path suffixes

has_one_of : Bytes → List String → Bool
has_one_of path [] = false
has_one_of path (suffix ∷ suffixes) =
    path_has_suffix_ci path (codes suffix) || has_one_of path suffixes

abbrev script_suffixes : List String
script_suffixes = ".php" ∷ ".php3" ∷ ".php4" ∷ ".php5" ∷ ".php7" ∷ ".php8" ∷ ".phtml" ∷ ".pht" ∷ []

-- `path_has_php_source_extension`
unfoldable pub path_has_php_source_extension : Bytes → Bool
unfolding has_one_of
path_has_php_source_extension path =
    has_one_of path
      (".php" ∷ ".php3" ∷ ".php4" ∷ ".php5" ∷ ".php7" ∷ ".php8" ∷ ".phtml" ∷ ".pht" ∷ ".phps" ∷ [])

-- `rpsiod_php_path_is_php`
unfoldable pub php_path_is_php : Bytes → Bool
unfolding has_one_of
php_path_is_php path = has_one_of (clean_path_copy path_max path) script_suffixes

abbrev pub peel_suffixes : List String
peel_suffixes =
    ".br" ∷ ".gz" ∷ ".zst" ∷ ".bak" ∷ ".backup" ∷ ".old" ∷ ".orig" ∷ ".save" ∷ ".swp" ∷ ".swo"
    ∷ ".tmp" ∷ ".copy" ∷ ".dist" ∷ []

-- what one round of the loop takes off: the length of a suffix of a copy, if the path has one
peeled : Bytes → Option ℕ
unfolding first_suffix
peeled path =
    if ltb 0 (length path) && char_at path (length path - 1) == b'~'
    then some 1
    else elim (first_suffix path peel_suffixes) [ none ↦ none | some suffix ↦ some (length suffix) ]

-- the loop, on fuel: every round that does not stop takes a byte off
peel : ℕ → Bytes → Bytes
unfolding peeled
peel zero path = path
peel (suc fuel) path = elim (peeled path) [
  | none ↦ path
  | some n ↦ peel fuel (take (length path - n) path)
]

-- `rpsiod_php_path_is_source_like`
unfoldable pub php_path_is_source_like : Bytes → Bool
unfolding peel
php_path_is_source_like path =
    let clean = clean_path_copy path_max path in
    path_has_php_source_extension (peel (length clean) clean)
