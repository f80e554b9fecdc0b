-- ===== src/Compress.antt =====
-- src/compress.c: the content codings that a client accepts, and what is worth compressing. The
-- compressors themselves are functions of libraries that are loaded at run time.
pub mod Store
use Prim.Native.String.{String}
use rpsiod.Prelude.{
  ℕ, zero, suc, Bool, true, false, ◌&&◌, ◌||◌, not, Bytes, codes, List, [], ◌∷◌, ◌++◌, Option, some,
  none, leb, ltb, ◌==◌, if◌then◌else◌, length, take_while, drop_while, drop_end, find,
  split_at_last,
}
use rpsiod.Util.Strings.{streq_ci, starts_with}

-- `is_ows`
abbrev pub is_ows : ℕ → Bool
is_ows c = c == 32 || c == 9

-- the loop over the bytes behind the first zero: at most one dot among zeros
zeros : Bool → Bytes → Bool
zeros dot_seen [] = true
zeros dot_seen (c ∷ s) =
    let behind_dot = zeros true s in
    let behind = zeros dot_seen s in
    if c == b'.'
    then (if dot_seen then false else behind_dot)
    else if not (c == b'0')
    then false
    else behind

starts_zero : Bytes → Bool
unfolding zeros
starts_zero [] = false
starts_zero (c ∷ s) = if not (c == b'0') then false else zeros false s

-- `qvalue_is_zero`
unfoldable pub qvalue_is_zero : Bytes → Bool
unfolding starts_zero
qvalue_is_zero value = starts_zero (drop_end is_ows (drop_while is_ows value))

abbrev is_separator : ℕ → Bool
is_separator c = c == b';' || is_ows c

abbrev in_name : ℕ → Bool
in_name c = not (c == b'=' || c == b';')

abbrev in_value : ℕ → Bool
in_value c = not (c == b';')

-- what a parameter makes of the flag: its name, and the text from its end on
parameter : Bool → Bytes → Bytes → Bool
parameter allowed name (c ∷ s) =
    if c == b'='
    then (if streq_ci (drop_end is_ows name) (codes "q")
        then not (qvalue_is_zero (take_while in_value (drop_while is_ows s)))
        else allowed)
    else allowed
parameter allowed name [] = allowed

-- the loop over the parameters, on fuel: a round that does not reach the end passes over a byte
parameters : ℕ → Bool → Bytes → Bool
unfolding parameter
parameters fuel allowed [] = allowed
parameters zero allowed (c ∷ s) = allowed
parameters (suc fuel) allowed (c ∷ s) =
    let text = drop_while is_separator (c ∷ s) in
    let behind = drop_while in_name text in
    parameters fuel (parameter allowed (take_while in_name text) behind)
      (drop_while in_value behind)

-- `accept_encoding_token_allowed`
unfoldable pub accept_encoding_token_allowed : Bytes → Bool
unfolding parameters
accept_encoding_token_allowed params = parameters (length params) true params

abbrev is_comma_or_ows : ℕ → Bool
is_comma_or_ows c = c == b',' || is_ows c

abbrev in_item : ℕ → Bool
in_item c = not (c == b',')

abbrev in_token : ℕ → Bool
in_token c = not (c == b';' || is_ows c)

-- the loop over the items, on fuel: a round that does not reach the end passes over a byte
items : ℕ → Bytes → Bytes → Bool
items fuel [] encoding = false
items zero (c ∷ s) encoding = false
items (suc fuel) (c ∷ s) encoding =
    let text = drop_while is_comma_or_ows (c ∷ s) in
    let item = drop_end is_ows (take_while in_item text) in
    let rest = items fuel (drop_while in_item text) encoding in
    if streq_ci (take_while in_token item) encoding
    then accept_encoding_token_allowed (drop_while is_ows (drop_while in_token item))
    else rest

-- `accepts_encoding_token`
unfoldable pub accepts_encoding_token : Bytes → Bytes → Bool
unfolding items
accepts_encoding_token accept_encoding encoding =
    items (length accept_encoding) accept_encoding encoding

-- `rpsiod_accepts_gzip`
unfoldable pub accepts_gzip : Bytes → Bool
accepts_gzip accept_encoding = accepts_encoding_token accept_encoding (codes "gzip")

-- `rpsiod_accepts_br`
unfoldable pub accepts_br : Bytes → Bool
accepts_br accept_encoding = accepts_encoding_token accept_encoding (codes "br")

contains : Bytes → String → Bool
contains text needle = elim (find (codes needle) text) [ none ↦ false | some found ↦ true ]

-- `rpsiod_content_type_compressible`
unfoldable pub content_type_compressible : Bytes → Bool
unfolding contains
content_type_compressible content_type =
    starts_with content_type (codes "text/")
    || contains content_type "javascript"
    || contains content_type "json"
    || contains content_type "xml"
    || contains content_type "svg"

one_of : Bytes → List String → Bool
one_of ext [] = false
one_of ext (e ∷ es) = streq_ci ext (codes e) || one_of ext es

-- `rpsiod_path_already_compressed`
unfoldable pub path_already_compressed : Bytes → Bool
unfolding one_of
path_already_compressed path = elim (split_at_last b'.' path) [
  | none ↦ false
  | some (before, ext) ↦
      one_of (b'.' ∷ ext) (
        ".gz" ∷ ".br" ∷ ".zip" ∷ ".png" ∷ ".jpg" ∷ ".jpeg" ∷ ".gif" ∷ ".webp" ∷ ".ico" ∷ ".pdf"
        ∷ [])
]
