-- ===== src/Http/Values.antt =====
-- src/http.c: the values of Content-Length, Connection and Range.
use rpsiod.Prelude.{
  ℕ, zero, suc, ◌+◌, Bool, true, false, ◌||◌, not, Bytes, codes, [], ◌∷◌, Option, some, none, ltb,
  ◌==◌, if◌then◌else◌, length, split_at, take_while, drop_while, drop_end, ◌>>=◌, ◌>>◌, guard,
  has_byte, isdigit, strtoull, drop,
}
use rpsiod.Util.Strings.{streq_ci, starts_with}
use rpsiod.Http.Lexical.{all, is_blank}

-- `parse_content_length`; `none` is `false`
unfoldable pub parse_content_length : Bytes → Option ℕ
parse_content_length [] = none
parse_content_length (c ∷ s) = if not (all isdigit (c ∷ s)) then none else (do
  n ← strtoull (c ∷ s)
  guard (not n.range_error)
  guard (length (drop_while is_blank n.rest) == 0)
  some n.value)

abbrev pub is_list_space : ℕ → Bool
is_list_space c = c == 32 || c == 9 || c == b','

abbrev pub not_comma : ℕ → Bool
not_comma c = not (c == b',')

-- the loop of `header_token_present`, on fuel: every round passes over a byte
token_loop : ℕ → Bytes → Bytes → Bool
token_loop fuel [] needle = false
token_loop zero (c ∷ s) needle = false
token_loop (suc fuel) (c ∷ s) needle =
    let start = drop_while is_list_space (c ∷ s) in
    let token = drop_end is_blank (take_while not_comma start) in
    let rest = token_loop fuel (drop_while not_comma start) needle in
    if streq_ci token needle then true else rest

-- `header_token_present`
unfoldable pub header_token_present : Bytes → Bytes → Bool
unfolding token_loop
header_token_present value needle = token_loop (length value) value needle

-- the fields of the request that a Range header fills
pub record Range : Type 0 where
  pub range_start : ℕ
  pub range_end : ℕ
  pub range_present : Bool
  pub range_suffix : Bool
  pub range_has_end : Bool

-- a number that ends the text
number_at_end : Bytes → Option ℕ
number_at_end text = do n ← strtoull text; guard (length n.rest == 0); some n.value

-- `bytes=-n`
suffix_range : Range → Bytes → Option Range
suffix_range r behind = do
  suffix ← number_at_end behind
  guard (not (suffix == 0))
  some (record r { range_present = true; range_suffix = true; range_start = suffix })

-- the end of `bytes=a-b`, where `b` may be missing
range_from : Range → ℕ → Bytes → Option Range
range_from r start [] = some (record r { range_present = true; range_start = start })
range_from r start (c ∷ s) = do
  last ← number_at_end (c ∷ s)
  guard (not (ltb last start))
  some (record r {
    range_present = true;
    range_start = start;
    range_end = last;
    range_has_end = true;
  })

-- `strtoull(spec)` has to stop at the dash
bounded_range : Range → Bytes → Bytes → Bytes → Option Range
bounded_range r spec before behind = do
  start ← strtoull spec
  guard (length start.rest == length behind + 1)
  range_from r start.value behind

-- `parse_byte_range`; `none` is `false`
unfoldable pub parse_byte_range : Bytes → Range → Option Range
unfolding suffix_range bounded_range range_from number_at_end
parse_byte_range value r = if not (starts_with value (codes "bytes=")) then none else (do
  let spec = drop 6 value
  guard (not (has_byte b',' spec))
  (before, behind) ← split_at b'-' spec
  if length before == 0 then suffix_range r behind else bounded_range r spec before behind)
