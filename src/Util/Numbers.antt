-- ===== src/Util/Numbers.antt =====
-- src/util.c: sizes, durations and Boolean words of the configuration, and hexadecimal digits. A NULL
-- text is read like the empty one.
use rpsiod.Prelude.{
  ℕ, ◌+◌, ◌-◌, ◌*◌, ◌%◌, ◌/◌, ◌^◌, ◌≤◌, ◌<◌, Bool, true, false, ◌&&◌, ◌||◌, Bytes, codes, [], ◌∷◌,
  ◌≡◌, Option, some, none, arith, ltb, leb, if◌then◌else◌, isspace, drop_while, u64, ℤ, pos, negsuc,
  Number, strtoull, strtol, str_eq, AllDigits, digits_value, strtoull_digits, unsigned, lt→ltb,
}
use rpsiod.Util.Strings.{streq_ci}

-- the unit behind a size
size_unit : Bytes → ℕ
size_unit end =
    if streq_ci end (codes "kb") || streq_ci end (codes "k")
    then 1024
    else if streq_ci end (codes "mb") || streq_ci end (codes "m")
    then 1024 * 1024
    else if streq_ci end (codes "gb") || streq_ci end (codes "g")
    then 1024 * 1024 * 1024
    else 1

size_result : Option (Number ℕ) → ℕ → ℕ
unfolding size_unit
size_result none fallback = fallback
size_result (some n) fallback = (n.value * size_unit (drop_while isspace n.rest)) % u64

-- `rpsiod_parse_size`; the product wraps around at 2^64
unfoldable pub parse_size : Bytes → ℕ → ℕ
unfolding size_result
parse_size [] fallback = fallback
parse_size (c ∷ s) fallback = size_result (strtoull (c ∷ s)) fallback

abbrev pub int_max : ℕ
int_max = 2 ^ 31 - 1

-- what a duration is worth with the unit behind it
scale_duration : ℕ → Bytes → ℕ
scale_duration value end =
    if streq_ci end (codes "ms")
    then (if ltb 0 value then 1 else 0)
    else if streq_ci end (codes "m")
    then value * 60
    else if streq_ci end (codes "h")
    then value * 3600
    else if streq_ci end (codes "d")
    then value * 86400
    else value

-- the value of a number that is neither negative nor above `INT_MAX / 86400`
duration_of : ℤ → Bytes → ℕ → ℕ
duration_of (negsuc n) rest fallback = fallback
duration_of (pos n) rest fallback =
    if ltb (int_max / 86400) n then fallback else scale_duration n (drop_while isspace rest)

duration_result : Option (Number ℤ) → ℕ → ℕ
unfolding duration_of
duration_result none fallback = fallback
duration_result (some n) fallback = duration_of n.value n.rest fallback

-- `rpsiod_parse_duration_sec`, with a fallback that is not negative
unfoldable pub parse_duration_sec : Bytes → ℕ → ℕ
unfolding duration_result scale_duration
parse_duration_sec [] fallback = fallback
parse_duration_sec (c ∷ s) fallback = duration_result (strtol (c ∷ s)) fallback

-- `rpsiod_parse_bool`
unfoldable pub parse_bool : Bytes → Bool → Bool
parse_bool text fallback =
    if streq_ci text (codes "true") || streq_ci text (codes "yes") || str_eq text (codes "1")
    then true
    else if streq_ci text (codes "false") || streq_ci text (codes "no") || str_eq text (codes "0")
    then false
    else fallback

-- `hexval`; `none` is -1
unfoldable pub hexval : ℕ → Option ℕ
hexval c =
    if leb b'0' c && leb c b'9'
    then some (c - b'0')
    else if leb b'a' c && leb c b'f'
    then some (c - b'a' + 10)
    else if leb b'A' c && leb c b'F'
    then some (c - b'A' + 10)
    else none

pub hexval-lt : (c : ℕ) {v : ℕ} → hexval c ≡ some v → v < 16
unfolding hexval
hexval-lt c h = ground arith

scale_duration-le : (n : ℕ) (end : Bytes) → n ≤ 24855 → scale_duration n end ≤ int_max
unfolding scale_duration
scale_duration-le n end h = ground arith

duration_of-le :
    (n : ℤ) (rest : Bytes) (fallback : ℕ)
    → fallback ≤ int_max
    → duration_of n rest fallback ≤ int_max
unfolding duration_of
duration_of-le (negsuc n) rest fallback h = h
duration_of-le (pos n) rest fallback h =
    ground (arith, scale_duration-le n (drop_while isspace rest))

duration_result-le :
    (o : Option (Number ℤ)) (fallback : ℕ)
    → fallback ≤ int_max
    → duration_result o fallback ≤ int_max
unfolding duration_result
duration_result-le none fallback h = h
duration_result-le (some n) fallback h = duration_of-le n.value n.rest fallback h

-- A duration is at most `INT_MAX` if the fallback is, whatever the text says: the cast of the result
-- to `int` loses nothing.
pub parse_duration_sec-le :
    (text : Bytes) (fallback : ℕ) → fallback ≤ int_max → parse_duration_sec text fallback ≤ int_max
unfolding parse_duration_sec
parse_duration_sec-le [] fallback h = h
parse_duration_sec-le (c ∷ s) fallback h = duration_result-le (strtol (c ∷ s)) fallback h

-- A size of digits alone that is below 2^64 is its number.
pub parse_size_digits :
    (c : ℕ) (s : Bytes) (fallback : ℕ)
    → AllDigits (c ∷ s)
    → digits_value 0 (c ∷ s) < u64
    → parse_size (c ∷ s) fallback ≡ digits_value 0 (c ∷ s)
unfolding parse_size unsigned streq_ci
parse_size_digits c s fallback h fits =
    rw (strtoull_digits c s h) (ground (arith, lt→ltb (digits_value 0 (c ∷ s)) u64 fits))
