-- ===== src/Util/Strings.antt =====
-- src/util.c: comparison, copying and trimming of C strings. A `char *` argument is the bytes before
-- its NUL; a NULL argument does not occur at the call sites that are modelled.
use rpsiod.Prelude.{
  ℕ, ◌-◌, ◌<◌, Bool, true, false, ◌&&◌, ◌||◌, not, Bytes, [], ◌∷◌, ◌++◌, map, ◌≡◌, refl, ◌↔◌, some,
  none, arith, leb, ◌==◌, if◌then◌else◌, tolower, isspace, length, take, drop, get_or, drop_while,
  drop_end, is_prefix, split_at, split_at_last, length-take-le, take-eq_of_le,
}

-- `rpsiod_streq_ci`
unfoldable pub streq_ci : Bytes → Bytes → Bool
streq_ci [] [] = true
streq_ci (a ∷ s) (b ∷ t) = if not (tolower a == tolower b) then false else streq_ci s t
streq_ci _ _ = false

-- `rpsiod_starts_with`
unfoldable pub starts_with : Bytes → Bytes → Bool
unfolding is_prefix
starts_with s prefix = is_prefix prefix s

-- `rpsiod_safe_copy`: `snprintf` writes at most `dst_len - 1` bytes and the NUL. Nothing is written
-- where `dst_len` is 0, which no caller passes.
unfoldable pub safe_copy : ℕ → Bytes → Bytes
safe_copy dst_len src = take (dst_len - 1) src

-- `s[i]`, which is the NUL behind the last byte
abbrev pub char_at : Bytes → ℕ → ℕ
char_at s i = get_or s i 0

-- the two quotes that `rpsiod_trim` takes off: the first and the last byte, alike
is_quoted : Bytes → Bool
is_quoted s =
    let len = length s in
    leb 2 len
    && (char_at s 0 == b'"' && char_at s (len - 1) == b'"'
        || char_at s 0 == b'\'' && char_at s (len - 1) == b'\'')

-- `rpsiod_trim`
unfoldable pub trim : Bytes → Bytes
unfolding is_quoted
trim s =
    let t = drop_end isspace (drop_while isspace s) in
    if is_quoted t then take (length t - 2) (drop 1 t) else t

is_host_space : ℕ → Bool
is_host_space c = c == 32 || c == 9 || c == 13 || c == 10

-- the text before the first byte that passes the test (`strpbrk`)
unfoldable pub cut_before : (ℕ → Bool) → Bytes → Bytes
cut_before test [] = []
cut_before test (c ∷ s) = if test c then [] else c ∷ cut_before test s

-- `[v6]` up to its bracket, else the text before the last colon
strip_port_of : Bytes → Bytes
strip_port_of [] = []
strip_port_of (c ∷ s) =
    if c == b'['
    then elim (split_at b']' (c ∷ s)) [ some (a, b) ↦ a ++ b']' ∷ [] | none ↦ c ∷ s ]
    else elim (split_at_last b':' (c ∷ s)) [ some (a, b) ↦ a | none ↦ c ∷ s ]

-- `rpsiod_strip_port`
unfoldable pub strip_port : Bytes → Bytes
unfolding is_host_space cut_before strip_port_of
strip_port host = strip_port_of (cut_before is_host_space host)

-- The comparison is equality of the texts in lower case.
pub streq_ci_iff : (a b : Bytes) → (streq_ci a b ≡ true) ↔ (map tolower a ≡ map tolower b)
unfolding streq_ci
streq_ci_iff [] [] = (λ _. refl, λ _. refl)
streq_ci_iff [] (b ∷ t) = ground arith
streq_ci_iff (a ∷ s) [] = ground arith
streq_ci_iff (a ∷ s) (b ∷ t) = ground (arith, streq_ci_iff s t)

pub streq_ci_refl : (a : Bytes) → streq_ci a a ≡ true
streq_ci_refl a = (streq_ci_iff a a).1 refl

-- A copy is the source where it fits, and always leaves room for the NUL.
pub safe_copy_bounds :
    (n : ℕ) (s : Bytes) → 0 < n → (length (safe_copy n s) < n) × (length s < n → safe_copy n s ≡ s)
unfolding safe_copy
safe_copy_bounds n s h =
    (omega (arith, length-take-le (n - 1) s), λ fits. take-eq_of_le (n - 1) s (omega arith))
