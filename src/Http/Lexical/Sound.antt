-- ===== src/Http/Lexical/Sound.antt =====
-- What the tests on the bytes of a request establish.
use rpsiod.Prelude.{
  ℕ, ◌<◌, Bool, true, Bytes, [], ◌∷◌, ◌≡◌, refl, some, arith, length, All, All-drop_while,
  All-drop_end, drop_while, drop_end,
}
use rpsiod.Http.Lexical.{
  all, valid_method, valid_token_char, target_char, valid_request_target_bytes, copy_trimmed_value,
  is_blank, path_len,
}

abbrev pub Holds : (ℕ → Bool) → Bytes → Type 0
Holds test = All (λ c. test c ≡ true)

pub all-Holds : (test : ℕ → Bool) (s : Bytes) → all test s ≡ true → Holds test s
all-Holds test [] h = tt
all-Holds test (c ∷ s) h = ground (arith, all-Holds test s)

pub Holds-all : (test : ℕ → Bool) (s : Bytes) → Holds test s → all test s ≡ true
Holds-all test [] h = refl
Holds-all test (c ∷ s) (hc, h) = rw (hc, Holds-all test s h)

pub copy_trimmed_value_sound :
    (n : ℕ) (v : Bytes) {t : Bytes}
    → copy_trimmed_value n v ≡ some t
    → (t ≡ drop_end is_blank (drop_while is_blank v)) × (length t < n)
unfolding copy_trimmed_value
copy_trimmed_value_sound n v e = ground arith

pub copy_trimmed_value-Holds :
    (test : ℕ → Bool) (n : ℕ) (v : Bytes) {t : Bytes}
    → copy_trimmed_value n v ≡ some t
    → Holds test v
    → Holds test t
copy_trimmed_value-Holds test n v e h = rw ((copy_trimmed_value_sound n v e).0) (
    All-drop_end (λ c. test c ≡ true) is_blank _ (All-drop_while (λ c. test c ≡ true) is_blank v h))

-- a method that is accepted is a token that fits its buffer
pub valid_method_sound :
    (m : Bytes)
    → valid_method m ≡ true
    → (0 < length m) × (length m < 16) × Holds valid_token_char m
unfolding valid_method
valid_method_sound m h = ground (arith, all-Holds valid_token_char m)

pub valid_request_target_bytes_sound :
    (t : Bytes)
    → valid_request_target_bytes t ≡ true
    → (0 < length t) × (length t < path_len) × Holds target_char t
unfolding valid_request_target_bytes
valid_request_target_bytes_sound t h = ground (arith, all-Holds target_char t)
