-- ===== src/Prelude/Text.antt =====
-- C strings as lists of bytes, without their terminating NUL, and the functions of the C library
-- that the program calls on them.
use Prim.Native.Nat.{ℕ, ◌+◌}
use Prim.Native.Char.{code}
use Prim.Native.String.{String}
use mathlib.Core.Path.{◌≡◌, refl, ap}
use mathlib.Core.Logic.{◌≢◌, ◌↔◌, inl, inr}
use mathlib.Core.Bool.{Bool, true, false, ◌&&◌, ◌||◌}
use mathlib.Core.Option.{Option, none, some}
use mathlib.Core.List.{List, [], ◌∷◌, ◌++◌}
use native.Mathlib.Omega.{arith}
use rpsiod.Prelude.Tests.{leb, ◌==◌, if◌then◌else◌, Bool-cases, Option-cases, &&-true}
use rpsiod.Prelude.Lists.{All}

abbrev pub Bytes : Type 0
Bytes = List ℕ

-- The bytes of an ASCII literal.
abbrev pub codes : String → Bytes
codes String.[] = []
codes (String.◌∷◌ c s) = code c ∷ codes s

-- `tolower` in the C locale.
abbrev pub tolower : ℕ → ℕ
tolower c = if leb b'A' c && leb c b'Z' then c + 32 else c

-- `isspace` in the C locale.
abbrev pub isspace : ℕ → Bool
isspace c = c == 32 || leb 9 c && leb c 13

abbrev pub isdigit : ℕ → Bool
isdigit c = leb b'0' c && leb c b'9'

-- `strcmp(a, b) == 0`.
unfoldable pub str_eq : Bytes → Bytes → Bool
str_eq [] [] = true
str_eq (x ∷ xs) (y ∷ ys) = x == y && str_eq xs ys
str_eq _ _ = false

-- A split of the tail, moved to the whole list.
abbrev pub prepend : ℕ → Option (Bytes × Bytes) → Option (Bytes × Bytes)
prepend x none = none
prepend x (some (a, b)) = some (x ∷ a, b)

-- `strchr` and `memchr`: what precedes the first `c`, and what follows it.
unfoldable pub split_at : ℕ → Bytes → Option (Bytes × Bytes)
split_at c [] = none
split_at c (x ∷ xs) = if x == c then some ([], xs) else prepend x (split_at c xs)

-- `strrchr`: what precedes the last `c`, and what follows it.
unfoldable pub split_at_last : ℕ → Bytes → Option (Bytes × Bytes)
split_at_last c [] = none
split_at_last c (x ∷ xs) = elim (split_at_last c xs) [
  | some (a, b) ↦ some (x ∷ a, b)
  | none ↦ if x == c then some ([], xs) else none
]

-- `strchr(s, c) != NULL`.
unfoldable pub has_byte : ℕ → Bytes → Bool
has_byte c [] = false
has_byte c (x ∷ xs) = x == c || has_byte c xs

-- `strncmp(s, prefix, strlen(prefix)) == 0`.
unfoldable pub is_prefix : Bytes → Bytes → Bool
is_prefix [] s = true
is_prefix (p ∷ ps) [] = false
is_prefix (p ∷ ps) (c ∷ s) = p == c && is_prefix ps s

-- `memmem` and `strstr`: what precedes the first occurrence of the needle, and the text from it on.
unfoldable pub find : Bytes → Bytes → Option (Bytes × Bytes)
unfolding is_prefix
find needle [] = if is_prefix needle [] then some ([], []) else none
find needle (x ∷ xs) =
    if is_prefix needle (x ∷ xs) then some ([], x ∷ xs) else prepend x (find needle xs)

pub str_eq_iff : (a b : Bytes) → (str_eq a b ≡ true) ↔ (a ≡ b)
unfolding str_eq
str_eq_iff (x ∷ a) (y ∷ b) = ground (arith, str_eq_iff a b)
str_eq_iff _ _ = ground arith

abbrev pub Lacks : ℕ → Bytes → Type 0
Lacks c = All (λ x. x ≢ c)

-- Inversion of `prepend`.
pub prepend-eq-some :
    (x : ℕ) (o : Option (Bytes × Bytes)) {a b : Bytes}
    → prepend x o ≡ some (a, b)
    → (a' : Bytes) × (a ≡ x ∷ a') × (o ≡ some (a', b))
prepend-eq-some x none h = cc
prepend-eq-some x (some (a', b')) h = (a', ground arith, ground arith)

pub prepend-eq-none : (x : ℕ) (o : Option (Bytes × Bytes)) → prepend x o ≡ none → o ≡ none
prepend-eq-none x none h = refl
prepend-eq-none x (some (a, b)) h = absurd (cc)

pub split_at_sound :
    (c : ℕ) (s : Bytes) {a b : Bytes} → split_at c s ≡ some (a, b) → (s ≡ a ++ c ∷ b) × Lacks c a
unfolding split_at
split_at_sound c [] h = absurd (cc)
split_at_sound c (x ∷ xs) {a} {b} h = elim (Bool-cases (x == c)) [
  | inl e ↦ ground arith
  | inr e ↦
      let (a', ea, found) = prepend-eq-some x (split_at c xs) (rw e at h) in
      let (es, lacks) = split_at_sound c xs found in rw ea (ap (◌∷◌ x) es, (ground arith, lacks))
]

pub split_at-none : (c : ℕ) (s : Bytes) → split_at c s ≡ none → Lacks c s
unfolding split_at
split_at-none c [] h = tt
split_at-none c (x ∷ xs) h = elim (Bool-cases (x == c)) [
  | inl e ↦ absurd (cc (rw e at h))
  | inr e ↦ (ground arith, split_at-none c xs (prepend-eq-none x _ (rw e at h)))
]

pub split_at-append : (c : ℕ) (a b : Bytes) → Lacks c a → split_at c (a ++ c ∷ b) ≡ some (a, b)
unfolding split_at
split_at-append c [] b h = ground arith
split_at-append c (x ∷ a) b (hx, h) = ground (arith, split_at-append c a b h)

pub is_prefix_iff : (p s : Bytes) → (is_prefix p s ≡ true) ↔ ((r : Bytes) × (s ≡ p ++ r))
unfolding is_prefix
is_prefix_iff [] s = (λ _. (s, refl), λ _. refl)
is_prefix_iff (p ∷ ps) [] = (λ h. absurd (cc), λ h. absurd (cc (h.1)))
is_prefix_iff (p ∷ ps) (c ∷ s) = (
  λ h.
      let (e, t) = &&-true (p == c) (is_prefix ps s) h in
      let (r, q) = (is_prefix_iff ps s).0 t in (r, ground arith),
  λ (r, q). ground (arith, (is_prefix_iff ps s).1 (r, ground arith)),
)

pub find_sound :
    (needle s : Bytes) {a b : Bytes}
    → find needle s ≡ some (a, b)
    → (s ≡ a ++ b) × (is_prefix needle b ≡ true)
unfolding find
find_sound needle [] h = elim (Bool-cases (is_prefix needle [])) [
  | inl e ↦ ground arith
  | inr e ↦ absurd (cc (rw e at h))
]
find_sound needle (x ∷ xs) {a} {b} h = elim (Bool-cases (is_prefix needle (x ∷ xs))) [
  | inl e ↦ ground arith
  | inr e ↦
      let (a', ea, found) = prepend-eq-some x (find needle xs) (rw e at h) in
      let (es, p) = find_sound needle xs found in rw ea (ap (◌∷◌ x) es, p)
]

last_case :
    (x c : ℕ) (xs : Bytes) {a b : Bytes}
    → split_at_last c xs ≡ none
    → split_at_last c (x ∷ xs) ≡ some (a, b)
    → (x ∷ xs ≡ a ++ c ∷ b)
unfolding split_at_last
last_case x c xs e h = ground arith

last_cons :
    (x c : ℕ) (xs : Bytes) {a' b' a b : Bytes}
    → split_at_last c xs ≡ some (a', b')
    → split_at_last c (x ∷ xs) ≡ some (a, b)
    → (a ≡ x ∷ a') × (b ≡ b')
unfolding split_at_last
last_cons x c xs e h = ground arith

pub split_at_last_sound :
    (c : ℕ) (s : Bytes) {a b : Bytes} → split_at_last c s ≡ some (a, b) → s ≡ a ++ c ∷ b
unfolding split_at_last
split_at_last_sound c [] h = absurd (cc)
split_at_last_sound c (x ∷ xs) {a} {b} h = elim (Option-cases (split_at_last c xs)) [
  | inl e ↦ last_case x c xs e h
  | inr ((a', b'), e) ↦
      let (ea, eb) = last_cons x c xs e h in let ih = split_at_last_sound c xs e in cc
]
