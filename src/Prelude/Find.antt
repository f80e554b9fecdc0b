-- ===== src/Prelude/Find.antt =====
-- What `memmem` finds: the first occurrence, if there is one, whatever stands behind it.
use Prim.Native.Nat.{ℕ, ◌≤◌}
use mathlib.Core.Path.{◌≡◌, refl, sym, ap, ◌∙◌}
use mathlib.Core.Logic.{◌≢◌, inl, inr}
use mathlib.Core.Bool.{true, false}
use mathlib.Core.Option.{Option, none, some}
use mathlib.Core.List.{[], ◌∷◌, ◌++◌}
use native.Mathlib.Omega.{arith}
use rpsiod.Prelude.Tests.{Bool-cases}
use rpsiod.Prelude.Lists.{length, length-append}
use rpsiod.Prelude.Text.{
  Bytes, is_prefix, is_prefix_iff, find, find_sound, prepend, prepend-eq-some, prepend-eq-none,
}

is_prefix-length : (p s : Bytes) → is_prefix p s ≡ true → length p ≤ length s
unfolding is_prefix
is_prefix-length [] s h = omega arith
is_prefix-length (x ∷ p) [] h = absurd (cc)
is_prefix-length (x ∷ p) (y ∷ s) h = ground (arith, is_prefix-length p s)

is_prefix-append : (p s e : Bytes) → length p ≤ length s → is_prefix p (s ++ e) ≡ is_prefix p s
unfolding is_prefix
is_prefix-append [] s e h = refl
is_prefix-append (x ∷ p) [] e h = absurd (omega arith)
is_prefix-append (x ∷ p) (y ∷ s) e h = rw (is_prefix-append p s e (omega arith))

pub find-length-le : (p s : Bytes) {a b : Bytes} → find p s ≡ some (a, b) → length p ≤ length s
find-length-le p s {a} {b} h =
    let (e, q) = find_sound p s h in rw e (omega (arith, length-append a b, is_prefix-length p b q))

find_here : (p s : Bytes) → is_prefix p s ≡ true → find p s ≡ some ([], s)
unfolding find
find_here p [] h = rw h refl
find_here p (y ∷ s) h = rw h refl

find_later :
    (p : Bytes) (y : ℕ) (s : Bytes)
    → is_prefix p (y ∷ s) ≡ false
    → find p (y ∷ s) ≡ prepend y (find p s)
unfolding find
find_later p y s h = rw h refl

split_here :
    (s e : Bytes) {a b : Bytes}
    → ◌≡◌ {A = Option (Bytes × Bytes)} (some ([], s)) (some (a, b))
    → ◌≡◌ {A = Option (Bytes × Bytes)} (some ([], s ++ e)) (some (a, b ++ e))
split_here s e h = ground arith

-- More text behind changes nothing of what was found.
pub find-append :
    (p s e : Bytes) {a b : Bytes} → find p s ≡ some (a, b) → find p (s ++ e) ≡ some (a, b ++ e)
find-append [] [] e h = find_here [] e (unfold is_prefix in refl) ∙ (unfold find in ground arith)
find-append (x ∷ p) [] e h = absurd (unfold find in cc)
find-append p (y ∷ s) e {a} {b} h = elim (Bool-cases (is_prefix p (y ∷ s))) [
  | inl q ↦
      let same = is_prefix-append p (y ∷ s) e (is_prefix-length p (y ∷ s) q) in
      find_here p ((y ∷ s) ++ e) (same ∙ q) ∙ split_here (y ∷ s) e (sym (find_here p (y ∷ s) q) ∙ h)
  | inr q ↦
      let (a', ea, found) = prepend-eq-some y (find p s) (sym (find_later p y s q) ∙ h) in
      let same = is_prefix-append p (y ∷ s) e (find-length-le p (y ∷ s) h) in
      find_later p y (s ++ e) (same ∙ q) ∙ ap (prepend y) (find-append p s e found) ∙ ground arith
]

prefix-append : (p b : Bytes) → is_prefix p (p ++ b) ≡ true
prefix-append p b = (is_prefix_iff p (p ++ b)).1 (b, refl)

some-ne-none {ℓ} : {A : Type ℓ} (o : Option A) {a : A} → o ≡ some a → o ≢ none
some-ne-none o p q = cc

-- Where nothing is found the text holds no occurrence.
pub find-ne-none : (p a b : Bytes) → find p (a ++ (p ++ b)) ≢ none
find-ne-none p [] b h = absurd (some-ne-none _ (find_here p (p ++ b) (prefix-append p b)) h)
find-ne-none p (x ∷ a) b h = elim (Bool-cases (is_prefix p (x ∷ (a ++ (p ++ b))))) [
  | inl q ↦ some-ne-none _ (find_here p _ q) h
  | inr q ↦ find-ne-none p a b (prepend-eq-none x _ (sym (find_later p x (a ++ (p ++ b)) q) ∙ h))
]

nothing_before :
    (a b s : Bytes) → ◌≡◌ {A = Option (Bytes × Bytes)} (some ([], s)) (some (a, b)) → length a ≤ 0
nothing_before a b s h = ground arith

-- What is found is the first occurrence.
pub find-first :
    (p u v : Bytes) {a b : Bytes} → find p (u ++ (p ++ v)) ≡ some (a, b) → length a ≤ length u
find-first p [] v {a} {b} h =
    let here : ◌≡◌ {A = Option (Bytes × Bytes)} (some ([], p ++ v)) (some (a, b)) =
      sym (find_here p (p ++ v) (prefix-append p v)) ∙ h in
    nothing_before a b (p ++ v) here
find-first p (x ∷ u) v {a} {b} h = elim (Bool-cases (is_prefix p (x ∷ (u ++ (p ++ v))))) [
  | inl q ↦ omega (arith, nothing_before a b _ (sym (find_here p (x ∷ (u ++ (p ++ v))) q) ∙ h))
  | inr q ↦
      let (a', ea, found) = prepend-eq-some x _ (sym (find_later p x (u ++ (p ++ v)) q) ∙ h) in
      rw ea (omega (arith, find-first p u v found))
]
