-- ===== src/Prelude/Scan.antt =====
-- The scanning loops of the parsers: `while (test(*p)) p++`, the trimming of an end, and the cutting
-- of a text at a separator.
use Prim.Native.Nat.{ℕ, ◌≤◌}
use mathlib.Core.Path.{◌≡◌, refl}
use mathlib.Core.Logic.{inl, inr}
use mathlib.Core.Bool.{Bool, true, false, ◌||◌}
use mathlib.Core.List.{List, [], ◌∷◌, ◌++◌}
use native.Mathlib.Omega.{arith}
use rpsiod.Prelude.Tests.{◌==◌, if◌then◌else◌, Bool-cases}
use rpsiod.Prelude.Lists.{All, length}
use rpsiod.Prelude.Text.{Bytes}

module _ (test : ℕ → Bool) where
  -- what `while (test(*p)) p++` passes over
  abbrev pub take_while : Bytes → Bytes
  take_while [] = []
  take_while (c ∷ s) = if test c then c ∷ take_while s else []

  -- where it stops
  abbrev pub drop_while : Bytes → Bytes
  drop_while [] = []
  drop_while (c ∷ s) = if test c then drop_while s else c ∷ s

  -- `while (len > 0 && test(s[len - 1])) len--`
  abbrev pub drop_end : Bytes → Bytes
  drop_end [] = []
  drop_end (c ∷ s) = elim (drop_end s) [ [] ↦ if test c then [] else c ∷ [] | d ∷ t ↦ c ∷ d ∷ t ]

  pub take_while-append-drop_while : (s : Bytes) → take_while s ++ drop_while s ≡ s
  take_while-append-drop_while [] = refl
  take_while-append-drop_while (c ∷ s) = ground (arith, take_while-append-drop_while s)

  pub All-take_while : (s : Bytes) → All (λ c. test c ≡ true) (take_while s)
  All-take_while [] = tt
  All-take_while (c ∷ s) = elim (Bool-cases (test c)) [
    | inl e ↦ rw e (e, All-take_while s)
    | inr e ↦ rw e tt
  ]

  pub length-drop_while-le : (s : Bytes) → length (drop_while s) ≤ length s
  length-drop_while-le [] = omega arith
  length-drop_while-le (c ∷ s) = ground (arith, length-drop_while-le s)

  pub length-take_while-le : (s : Bytes) → length (take_while s) ≤ length s
  length-take_while-le [] = omega arith
  length-take_while-le (c ∷ s) = ground (arith, length-take_while-le s)

  pub length-drop_end-le : (s : Bytes) → length (drop_end s) ≤ length s
  length-drop_end-le [] = omega arith
  length-drop_end-le (c ∷ s) = ground (arith, length-drop_end-le s)

module _ {κ} (P : ℕ → Type κ) (test : ℕ → Bool) where
  pub All-drop_while : (s : Bytes) → All P s → All P (drop_while test s)
  All-drop_while [] h = tt
  All-drop_while (c ∷ s) (hc, h) = elim (Bool-cases (test c)) [
    | inl e ↦ rw e (All-drop_while s h)
    | inr e ↦ rw e (hc, h)
  ]

  All-drop_end_cons :
      (c : ℕ) (s t : Bytes) → drop_end test s ≡ t → P c → All P t → All P (drop_end test (c ∷ s))
  All-drop_end_cons c s [] e hc h = elim (Bool-cases (test c)) [
    | inl d ↦ rw (e, d) tt
    | inr d ↦ rw (e, d) (hc, tt)
  ]
  All-drop_end_cons c s (d ∷ t) e hc h = rw e (hc, h)

  pub All-drop_end : (s : Bytes) → All P s → All P (drop_end test s)
  All-drop_end [] h = tt
  All-drop_end (c ∷ s) (hc, h) = All-drop_end_cons c s (drop_end test s) refl hc (All-drop_end s h)

-- the bytes of a text between the separators
abbrev cons_head : ℕ → List Bytes → List Bytes
cons_head c [] = (c ∷ []) ∷ []
cons_head c (p ∷ ps) = (c ∷ p) ∷ ps

abbrev pub split_on : ℕ → Bytes → List Bytes
split_on sep [] = [] ∷ []
split_on sep (c ∷ s) = if c == sep then [] ∷ split_on sep s else cons_head c (split_on sep s)

module _ (P : Bytes → Bool) where
  abbrev pub any : List Bytes → Bool
  any [] = false
  any (p ∷ ps) = P p || any ps
