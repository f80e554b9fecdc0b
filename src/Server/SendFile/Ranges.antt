-- ===== src/Server/SendFile/Ranges.antt =====
-- Which bytes of a file a range is.
use rpsiod.Prelude.{
  ℕ, ◌+◌, ◌-◌, ◌<◌, ◌≤◌, Bool, true, false, not, Option, some, none, leb, ltb, ◌==◌, if◌then◌else◌,
  ◌≡◌, ◌↔◌, ◌⊎◌, arith, Bool-cases, Option-cases, inl, inr,
}
use rpsiod.Http.Values.{Range}
use rpsiod.Server.SendFile.{resolve_range}

-- the bytes that a range of the request names: the last ones, or those from a start on, up to an end
abbrev pub asked : ℕ → Range → ℕ → Bool
asked total r i =
    if r.range_suffix
    then leb total (i + r.range_start)
    else if not (leb r.range_start i)
    then false
    else if r.range_has_end
    then leb i r.range_end
    else true

-- the bytes of a resolved range
abbrev pub Covers : Option (ℕ × ℕ) → ℕ → Type 0
Covers none i = ⊥
Covers (some (first, last)) i = (first ≤ i) × (i ≤ last)

resolved :
    (total : ℕ) (r : Range) (i : ℕ)
    → Covers (resolve_range total r) i ↔ ((i < total) × (asked total r i ≡ true))
unfolding resolve_range
resolved total r i = elim (Bool-cases (total == 0)) [
  | inl z ↦ rw z (ground arith)
  | inr z ↦ elim (Bool-cases r.range_suffix) [
    | inl s ↦ elim (Bool-cases (leb total r.range_start)) [
      | inl b ↦ rw (z, s, b) (ground arith)
      | inr b ↦ rw (z, s, b) (ground arith)
    ]
    | inr s ↦ elim (Bool-cases (leb total r.range_start)) [
      | inl b ↦ rw (z, s, b) (ground arith)
      | inr b ↦ elim (Bool-cases r.range_has_end) [
        | inr e ↦ elim (Bool-cases (ltb (total - 1) r.range_start)) [
          | inl l ↦ rw (z, s, b, e, l) (ground arith)
          | inr l ↦ rw (z, s, b, e, l) (ground arith)
        ]
        | inl e ↦ elim (Bool-cases (leb total r.range_end)) [
          | inl t ↦ elim (Bool-cases (ltb (total - 1) r.range_start)) [
            | inl l ↦ rw (z, s, b, e, t, l) (ground arith)
            | inr l ↦ rw (z, s, b, e, t, l) (ground arith)
          ]
          | inr t ↦ elim (Bool-cases (ltb r.range_end r.range_start)) [
            | inl l ↦ rw (z, s, b, e, t, l) (ground arith)
            | inr l ↦ rw (z, s, b, e, t, l) (ground arith)
          ]
        ]
      ]
    ]
  ]
]

-- what is resolved to has a first byte
in_order :
    (total : ℕ) (r : Range) (first last : ℕ)
    → (r.range_suffix ≡ true → 0 < r.range_start)
    → resolve_range total r ≡ some (first, last)
    → first ≤ last
unfolding resolve_range
in_order total r first last h e = ground arith

resolved_some :
    (total : ℕ) (r : Range)
    → (r.range_suffix ≡ true → 0 < r.range_start)
    → (resolve_range total r ≡ none) ⊎ ((i : ℕ) × Covers (resolve_range total r) i)
resolved_some total r h = elim (Option-cases (resolve_range total r)) [
  | inl q ↦ inl q
  | inr ((first, last), q) ↦ inr (first, rw q (omega arith, in_order total r first last h q))
]

-- Where a range of the last bytes asks for one at least, a range is resolved to exactly the bytes of the file that
-- it names, and is refused exactly where it names none.
pub resolve_range_iff :
    (total : ℕ) (r : Range) (i : ℕ)
    → (r.range_suffix ≡ true → 0 < r.range_start)
    → (Covers (resolve_range total r) i ↔ ((i < total) × (asked total r i ≡ true)))
      × ((resolve_range total r ≡ none) ↔ ¬ ((j : ℕ) × (j < total) × (asked total r j ≡ true)))
resolve_range_iff total r i h = (
  resolved total r i,
  (
    λ e (j, seen, names). rw e at ((resolved total r j).1 (seen, names)),
    λ k. elim (resolved_some total r h) [
      | inl e ↦ e
      | inr (j, c) ↦ absurd (k (j, ((resolved total r j).0 c).0, ((resolved total r j).0 c).1))
    ],
  ),
)
