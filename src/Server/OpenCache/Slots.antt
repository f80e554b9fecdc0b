-- ===== src/Server/OpenCache/Slots.antt =====
-- The slot of the cache that the loop chooses.
use rpsiod.Prelude.{
  ℕ, suc, ◌+◌, ◌-◌, ◌≤◌, ◌<◌, true, false, Bytes, List, [], ◌∷◌, Option, some, none, arith, ◌≡◌,
  ◌⊎◌, inl, inr, Bool-cases, get_or, length, All, u64, ltb,
}
use rpsiod.Server.OpenCache.{Entry, no_entry, holds, slot_loop}

-- an entry that is in use for another path
abbrev pub Busy : Bytes → Entry → Type 0
Busy path e = (e.valid ≡ true) × (holds e path ≡ false)

-- how the loop came to a slot
pub data Chosen (es : List Entry) (path : Bytes) (j i : ℕ) (slot : Option ℕ) (oldest : ℕ)
    : Type 0 where
  reused :
      (m : ℕ)
      → j ≡ i + m
      → m < length es
      → (holds (get_or es m no_entry) path ≡ true) ⊎ ((get_or es m no_entry).valid ≡ false)
      → Chosen es path j i slot oldest
  kept :
      All (Busy path) es
      → slot ≡ some j
      → All (λ e. oldest ≤ e.last_used) es
      → Chosen es path j i slot oldest
  taken :
      (m : ℕ)
      → j ≡ i + m
      → m < length es
      → All (Busy path) es
      → (get_or es m no_entry).last_used < oldest
      → All (λ e. (get_or es m no_entry).last_used ≤ e.last_used) es
      → Chosen es path j i slot oldest

All-le_trans :
    (a b : ℕ) (es : List Entry)
    → a ≤ b
    → All (λ e. b ≤ e.last_used) es
    → All (λ e. a ≤ e.last_used) es
All-le_trans a b [] h t = tt
All-le_trans a b (e ∷ es) h (x, t) = (omega arith, All-le_trans a b es h t)

-- the loop behind an entry that is in use for another path and is older than those before
Chosen-older :
    (e : Entry) (es : List Entry) (path : Bytes) (j i : ℕ) (slot : Option ℕ) (oldest : ℕ)
    → Busy path e
    → e.last_used < oldest
    → Chosen es path j (i + 1) (some i) e.last_used
    → Chosen (e ∷ es) path j i slot oldest
Chosen-older e es path j i slot oldest b older (reused m at lt why) =
    reused (suc m) (omega arith) (omega arith) why
Chosen-older e es path j i slot oldest b older (kept busy same least) =
    taken 0 (ground arith) (omega arith) (b, busy) older (omega arith, least)
Chosen-older e es path j i slot oldest b older (taken m at lt busy less least) =
    taken (suc m) (omega arith) (omega arith) (b, busy) (omega arith) (omega arith, least)

Chosen-newer :
    (e : Entry) (es : List Entry) (path : Bytes) (j i : ℕ) (slot : Option ℕ) (oldest : ℕ)
    → Busy path e
    → oldest ≤ e.last_used
    → Chosen es path j (i + 1) slot oldest
    → Chosen (e ∷ es) path j i slot oldest
Chosen-newer e es path j i slot oldest b newer (reused m at lt why) =
    reused (suc m) (omega arith) (omega arith) why
Chosen-newer e es path j i slot oldest b newer (kept busy same least) =
    kept (b, busy) same (newer, least)
Chosen-newer e es path j i slot oldest b newer (taken m at lt busy less least) =
    taken (suc m) (omega arith) (omega arith) (b, busy) less (omega arith, least)

pub slot_loop-Chosen :
    (i : ℕ) (es : List Entry) (path : Bytes) (slot : Option ℕ) (oldest j : ℕ)
    → slot_loop i es path slot oldest ≡ some j
    → Chosen es path j i slot oldest
unfolding slot_loop
slot_loop-Chosen i [] path slot oldest j h = kept tt h tt
slot_loop-Chosen i (e ∷ es) path slot oldest j h = elim (Bool-cases (holds e path)) [
  | inl same ↦ reused 0 (ground arith) (omega arith) (inl same)
  | inr other ↦ elim (Bool-cases e.valid) [
    | inr free ↦ reused 0 (ground arith) (omega arith) (inr free)
    | inl busy ↦ elim (Bool-cases (ltb e.last_used oldest)) [
      | inl older ↦
          Chosen-older e es path j i slot oldest (busy, other) (ground arith)
            (slot_loop-Chosen (i + 1) es path (some i) e.last_used j (ground arith))
      | inr newer ↦
          Chosen-newer e es path j i slot oldest (busy, other) (ground arith)
            (slot_loop-Chosen (i + 1) es path slot oldest j (ground arith))
    ]
  ]
]

not_reused :
    (e : Entry) (path : Bytes)
    → (holds e path ≡ true) ⊎ (e.valid ≡ false)
    → e.valid ≡ true
    → holds e path ≡ false
    → ⊥
not_reused e path why v o = ground arith

victim :
    (es : List Entry) (path : Bytes) (j : ℕ)
    → Chosen es path j 0 none (u64 - 1)
    → (get_or es j no_entry).valid ≡ true
    → holds (get_or es j no_entry) path ≡ false
    → All (Busy path) es × All (λ e. (get_or es j no_entry).last_used ≤ e.last_used) es
victim es path j (reused m at lt why) v o =
    let same : j ≡ m = omega arith in
    absurd (not_reused (get_or es j no_entry) path (rw same why) v o)
victim es path j (kept busy same least) v o = absurd (cc)
victim es path j (taken m at lt busy less least) v o =
    let same : m ≡ j = omega arith in (busy, rw (← same) least)

-- A slot that is in use for another path is given up only where every slot is, and then it is one
-- that was used longest ago.
pub slot_loop_victim :
    (es : List Entry) (path : Bytes) (j : ℕ)
    → slot_loop 0 es path none (u64 - 1) ≡ some j
    → (get_or es j no_entry).valid ≡ true
    → holds (get_or es j no_entry) path ≡ false
    → All (Busy path) es × All (λ e. (get_or es j no_entry).last_used ≤ e.last_used) es
slot_loop_victim es path j h = victim es path j (slot_loop-Chosen 0 es path none (u64 - 1) j h)
