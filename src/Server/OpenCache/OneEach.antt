-- ===== src/Server/OpenCache/OneEach.antt =====
-- No path stands in two slots of the cache.
use mathlib.Core.Path.{subst}
use rpsiod.Prelude.{
  ℕ, zero, suc, ◌+◌, ◌-◌, ◌≤◌, ◌<◌, Bool, true, false, ◌||◌, not, Bytes, List, [], ◌∷◌, Option,
  some, none, arith, ◌≡◌, ◌≢◌, ◌⊎◌, inl, inr, refl, sym, ap, ◌∙◌, Bool-cases, Option-cases, take,
  get_or, set, length, u64, str_eq_iff, get_or-set_self, get_or-set_ne, length-set,
}
use rpsiod.Util.Strings.{safe_copy_bounds}
use rpsiod.Config.Site.{Site, Config}
use rpsiod.Server.Files.{FileSystem, Opened, failed, no_stat, file, Stat, is_regular}
use rpsiod.Server.OpenCache.{
  Entry, no_entry, OpenCache, holds, find_entry, slot_loop, cache_limit, cache_slots, refresh,
  refresh_found, open_cache_lookup, open_fresh, open_cached, open_static_path, open_cache_store,
  fill_slot, fill_found, new_entry, drop_entry, next_tick, entry_of, cache_off, same_file,
}
use rpsiod.Server.OpenCache.Slots.{Chosen, reused, kept, taken, slot_loop-Chosen}

abbrev slot_of : List Entry → ℕ → Entry
slot_of es k = get_or es k no_entry

abbrev Distinct : ℕ → List Entry → Type 0
Distinct n es =
    (i j : ℕ)
    → i < n
    → j < n
    → (slot_of es i).valid ≡ true
    → (slot_of es j).valid ≡ true
    → (slot_of es i).relative_path ≡ (slot_of es j).relative_path
    → i ≡ j

-- no slot below `n` holds the path
abbrev Absent : ℕ → Bytes → List Entry → Type 0
Absent n path es =
    (k : ℕ) → k < n → (slot_of es k).valid ≡ true → (slot_of es k).relative_path ≢ path

ℕ-cases : (a b : ℕ) → (a ≡ b) ⊎ (a ≢ b)
ℕ-cases a b = omega arith

-- One slot is written.
module _ (n : ℕ) (es : List Entry) (i : ℕ) (v : Entry) (inside : i < length es)
    (fresh : (k : ℕ)
      → k < n
      → k ≢ i
      → v.valid ≡ true
      → (slot_of es k).valid ≡ true
      → (slot_of es k).relative_path ≢ v.relative_path) where
  written : (k : ℕ) → k ≡ i → slot_of (set es i v) k ≡ v
  written k p = rw p (get_or-set_self es i v no_entry inside)

  left : (k : ℕ) → k ≢ i → slot_of (set es i v) k ≡ slot_of es k
  left k p = get_or-set_ne es i k v no_entry (λ q. p (sym q))

  clash :
      (a b : ℕ)
      → a ≡ i
      → b ≢ i
      → b < n
      → (slot_of (set es i v) a).valid ≡ true
      → (slot_of (set es i v) b).valid ≡ true
      → (slot_of (set es i v) a).relative_path ≢ (slot_of (set es i v) b).relative_path
  clash a b p q hb va vb e =
      let w = written a p in
      let l = left b q in
      fresh b hb q (ap (λ x. x.valid) (sym w) ∙ va) (ap (λ x. x.valid) (sym l) ∙ vb)
        (ap (λ x. x.relative_path) (sym l) ∙ sym e ∙ ap (λ x. x.relative_path) w)

  Distinct-set : Distinct n es → Distinct n (set es i v)
  Distinct-set d a b ha hb va vb e = elim (ℕ-cases a i) [
    | inl p ↦ elim (ℕ-cases b i) [ inl q ↦ p ∙ sym q | inr q ↦ absurd (clash a b p q hb va vb e) ]
    | inr p ↦ elim (ℕ-cases b i) [
      | inl q ↦ absurd (clash b a q p ha vb va (sym e))
      | inr q ↦
          let l = left a p in
          let r = left b q in
          d a b ha hb (ap (λ x. x.valid) (sym l) ∙ va) (ap (λ x. x.valid) (sym r) ∙ vb)
            (ap (λ x. x.relative_path) (sym l) ∙ e ∙ ap (λ x. x.relative_path) r)
    ]
  ]

get_or-take : (n : ℕ) (es : List Entry) (k : ℕ) → k < n → slot_of (take n es) k ≡ slot_of es k
get_or-take zero es k h = elim h [ ]
get_or-take (suc n) [] k h = refl
get_or-take (suc n) (e ∷ es) zero h = refl
get_or-take (suc n) (e ∷ es) (suc k) h = get_or-take n es k (omega arith)

length-take : (n : ℕ) (es : List Entry) → n ≤ length es → length (take n es) ≡ n
length-take zero es h = refl
length-take (suc n) [] h = elim h [ ]
length-take (suc n) (e ∷ es) h = ap suc (length-take n es (omega arith))

absent_cons :
    (e : Entry) (es : List Entry) (path : Bytes)
    → holds e path ≡ false
    → ((k : ℕ) → k < length es → holds (slot_of es k) path ≡ false)
    → (k : ℕ) → k < suc (length es)
    → holds (slot_of (e ∷ es) k) path ≡ false
absent_cons e es path other absent zero h = other
absent_cons e es path other absent (suc k) h = absent k (omega arith)

-- the entry that is found, or that there is none
find_entry_lem :
    (i : ℕ) (es : List Entry) (path : Bytes)
    → ((find_entry i es path ≡ none)
        × ((k : ℕ) → k < length es → holds (slot_of es k) path ≡ false))
      ⊎ ((m : ℕ) × (find_entry i es path ≡ some (i + m))
          × (m < length es)
          × (holds (slot_of es m) path ≡ true))
unfolding find_entry
find_entry_lem i [] path = inl (refl, λ k h. absurd (omega arith))
find_entry_lem i (e ∷ es) path = elim (Bool-cases (holds e path)) [
  | inl same ↦ inr (0, ground arith, omega arith, same)
  | inr other ↦ elim (find_entry_lem (i + 1) es path) [
    | inl (q, absent) ↦ inl (ground arith, absent_cons e es path other absent)
    | inr (m, q, inside, at) ↦ inr (suc m, ground arith, omega arith, at)
  ]
]

-- what holds of the cache between two requests
pub record OneEach (cfg : Config) (c : OpenCache) : Type 0 where
  pub size : length c.entries ≡ cache_slots
  pub distinct : Distinct (cache_limit cfg) c.entries

limit-le : (cfg : Config) → cache_limit cfg ≤ 256
unfolding cache_limit
limit-le cfg = ground arith

not_held :
    (e : Entry) (path : Bytes) → holds e path ≡ false → e.valid ≡ true → e.relative_path ≢ path
not_held e path h v p = ground (arith, str_eq_iff e.relative_path path)

held :
    (e : Entry) (path : Bytes) → holds e path ≡ true → (e.valid ≡ true) × (e.relative_path ≡ path)
held e path h = ground (arith, str_eq_iff e.relative_path path)

-- An entry is emptied.
module _ (cfg : Config) (c : OpenCache) (i : ℕ) (inside : i < length c.entries)
    (o : OneEach cfg c) where
  drop_entry-OneEach : OneEach cfg (drop_entry c i)
  unfolding drop_entry
  drop_entry-OneEach = record {
    size = length-set c.entries i no_entry ∙ o.size;
    distinct =
        Distinct-set (cache_limit cfg) c.entries i no_entry inside (λ k a b v. absurd (cc))
          o.distinct;
  }

  drop_entry-Absent :
      (path : Bytes)
      → i < cache_limit cfg
      → holds (slot_of c.entries i) path ≡ true
      → Absent (cache_limit cfg) path (drop_entry c i).entries
  unfolding drop_entry
  drop_entry-Absent path il h k hk v e = elim (ℕ-cases k i) [
    | inl p ↦
        let w : slot_of (set c.entries i no_entry) k ≡ no_entry =
          rw p (get_or-set_self c.entries i no_entry no_entry inside) in
        cc (w, v)
    | inr p ↦
        let l = get_or-set_ne c.entries i k no_entry no_entry (λ q. p (sym q)) in
        let (vi, pi) = held (slot_of c.entries i) path h in
        p (
          o.distinct k i hk il (ap (λ x. x.valid) (sym l) ∙ v) vi
            (ap (λ x. x.relative_path) (sym l) ∙ e ∙ sym pi))
  ]

  -- An entry is used: its tick changes, and that of the cache.
  touch-OneEach :
      (t : ℕ)
      → i < cache_limit cfg
      → OneEach cfg (record c {
        entries = set c.entries i (record (slot_of c.entries i) { last_used = t });
        tick = t;
      })
  touch-OneEach t il = record {
    size = length-set c.entries i _ ∙ o.size;
    distinct =
        Distinct-set (cache_limit cfg) c.entries i _ inside
          (λ k hk ne v vk e. ne (o.distinct k i hk il vk v e)) o.distinct;
  }

-- what a lookup leaves: a cache of the same kind, and where it gives nothing, no slot with the path
record Looked (cfg : Config) (path : Bytes) (r : OpenCache × Option Stat) : Type 0 where
  keeps : OneEach cfg r.0
  absent : r.1 ≡ none → Absent (cache_limit cfg) path r.0.entries

refresh-Looked :
    (cfg : Config) (c : OpenCache) (i : ℕ) (path : Bytes) (w : Opened)
    → i < length c.entries
    → i < cache_limit cfg
    → OneEach cfg c
    → holds (slot_of c.entries i) path ≡ true
    → Looked cfg path (refresh c i w)
unfolding refresh
refresh-Looked cfg c i path (failed e) inside il o h = record {
  keeps = drop_entry-OneEach cfg c i inside o;
  absent = λ _. drop_entry-Absent cfg c i inside o path il h;
}
refresh-Looked cfg c i path (no_stat e) inside il o h = record {
  keeps = drop_entry-OneEach cfg c i inside o;
  absent = λ _. drop_entry-Absent cfg c i inside o path il h;
}
refresh-Looked cfg c i path (file st) inside il o h =
    elim (Bool-cases (same_file (entry_of c i) st)) [
      | inl e ↦ rw e (record {
        keeps = touch-OneEach cfg c i inside o (next_tick c) il;
        absent = λ q. absurd (cc);
      })
      | inr e ↦ rw e (record {
        keeps = drop_entry-OneEach cfg c i inside o;
        absent = λ _. drop_entry-Absent cfg c i inside o path il h;
      })
    ]

find_entry-Looked :
    (fs : FileSystem) (cfg : Config) (c : OpenCache) (path : Bytes)
    → OneEach cfg c
    → Looked cfg path
        (refresh_found fs c path (find_entry 0 (take (cache_limit cfg) c.entries) path))
unfolding refresh_found
find_entry-Looked fs cfg c path o =
    let n = cache_limit cfg in
    let small : n ≤ length c.entries = omega (arith, limit-le cfg, o.size) in
    let len = length-take n c.entries small in
    elim (find_entry_lem 0 (take n c.entries) path) [
      | inl (q, absent) ↦ rw q (record {
        keeps = o;
        absent = λ _ k hk v.
            not_held (slot_of c.entries k) path
              (ap (λ x. holds x path) (sym (get_or-take n c.entries k hk)) ∙ absent k (omega arith))
              v;
      })
      | inr (m, q, inside, h) ↦
          let il : m < n = omega arith in
          let same : 0 + m ≡ m = omega arith in
          rw (q, same)
            (refresh-Looked cfg c m path (fs.open_below path) (omega arith) il o
              (ap (λ x. holds x path) (sym (get_or-take n c.entries m il)) ∙ h))
    ]

lookup-Looked :
    (fs : FileSystem) (cfg : Config) (site : Site) (c : OpenCache) (path : Bytes)
    → OneEach cfg c
    → cache_off cfg site path ≡ false
    → Looked cfg path (open_cache_lookup fs cfg site c path)
unfolding open_cache_lookup
lookup-Looked fs cfg site c path o on = rw on (find_entry-Looked fs cfg c path o)

-- the slot that the loop chooses is one of those that it looks at
slot_loop-lt :
    (es : List Entry) (path : Bytes) (j : ℕ)
    → slot_loop 0 es path none (u64 - 1) ≡ some j
    → j < length es
slot_loop-lt es path j h = in_range (slot_loop-Chosen 0 es path none (u64 - 1) j h)
  where
    in_range : Chosen es path j 0 none (u64 - 1) → j < length es
    in_range (reused m at lt why) = omega arith
    in_range (kept busy same least) = absurd (cc)
    in_range (taken m at lt busy less least) = omega arith

module _ (cfg : Config) (c : OpenCache) (i : ℕ) (path : Bytes) (st : Stat)
    (inside : i < length c.entries) (o : OneEach cfg c) (short : length path < 512)
    (absent : Absent (cache_limit cfg) path c.entries) where
  fill_slot-OneEach : (dup_ok : Bool) → OneEach cfg (fill_slot dup_ok (cache_limit cfg) c i path st)
  unfolding fill_slot
  fill_slot-OneEach true = record {
    size = length-set c.entries i _ ∙ o.size;
    distinct =
        Distinct-set (cache_limit cfg) c.entries i (new_entry c path st) inside
          (λ k hk ne v vk e. absent k hk vk (e ∙ (safe_copy_bounds 512 path (omega arith)).1 short))
          o.distinct;
  }
  fill_slot-OneEach false = elim (Bool-cases (entry_of c i).valid) [
    | inl e ↦ rw e (record {
      size = length-set c.entries i no_entry ∙ o.size;
      distinct =
          Distinct-set (cache_limit cfg) c.entries i no_entry inside (λ k a b v. absurd (cc))
            o.distinct;
    })
    | inr e ↦ rw e o
  ]

fill_found-OneEach :
    (cfg : Config) (c : OpenCache) (path : Bytes) (st : Stat) (dup_ok : Bool)
    → OneEach cfg c
    → length path < 512
    → Absent (cache_limit cfg) path c.entries
    → OneEach cfg (
        fill_found dup_ok
          (cache_limit cfg)
          c
          (slot_loop 0 (take (cache_limit cfg) c.entries) path none (u64 - 1))
          path
          st)
unfolding fill_found
fill_found-OneEach cfg c path st dup_ok o short absent =
    elim (Option-cases (slot_loop 0 (take (cache_limit cfg) c.entries) path none (u64 - 1))) [
      | inl q ↦ rw q o
      | inr (j, q) ↦
          let small : cache_limit cfg ≤ length c.entries = omega (arith, limit-le cfg, o.size) in
          let len = length-take (cache_limit cfg) c.entries small in
          let inside = slot_loop-lt (take (cache_limit cfg) c.entries) path j q in
          rw q (fill_slot-OneEach cfg c j path st (omega arith) o short absent dup_ok)
    ]

off_of : (a b : Bool) → (a || b) ≡ false → a ≡ false
off_of a b h = ground arith

store-OneEach :
    (fs : FileSystem) (cfg : Config) (site : Site) (c : OpenCache) (path : Bytes) (st : Stat)
    → OneEach cfg c
    → length path < 512
    → (cache_off cfg site path ≡ false → Absent (cache_limit cfg) path c.entries)
    → OneEach cfg (open_cache_store fs cfg site c path st)
unfolding open_cache_store
store-OneEach fs cfg site c path st o short absent =
    elim (Bool-cases (cache_off cfg site path || not (is_regular st.kind))) [
      | inl e ↦ rw e o
      | inr e ↦ rw e (
          fill_found-OneEach cfg c path st fs.dup_ok o short
            (absent (off_of (cache_off cfg site path) _ e)))
    ]

lookup_off :
    (fs : FileSystem) (cfg : Config) (site : Site) (c : OpenCache) (path : Bytes)
    → cache_off cfg site path ≡ true
    → open_cache_lookup fs cfg site c path ≡ (c, none)
unfolding open_cache_lookup
lookup_off fs cfg site c path off = rw off

open_cached-OneEach :
    (fs : FileSystem) (cfg : Config) (site : Site) (path : Bytes) (l : OpenCache × Option Stat)
    → OneEach cfg l.0
    → length path < 512
    → (cache_off cfg site path ≡ false → l.1 ≡ none → Absent (cache_limit cfg) path l.0.entries)
    → OneEach cfg (open_cached fs cfg site path l).0
unfolding open_cached
open_cached-OneEach fs cfg site path (c, some st) o short absent = o
open_cached-OneEach fs cfg site path (c, none) o short absent =
    open_fresh-OneEach (fs.open_below path)
  where
    open_fresh-OneEach : (w : Opened) → OneEach cfg (open_fresh fs cfg site c path w).0
    open_fresh-OneEach (failed e) = unfold open_fresh in o
    open_fresh-OneEach (no_stat e) = unfold open_fresh in o
    open_fresh-OneEach (file st) =
        unfold open_fresh in store-OneEach fs cfg site c path st o short (λ on. absent on refl)

-- Through every path that is opened with fewer than 512 bytes, the cache keeps its 256 slots and holds
-- no path twice among those in use.
pub open_static_path-OneEach :
    (fs : FileSystem) (cfg : Config) (site : Site) (c : OpenCache) (path : Bytes)
    → OneEach cfg c
    → length path < 512
    → OneEach cfg (open_static_path fs cfg site c path).0
unfolding open_static_path
open_static_path-OneEach fs cfg site c path o short = elim (Bool-cases (cache_off cfg site path)) [
  | inl off ↦
      open_cached-OneEach fs cfg site path (open_cache_lookup fs cfg site c path)
        (subst (λ x. OneEach cfg x.0) (sym (lookup_off fs cfg site c path off)) o) short
        (λ on. absurd (cc))
  | inr on ↦
      let l = lookup-Looked fs cfg site c path o on in
      open_cached-OneEach fs cfg site path (open_cache_lookup fs cfg site c path) l.keeps short
        (λ _. l.absent)
]
