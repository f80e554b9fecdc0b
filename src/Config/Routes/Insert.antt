-- ===== src/Config/Routes/Insert.antt =====
-- What adding a route does to the table and to the lookups.
use rpsiod.Prelude.{
  ℕ, zero, suc, ◌+◌, ◌≤◌, ◌<◌, false, ◌≡◌, ◌≢◌, ◌⊎◌, inl, inr, refl, sym, ap, ◌∙◌, some, none,
  arith, ◌==◌, length, set, get_or-set_self, get_or-set_ne, Bool-cases, ==_iff,
}
use rpsiod.Config.Routes.{
  RouteEntry, RouteKey, Table, table_size, route_entry_matches, index_of, entry_at, new_entry,
  empty_entry, added, add_loop, lookup_loop,
}
use rpsiod.Config.Routes.Probe.{
  matches-Match, Match-index, probes_differ, index-lt, Fits, new-matches, Used, Gapless,
}

-- A slot that was taken: free before, at a probe of the key whose earlier slots are used.
pub record Taken (table table' : Table) (k : RouteKey) (i : ℕ) : Type 0 where
  pub probe : ℕ
  pub below : probe < table_size
  pub free : (entry_at table (index_of k probe)).used ≡ false
  pub path : (m : ℕ) → m < probe → Used table (index_of k m)
  pub written : table' ≡ set table (index_of k probe) (new_entry k i)

added-eq : {s t : Table} → added s ≡ added t → s ≡ t
added-eq e = ground arith

-- the path up to the next probe
extend :
    (table : Table) (k : RouteKey) (p : ℕ)
    → ((m : ℕ) → m < p → Used table (index_of k m))
    → Used table (index_of k p)
    → (m : ℕ) → m < p + 1
    → Used table (index_of k m)
extend table k p path here m h = elim (Bool-cases (m == p)) [
  | inl e ↦ rw ((==_iff m p).0 e) here
  | inr e ↦ path m (ground arith)
]

pub add_loop_cases :
    (left p : ℕ) (table table' : Table) (k : RouteKey) (i : ℕ)
    → left + p ≤ table_size
    → ((m : ℕ) → m < p → Used table (index_of k m))
    → add_loop left p table k i ≡ added table'
    → (table' ≡ table) ⊎ Taken table table' k i
unfolding add_loop
add_loop_cases zero p table table' k i fits path e = absurd (cc)
add_loop_cases (suc left) p table table' k i fits path e =
    elim (Bool-cases (entry_at table (index_of k p)).used) [
      | inr free ↦ inr (record {
        probe = p;
        below = omega arith;
        free = free;
        path = path;
        written = ground arith;
      })
      | inl here ↦ elim (Bool-cases (route_entry_matches (entry_at table (index_of k p)) k)) [
        | inl same ↦ inl (ground arith)
        | inr other ↦
            add_loop_cases left (p + 1) table table' k i (omega arith) (extend table k p path here)
              (ground arith)
      ]
    ]

-- a slot that is used keeps its entry
pub set-used :
    (table : Table) (j idx : ℕ) (e : RouteEntry)
    → (entry_at table j).used ≡ false
    → Used table idx
    → entry_at (set table j e) idx ≡ entry_at table idx
set-used table j idx e free here =
    get_or-set_ne table j idx e empty_entry
      (λ q. let same = ap (λ x. (entry_at table x).used) q in absurd (cc))

pub added-Used :
    (table table' : Table) (k : RouteKey) (i idx : ℕ)
    → (table' ≡ table) ⊎ Taken table table' k i
    → Used table idx
    → entry_at table' idx ≡ entry_at table idx
added-Used table table' k i idx (inl e) here = rw e
added-Used table table' k i idx (inr t) here =
    rw t.written (set-used table (index_of k t.probe) idx (new_entry k i) t.free here)

-- The lookup of a key that was added gives its site.
pub lookup_loop-add_self :
    (left p : ℕ) (table table' : Table) (k : RouteKey) (i : ℕ)
    → left + p ≤ table_size
    → length table ≡ table_size
    → Fits k
    → ((m : ℕ) → m < p → Used table (index_of k m))
    → add_loop left p table k i ≡ added table'
    → lookup_loop left p table' k ≡ some i
unfolding add_loop lookup_loop
lookup_loop-add_self zero p table table' k i fits size f path e = absurd (cc)
lookup_loop-add_self (suc left) p table table' k i fits size f path e =
    elim (Bool-cases (entry_at table (index_of k p)).used) [
      | inr free ↦
          let written : set table (index_of k p) (new_entry k i) ≡ table' = ground arith in
          let here : entry_at table' (index_of k p) ≡ new_entry k i = rw (← written) (
            get_or-set_self table (index_of k p) (new_entry k i) empty_entry
              (rw size (index-lt k p))) in
          ground (arith, here, new-matches k i f)
      | inl here ↦ elim (Bool-cases (route_entry_matches (entry_at table (index_of k p)) k)) [
        | inl same ↦ let kept : table ≡ table' = ground arith in ground arith
        | inr other ↦
            let later : add_loop left (p + 1) table k i ≡ added table' = ground arith in
            let path' = extend table k p path here in
            let kept =
              added-Used table table' k i (index_of k p)
                (add_loop_cases left (p + 1) table table' k i (omega arith) path' later) here in
            let ih =
              lookup_loop-add_self left (p + 1) table table' k i (omega arith) size f path' later in
            ground (arith, kept, ih)
      ]
    ]

-- where no later probe matches, nothing is found
lookup_loop-none :
    (left p : ℕ) (table : Table) (k : RouteKey)
    → ((q : ℕ)
        → p ≤ q
        → q < left + p
        → route_entry_matches (entry_at table (index_of k q)) k ≡ false)
    → lookup_loop left p table k ≡ none
unfolding lookup_loop
lookup_loop-none zero p table k h = refl
lookup_loop-none (suc left) p table k h =
    let ih = lookup_loop-none left (p + 1) table k (λ q a b. h q (omega arith) (omega arith)) in
    ground (arith, h p (omega arith) (omega arith), ih)

-- an entry behind a free slot of a key's path does not match the key
no_match_behind :
    (table : Table) (k : RouteKey) (p q : ℕ)
    → Gapless table
    → (entry_at table (index_of k p)).used ≡ false
    → p < q
    → q < table_size
    → route_entry_matches (entry_at table (index_of k q)) k ≡ false
no_match_behind table k p q g free less fits =
    elim (Bool-cases (route_entry_matches (entry_at table (index_of k q)) k)) [
      | inr e ↦ e
      | inl e ↦
          let m = matches-Match (entry_at table (index_of k q)) k e in
          let s = g.settled (index_of k q) m.used in
          let same : s.probe ≡ q =
            probes_differ k s.probe q s.below fits
              (sym (Match-index (entry_at table (index_of k q)) k s.probe m) ∙ s.stands) in
          let used = s.path p (rw same less) in
          let there = Match-index (entry_at table (index_of k q)) k p m in
          absurd (cc (ap (λ x. (entry_at table x).used) there))
    ]

no_match_set :
    (table : Table) (j : ℕ) (e : RouteEntry) (k : RouteKey) (p q : ℕ)
    → Gapless table
    → index_of k p ≡ j
    → (entry_at table j).used ≡ false
    → route_entry_matches e k ≡ false
    → p < q
    → q < table_size
    → route_entry_matches (entry_at (set table j e) (index_of k q)) k ≡ false
no_match_set table j e k p q g at free other less fits =
    let apart : index_of k q ≢ j =
      λ same. absurd (omega (arith, probes_differ k p q (omega arith) fits (at ∙ sym same))) in
    rw (get_or-set_ne table j (index_of k q) e empty_entry (λ x. apart (sym x)))
      (no_match_behind table k p q g (rw at free) less fits)

-- The lookup of another key is not changed by a new entry in a free slot.
pub lookup_loop-set :
    (left p j : ℕ) (table : Table) (e : RouteEntry) (k : RouteKey)
    → left + p ≤ table_size
    → Gapless table
    → j < table_size
    → (entry_at table j).used ≡ false
    → route_entry_matches e k ≡ false
    → lookup_loop left p (set table j e) k ≡ lookup_loop left p table k
unfolding lookup_loop
lookup_loop-set zero p j table e k fits g low free other = refl
lookup_loop-set (suc left) p j table e k fits g low free other =
    elim (Bool-cases (index_of k p == j)) [
      | inr far ↦
          let kept : entry_at (set table j e) (index_of k p) ≡ entry_at table (index_of k p) =
            get_or-set_ne table j (index_of k p) e empty_entry (ground arith) in
          let ih = lookup_loop-set left (p + 1) j table e k (omega arith) g low free other in
          ground (arith, kept, ih)
      | inl here ↦
          let at : index_of k p ≡ j = (==_iff (index_of k p) j).0 here in
          let gone : lookup_loop (suc left) p table k ≡ none = rw at (ground arith) in
          let written : entry_at (set table j e) (index_of k p) ≡ e =
            rw at (get_or-set_self table j e empty_entry (rw g.size low)) in
          let rest =
            lookup_loop-none left (p + 1) (set table j e) k
              (λ q a b. no_match_set table j e k p q g at free other (omega arith) (omega arith)) in
          ground (arith, written, rest)
    ]
