-- ===== src/Config/Routes/Refines.antt =====
-- The route table is a finite map from routes to sites.
use rpsiod.Prelude.{
  ℕ, zero, suc, ◌+◌, ◌<◌, Bool, true, false, Bytes, [], ◌∷◌, ◌≡◌, ◌≢◌, ◌⊎◌, ◌↔◌, inl, inr, refl,
  sym, ap, ◌∙◌, Option, some, arith, ◌==◌, if◌then◌else◌, length, set, replicate, get_or-set_self,
  get_or-set_ne, length-set, length-replicate, Bool-cases, ==_iff, tolower, map, take,
  length-take-le,
}
use mathlib.Core.Path.{subst}
use rpsiod.Config.Routes.{
  RouteKey, Table, table_size, route_entry_matches, index_of, entry_at, new_entry, empty_entry,
  Added, added, duplicate, add_loop, lookup_loop, route_key, normalize_route_host,
}
use rpsiod.Config.Routes.Probe.{
  key_of, matches-Match, index-lt, Fits, key_of-new, Used, Settled, Gapless,
}
use rpsiod.Config.Routes.Insert.{
  Taken, add_loop_cases, lookup_loop-add_self, lookup_loop-set, set-used,
}

-- A host that `normalize_route_host` leaves alone, in a key that an entry holds whole.
pub record IsKey (k : RouteKey) : Type 0 where
  pub fits : Fits k
  pub lower : map tolower k.host ≡ k.host
  pub no_host : k.default_site ≡ true → k.host ≡ []

lower_twice : (s : Bytes) → map tolower (map tolower s) ≡ map tolower s
lower_twice [] = refl
lower_twice (c ∷ s) = ground (arith, lower_twice s)

length-lower : (s : Bytes) → length (map tolower s) ≡ length s
length-lower [] = refl
length-lower (c ∷ s) = ap suc (length-lower s)

pub route_key-IsKey :
    (host : Bytes) (port : ℕ) (listen_ip : Bytes) (default_site : Bool)
    → length listen_ip < 64
    → IsKey (route_key host port listen_ip default_site)
unfolding route_key normalize_route_host
route_key-IsKey host port ip true h = record {
  fits = record { host = omega arith; listen_ip = h };
  lower = refl;
  no_host = λ _. refl;
}
route_key-IsKey host port ip false h = record {
  fits = record {
    host = omega (arith, length-lower (take 255 host), length-take-le 255 host);
    listen_ip = h;
  };
  lower = lower_twice (take 255 host);
  no_host = λ e. absurd (cc);
}

-- The entry of one key matches no other key.
new_entry-other :
    (k k' : RouteKey) (i : ℕ)
    → IsKey k
    → IsKey k'
    → k ≢ k'
    → route_entry_matches (new_entry k i) k' ≡ false
new_entry-other k k' i a b ne = elim (Bool-cases (route_entry_matches (new_entry k i) k')) [
  | inr e ↦ e
  | inl e ↦
      let m = matches-Match (new_entry k i) k' e in
      let same = key_of-new k i a.fits in
      let hosts : k.host ≡ k'.host = elim m.host [
        | inl d ↦ a.no_host (m.default_site ∙ d) ∙ sym (b.no_host d)
        | inr q ↦ sym a.lower ∙ ap (λ x. map tolower x.host) (sym same) ∙ q ∙ b.lower
      ] in
      let ports = m.port in
      let flags = m.default_site in
      let ips = sym (ap (λ x. x.listen_ip) same) ∙ m.listen_ip in
      absurd (
        ne (λ j. record {
          host = hosts j;
          port = ports j;
          listen_ip = ips j;
          default_site = flags j;
        }))
]

-- A free slot on the path of a key is filled for that key.
module _ (table : Table) (k : RouteKey) (i q : ℕ) (f : Fits k) (g : Gapless table)
    (low : q < table_size) (free : (entry_at table (index_of k q)).used ≡ false)
    (path : (m : ℕ) → m < q → Used table (index_of k m)) where
  filled : Table
  filled = set table (index_of k q) (new_entry k i)

  filled_slot : entry_at filled (index_of k q) ≡ new_entry k i
  unfolding filled
  filled_slot =
      get_or-set_self table (index_of k q) (new_entry k i) empty_entry (rw g.size (index-lt k q))

  filled_other : (idx : ℕ) → index_of k q ≢ idx → entry_at filled idx ≡ entry_at table idx
  unfolding filled
  filled_other idx ne = get_or-set_ne table (index_of k q) idx (new_entry k i) empty_entry ne

  filled_keeps : (idx : ℕ) → Used table idx → Used filled idx
  unfolding filled
  filled_keeps idx u =
      ap (λ e. e.used) (set-used table (index_of k q) idx (new_entry k i) free u) ∙ u

  filled-Settled : (idx : ℕ) → Used filled idx → Settled filled idx
  filled-Settled idx u = elim (Bool-cases (index_of k q == idx)) [
    | inl e ↦
        let at : index_of k q ≡ idx = (==_iff (index_of k q) idx).0 e in
        let own : key_of (entry_at filled idx) ≡ k =
          ap (λ x. key_of (entry_at filled x)) (sym at)
          ∙ ap key_of filled_slot
          ∙ key_of-new k i f in
        record {
          probe = q;
          below = low;
          stands = rw own at;
          path = λ m h. rw own (filled_keeps (index_of k m) (path m h));
        }
    | inr e ↦
        let kept = filled_other idx (ground arith) in
        let s = g.settled idx (sym (ap (λ x. x.used) kept) ∙ u) in
        record {
          probe = s.probe;
          below = s.below;
          stands = rw kept s.stands;
          path = λ m h. rw kept (filled_keeps _ (s.path m h));
        }
  ]

  filled-Gapless : Gapless filled
  unfolding filled
  filled-Gapless = record {
    size = length-set table (index_of k q) (new_entry k i) ∙ g.size;
    settled = filled-Settled;
  }

Taken-Gapless :
    {table table' : Table} {k : RouteKey} {i : ℕ}
    → Fits k
    → Gapless table
    → Taken table table' k i
    → Gapless table'
unfolding filled
Taken-Gapless {table} {table'} {k} {i} f g t =
    subst Gapless (sym t.written) (filled-Gapless table k i t.probe f g t.below t.free t.path)

-- The empty table has no gap.
empty_unused : (n idx : ℕ) → (entry_at (replicate n empty_entry) idx).used ≡ false
empty_unused zero idx = refl
empty_unused (suc n) zero = refl
empty_unused (suc n) (suc idx) = empty_unused n idx

pub empty-Gapless : (n : ℕ) → n ≡ table_size → Gapless (replicate n empty_entry)
empty-Gapless n e = record {
  size = length-replicate n empty_entry ∙ e;
  settled = λ idx u. absurd (cc (empty_unused n idx));
}

-- the loop of the lookup, from the first probe
abbrev pub search_route : Table → RouteKey → Option ℕ
search_route = lookup_loop table_size 0

abbrev pub insert_route : Table → RouteKey → ℕ → Added
insert_route = add_loop table_size 0

module _ {table table' : Table} (k : RouteKey) (i : ℕ) (is_key : IsKey k) (g : Gapless table)
    (e : insert_route table k i ≡ added table') where
  insert_route_cases : (table' ≡ table) ⊎ Taken table table' k i
  insert_route_cases =
      add_loop_cases table_size 0 table table' k i (omega arith) (λ m h. absurd (omega arith)) e

  pub insert_route-Gapless : Gapless table'
  insert_route-Gapless = elim insert_route_cases [
    | inl same ↦ rw same g
    | inr t ↦ Taken-Gapless is_key.fits g t
  ]

  pub search-insert_self : search_route table' k ≡ some i
  search-insert_self =
      lookup_loop-add_self table_size 0 table table' k i (omega arith) g.size is_key.fits
        (λ m h. absurd (omega arith)) e

  pub search-insert_other :
      (k' : RouteKey) → IsKey k' → k ≢ k' → search_route table' k' ≡ search_route table k'
  search-insert_other k' is_key' ne = elim insert_route_cases [
    | inl same ↦ rw same
    | inr t ↦ rw t.written (
        lookup_loop-set table_size 0 (index_of k t.probe) table (new_entry k i) k' (omega arith) g
          (index-lt k t.probe) t.free (new_entry-other k k' i is_key is_key' ne))
  ]

-- A route that is there already: the same site changes nothing, another one is refused.
pub add_loop_found :
    (left p : ℕ) (table : Table) (k : RouteKey) (i j : ℕ)
    → lookup_loop left p table k ≡ some j
    → add_loop left p table k i ≡ (if j == i then added table else duplicate)
unfolding add_loop lookup_loop
add_loop_found zero p table k i j h = absurd (cc)
add_loop_found (suc left) p table k i j h = ground (arith, add_loop_found left (p + 1) table k i j)

add_loop_duplicate :
    (left p : ℕ) (table : Table) (k : RouteKey) (i : ℕ)
    → add_loop left p table k i ≡ duplicate
    → (j : ℕ) × (lookup_loop left p table k ≡ some j) × (j ≢ i)
unfolding add_loop lookup_loop
add_loop_duplicate zero p table k i h = absurd (cc)
add_loop_duplicate (suc left) p table k i h =
    elim (Bool-cases (entry_at table (index_of k p)).used) [
      | inr free ↦ absurd (ground arith)
      | inl here ↦ elim (Bool-cases (route_entry_matches (entry_at table (index_of k p)) k)) [
        | inl same ↦ ((entry_at table (index_of k p)).site_index, ground arith, ground arith)
        | inr other ↦
            let (j, found, ne) = add_loop_duplicate left (p + 1) table k i (ground arith) in
            (j, ground (arith, found), ne)
      ]
    ]

-- Adding a route is refused as a duplicate exactly when the table has the route already, with
-- another site.
pub insert_route-duplicate_iff :
    (table : Table) (k : RouteKey) (i : ℕ)
    → (insert_route table k i ≡ duplicate) ↔ ((j : ℕ) × (search_route table k ≡ some j) × (j ≢ i))
insert_route-duplicate_iff table k i = (
  add_loop_duplicate table_size 0 table k i,
  λ (j, found, ne). let e = add_loop_found table_size 0 table k i j found in ground (arith, e),
)

-- A table without gaps answers like a finite map: after a route is added, its key is found with its
-- site, and every other key as before; and the new table has no gaps either. The keys are in lower
-- case and fit the buffers of an entry.
pub insert_route-refines :
    (table table' : Table) (k : RouteKey) (i : ℕ)
    → IsKey k
    → Gapless table
    → insert_route table k i ≡ added table'
    → (search_route table' k ≡ some i)
      × ((k' : RouteKey) → IsKey k' → k ≢ k' → search_route table' k' ≡ search_route table k')
      × Gapless table'
insert_route-refines table table' k i is_key g e = (
  search-insert_self k i is_key g e,
  search-insert_other k i is_key g e,
  insert_route-Gapless k i is_key g e,
)
