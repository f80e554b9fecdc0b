-- ===== src/Server/Static/Open.antt =====
-- What `try_open_static` opens.
use rpsiod.Prelude.{
  true, Bytes, List, [], ◌∷◌, Option, some, none, leb, length, ◌≡◌, ◌⊎◌, inl, inr, refl, sym, ap,
  ◌∙◌, arith, Bool-cases, Option-cases, Some,
}
use rpsiod.Config.Site.{Site, Config}
use rpsiod.Security.{static_relative_request_path}
use rpsiod.Server.Files.{FileSystem, Opened, failed, no_stat, file, Stat, is_regular, is_directory}
use rpsiod.Server.OpenCache.{OpenCache, open_static_path}
use rpsiod.Server.OpenCache.Transparent.{open_static_path-open_below}
use rpsiod.Server.Static.{
  found, first_index, inner_index, regular_file, try_indexes, index_found, open_self, wants_index,
  open_first, try_open_static,
}

-- a regular file that stands at the path, below the root
pub record IsFile (fs : FileSystem) (path : Bytes) (st : Stat) : Type 0 where
  pub opened : fs.open_below path ≡ file st
  pub kind : is_regular st.kind ≡ true

-- the paths that a request path may be answered by: itself, or an index of the directory it names
abbrev pub Answers : Site → Bytes → Bytes → Type 0
Answers site rel path =
    (path ≡ rel)
    ⊎ Some (λ index. path ≡ first_index rel index) site.indexes
    ⊎ Some (λ index. path ≡ inner_index rel index) site.indexes

regular_file-some :
    (o : Opened) {st : Stat}
    → regular_file o ≡ some st
    → (o ≡ file st) × (is_regular st.kind ≡ true)
unfolding regular_file
regular_file-some (failed e) h = cc
regular_file-some (no_stat e) h = cc
regular_file-some (file s) {st} h = elim (Bool-cases (is_regular s.kind)) [
  | inl r ↦
      let same : s ≡ st = ground arith in (ap file same, ap (λ x. is_regular x.kind) (sym same) ∙ r)
  | inr r ↦ absurd (cc (rw r at h))
]

pair_path :
    {a b : Bytes} {s t : Stat}
    → ◌≡◌ {A = Option (Bytes × Stat)} (some (a, s)) (some (b, t))
    → (a ≡ b) × (s ≡ t)
pair_path h = (cc, cc)

module _ (fs : FileSystem) (cfg : Config) (site : Site) where
  try_indexes-some :
      (path_of : Bytes → Bytes) (indexes : List Bytes) (c : OpenCache) {path : Bytes} {st : Stat}
      → (try_indexes fs cfg site path_of indexes c).1 ≡ some (path, st)
      → IsFile fs path st × Some (λ index. path ≡ path_of index) indexes
  unfolding try_indexes
  try_indexes-some path_of [] c h = cc
  try_indexes-some path_of (index ∷ indexes) c {path} {st} h =
      let here = path_of index in
      let o = open_static_path fs cfg site c here in
      elim (Bool-cases (leb 4096 (length here))) [
        | inl long ↦ let (f, s) = try_indexes-some path_of indexes c (rw long at h) in (f, inr s)
        | inr short ↦ elim (Option-cases (regular_file o.1)) [
          | inl q ↦
              let (f, s) = try_indexes-some path_of indexes o.0 (rw (short, q) at h) in (f, inr s)
          | inr (s, q) ↦
              let (opened, kind) = regular_file-some o.1 q in
              let (e, t) = pair_path (rw (short, q) at h) in
              (
                rw (← e, ← t)
                    (record {
                      opened = sym (open_static_path-open_below fs cfg site c here) ∙ opened;
                      kind = kind;
                    }),
                inl (sym e),
              )
        ]
      ]

  index_found-found :
      (r : OpenCache × Option (Bytes × Stat)) {path : Bytes} {st : Stat}
      → (index_found r).1 ≡ found path st
      → r.1 ≡ some (path, st)
  unfolding index_found
  index_found-found (c, some (p, s)) h = cc
  index_found-found (c, none) h = cc

  open_self-found :
      (rel : Bytes) (r : OpenCache × Opened) {path : Bytes} {st : Stat}
      → fs.open_below rel ≡ r.1
      → (open_self fs cfg site rel r).1 ≡ found path st
      → IsFile fs path st × Answers site rel path
  unfolding open_self
  open_self-found rel (c, failed e) o h = cc
  open_self-found rel (c, no_stat e) o h = cc
  open_self-found rel (c, file s) {path} {st} o h = elim (Bool-cases (is_directory s.kind)) [
    | inl d ↦
        let (f, i) =
          try_indexes-some (inner_index rel) site.indexes c (index_found-found _ (rw d at h)) in
        (f, inr (inr i))
    | inr d ↦ elim (Bool-cases (is_regular s.kind)) [
      | inr k ↦ absurd (cc (rw (d, k) at h))
      | inl k ↦
          let e : rel ≡ path = cc (rw (d, k) at h) in
          let t : s ≡ st = cc (rw (d, k) at h) in
          (rw (← e, ← t) (record { opened = o; kind = k }), inl (sym e))
    ]
  ]

  open_first-found :
      (rel : Bytes) (r : OpenCache × Option (Bytes × Stat)) {path : Bytes} {st : Stat}
      → ((p : Bytes) (s : Stat)
          → r.1 ≡ some (p, s)
          → IsFile fs p s × Some (λ index. p ≡ first_index rel index) site.indexes)
      → (open_first fs cfg site rel r).1 ≡ found path st
      → IsFile fs path st × Answers site rel path
  unfolding open_first
  open_first-found rel (c, some (p, s)) {path} {st} index h =
      let e : p ≡ path = cc in
      let t : s ≡ st = cc in
      let (f, i) = index p s refl in (rw (← e, ← t) f, inr (inl (rw (← e) i)))
  open_first-found rel (c, none) index h =
      open_self-found rel (open_static_path fs cfg site c rel)
        (sym (open_static_path-open_below fs cfg site c rel)) h

  -- What is found is a regular file below the root: at the path that was asked for, or at an index of it.
  pub try_open_static-found :
      (request_path : Bytes) (c : OpenCache) {path : Bytes} {st : Stat}
      → (try_open_static fs cfg site request_path c).1 ≡ found path st
      → IsFile fs path st × Answers site (static_relative_request_path request_path) path
  unfolding try_open_static
  try_open_static-found request_path c h =
      let rel = static_relative_request_path request_path in
      elim (Bool-cases (wants_index rel)) [
        | inl w ↦
            open_first-found rel _ (λ p s. try_indexes-some (first_index rel) site.indexes c)
              (rw w at h)
        | inr w ↦ open_first-found rel (c, none) (λ p s q. absurd (cc)) (rw w at h)
      ]
