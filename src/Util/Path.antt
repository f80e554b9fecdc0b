-- ===== src/Util/Path.antt =====
-- src/util.c: the tests on request paths and on the paths below a document root.
use rpsiod.Prelude.{
  ℕ, zero, suc, ◌+◌, ◌≤◌, Bool, true, false, ◌&&◌, ◌||◌, not, Bytes, codes, List, [], ◌∷◌, ◌++◌,
  ◌≡◌, ◌≢◌, ◌↔◌, ◌⊎◌, Lacks, refl, inl, inr, Option, some, none, arith, leb, ◌==◌, if◌then◌else◌,
  Bool-cases, length, take_while, drop_while, split_on, any, is_prefix, str_eq, All, str_eq_iff,
  length-drop_while-le,
}
use rpsiod.Util.Strings.{char_at}

abbrev pub is_slash : ℕ → Bool
is_slash c = c == b'/'

abbrev pub not_slash : ℕ → Bool
not_slash c = not (c == b'/')

-- `.` and `..`
unfoldable pub is_dots : Bytes → Bool
is_dots (a ∷ []) = a == b'.'
is_dots (a ∷ b ∷ []) = a == b'.' && b == b'.'
is_dots _ = false

-- the loop over the segments, on fuel: every round passes over a byte
unfoldable pub scan_segments : ℕ → Bytes → Bool
unfolding is_dots
scan_segments fuel [] = false
scan_segments zero (c ∷ s) = false
scan_segments (suc fuel) (c ∷ s) =
    let p = drop_while is_slash (c ∷ s) in
    let rest = scan_segments fuel (drop_while not_slash p) in
    if is_dots (take_while not_slash p) then true else rest

-- `rpsiod_path_has_forbidden_segment`
unfoldable pub path_has_forbidden_segment : Bytes → Bool
unfolding scan_segments
path_has_forbidden_segment path =
    if not (char_at path 0 == b'/') then true else scan_segments (length path) path

-- `rpsiod_path_join`; `none` is `false`
unfoldable pub path_join : ℕ → Bytes → Bytes → Option Bytes
path_join out_len root request_path =
    if not (char_at request_path 0 == b'/')
    then none
    else if leb out_len (length (root ++ request_path))
    then none
    else some (root ++ request_path)

-- `rpsiod_path_within_root`, on paths that are resolved
unfoldable pub path_within_root : Bytes → Bytes → Bool
path_within_root root_real target_real =
    let next = char_at target_real (length root_real) in
    if not (is_prefix root_real target_real) then false else next == 0 || next == b'/'

-- the dots among the segments, with no loop
abbrev pub has_dots : Bytes → Bool
has_dots s = any is_dots (split_on b'/' s)

has_dots_skip : (s : Bytes) → has_dots (drop_while is_slash s) ≡ has_dots s
unfolding is_dots
has_dots_skip [] = refl
has_dots_skip (c ∷ s) = ground (arith, has_dots_skip s)

abbrev later_segments : List Bytes → List Bytes
later_segments [] = []
later_segments (p ∷ ps) = ps

split_on_first :
    (s : Bytes) → split_on b'/' s ≡ take_while not_slash s ∷ later_segments (split_on b'/' s)
split_on_first [] = refl
split_on_first (c ∷ s) = elim (Bool-cases (c == b'/')) [
  | inl e ↦ rw e refl
  | inr e ↦ rw (e, split_on_first s) refl
]

later_dots :
    (s : Bytes) → any is_dots (later_segments (split_on b'/' s)) ≡ has_dots (drop_while not_slash s)
unfolding is_dots
later_dots [] = refl
later_dots (c ∷ s) = ground (arith, split_on_first s, later_dots s)

has_dots_first :
    (s : Bytes)
    → has_dots s ≡ (is_dots (take_while not_slash s) || has_dots (drop_while not_slash s))
has_dots_first s = rw (split_on_first s) (rw (later_dots s))

-- a round passes over a byte
round-le :
    (c : ℕ) (s : Bytes) → length (drop_while not_slash (drop_while is_slash (c ∷ s))) ≤ length s
round-le c s = ground (
  arith,
  length-drop_while-le not_slash (drop_while is_slash s),
  length-drop_while-le is_slash s,
  length-drop_while-le not_slash s,
)

if_or : (a b : Bool) → (if a then true else b) ≡ (a || b)
if_or true b = refl
if_or false b = refl

scan_segments-has_dots :
    (fuel : ℕ) (s : Bytes) → length s ≤ fuel → scan_segments fuel s ≡ has_dots s
unfolding scan_segments
scan_segments-has_dots fuel [] h = refl
scan_segments-has_dots zero (c ∷ s) h = absurd (omega arith)
scan_segments-has_dots (suc fuel) (c ∷ s) h =
    let p = drop_while is_slash (c ∷ s) in
    let less : length (drop_while not_slash p) ≤ fuel = omega (arith, round-le c s) in
    let ih : scan_segments fuel (drop_while not_slash p) ≡ has_dots (drop_while not_slash p) =
      scan_segments-has_dots fuel (drop_while not_slash p) less in
    rw (← has_dots_skip (c ∷ s), has_dots_first p, ih) (if_or (is_dots (take_while not_slash p)) _)

-- a segment that is not `.` or `..`
abbrev pub Plain : Bytes → Type 0
Plain p = (p ≢ codes ".") × (p ≢ codes "..")

is_dots_iff : (p : Bytes) → (is_dots p ≡ false) ↔ Plain p
unfolding is_dots
is_dots_iff [] = ground arith
is_dots_iff (a ∷ []) = ground arith
is_dots_iff (a ∷ b ∷ []) = ground arith
is_dots_iff (a ∷ b ∷ c ∷ s) = ground arith

any_dots_iff : (ps : List Bytes) → (any is_dots ps ≡ false) ↔ All Plain ps
any_dots_iff [] = (λ _. tt, λ _. refl)
any_dots_iff (p ∷ ps) =
    (ground (arith, is_dots_iff p, any_dots_iff ps), ground (arith, is_dots_iff p, any_dots_iff ps))

-- A path passes the test exactly when it begins with `/` and none of its segments is `.` or `..`.
pub path_has_forbidden_segment_iff :
    (path : Bytes)
    → (path_has_forbidden_segment path ≡ false)
      ↔ ((char_at path 0 ≡ b'/') × All Plain (split_on b'/' path))
unfolding path_has_forbidden_segment
path_has_forbidden_segment_iff path =
    let scanned = scan_segments-has_dots (length path) path (omega arith) in
    (
      ground (arith, scanned, any_dots_iff (split_on b'/' path)),
      ground (arith, scanned, any_dots_iff (split_on b'/' path)),
    )

-- The depth that a lexical walk over the segments reaches; `none` where it leaves its start upwards.
abbrev pub climb : ℕ → List Bytes → Option ℕ
climb depth [] = some depth
climb depth (p ∷ ps) =
    let same = climb depth ps in
    let down = climb (depth + 1) ps in
    if str_eq p [] || str_eq p (codes ".")
    then same
    else if str_eq p (codes "..")
    then elim depth [ zero ↦ none | suc d ↦ climb d ps ]
    else down

climb-total : (ps : List Bytes) (depth : ℕ) → All Plain ps → (d : ℕ) × (climb depth ps ≡ some d)
climb-total [] depth h = (depth, refl)
climb-total (p ∷ ps) depth (hp, h) = elim (Bool-cases (str_eq p [] || str_eq p (codes "."))) [
  | inl e ↦ let (d, q) = climb-total ps depth h in (d, rw e q)
  | inr e ↦
      let (d, q) = climb-total ps (depth + 1) h in
      let plain : str_eq p (codes "..") ≡ false = ground (arith, str_eq_iff p (codes "..")) in
      (d, rw (e, plain) q)
]

-- A walk over the segments of a path that passes the test never leaves the directory it starts in.
pub forbidden_segment-climb :
    (path : Bytes) (depth : ℕ)
    → path_has_forbidden_segment path ≡ false
    → (d : ℕ) × (climb depth (split_on b'/' path) ≡ some d)
forbidden_segment-climb path depth h =
    climb-total (split_on b'/' path) depth ((path_has_forbidden_segment_iff path).0 h).1

-- A resolved target, which holds no NUL, passes exactly when it is the root, or the root with a
-- slash behind it and more.
pub path_within_root_iff :
    (root target : Bytes)
    → Lacks 0 target
    → (path_within_root root target ≡ true)
      ↔ ((target ≡ root) ⊎ ((r : Bytes) × (target ≡ root ++ b'/' ∷ r)))
unfolding path_within_root is_prefix
path_within_root_iff [] [] h = ground arith
path_within_root_iff [] (c ∷ t) (hc, h) = (λ e. inr (t, ground arith), ground arith)
path_within_root_iff (x ∷ r) [] h = (λ e. absurd (cc), ground arith)
path_within_root_iff (x ∷ r) (y ∷ t) (hy, h) =
    let ih = path_within_root_iff r t h in
    (
      λ e.
          let same : x ≡ y = ground arith in
          let inside : path_within_root r t ≡ true = ground arith in
          elim (ih.0 inside) [ inl q ↦ inl (cc) | inr (u, q) ↦ inr (u, cc) ],
      λ e. elim e [
        | inl q ↦
            let same : x ≡ y = cc in
            let tails : t ≡ r = cc in
            let inside : path_within_root r t ≡ true = ih.1 (inl tails) in ground arith
        | inr (u, q) ↦
            let same : x ≡ y = cc in
            let tails : t ≡ r ++ b'/' ∷ u = cc in
            let inside : path_within_root r t ≡ true = ih.1 (inr (u, tails)) in ground arith
      ],
    )
