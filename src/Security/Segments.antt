-- ===== src/Security/Segments.antt =====
-- `rpsiod_blocked_direct_access` finds an entry exactly where it stands between slashes.
use rpsiod.Prelude.{Some}
use rpsiod.Prelude.{
  ℕ, zero, suc, ◌+◌, ◌≤◌, ◌<◌, Bool, true, false, ◌&&◌, Bytes, List, [], ◌∷◌, ◌++◌, ◌≡◌, ◌≢◌, ◌⊎◌,
  ◌↔◌, inl, inr, refl, sym, ap, ◌∙◌, some, arith, ◌==◌, if◌then◌else◌, length, find, find_sound,
  find-first, find-ne-none, drop, Lacks, is_prefix_iff, append_assoc, append-nil, Option-cases,
  Bool-cases, length-append, drop-append, All-append_left, All,
}
use mathlib.Core.Path.{subst}
use rpsiod.Config.Site.{Site}
use rpsiod.Security.{
  left_ok, right_ok, blocked_loop, entry_blocks, any_blocks, blocked_direct_access,
}

-- where two splits of a text lie to one another
data Overlap (x y z t : Bytes) : Type 0 where
  longer : (w : Bytes) → z ≡ x ++ w → y ≡ w ++ t → Overlap x y z t
  shorter : (w : Bytes) → x ≡ z ++ w → t ≡ w ++ y → Overlap x y z t

Overlap-cons : (c d : ℕ) {x y z t : Bytes} → c ≡ d → Overlap x y z t → Overlap (c ∷ x) y (d ∷ z) t
Overlap-cons c d e (longer w p q) = longer w (cc) q
Overlap-cons c d e (shorter w p q) = shorter w (cc) q

overlap : (x y z t : Bytes) → x ++ y ≡ z ++ t → Overlap x y z t
overlap [] y z t e = longer z refl e
overlap (c ∷ x) y [] t e = shorter (c ∷ x) refl (sym e)
overlap (c ∷ x) y (d ∷ z) t e = Overlap-cons c d (ground arith) (overlap x y z t (ground arith))

left_ok_any : (ok ok' : Bool) (c : ℕ) (x : Bytes) → left_ok ok (c ∷ x) ≡ left_ok ok' (c ∷ x)
unfolding left_ok
left_ok_any ok ok' c [] = refl
left_ok_any ok ok' c (d ∷ x) = left_ok_any ok ok' d x

left_ok-append : (ok : Bool) (x y : Bytes) → left_ok ok (x ++ y) ≡ left_ok (left_ok ok x) y
unfolding left_ok
left_ok-append ok [] y = refl
left_ok-append ok (c ∷ []) [] = refl
left_ok-append ok (c ∷ []) (d ∷ y) = left_ok_any ok (c == b'/') d y
left_ok-append ok (c ∷ d ∷ x) y = left_ok-append ok (d ∷ x) y

-- text with no slash ends with none
left_ok_plain : (ok : Bool) (c : ℕ) (x : Bytes) → Lacks b'/' (c ∷ x) → left_ok ok (c ∷ x) ≡ false
unfolding left_ok
left_ok_plain ok c [] h = ground arith
left_ok_plain ok c (d ∷ x) (hc, h) = left_ok_plain ok d x h

-- The entry stands in a text, between what precedes it and what follows it.
record StandsIn (entry : Bytes) (ok : Bool) (text : Bytes) : Type 0 where
  before : Bytes
  behind : Bytes
  splits : text ≡ before ++ (entry ++ behind)
  left : left_ok ok before ≡ true
  right : right_ok behind ≡ true

module _ (c : ℕ) (b : Bytes) where
  abbrev needle : Bytes
  needle = c ∷ b

  -- what stands behind an occurrence that the loop passes over
  shift :
      (ok : Bool) (before text : Bytes)
      → left_ok ok (before ++ (needle ++ text)) ≡ left_ok (left_ok false needle) text
  shift ok before text =
      left_ok-append ok before (needle ++ text)
      ∙ left_ok-append (left_ok ok before) needle text
      ∙ ap (λ x. left_ok x text) (left_ok_any (left_ok ok before) false c b)

  StandsIn-later :
      (ok : Bool) (before behind : Bytes)
      → StandsIn needle (left_ok false needle) behind
      → StandsIn needle ok (before ++ (needle ++ behind))
  StandsIn-later ok before behind s = record {
    before = before ++ (needle ++ s.before);
    behind = s.behind;
    splits =
        ap (λ x. before ++ (needle ++ x)) s.splits
        ∙ ap (λ x. before ++ x) (sym (append_assoc needle s.before (needle ++ s.behind)))
        ∙ sym (append_assoc before (needle ++ s.before) (needle ++ s.behind));
    left = shift ok before s.before ∙ s.left;
    right = s.right;
  }

  -- the text behind the first occurrence
  found_text :
      (text : Bytes) {before at : Bytes}
      → find needle text ≡ some (before, at)
      → (text ≡ before ++ (needle ++ drop (length needle) at))
        × (at ≡ needle ++ drop (length needle) at)
  found_text text {before} {at} h =
      let (e, p) = find_sound needle text h in
      let (r, q) = (is_prefix_iff needle at).0 p in
      let same : drop (length needle) at ≡ r = ap (drop (length needle)) q ∙ drop-append needle r in
      (
        e ∙ ap (λ x. before ++ x) (q ∙ ap (λ x. needle ++ x) (sym same)),
        q ∙ ap (λ x. needle ++ x) (sym same),
      )

  blocked_loop_sound :
      (fuel : ℕ) (ok : Bool) (text : Bytes)
      → blocked_loop fuel needle ok text ≡ true
      → StandsIn needle ok text
  unfolding blocked_loop
  blocked_loop_sound zero ok text h = absurd (cc)
  blocked_loop_sound (suc fuel) ok text h = elim (Option-cases (find needle text)) [
    | inl q ↦ absurd (cc (rw (q, blocked_loop) at h))
    | inr ((before, at), q) ↦
        let behind = drop (length needle) at in
        let (e, _) = found_text text q in
        let test = left_ok ok before && right_ok behind in
        let run : (if test then true else blocked_loop fuel needle (left_ok false needle) behind)
            ≡ true =
          rw (q, blocked_loop) at h in
        rw e (elim (Bool-cases test) [
          | inl t ↦ record {
            before = before;
            behind = behind;
            splits = refl;
            left = ground arith;
            right = ground arith;
          }
          | inr t ↦
              StandsIn-later ok before behind
                (blocked_loop_sound fuel (left_ok false needle) behind (rw t at run))
        ])
  ]

  -- an occurrence that begins inside the needle would have a slash in the needle before it
  inside_entry :
      (ok : Bool) (before w : Bytes) (x : ℕ) (y : Bytes)
      → Lacks b'/' needle
      → needle ≡ w ++ (x ∷ y)
      → left_ok ok (before ++ w) ≡ true
      → w ≡ []
  inside_entry ok before [] x y lacks e left = refl
  inside_entry ok before (d ∷ w) x y lacks e left =
      let part = All-append_left (λ k. k ≢ b'/') (d ∷ w) (x ∷ y) (subst (Lacks b'/') e lacks) in
      absurd (cc (left_ok-append ok before (d ∷ w), left_ok_plain (left_ok ok before) d w part))

  -- Where the needle stands in a text, its first occurrence counts, or it stands behind that one.
  data Next (ok : Bool) (before behind : Bytes) : Type 0 where
    here : left_ok ok before ≡ true → right_ok behind ≡ true → Next ok before behind
    later : StandsIn needle (left_ok false needle) behind → Next ok before behind

  same_rest : (x y : Bytes) → needle ++ x ≡ needle ++ y → x ≡ y
  same_rest x y e = sym (drop-append needle x) ∙ ap (drop (length needle)) e ∙ drop-append needle y

  Next-behind :
      (ok : Bool) (before behind u v w : Bytes)
      → Lacks b'/' needle
      → left_ok ok u ≡ true
      → right_ok v ≡ true
      → u ≡ before ++ w
      → needle ++ behind ≡ w ++ (needle ++ v)
      → Next ok before behind
  Next-behind ok before behind u v w lacks left right e same =
      go w e (overlap needle behind w (needle ++ v) same)
    where
      go :
          (w : Bytes)
          → u ≡ before ++ w
          → Overlap needle behind w (needle ++ v)
          → Next ok before behind
      go w e (longer x p q) = later (record {
        before = x;
        behind = v;
        splits = q;
        left =
            sym (shift ok before x)
            ∙ ap (left_ok ok) (ap (λ y. before ++ y) (sym p) ∙ sym e)
            ∙ left;
        right = right;
      })
      go w e (shorter [] p q) = later (record {
        before = [];
        behind = v;
        splits = sym q;
        left =
            sym (shift ok before [])
            ∙ ap (left_ok ok) (ap (λ y. before ++ y) (append-nil needle ∙ p ∙ append-nil w) ∙ sym e)
            ∙ left;
        right = right;
      })
      go w e (shorter (x ∷ y) p q) =
          let empty : w ≡ [] =
            inside_entry ok before w x y lacks p (subst (λ z. left_ok ok z ≡ true) e left) in
          let starts : u ≡ before = e ∙ ap (λ z. before ++ z) empty ∙ append-nil before in
          let whole : needle ≡ x ∷ y = p ∙ ap (λ z. z ++ (x ∷ y)) empty in
          let ends : v ≡ behind = same_rest v behind (q ∙ ap (λ z. z ++ behind) (sym whole)) in
          here (subst (λ z. left_ok ok z ≡ true) starts left)
            (subst (λ z. right_ok z ≡ true) ends right)

  StandsIn-Next :
      (ok : Bool) (text before behind : Bytes)
      → Lacks b'/' needle
      → text ≡ before ++ (needle ++ behind)
      → (s : StandsIn needle ok text) → length before ≤ length s.before
      → Next ok before behind
  StandsIn-Next ok text before behind lacks e s first =
      go (overlap before (needle ++ behind) s.before (needle ++ s.behind) (sym e ∙ s.splits))
    where
      go : Overlap before (needle ++ behind) s.before (needle ++ s.behind) → Next ok before behind
      go (longer w p q) = Next-behind ok before behind s.before s.behind w lacks s.left s.right p q
      go (shorter [] p q) =
          let starts : s.before ≡ before = sym (append-nil s.before) ∙ sym p in
          here (subst (λ z. left_ok ok z ≡ true) starts s.left)
            (subst (λ z. right_ok z ≡ true) (same_rest s.behind behind q) s.right)
      go (shorter (x ∷ w) p q) =
          absurd (omega (arith, ap length p, length-append s.before (x ∷ w), first))

  Next-true :
      (ok : Bool) (before behind : Bytes) (rest : Bool)
      → (StandsIn needle (left_ok false needle) behind → rest ≡ true)
      → Next ok before behind
      → (if left_ok ok before && right_ok behind then true else rest) ≡ true
  Next-true ok before behind rest again (here l r) = rw (l, r)
  Next-true ok before behind rest again (later t) = ground (arith, again t)

  blocked_loop_complete :
      (fuel : ℕ) (ok : Bool) (text : Bytes)
      → Lacks b'/' needle
      → length text < fuel
      → StandsIn needle ok text
      → blocked_loop fuel needle ok text ≡ true
  unfolding blocked_loop
  blocked_loop_complete zero ok text lacks enough s = absurd (omega arith)
  blocked_loop_complete (suc fuel) ok text lacks enough s = elim (Option-cases (find needle text)) [
    | inl q ↦ absurd (find-ne-none needle s.before s.behind (ap (find needle) (sym s.splits) ∙ q))
    | inr ((before, at), q) ↦
        let behind = drop (length needle) at in
        let (e, _) = found_text text q in
        let first = find-first needle s.before s.behind (ap (find needle) (sym s.splits) ∙ q) in
        let shorter_text : length behind < fuel = omega (
          arith,
          ap length e,
          length-append before (needle ++ behind),
          length-append needle behind,
          enough,
        ) in
        let next = StandsIn-Next ok text before behind lacks e s first in
        rw (q, blocked_loop)
          (Next-true ok before behind _
            (blocked_loop_complete fuel (left_ok false needle) behind lacks shorter_text) next)
  ]

-- An entry stands in a path with a slash, or an end of the path, on either side.
abbrev pub StandsBetween : Bytes → Bytes → Type 0
StandsBetween path entry =
    (u : Bytes) × (v : Bytes) × (path ≡ u ++ (entry ++ v))
    × ((u ≡ []) ⊎ ((w : Bytes) × (u ≡ w ++ b'/' ∷ [])))
    × ((v ≡ []) ⊎ ((w : Bytes) × (v ≡ b'/' ∷ w)))

ends_with_slash :
    (ok : Bool) (u : Bytes) → left_ok ok u ≡ true → (u ≡ []) ⊎ ((w : Bytes) × (u ≡ w ++ b'/' ∷ []))
unfolding left_ok
ends_with_slash ok [] h = inl refl
ends_with_slash ok (c ∷ []) h = inr ([], ground arith)
ends_with_slash ok (c ∷ d ∷ s) h = elim (ends_with_slash ok (d ∷ s) h) [
  | inl e ↦ absurd (cc)
  | inr (w, e) ↦ inr (c ∷ w, ap (◌∷◌ c) e)
]

begins_with_slash : (v : Bytes) → right_ok v ≡ true → (v ≡ []) ⊎ ((w : Bytes) × (v ≡ b'/' ∷ w))
unfolding right_ok
begins_with_slash [] h = inl refl
begins_with_slash (c ∷ s) h = inr (s, ground arith)

left_ok-slash : (w : Bytes) → left_ok true (w ++ b'/' ∷ []) ≡ true
left_ok-slash w = left_ok-append true w (b'/' ∷ []) ∙ (unfold left_ok in refl)

StandsIn-StandsBetween : (path entry : Bytes) → StandsIn entry true path → StandsBetween path entry
StandsIn-StandsBetween path entry s = (
  s.before,
  s.behind,
  s.splits,
  ends_with_slash true s.before s.left,
  begins_with_slash s.behind s.right,
)

StandsBetween-StandsIn : (path entry : Bytes) → StandsBetween path entry → StandsIn entry true path
unfolding left_ok right_ok
StandsBetween-StandsIn path entry (u, v, e, l, r) = record {
  before = u;
  behind = v;
  splits = e;
  left = elim l [ inl q ↦ rw q refl | inr (w, q) ↦ rw q (left_ok-slash w) ];
  right = elim r [ inl q ↦ rw q refl | inr (w, q) ↦ rw q refl ];
}

-- an entry that is not empty and holds no slash
abbrev pub Plain : Bytes → Type 0
Plain entry = (entry ≢ []) × Lacks b'/' entry

entry_blocks_iff :
    (path entry : Bytes) → Plain entry → (entry_blocks path entry ≡ true) ↔ StandsBetween path entry
unfolding entry_blocks
entry_blocks_iff path [] (ne, _) = absurd (ne refl)
entry_blocks_iff path (c ∷ b) (_, lacks) = (
  λ h. StandsIn-StandsBetween path (c ∷ b) (blocked_loop_sound c b (length path + 1) true path h),
  λ h.
      blocked_loop_complete c b (length path + 1) true path lacks (omega arith)
        (StandsBetween-StandsIn path (c ∷ b) h),
)

any_blocks_iff :
    (path : Bytes) (entries : List Bytes)
    → All Plain entries
    → (any_blocks path entries ≡ true) ↔ Some (StandsBetween path) entries
unfolding any_blocks
any_blocks_iff path [] h = (λ e. absurd (cc), λ e. absurd e)
any_blocks_iff path (x ∷ xs) (hx, h) =
    let (to, from) = entry_blocks_iff path x hx in
    let (tos, froms) = any_blocks_iff path xs h in
    elim (Bool-cases (entry_blocks path x)) [
      | inl e ↦ (λ _. inl (to e), λ _. rw e)
      | inr e ↦ (
        λ q. inr (tos (rw e at q)),
        λ q. elim q [ inl s ↦ absurd (cc (from s)) | inr s ↦ rw e (froms s) ],
      )
    ]

-- A path is blocked exactly when one of the site's entries stands in it between slashes or ends of
-- the path; the entries are not empty and hold no slash themselves.
pub blocked_direct_access_iff :
    (site : Site) (path : Bytes)
    → All Plain site.blocked_direct_access
    → (blocked_direct_access site path ≡ true)
      ↔ Some (StandsBetween path) site.blocked_direct_access
unfolding blocked_direct_access
blocked_direct_access_iff site path h = any_blocks_iff path site.blocked_direct_access h
