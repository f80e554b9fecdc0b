-- ===== src/Security.antt =====
-- src/security.c and src/static.c: paths that may not be asked for, and the path below the root.
pub mod Segments
use rpsiod.Prelude.{
  ℕ, zero, suc, ◌+◌, ◌-◌, ◌≤◌, ◌<◌, Bool, true, false, ◌&&◌, ◌||◌, not, Bytes, codes, List, [], ◌∷◌,
  ◌++◌, ◌≡◌, refl, Option, some, none, arith, ltb, leb, ◌==◌, if◌then◌else◌, length, find, drop,
  drop_while,
}
use rpsiod.Config.Site.{Site}

-- the byte before an occurrence: the last one of what precedes it, or none at the start of the path
-- (`true` where `p == path` or `p[-1] == '/'`)
unfoldable pub left_ok : Bool → Bytes → Bool
left_ok at_start [] = at_start
left_ok at_start (c ∷ []) = c == b'/'
left_ok at_start (c ∷ d ∷ s) = left_ok at_start (d ∷ s)

-- the byte behind it
unfoldable pub right_ok : Bytes → Bool
right_ok [] = true
right_ok (c ∷ s) = c == b'/'

-- The loop over the occurrences of one entry, on fuel. `ok` says whether what precedes `text` is
-- nothing or ends with a slash.
unfoldable pub blocked_loop : ℕ → Bytes → Bool → Bytes → Bool
blocked_loop zero blocked ok text = false
blocked_loop (suc fuel) blocked ok text = elim (find blocked text) [
  | none ↦ false
  | some (before, at) ↦
      let behind = drop (length blocked) at in
      let rest = blocked_loop fuel blocked (left_ok false blocked) behind in
      if left_ok ok before && right_ok behind then true else rest
]

entry_blocks : Bytes → Bytes → Bool
entry_blocks path blocked = blocked_loop (length path + 1) blocked true path

any_blocks : Bytes → List Bytes → Bool
any_blocks path [] = false
any_blocks path (b ∷ bs) = if entry_blocks path b then true else any_blocks path bs

-- `rpsiod_blocked_direct_access`
unfoldable pub blocked_direct_access : Site → Bytes → Bool
unfolding any_blocks entry_blocks
blocked_direct_access site path = any_blocks path site.blocked_direct_access

abbrev slash : ℕ → Bool
slash c = c == b'/'

or_dot : Bytes → Bytes
or_dot [] = codes "."
or_dot (c ∷ s) = c ∷ s

-- `rpsiod_static_relative_request_path`
unfoldable pub static_relative_request_path : Bytes → Bytes
unfolding or_dot
static_relative_request_path request_path = or_dot (drop_while slash request_path)
