-- ===== src/Http/Host.antt =====
-- src/http.c: the value of a Host header, and an authority.
pub mod Sound
use rpsiod.Prelude.{
  ℕ, ◌+◌, ◌-◌, ◌*◌, ◌≤◌, ◌<◌, Bool, true, false, ◌&&◌, ◌||◌, not, Bytes, [], ◌∷◌, ◌++◌, ◌≡◌, refl,
  Option, some, none, arith, ltb, leb, ◌==◌, if◌then◌else◌, length, split_at, split_at_last, ◌>>=◌,
  ◌>>◌, guard,
}
use rpsiod.Util.Strings.{streq_ci, char_at}
use rpsiod.Http.Lexical.{all, copy_trimmed_value, host_len}

-- the loop over the digits of a port; no step leaves the range of an `unsigned long`
port_loop : ℕ → Bytes → Bool
port_loop port [] = true
port_loop port (c ∷ s) =
    let next = port * 10 + (c - b'0') in
    let rest = port_loop next s in
    if ltb c b'0' || ltb b'9' c then false else if ltb 65535 next then false else rest

unfoldable pub valid_port : Bytes → Bool
unfolding port_loop
valid_port [] = false
valid_port (c ∷ s) = port_loop 0 (c ∷ s)

abbrev pub host_char : ℕ → Bool
host_char c = not (leb c 0x20 || leb 0x7f c || c == b'/' || c == b'\\')

-- what stands behind the bracket: nothing, or a colon and a port
valid_behind : Bytes → Bool
valid_behind [] = true
valid_behind (c ∷ s) = c == b':' && valid_port s

-- `[address]` or `[address]:port`, cut behind the bracket
bracket_host : Bytes → Option Bytes
bracket_host host = do
  (address, behind) ← split_at b']' host
  guard (not (length address == 1))
  guard (valid_behind behind)
  some (address ++ b']' ∷ [])

-- The first colon is the last one.
one_colon : Bytes → Bytes → Bool
one_colon before host = elim (split_at b':' host) [
  | none ↦ false
  | some (first, _) ↦ length first == length before
]

-- `name:port` cut before its colon; a text with several colons stays whole
cut_port : Bytes → Bytes → Bytes → Option Bytes
cut_port host before port_text =
    if one_colon before host
    then (if valid_port port_text then some before else none)
    else some host

-- `name` or `name:port`
plain_host : Bytes → Option Bytes
plain_host host = elim (split_at_last b':' host) [
  | none ↦ some host
  | some (before, port_text) ↦ cut_port host before port_text
]

host_name : Bytes → Option Bytes
host_name host = if char_at host 0 == b'[' then bracket_host host else plain_host host

-- `parse_host_value`; `none` is `false`
unfoldable pub parse_host_value : Bytes → ℕ → Option Bytes
unfolding host_name bracket_host plain_host cut_port one_colon valid_behind valid_port
parse_host_value value out_len = do
  host ← copy_trimmed_value host_len value
  guard (not (length host == 0))
  guard (all host_char host)
  name ← host_name host
  guard (not (length name == 0 || leb out_len (length name)))
  some name

-- `authority_matches_host`
unfoldable pub authority_matches_host : Bytes → Bytes → Bool
authority_matches_host authority host = elim (parse_host_value authority host_len) [
  | none ↦ false
  | some parsed_authority ↦ elim (parse_host_value host host_len) [
    | none ↦ false
    | some host_line ↦ streq_ci parsed_authority host_line
  ]
]
