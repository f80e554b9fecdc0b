-- ===== src/Config/Text.antt =====
-- src/config.c: the lines of the YAML subset, the stack of the keys above a line, and the readers of
-- single values.
use Prim.Native.String.{String}
use rpsiod.Prelude.{
  ℕ, ◌+◌, ◌-◌, ◌/◌, ◌%◌, ◌^◌, Bool, true, false, ◌&&◌, ◌||◌, not, Bytes, codes, List, [], ◌∷◌, ◌++◌,
  Option, some, none, ltb, leb, ◌==◌, if◌then◌else◌, length, get_or, take, replicate, str_eq,
  split_at, take_while, any, ℤ, pos, negsuc, strtol, Number,
}
use rpsiod.Util.Strings.{streq_ci, safe_copy, trim}

-- The quote that is open behind a byte, if one is, from the one before it and from the byte before,
-- which is no backslash at the start of the line.
strip_quote : Option ℕ → ℕ → ℕ → Option ℕ
strip_quote open_quote before c =
    if not ((c == b'\'' || c == b'"') && not (before == b'\\'))
    then open_quote
    else elim open_quote [ none ↦ some c | some q ↦ if c == q then none else some q ]

is_open : Option ℕ → Bool
is_open none = false
is_open (some q) = true

-- the loop of `strip_comment`
strip_loop : Option ℕ → ℕ → Bytes → Bytes
unfolding strip_quote is_open
strip_loop open_quote before [] = []
strip_loop open_quote before (c ∷ s) =
    let now = strip_quote open_quote before c in
    let rest = strip_loop now c s in if c == b'#' && not (is_open now) then [] else c ∷ rest

-- `strip_comment`
unfoldable pub strip_comment : Bytes → Bytes
unfolding strip_loop strip_quote is_open
strip_comment line = strip_loop none 0 line

abbrev pub is_space : ℕ → Bool
is_space c = c == 32

-- `indent_level`
unfoldable pub indent_level : Bytes → ℕ
indent_level line = length (take_while is_space line) / 4

-- `split_key_value` into buffers of 128 and 1024 bytes
unfoldable pub split_key_value : Bytes → Option (Bytes × Bytes)
split_key_value line = elim (split_at b':' line) [
  | none ↦ none
  | some (name, behind) ↦
      let key = trim (safe_copy 128 name) in
      if length key == 0 then none else some (key, trim (safe_copy 1024 behind))
]

-- `yaml_stack_item stack[32]`: the key of each level
abbrev pub Stack : Type 0
Stack = List Bytes

abbrev pub depth : ℕ
depth = 32

-- a zeroed stack
abbrev pub empty_stack : Stack
empty_stack = replicate depth []

-- `stack_set`; a level is not negative
unfoldable pub stack_set : Stack → ℕ → Bytes → Stack
stack_set stack level key =
    if leb depth level
    then stack
    else take level stack ++ safe_copy 64 key ∷ replicate (depth - 1 - level) []

-- `path_has`
unfoldable pub path_has : Stack → ℕ → Bytes → Bool
path_has stack max_level key = any (λ k. str_eq k key) (take (max_level + 1) stack)

-- `parent_is`
unfoldable pub parent_is : Stack → ℕ → Bytes → Bool
parent_is stack level key =
    if level == 0 || leb depth (level - 1) then false else str_eq (get_or stack (level - 1) []) key

-- `parse_long`
unfoldable pub parse_long : Bytes → ℤ → ℤ
parse_long value fallback = elim (strtol value) [ none ↦ fallback | some n ↦ n.value ]

-- the cast of a `long` to `int`
unfoldable pub to_int : ℤ → ℤ
to_int (pos n) =
    let low = n % 2 ^ 32 in if ltb low (2 ^ 31) then pos low else negsuc (2 ^ 32 - 1 - low)
to_int (negsuc n) =
    let low = n % 2 ^ 32 in if ltb low (2 ^ 31) then negsuc low else pos (2 ^ 32 - 1 - low)

-- `parse_bool_strict`
unfoldable pub parse_bool_strict : Bytes → Option Bool
parse_bool_strict value =
    if streq_ci value (codes "true") || streq_ci value (codes "yes") || str_eq value (codes "1")
    then some true
    else if streq_ci value (codes "false")
        || streq_ci value (codes "no")
        || str_eq value (codes "0")
    then some false
    else none

-- a number that is a port, with nothing behind it
port_of : Number ℤ → Option ℕ
port_of n = elim n.value [
  | negsuc m ↦ none
  | pos m ↦
      if n.range_error || not (length n.rest == 0) || ltb m 1 || ltb 65535 m then none else some m
]

port_result : Option (Number ℤ) → Option ℕ
port_result none = none
port_result (some n) = port_of n

-- `parse_port_strict`
unfoldable pub parse_port_strict : Bytes → Option ℕ
unfolding port_result port_of
parse_port_strict value = port_result (strtol value)

-- What a setter leaves: the value, or the message of `parse_fail`. Each caller tests the flag behind
-- every setter, so that only the first message of a file is ever kept.
pub data Applied {ℓ} (A : Type ℓ) : Type ℓ where
  done : A → Applied A
  fail : Bytes → Applied A

unfoldable pub map_applied {ℓ κ} : {A : Type ℓ} {B : Type κ} → (A → B) → Applied A → Applied B
map_applied f (done a) = done (f a)
map_applied f (fail message) = fail message

infixl 5 ◌>>=◌
abbrev pub ◌>>=◌ {ℓ κ} : {A : Type ℓ} {B : Type κ} → Applied A → (A → Applied B) → Applied B
done a >>= f = f a
fail message >>= f = fail message

infixl 5 ◌>>◌
abbrev pub ◌>>◌ {ℓ} : {B : Type ℓ} → Applied (Unit {0}) → Applied B → Applied B
m >> k = m >>= λ _. k

-- `if (!test) { set_err(...); return -1; }`
abbrev pub require : Bool → Bytes → Applied (Unit {0})
require true message = done tt
require false message = fail message

-- `apply_bool_value`
unfoldable pub apply_bool_value : String → Bytes → Applied Bool
apply_bool_value field value = elim (parse_bool_strict value) [
  | none ↦ fail (codes field ++ codes " must be a boolean")
  | some b ↦ done b
]

-- `apply_port_value`
unfoldable pub apply_port_value : String → Bytes → Applied ℕ
apply_port_value field value = elim (parse_port_strict value) [
  | none ↦ fail (codes field ++ codes " must be a TCP port between 1 and 65535")
  | some n ↦ done n
]

-- the arguments of a setter: the stack above the line, its level, its key and its value
pub record Line : Type 0 where
  pub stack : Stack
  pub level : ℕ
  pub key : Bytes
  pub value : Bytes

-- `strcmp(key, name) == 0`
unfoldable pub key_is : Line → String → Bool
key_is l name = str_eq l.key (codes name)

unfoldable pub has : Line → String → Bool
has l name = path_has l.stack l.level (codes name)

unfoldable pub below : Line → String → Bool
below l name = parent_is l.stack l.level (codes name)
