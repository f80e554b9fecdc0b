-- ===== src/Server/Fcgi.antt =====
-- src/server.c: the records and the parameters that are sent to PHP, `fcgi_write_record` and
-- `fcgi_add_param`.
pub mod Decode
use rpsiod.Prelude.{
  ℕ, ◌+◌, ◌-◌, ◌/◌, ◌%◌, Bool, true, false, Bytes, List, [], ◌∷◌, ◌++◌, Option, some, none, leb,
  ltb, if◌then◌else◌, length, replicate,
}

-- `uint8_t` of the bytes that fill a record up to a multiple of 8
unfoldable pub padding_of : ℕ → ℕ
padding_of content_len = (8 - content_len % 8) % 8

-- `fcgi_write_record` with a content shorter than 2^16: its eight bytes, the content and the padding
unfoldable pub record_bytes : ℕ → ℕ → Bytes → Bytes
record_bytes type request_id content =
    let n = length content in
    let padding = padding_of n in
    1
    ∷ type
    ∷ request_id / 256 % 256
    ∷ request_id % 256
    ∷ n / 256 % 256
    ∷ n % 256
    ∷ padding
    ∷ 0
    ∷ (content ++ replicate padding 0)

-- a length in one byte, or in four with the first bit set
unfoldable pub name_length : ℕ → Bytes
name_length n =
    if ltb n 128
    then n ∷ []
    else (128 + n / 16777216 % 128) ∷ n / 65536 % 256 ∷ n / 256 % 256 ∷ n % 256 ∷ []

-- `fcgi_name_value`, where it fits
unfoldable pub name_value : ℕ → Bytes → Bytes → Option Bytes
name_value out_len name value =
    let text = name_length (length name) ++ (name_length (length value) ++ (name ++ value)) in
    if ltb out_len (length text) then none else some text

-- `fcgi_add_param` behind what is written; a pair takes two bytes at least
unfoldable pub add_param : ℕ → Bytes → Bytes → Bytes → Option Bytes
add_param buf_len used name value = elim (name_value (buf_len - length used) name value) [
  | none ↦ none
  | some text ↦ some (used ++ text)
]

-- the parameters of a request one behind the other
unfoldable pub add_params : ℕ → Bytes → List (Bytes × Bytes) → Option Bytes
add_params buf_len used [] = some used
add_params buf_len used ((name, value) ∷ pairs) = elim (add_param buf_len used name value) [
  | none ↦ none
  | some more ↦ add_params buf_len more pairs
]
