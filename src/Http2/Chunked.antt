-- ===== src/Http2/Chunked.antt =====
-- The chunked coding: src/server.c writes it, src/http2.c reads it.
pub mod RoundTrip
pub mod Ends
use rpsiod.Prelude.{
  ℕ, zero, suc, ◌+◌, ◌-◌, ◌*◌, ◌/◌, Bool, true, false, ◌&&◌, ◌||◌, not, Bytes, codes, List, [], ◌∷◌,
  ◌++◌, Option, some, none, leb, ltb, ◌==◌, if◌then◌else◌, length, take, drop, drop_while, find,
  is_prefix, isdigit, hexadecimal,
}
use rpsiod.Util.Strings.{char_at}

abbrev pub crlf : Bytes
crlf = 13 ∷ 10 ∷ []

-- `client_write_chunked_body`
unfoldable pub chunk : Bytes → Bytes
chunk body = if length body == 0 then [] else hexadecimal (length body) ++ (crlf ++ (body ++ crlf))

-- `client_write_chunked_end`
abbrev pub last_chunk : Bytes
last_chunk = codes "0" ++ (crlf ++ crlf)

-- a body that is written in parts
unfoldable pub chunked_body : List Bytes → Bytes
chunked_body [] = last_chunk
chunked_body (part ∷ parts) = chunk part ++ chunked_body parts

-- `H2_MAX_RESPONSE`
abbrev pub max_response : ℕ
max_response = 67108864

abbrev is_blank : ℕ → Bool
is_blank c = c == 32 || c == 9

-- the value of a digit
hex_digit : ℕ → Option ℕ
hex_digit ch =
    if isdigit ch
    then some (ch - b'0')
    else if leb b'a' ch && leb ch b'f'
    then some (10 + (ch - b'a'))
    else if leb b'A' ch && leb ch b'F'
    then some (10 + (ch - b'A'))
    else none

-- what the loop over the digits leaves: the number, whether there was a digit, and the rest of the line
record Size : Type 0 where
  size : ℕ
  saw_digit : Bool
  rest : Bytes

-- the digits of a size, which is refused before it exceeds the limit
size_loop : Bytes → ℕ → Bool → Option Size
unfolding hex_digit
size_loop [] n saw = some (record { size = n; saw_digit = saw; rest = [] })
size_loop (ch ∷ s) n saw = elim (hex_digit ch) [
  | none ↦ some (record { size = n; saw_digit = saw; rest = ch ∷ s })
  | some digit ↦
      let behind = size_loop s (n * 16 + digit) true in
      if ltb ((max_response - digit) / 16) n then none else behind
]

-- the test on what follows the digits
size_end : Option Size → Option ℕ
size_end none = none
size_end (some r) =
    let behind = drop_while is_blank r.rest in
    if not r.saw_digit || not (length behind == 0) && not (char_at behind 0 == b';')
    then none
    else some r.size

-- the size in a chunk's first line
chunk_size : Bytes → Option ℕ
unfolding size_loop size_end
chunk_size line =
    let s = drop_while is_blank line in
    if length s == 0 then none else size_end (size_loop s 0 false)

-- a line, and what follows its CRLF
next_line : Bytes → Option (Bytes × Bytes)
next_line s = elim (find crlf s) [ none ↦ none | some (line, behind) ↦ some (line, drop 2 behind) ]

-- Whether the lines behind the last chunk end in an empty one; the flag says that a line begins.
trailers_end : Bool → Bytes → Bool
trailers_end begins [] = false
trailers_end begins (c ∷ []) = false
trailers_end begins (c ∷ d ∷ s) =
    let behind = trailers_end true s in
    let inside = trailers_end false (d ∷ s) in
    if c == 13 && d == 10 then (if begins then true else behind) else inside

pub data Decoded : Type 0 where
  decoded : Bytes → Decoded
  refused : Decoded
  out_of_fuel : Decoded

-- one chunk from its size on: its bytes and what follows, where it is whole and fits behind what is decoded
chunk_data : ℕ → Bytes → ℕ → Option (Bytes × Bytes)
chunk_data n s decoded_len =
    if ltb (length s) n || ltb max_response n || ltb (max_response - n) decoded_len
    then none
    else if is_prefix crlf (drop n s)
    then some (take n s, drop 2 (drop n s))
    else none

-- the loop of `decode_chunked_body`, on fuel for the chunks
decode_loop : ℕ → Bytes → Bytes → Decoded
unfolding next_line chunk_size trailers_end chunk_data
decode_loop zero s out = out_of_fuel
decode_loop (suc fuel) s out = elim (next_line s) [
  | none ↦ refused
  | some (line, s1) ↦ elim (chunk_size line) [
    | none ↦ refused
    | some zero ↦ if trailers_end true s1 then decoded out else refused
    | some (suc n) ↦ elim (chunk_data (suc n) s1 (length out)) [
      | none ↦ refused
      | some (part, s2) ↦ decode_loop fuel s2 (out ++ part)
    ]
  ]
]

-- `decode_chunked_body`
unfoldable pub decode_chunked_body : Bytes → Decoded
unfolding decode_loop
decode_chunked_body body = decode_loop (length body + 1) body []
