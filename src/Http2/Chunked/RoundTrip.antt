-- ===== src/Http2/Chunked/RoundTrip.antt =====
-- What is written in chunks is read back.
use rpsiod.Prelude.{
  take-append, ℕ, zero, suc, ◌+◌, ◌-◌, ◌*◌, ◌/◌, ◌%◌, ◌<◌, ◌≤◌, Bool, true, false, ◌||◌, Bytes,
  List, [], ◌∷◌, ◌++◌, some, ltb, ◌==◌, length, drop_while, find, is_prefix, hexadecimal, ◌≡◌, ◌≢◌,
  refl, sym, ap, ◌∙◌, arith, Bool-cases, length-append, drop-append, append-nil, append_assoc, All,
  ltb→lt,
}
use rpsiod.Prelude.{inl, inr, hex_loop, hex_char}
use rpsiod.Http2.Chunked.{
  crlf, chunk, last_chunk, chunked_body, max_response, hex_digit, size_loop, size_end, chunk_size,
  next_line, trailers_end, decoded, chunk_data, decode_loop, decode_chunked_body,
}

hex_digit-hex_char : (d : ℕ) → d < 16 → hex_digit (hex_char d) ≡ some d
unfolding hex_digit hex_char
hex_digit-hex_char d h = ground arith

size_loop-digit :
    (d n : ℕ) (s : Bytes) (saw : Bool)
    → d < 16
    → n * 16 + d ≤ max_response
    → size_loop (hex_char d ∷ s) n saw ≡ size_loop s (n * 16 + d) true
unfolding size_loop
size_loop-digit d n s saw h le =
    let fits : ltb ((max_response - d) / 16) n ≡ false = ground arith in
    rw (size_loop, hex_digit-hex_char d h, fits) refl

size_loop-hex :
    (fuel n : ℕ) (behind : Bytes) (saw : Bool)
    → n < fuel
    → n ≤ max_response
    → size_loop (hex_loop fuel n behind) 0 saw ≡ size_loop behind n true
unfolding hex_loop
size_loop-hex zero n behind saw lt le = absurd (omega arith)
size_loop-hex (suc fuel) n behind saw lt le = elim (Bool-cases (ltb n 16)) [
  | inl small ↦
      let same : n % 16 ≡ n = omega (arith, ltb→lt n 16 small) in
      let none_before : 0 * 16 + n ≡ n = omega arith in
      rw (small, same)
        (size_loop-digit n 0 behind saw (ltb→lt n 16 small) (omega arith)
          ∙ ap (λ m. size_loop behind m true) none_before)
  | inr big ↦
      let less : n / 16 < fuel = ground arith in
      let whole : n / 16 * 16 + n % 16 ≡ n = omega arith in
      rw big (
        size_loop-hex fuel (n / 16) (hex_char (n % 16) ∷ behind) saw less (omega arith)
        ∙ size_loop-digit (n % 16) (n / 16) behind true (omega arith) (omega arith)
        ∙ ap (λ m. size_loop behind m true) whole)
]

-- a byte of a size
abbrev SizeByte : ℕ → Type 0
SizeByte c = (c ≢ 13) × ((c == 32 || c == 9) ≡ false)

hex_char-SizeByte : (d : ℕ) → d < 16 → SizeByte (hex_char d)
unfolding hex_char
hex_char-SizeByte d h = ground arith

hex_loop-SizeByte :
    (fuel n : ℕ) (behind : Bytes) → All SizeByte behind → All SizeByte (hex_loop fuel n behind)
unfolding hex_loop
hex_loop-SizeByte zero n behind h = h
hex_loop-SizeByte (suc fuel) n behind h =
    let digit = hex_char-SizeByte (n % 16) (omega arith) in
    elim (Bool-cases (ltb n 16)) [
      | inl small ↦ rw small (digit, h)
      | inr big ↦ rw big (hex_loop-SizeByte fuel (n / 16) (hex_char (n % 16) ∷ behind) (digit, h))
    ]

hexadecimal-SizeByte : (n : ℕ) → All SizeByte (hexadecimal n)
unfolding hexadecimal
hexadecimal-SizeByte n = hex_loop-SizeByte (n + 1) n [] tt

drop_while_size : (s : Bytes) → All SizeByte s → drop_while (λ c. c == 32 || c == 9) s ≡ s
drop_while_size [] h = refl
drop_while_size (c ∷ s) ((ne, blank), h) = rw blank refl

find-crlf : (a b : Bytes) → All SizeByte a → find crlf (a ++ (crlf ++ b)) ≡ some (a, crlf ++ b)
unfolding find is_prefix
find-crlf [] b h = refl
find-crlf (c ∷ a) b ((ne, blank), h) =
    let other : (13 == c) ≡ false = ground arith in rw (other, find-crlf a b h) refl

next_line-crlf : (a b : Bytes) → All SizeByte a → next_line (a ++ (crlf ++ b)) ≡ some (a, b)
unfolding next_line
next_line-crlf a b h = rw (next_line, find-crlf a b h) refl

size_loop-hexadecimal :
    (n : ℕ)
    → n ≤ max_response
    → size_loop (hexadecimal n) 0 false ≡ some (record { size = n; saw_digit = true; rest = [] })
unfolding hexadecimal size_loop
size_loop-hexadecimal n le = size_loop-hex (n + 1) n [] false (omega arith) le

has_digit :
    {n : ℕ} (s : Bytes)
    → (length s == 0) ≡ true
    → size_loop s 0 false ≢ some (record { size = n; saw_digit = true; rest = [] })
unfolding size_loop
has_digit [] z h = cc
has_digit (c ∷ s) z h = ground arith

chunk_size-hexadecimal : (n : ℕ) → n ≤ max_response → chunk_size (hexadecimal n) ≡ some n
unfolding chunk_size size_end
chunk_size-hexadecimal n le = elim (Bool-cases (length (hexadecimal n) == 0)) [
  | inl z ↦ absurd (has_digit (hexadecimal n) z (size_loop-hexadecimal n le))
  | inr some_digit ↦
      rw
        (
          drop_while_size (hexadecimal n) (hexadecimal-SizeByte n),
          some_digit,
          size_loop-hexadecimal n le,
        )
        refl
]

chunk_data-append :
    (part rest : Bytes) (len : ℕ)
    → len + length part ≤ max_response
    → chunk_data (length part) (part ++ (crlf ++ rest)) len ≡ some (part, rest)
unfolding chunk_data is_prefix
chunk_data-append part rest len le =
    let whole = length-append part (crlf ++ rest) in
    let a : ltb (length (part ++ (crlf ++ rest))) (length part) ≡ false = ground (arith, whole) in
    let b : ltb max_response (length part) ≡ false = ground arith in
    let c : ltb (max_response - length part) len ≡ false = ground arith in
    rw (a, b, c, drop-append part (crlf ++ rest), take-append part (crlf ++ rest)) refl

decode_loop-chunk :
    (fuel : ℕ) (c : ℕ) (part rest out : Bytes)
    → length out + length (c ∷ part) ≤ max_response
    → decode_loop
        (suc fuel)
        (hexadecimal (length (c ∷ part)) ++ (crlf ++ ((c ∷ part) ++ (crlf ++ rest))))
        out
      ≡ decode_loop fuel rest (out ++ (c ∷ part))
unfolding decode_loop
decode_loop-chunk fuel c part rest out le =
    rw
      (
        decode_loop,
        next_line-crlf (hexadecimal (length (c ∷ part))) ((c ∷ part) ++ (crlf ++ rest))
            (hexadecimal-SizeByte (length (c ∷ part))),
        chunk_size-hexadecimal (length (c ∷ part)) (omega arith),
        chunk_data-append (c ∷ part) rest (length out) le,
      )
      refl

decode_loop-last : (fuel : ℕ) (out : Bytes) → decode_loop (suc fuel) last_chunk out ≡ decoded out
unfolding decode_loop next_line chunk_size size_loop size_end trailers_end find is_prefix
decode_loop-last fuel out = refl

-- the parts of a body one behind the other
abbrev pub joined : List Bytes → Bytes
joined [] = []
joined (part ∷ parts) = part ++ joined parts

chunked_body-longer :
    (c : ℕ) (part : Bytes) (parts : List Bytes)
    → length (chunked_body parts) < length (chunked_body ((c ∷ part) ∷ parts))
unfolding chunked_body chunk
chunked_body-longer c part parts =
    let some_bytes : (suc (length part) == 0) ≡ false = ground arith in
    let size = hexadecimal (length (c ∷ part)) in
    rw
      (
        some_bytes,
        length-append (size ++ (crlf ++ ((c ∷ part) ++ crlf))) (chunked_body parts),
        length-append size (crlf ++ ((c ∷ part) ++ crlf)),
      )
      (omega arith)

decode_loop-chunked :
    (parts : List Bytes) (fuel : ℕ) (out : Bytes)
    → length (chunked_body parts) < fuel
    → length out + length (joined parts) ≤ max_response
    → decode_loop fuel (chunked_body parts) out ≡ decoded (out ++ joined parts)
unfolding chunked_body chunk
decode_loop-chunked parts zero out lt le = absurd (omega arith)
decode_loop-chunked [] (suc fuel) out lt le =
    decode_loop-last fuel out ∙ ap decoded (sym (append-nil out))
decode_loop-chunked ([] ∷ parts) (suc fuel) out lt le =
    decode_loop-chunked parts (suc fuel) out lt le
decode_loop-chunked ((c ∷ part) ∷ parts) (suc fuel) out lt le =
    let rest = chunked_body parts in
    let data_len = length-append out (c ∷ part) in
    let whole = length-append (c ∷ part) (joined parts) in
    let some_bytes : (suc (length part) == 0) ≡ false = ground arith in
    rw (some_bytes, framed rest)
      (decode_loop-chunk fuel c part rest out (omega (arith, le, whole))
        ∙ decode_loop-chunked parts fuel (out ++ (c ∷ part))
            (omega (arith, chunked_body-longer c part parts, lt))
            (rw data_len (omega (arith, le, whole)))
        ∙ ap decoded (append_assoc out (c ∷ part) (joined parts)))
  where
    framed :
        (rest : Bytes)
        → hexadecimal (length (c ∷ part)) ++ (crlf ++ ((c ∷ part) ++ crlf)) ++ rest
          ≡ hexadecimal (length (c ∷ part)) ++ (crlf ++ ((c ∷ part) ++ (crlf ++ rest)))
    framed rest = simp append_assoc

-- A body that is written in parts, of no more bytes than the limit of a response together, is read back whole.
pub decode-chunked_body :
    (parts : List Bytes)
    → length (joined parts) ≤ max_response
    → decode_chunked_body (chunked_body parts) ≡ decoded (joined parts)
unfolding decode_chunked_body
decode-chunked_body parts le =
    decode_loop-chunked parts (length (chunked_body parts) + 1) [] (omega arith) (omega arith)
