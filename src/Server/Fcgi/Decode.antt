-- ===== src/Server/Fcgi/Decode.antt =====
-- What the other side of the FastCGI protocol reads.
use rpsiod.Prelude.{
  ℕ, ◌+◌, ◌-◌, ◌*◌, ◌/◌, ◌%◌, ◌<◌, ◌≤◌, false, Bytes, List, [], ◌∷◌, ◌++◌, Option, some, none, ltb,
  if◌then◌else◌, length, replicate, ◌≡◌, refl, sym, ◌∙◌, arith, inl, inr, Bool-cases, Option-cases,
  length-append, length-replicate, append_assoc, append-nil,
}
use rpsiod.Server.Fcgi.{padding_of, record_bytes, name_length, name_value, add_param, add_params}

-- four bytes of which the first is at least 128
abbrev long_length : Bytes → Option (ℕ × Bytes)
long_length (a ∷ b ∷ c ∷ d ∷ rest) = some ((a - 128) * 16777216 + b * 65536 + c * 256 + d, rest)
long_length _ = none

-- a length of the protocol, and what follows it
unfoldable pub read_length : Bytes → Option (ℕ × Bytes)
read_length [] = none
read_length (a ∷ s) = if ltb a 128 then some (a, s) else long_length (a ∷ s)

-- A pair of the protocol, and what follows it.
abbrev pub Pair : Bytes → Bytes → Bytes → Bytes → Type 0
Pair s name value rest =
    (t : Bytes) × (read_length s ≡ some (length name, t))
    × (read_length t ≡ some (length value, name ++ (value ++ rest)))

abbrev pub Pairs : Bytes → List (Bytes × Bytes) → Type 0
Pairs s [] = s ≡ []
Pairs s ((name, value) ∷ pairs) = (rest : Bytes) × Pair s name value rest × Pairs rest pairs

read_length-name_length :
    (n : ℕ) (rest : Bytes) → n < 2147483648 → read_length (name_length n ++ rest) ≡ some (n, rest)
unfolding read_length name_length
read_length-name_length n rest lt = elim (Bool-cases (ltb n 128)) [
  | inl small ↦ rw (name_length, small, read_length, small) refl
  | inr big ↦
      let first : ltb (128 + n / 16777216 % 128) 128 ≡ false = ground arith in
      let whole : (128 + n / 16777216 % 128 - 128) * 16777216
            + n / 65536 % 256 * 65536
            + n / 256 % 256 * 256
            + n % 256
          ≡ n =
        omega arith in
      rw (name_length, big, read_length, first, whole) refl
]

name_value-Pair :
    (out_len : ℕ) (name value text rest : Bytes)
    → length name < 2147483648
    → length value < 2147483648
    → name_value out_len name value ≡ some text
    → Pair (text ++ rest) name value rest
unfolding name_value
name_value-Pair out_len name value text rest ln lv h =
    let whole = name_length (length name) ++ (name_length (length value) ++ (name ++ value)) in
    elim (Bool-cases (ltb out_len (length whole))) [
      | inl l ↦ absurd (cc (rw (name_value, l) at h))
      | inr l ↦
          let same : whole ≡ text = cc (rw (name_value, l) at h) in
          let t = name_length (length value) ++ (name ++ (value ++ rest)) in
          (
            t,
            rw (← same, assoc) (read_length-name_length (length name) t ln),
            read_length-name_length (length value) (name ++ (value ++ rest)) lv,
          )
    ]
  where
    assoc :
        name_length (length name) ++ (name_length (length value) ++ (name ++ value)) ++ rest
        ≡ name_length (length name) ++ (name_length (length value) ++ (name ++ (value ++ rest)))
    assoc = simp append_assoc

name_value-le :
    (out_len : ℕ) (name value text : Bytes)
    → name_value out_len name value ≡ some text
    → length text ≤ out_len
unfolding name_value
name_value-le out_len name value text h =
    let whole = name_length (length name) ++ (name_length (length value) ++ (name ++ value)) in
    elim (Bool-cases (ltb out_len (length whole))) [
      | inl l ↦ absurd (cc (rw (name_value, l) at h))
      | inr l ↦ let same : whole ≡ text = cc (rw (name_value, l) at h) in rw (← same) (ground arith)
    ]

-- the parameters have lengths that four bytes can hold
abbrev pub ShortPairs : List (Bytes × Bytes) → Type 0
ShortPairs [] = Unit
ShortPairs ((name, value) ∷ pairs) =
    (length name < 2147483648) × (length value < 2147483648) × ShortPairs pairs

-- What is written behind the text is read back as the parameters, in their order and with nothing more.
pub add_params-Pairs :
    (buf_len : ℕ) (used : Bytes) (pairs : List (Bytes × Bytes)) {out : Bytes}
    → ShortPairs pairs
    → length used ≤ buf_len
    → add_params buf_len used pairs ≡ some out
    → (text : Bytes) × (out ≡ used ++ text) × (length out ≤ buf_len) × Pairs text pairs
unfolding add_params add_param
add_params-Pairs buf_len used [] {out} s fits h =
    let same : used ≡ out = cc in ([], sym same ∙ sym (append-nil used), rw (← same) fits, refl)
add_params-Pairs buf_len used ((name, value) ∷ pairs) (ln, lv, s) fits h =
    elim (Option-cases (name_value (buf_len - length used) name value)) [
      | inl q ↦ absurd (cc (rw (add_params, add_param, q) at h))
      | inr (text, q) ↦
          let (rest, e, f, p) =
            add_params-Pairs buf_len (used ++ text) pairs s
              (rw (length-append used text)
                (omega (arith, name_value-le (buf_len - length used) name value text q)))
              (rw (add_params, add_param, q) at h) in
          (
            text ++ rest,
            e ∙ append_assoc used text rest,
            f,
            (rest, name_value-Pair (buf_len - length used) name value text rest ln lv q, p),
          )
    ]

-- A record is as long as a multiple of 8 bytes, whatever its content.
record_bytes_aligned :
    (kind request_id : ℕ) (content : Bytes) → length (record_bytes kind request_id content) % 8 ≡ 0
unfolding record_bytes padding_of
record_bytes_aligned kind request_id content =
    let padding = (8 - length content % 8) % 8 in
    rw (length-append content (replicate padding 0), length-replicate {A = ℕ} padding 0)
      (omega arith)
