-- ===== src/Http2/Chunked/Ends.antt =====
-- The loop over the chunks ends, and what it gives is bounded.
use rpsiod.Prelude.{
  length-drop, ℕ, zero, suc, ◌+◌, ◌-◌, ◌<◌, ◌≤◌, true, ◌||◌, Bytes, [], ◌∷◌, ◌++◌, some, ltb,
  length, take, drop, find, is_prefix, find_sound, ◌≡◌, arith, inl, inr, Bool-cases, Option-cases,
  length-append, length-take-le,
}
use rpsiod.Http2.Chunked.{
  crlf, max_response, next_line, chunk_size, trailers_end, Decoded, decoded, refused, out_of_fuel,
  chunk_data, decode_loop, decode_chunked_body,
}

drop_two : (s : Bytes) → is_prefix crlf s ≡ true → length (drop 2 s) < length s
unfolding is_prefix
drop_two [] h = cc
drop_two (c ∷ []) h = ground arith
drop_two (c ∷ d ∷ s) h = omega arith

next_line-shorter :
    (s : Bytes) {line behind : Bytes} → next_line s ≡ some (line, behind) → length behind < length s
unfolding next_line
next_line-shorter s {line} {behind} h = elim (Option-cases (find crlf s)) [
  | inl q ↦ absurd (cc (rw (next_line, q) at h))
  | inr ((a, b), q) ↦
      let (e, p) = find_sound crlf s q in
      let same : drop 2 b ≡ behind = cc (rw (next_line, q) at h) in
      rw (e, ← same) (omega (arith, length-append a b, drop_two b p))
]

chunk_data-some :
    (n : ℕ) (s : Bytes) (len : ℕ) {part behind : Bytes}
    → chunk_data n s len ≡ some (part, behind)
    → (length behind < length s) × (len + length part ≤ max_response)
unfolding chunk_data
chunk_data-some n s len {part} {behind} h =
    elim (Bool-cases (ltb (length s) n || ltb max_response n || ltb (max_response - n) len)) [
      | inl bad ↦ absurd (cc (rw bad at h))
      | inr good ↦ elim (Bool-cases (is_prefix crlf (drop n s))) [
        | inr q ↦ absurd (cc (rw (good, q) at h))
        | inl p ↦
            let taken : take n s ≡ part = cc (rw (good, p) at h) in
            let left : drop 2 (drop n s) ≡ behind = cc (rw (good, p) at h) in
            (
              rw (← left) (omega (arith, length-drop n s, drop_two (drop n s) p)),
              rw (← taken) (ground (arith, length-take-le n s)),
            )
      ]
    ]

-- the outcomes of a loop that ends, where what is decoded is within the limit
abbrev pub Ends : Decoded → Type 0
Ends (decoded body) = length body ≤ max_response
Ends refused = Unit
Ends out_of_fuel = ⊥

decode_loop-Ends :
    (fuel : ℕ) (s out : Bytes)
    → length s < fuel
    → length out ≤ max_response
    → Ends (decode_loop fuel s out)
unfolding decode_loop
decode_loop-Ends zero s out lt le = omega arith
decode_loop-Ends (suc fuel) s out lt le = elim (Option-cases (next_line s)) [
  | inl q ↦ rw (decode_loop, q) tt
  | inr ((line, s1), q) ↦
      let shorter = next_line-shorter s q in
      elim (Option-cases (chunk_size line)) [
        | inl p ↦ rw (decode_loop, q, p) tt
        | inr (zero, p) ↦ elim (Bool-cases (trailers_end true s1)) [
          | inl t ↦ rw (decode_loop, q, p, t) le
          | inr t ↦ rw (decode_loop, q, p, t) tt
        ]
        | inr (suc n, p) ↦ elim (Option-cases (chunk_data (suc n) s1 (length out))) [
          | inl d ↦ rw (decode_loop, q, p, d) tt
          | inr ((part, s2), d) ↦
              let (less, fits) = chunk_data-some (suc n) s1 (length out) d in
              rw (decode_loop, q, p, d)
                (decode_loop-Ends fuel s2 (out ++ part) (omega arith)
                  (rw (length-append out part) fits))
        ]
      ]
]

-- The decoder ends for every text that a server may send, and what it decodes is within the limit.
pub decode_chunked_body-Ends : (body : Bytes) → Ends (decode_chunked_body body)
unfolding decode_chunked_body
decode_chunked_body-Ends body =
    decode_loop-Ends (length body + 1) body [] (omega arith) (omega arith)
