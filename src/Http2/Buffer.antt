-- ===== src/Http2/Buffer.antt =====
-- src/http2.c: the buffers of answers, `append_bytes`. A failed `realloc` is left out.
use rpsiod.Prelude.{
  ℕ, zero, suc, ◌+◌, ◌-◌, ◌*◌, ◌/◌, ◌<◌, ◌≤◌, ◌||◌, Bytes, ◌++◌, Option, some, none, ltb, ◌==◌,
  if◌then◌else◌, length, ◌≡◌, refl, ◌⊎◌, inl, inr, arith, Bool-cases, length-append,
}
use rpsiod.Http2.Chunked.{max_response}

-- the bytes and the room that is allocated for them
pub record Buffer : Type 0 where
  pub bytes : Bytes
  pub cap : ℕ

-- the loop that doubles the room, on fuel for its turns
grow : ℕ → ℕ → ℕ → ℕ
grow zero next need = next
grow (suc fuel) next need =
    let later = grow fuel (next * 2) need in
    if ltb next need then (if ltb (max_response / 2) next then max_response else later) else next

-- the room for so many bytes; each turn of the loop adds a byte at least
room_for : ℕ → ℕ → ℕ
unfolding grow
room_for cap need = if ltb cap need then grow need (if cap == 0 then 8192 else cap) need else cap

-- `append_bytes`
unfoldable pub append_bytes : Buffer → Bytes → Option Buffer
unfolding room_for
append_bytes b new =
    if ltb max_response (length new) || ltb (max_response - length new) (length b.bytes)
    then none
    else some
        (record { bytes = b.bytes ++ new; cap = room_for b.cap (length b.bytes + length new) })

-- the bytes stand in the room that is allocated, which is within the limit
pub record IsBuffer (b : Buffer) : Type 0 where
  pub fits : length b.bytes ≤ b.cap
  pub limit : b.cap ≤ max_response

grow_bounds :
    (fuel next need : ℕ)
    → 0 < next
    → next ≤ max_response
    → need ≤ max_response
    → need ≤ next + fuel
    → (need ≤ grow fuel next need) × (grow fuel next need ≤ max_response)
unfolding grow
grow_bounds zero next need pos small le enough = (omega arith, omega arith)
grow_bounds (suc fuel) next need pos small le enough = elim (Bool-cases (ltb next need)) [
  | inr f ↦ rw f (ground arith, omega arith)
  | inl f ↦ elim (Bool-cases (ltb (max_response / 2) next)) [
    | inl g ↦ rw (f, g) (omega arith, omega arith)
    | inr g ↦
        rw (f, g) (grow_bounds fuel (next * 2) need (omega arith) (ground arith) le (omega arith))
  ]
]

room_for_bounds :
    (cap need : ℕ)
    → cap ≤ max_response
    → need ≤ max_response
    → (need ≤ room_for cap need) × (room_for cap need ≤ max_response)
unfolding room_for
room_for_bounds cap need small le = elim (Bool-cases (ltb cap need)) [
  | inr f ↦ rw f (ground arith, small)
  | inl f ↦ elim (Bool-cases (cap == 0)) [
    | inl z ↦ rw (f, z) (grow_bounds need 8192 need (omega arith) (omega arith) le (omega arith))
    | inr z ↦ rw (f, z) (grow_bounds need cap need (ground arith) small le (omega arith))
  ]
]

-- Bytes are appended exactly where the limit allows it, and then they and the bytes before them stand in the
-- room that is allocated, which is within the limit.
pub append_bytes_bounds :
    (b : Buffer) (new : Bytes)
    → IsBuffer b
    → ((append_bytes b new ≡ none) × (max_response < length b.bytes + length new))
      ⊎ ((b' : Buffer) × (append_bytes b new ≡ some b') × (b'.bytes ≡ b.bytes ++ new) × IsBuffer b')
unfolding append_bytes
append_bytes_bounds b new ok =
    elim (Bool-cases
      (ltb max_response (length new) || ltb (max_response - length new) (length b.bytes))) [
        | inl f ↦ inl (rw f refl, ground arith)
        | inr f ↦
            let need = length b.bytes + length new in
            let le : need ≤ max_response = ground arith in
            let (enough, small) = room_for_bounds b.cap need ok.limit le in
            inr (
              record { bytes = b.bytes ++ new; cap = room_for b.cap need },
              rw f refl,
              refl,
              record { fits = rw (length-append b.bytes new) enough; limit = small },
            )
      ]
