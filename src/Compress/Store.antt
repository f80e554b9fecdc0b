-- ===== src/Compress/Store.antt =====
-- src/compress.c: the gzip file with stored blocks.
use Prim.Native.Nat.{bit_xor}
use mathlib.Core.Path.{subst}
use rpsiod.Prelude.{
  length-drop, ltb→lt, ℕ, zero, suc, ◌+◌, ◌-◌, ◌*◌, ◌/◌, ◌%◌, ◌^◌, ◌≤◌, ◌<◌, Bool, true, false,
  Bytes, codes, [], ◌∷◌, ◌++◌, ◌≡◌, ◌≢◌, ◌↔◌, refl, ap, inl, inr, arith, ltb, ◌==◌, if◌then◌else◌,
  length, take, drop, Bool-cases, length-append, length-take-le, take-eq_of_le, take-append-drop,
}

-- `~` on 32 bits
abbrev not32 : ℕ → ℕ
not32 n = 2 ^ 32 - 1 - n

-- one of the eight rounds of a byte
crc_bit : ℕ → ℕ
crc_bit crc = bit_xor (crc / 2) (if crc % 2 == 1 then 0xEDB88320 else 0)

crc_bits : ℕ → ℕ → ℕ
unfolding crc_bit
crc_bits zero crc = crc
crc_bits (suc n) crc = crc_bits n (crc_bit crc)

crc_bytes : ℕ → Bytes → ℕ
unfolding crc_bits
crc_bytes crc [] = crc
crc_bytes crc (c ∷ s) = crc_bytes (crc_bits 8 (bit_xor crc c)) s

-- `crc32_update`
unfoldable pub crc32_update : ℕ → Bytes → ℕ
unfolding crc_bytes
crc32_update crc input = not32 (crc_bytes (not32 crc) input)

-- the low bytes of a number, the lowest first
unfoldable pub little_endian : ℕ → ℕ → Bytes
little_endian zero n = []
little_endian (suc bytes) n = n % 256 ∷ little_endian bytes (n / 256)

-- the five bytes before a chunk
unfoldable pub block_header : Bool → ℕ → Bytes
block_header final chunk =
    (if final then 1 else 0) ∷ little_endian 2 chunk ++ little_endian 2 (65535 - chunk)

-- the loop, on fuel: every round but that of no data takes a byte; data that is empty has one round
unfoldable pub store_blocks : ℕ → Bytes → Bytes
store_blocks zero input = []
store_blocks (suc fuel) input =
    let chunk = take 65535 input in
    let behind = drop 65535 input in
    let rest = store_blocks fuel behind in
    if length behind == 0
    then block_header true (length chunk) ++ chunk
    else block_header false (length chunk) ++ (chunk ++ rest)

-- the fixed ten bytes
abbrev pub gzip_header : Bytes
gzip_header = 0x1f ∷ 0x8b ∷ 8 ∷ 0 ∷ 0 ∷ 0 ∷ 0 ∷ 0 ∷ 0 ∷ 3 ∷ []

-- `cap`, the size of the buffer
unfoldable pub capacity : ℕ → ℕ
capacity in_len = let blocks = (in_len + 65534) / 65535 in 10 + blocks * 5 + in_len + 8

-- `rpsiod_gzip_store`: the bytes that are written into the buffer
unfoldable pub gzip_store : Bytes → Bytes
gzip_store input =
    gzip_header
    ++ (store_blocks (length input + 1) input
        ++ (little_endian 4 (crc32_update 0 input) ++ little_endian 4 (length input % 2 ^ 32)))

-- What stored blocks stand for (RFC 1951, 3.2.4): a block is the byte 1 if it is the last one and else 0, its
-- length in two bytes, the lower first, their complements, and so many bytes.
pub data Stored : Bytes → Bytes → Type 0 where
  last :
      (low high : ℕ) (chunk : Bytes)
      → low < 256
      → high < 256
      → length chunk ≡ low + 256 * high
      → Stored (1 ∷ low ∷ high ∷ (255 - low) ∷ (255 - high) ∷ chunk) chunk
  more :
      (low high : ℕ) (chunk rest input : Bytes)
      → low < 256
      → high < 256
      → length chunk ≡ low + 256 * high
      → Stored rest input
      → Stored (0 ∷ low ∷ high ∷ (255 - low) ∷ (255 - high) ∷ (chunk ++ rest)) (chunk ++ input)

-- the bytes of a number below 2 ^ 32, the lowest first
abbrev pub four_bytes : ℕ → Bytes
four_bytes n = n % 256 ∷ n / 256 % 256 ∷ n / 65536 % 256 ∷ n / 16777216 % 256 ∷ []

four_bytes-lem : (n : ℕ) → little_endian 4 n ≡ four_bytes n
unfolding little_endian
four_bytes-lem n =
    let third : n / 256 / 256 ≡ n / 65536 = omega arith in
    let fourth : n / 65536 / 256 ≡ n / 16777216 = omega arith in rw (third, fourth) refl

four_bytes-mod : (n : ℕ) → four_bytes (n % 2 ^ 32) ≡ four_bytes n
four_bytes-mod n =
    let a : n % 2 ^ 32 % 256 ≡ n % 256 = omega arith in
    let b : n % 2 ^ 32 / 256 % 256 ≡ n / 256 % 256 = omega arith in
    let c : n % 2 ^ 32 / 65536 % 256 ≡ n / 65536 % 256 = omega arith in
    let d : n % 2 ^ 32 / 16777216 % 256 ≡ n / 16777216 % 256 = omega arith in rw (a, b, c, d) refl

header-bytes :
    (final : Bool) (n : ℕ)
    → n < 65536
    → block_header final n
      ≡ (if final then 1 else 0) ∷ n % 256 ∷ n / 256 ∷ (255 - n % 256) ∷ (255 - n / 256) ∷ []
unfolding block_header little_endian
header-bytes final n h =
    let b : n / 256 % 256 ≡ n / 256 = omega arith in
    let c : (65535 - n) % 256 ≡ 255 - n % 256 = omega arith in
    let d : (65535 - n) / 256 % 256 ≡ 255 - n / 256 = omega arith in rw (b, c, d) refl

last-Stored : (s : Bytes) → length s < 65536 → Stored (block_header true (length s) ++ s) s
last-Stored s h =
    rw (header-bytes true (length s) h)
      (last (length s % 256) (length s / 256) s (omega arith) (omega arith) (omega arith))

more-Stored :
    (s rest input : Bytes)
    → length s < 65536
    → Stored rest input
    → Stored (block_header false (length s) ++ (s ++ rest)) (s ++ input)
more-Stored s rest input h stored = rw (header-bytes false (length s) h) (
    more (length s % 256) (length s / 256) s rest input (omega arith) (omega arith) (omega arith)
      stored)

eq_zero : (n : ℕ) → (n == 0) ≡ true → n ≡ 0
eq_zero n e = ground arith

ne_zero : (n : ℕ) → (n == 0) ≡ false → n ≢ 0
ne_zero n e = ground arith

not_lt : (a b : ℕ) → ltb a b ≡ false → b ≤ a
not_lt a b e = ground arith

-- whether a chunk is the last one
module _ (s : Bytes) where
  last_chunk : (length (drop 65535 s) == 0) ≡ true → length s ≤ 65535
  last_chunk e = omega (arith, length-drop 65535 s, eq_zero (length (drop 65535 s)) e)

  other_chunk : (length (drop 65535 s) == 0) ≡ false → 65535 < length s
  other_chunk e = elim (Bool-cases (ltb 65535 (length s))) [
    | inl q ↦ ltb→lt 65535 (length s) q
    | inr q ↦ absurd (
        ne_zero (length (drop 65535 s)) e
          (omega (arith, length-drop 65535 s, not_lt 65535 (length s) q)))
  ]

  length-chunk : 65535 < length s → length (take 65535 s) ≡ 65535
  length-chunk h = omega (
    arith,
    length-append (take 65535 s) (drop 65535 s),
    length-drop 65535 s,
    ap length (take-append-drop 65535 s),
  )

store_blocks-Stored : (fuel : ℕ) (s : Bytes) → length s < fuel → Stored (store_blocks fuel s) s
unfolding store_blocks
store_blocks-Stored (suc fuel) s h = elim (Bool-cases (length (drop 65535 s) == 0)) [
  | inl e ↦
      rw (e, take-eq_of_le 65535 s (last_chunk s e)) (last-Stored s (omega (arith, last_chunk s e)))
  | inr e ↦ rw e (
      subst (Stored _) (take-append-drop 65535 s) (
        more-Stored (take 65535 s) _ (drop 65535 s) (omega (arith, length-take-le 65535 s)) (
          store_blocks-Stored fuel (drop 65535 s)
            (omega (arith, length-drop 65535 s, other_chunk s e)))))
]
store_blocks-Stored zero s h = absurd (omega arith)

length-block_header : (final : Bool) (n : ℕ) → length (block_header final n) ≡ 5
unfolding block_header little_endian
length-block_header final n = refl

-- the blocks that so many bytes take
abbrev block_count : ℕ → ℕ
block_count n = if n == 0 then 1 else (n + 65534) / 65535

one_block : (n : ℕ) → n ≤ 65535 → block_count n ≡ 1
one_block n h = ground arith

counted : (n : ℕ) → block_count (suc n) ≡ (suc n + 65534) / 65535
counted n = ground arith

next_block : (n : ℕ) → 65535 < n → block_count n ≡ suc (block_count (n - 65535))
next_block n h = ground arith

length-store_blocks :
    (fuel : ℕ) (s : Bytes)
    → length s < fuel
    → length (store_blocks fuel s) ≡ length s + 5 * block_count (length s)
unfolding store_blocks
length-store_blocks (suc fuel) s h = elim (Bool-cases (length (drop 65535 s) == 0)) [
  | inl e ↦
      rw (e, take-eq_of_le 65535 s (last_chunk s e), one_block (length s) (last_chunk s e))
        (omega (
          arith,
          length-append (block_header true (length s)) s,
          length-block_header true (length s),
        ))
  | inr e ↦
      let big = other_chunk s e in
      let rest = store_blocks fuel (drop 65535 s) in
      let ih = length-store_blocks fuel (drop 65535 s) (omega (arith, length-drop 65535 s, big)) in
      let len = length-drop 65535 s in
      rw (e, next_block (length s) big, ← len)
        (omega (
          arith,
          length-append (block_header false (length (take 65535 s))) (take 65535 s ++ rest),
          length-append (take 65535 s) rest,
          length-block_header false (length (take 65535 s)),
          length-chunk s big,
          ih,
          len,
          big,
        ))
]
length-store_blocks zero s h = absurd (omega arith)

crc32_update-check : crc32_update 0 (codes "123456789") ≡ 0xCBF43926
unfolding crc32_update
crc32_update-check = refl

-- The file is ten fixed bytes, stored blocks that stand for the data, the four bytes of what crc32_update gives for
-- the data, and the four lowest bytes of the length; crc32_update gives CRC-32's check value for the text
-- 123456789.
pub gzip_store-Stored :
    (input : Bytes)
    → (blocks : Bytes) × Stored blocks input
      × (gzip_store input
          ≡ 0x1f
            ∷ 0x8b
            ∷ 8
            ∷ 0
            ∷ 0
            ∷ 0
            ∷ 0
            ∷ 0
            ∷ 0
            ∷ 3
            ∷ (blocks ++ (four_bytes (crc32_update 0 input) ++ four_bytes (length input))))
      × (crc32_update 0 (codes "123456789") ≡ 0xCBF43926)
unfolding gzip_store
gzip_store-Stored input = (
  store_blocks (length input + 1) input,
  store_blocks-Stored (length input + 1) input (omega arith),
  rw
      (
        four_bytes-lem (crc32_update 0 input),
        four_bytes-lem (length input % 2 ^ 32),
        four_bytes-mod (length input),
      )
      refl,
  crc32_update-check,
)

length-gzip_store :
    (input : Bytes)
    → length (gzip_store input) ≡ 18 + (length input + 5 * block_count (length input))
unfolding gzip_store little_endian
length-gzip_store input = omega (
  arith,
  length-append (store_blocks (length input + 1) input) _,
  length-store_blocks (length input + 1) input (omega arith),
)

-- What is written fits the buffer exactly when there is data; the block that stands for no data has
-- no room in it.
pub gzip_store-fits_iff :
    (input : Bytes) → (length (gzip_store input) ≤ capacity (length input)) ↔ (input ≢ [])
unfolding capacity
gzip_store-fits_iff [] = (λ h e. absurd (omega (arith, length-gzip_store [])), λ h. absurd (h refl))
gzip_store-fits_iff (c ∷ s) =
    (λ h e. cc, λ h. omega (arith, length-gzip_store (c ∷ s), counted (length s)))
