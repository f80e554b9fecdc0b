-- ===== src/Util/Percent.antt =====
-- src/util.c: the decoding of a request path.
use rpsiod.Prelude.{
  ℕ, zero, suc, ◌+◌, ◌-◌, ◌*◌, ◌%◌, ◌/◌, ◌≤◌, ◌<◌, ◌||◌, not, Bytes, codes, [], ◌∷◌, ◌++◌, ◌≡◌, ◌≢◌,
  sym, refl, ap, inl, inr, Option, some, none, arith, ltb, leb, ◌==◌, if◌then◌else◌, Bool-cases,
  length, All, ◌>>=◌, >>=-eq-some, append-nil, append_assoc, ◌∙◌, ◌↔◌, length-append,
}
use rpsiod.Util.Numbers.{hexval}
use rpsiod.Util.Strings.{safe_copy}

-- the two digits of an escape
read_escape : ℕ → ℕ → Bytes → Option (ℕ × Bytes)
read_escape a b t = do hi ← hexval a; lo ← hexval b; some (hi * 16 + lo, t)

-- the byte that the text begins with, or that the escape there stands for, and the text behind it
read_byte : ℕ → Bytes → Option (ℕ × Bytes)
read_byte c s =
    if not (c == b'%') then some (c, s) else elim s [ a ∷ b ∷ t ↦ read_escape a b t | _ ↦ none ]

-- one byte written behind the `oi` bytes of the output, with room left for the NUL
put : ℕ → Bytes → ℕ → Option Bytes
put out_len out ch =
    if ch == 0 || ch == b'\\' || ltb ch 0x20
    then none
    else if leb out_len (length out + 1)
    then none
    else some (out ++ ch ∷ [])

-- the loop, on fuel: every round reads a byte of the text
decode : ℕ → ℕ → Bytes → Bytes → Option Bytes
decode fuel out_len [] out = some out
decode zero out_len (c ∷ s) out = none
decode (suc fuel) out_len (c ∷ s) out =
    let rest = (do
      (ch, t) ← read_byte c s
      out' ← put out_len out ch
      decode fuel out_len t out') in
    if c == b'?' then some out else rest

-- an empty path is written `/`
pub or_root : ℕ → Bytes → Bytes
or_root out_len [] = safe_copy out_len (codes "/")
or_root out_len (c ∷ s) = c ∷ s

-- `rpsiod_percent_decode_path`; `none` is -1
unfoldable pub percent_decode_path : Bytes → ℕ → Option Bytes
unfolding decode read_byte read_escape put or_root
percent_decode_path text out_len =
    if out_len == 0
    then none
    else (do out ← decode (length text) out_len text []; some (or_root out_len out))

-- a byte that a decoded path may hold
abbrev pub Allowed : ℕ → Type 0
Allowed ch = (ch ≢ b'\\') × (0x20 ≤ ch)

-- What the text of a request path stands for, up to its query.
pub data Decodes : Bytes → Bytes → Type 0 where
  stop : Decodes [] []
  query : {c : ℕ} {s : Bytes} → c ≡ b'?' → Decodes (c ∷ s) []
  literal :
      {c : ℕ} {s out : Bytes}
      → c ≢ b'?'
      → c ≢ b'%'
      → Allowed c
      → Decodes s out
      → Decodes (c ∷ s) (c ∷ out)
  escape :
      {c a b hi lo ch : ℕ} {s out : Bytes}
      → c ≡ b'%'
      → hexval a ≡ some hi
      → hexval b ≡ some lo
      → ch ≡ hi * 16 + lo
      → Allowed ch
      → Decodes s out
      → Decodes (c ∷ a ∷ b ∷ s) (ch ∷ out)

put_sound :
    (n : ℕ) (out : Bytes) (ch : ℕ) {r : Bytes}
    → put n out ch ≡ some r
    → Allowed ch × (r ≡ out ++ ch ∷ []) × (length out + 1 < n)
unfolding put
put_sound n out ch h = ground arith

put_complete :
    (n : ℕ) (out : Bytes) (ch : ℕ)
    → Allowed ch
    → length out + 1 < n
    → put n out ch ≡ some (out ++ ch ∷ [])
unfolding put
put_complete n out ch a h = ground arith

-- what one round has read
data Reads : ℕ → Bytes → ℕ → Bytes → Type 0 where
  plain : {c : ℕ} {s : Bytes} → c ≢ b'%' → Reads c s c s
  escaped :
      {c a b hi lo ch : ℕ} {s : Bytes}
      → c ≡ b'%'
      → hexval a ≡ some hi
      → hexval b ≡ some lo
      → ch ≡ hi * 16 + lo
      → Reads c (a ∷ b ∷ s) ch s

Reads-plain : (c : ℕ) (s : Bytes) (ch : ℕ) (t : Bytes) → c ≢ b'%' → c ≡ ch → s ≡ t → Reads c s ch t
Reads-plain c s ch t ne e q = rw (← e, ← q) (plain ne)

read_escape_sound :
    (a b : ℕ) (s : Bytes) {ch : ℕ} {t : Bytes}
    → read_escape a b s ≡ some (ch, t)
    → (hi : ℕ) × (lo : ℕ) × (hexval a ≡ some hi)
      × (hexval b ≡ some lo)
      × (ch ≡ hi * 16 + lo)
      × (s ≡ t)
unfolding read_escape
read_escape_sound a b s h =
    let (hi, x, more) = >>=-eq-some (hexval a) _ h in
    let (lo, y, last) = >>=-eq-some (hexval b) _ more in (hi, lo, x, y, ground arith, ground arith)

read_byte-Reads :
    (c : ℕ) (s : Bytes) {ch : ℕ} {t : Bytes} → read_byte c s ≡ some (ch, t) → Reads c s ch t
unfolding read_byte
read_byte-Reads c [] {ch} {t} h = Reads-plain c [] ch t (ground arith) (ground arith) (ground arith)
read_byte-Reads c (a ∷ []) {ch} {t} h =
    Reads-plain c (a ∷ []) ch t (ground arith) (ground arith) (ground arith)
read_byte-Reads c (a ∷ b ∷ s) {ch} {t} h = elim (Bool-cases (c == b'%')) [
  | inr e ↦ Reads-plain c (a ∷ b ∷ s) ch t (ground arith) (ground arith) (ground arith)
  | inl e ↦
      let (hi, lo, x, y, v, same) = read_escape_sound a b s {ch = ch} {t = t} (ground arith) in
      rw (← same) (escaped (ground arith) x y v)
]

Reads-Decodes :
    {c ch : ℕ} {s t out : Bytes}
    → c ≢ b'?'
    → Reads c s ch t
    → Allowed ch
    → Decodes t out
    → Decodes (c ∷ s) (ch ∷ out)
Reads-Decodes q (plain e) a d = literal q e a d
Reads-Decodes q (escaped e x y z) a d = escape e x y z a d

decode_sound :
    (fuel n : ℕ) (s out : Bytes) {r : Bytes}
    → length out < n
    → decode fuel n s out ≡ some r
    → (t : Bytes) × Decodes s t × (r ≡ out ++ t) × (length r < n)
unfolding decode
decode_sound fuel n [] out fits h = ([], stop, ground (arith, append-nil out), ground arith)
decode_sound zero n (c ∷ s) out fits h = absurd (cc)
decode_sound (suc fuel) n (c ∷ s) out {r} fits h = elim (Bool-cases (c == b'?')) [
  | inl e ↦ ([], query (ground arith), ground (arith, append-nil out), ground arith)
  | inr e ↦
      let (pair, x, more) = >>=-eq-some (read_byte c s) _ (rw e at h) in
      let (out', y, rest) = >>=-eq-some (put n out pair.0) _ more in
      let (a, eo, room) = put_sound n out pair.0 y in
      let grown : length out' < n = rw eo (omega (arith, length-append out (pair.0 ∷ []))) in
      let (t, d, er, short) = decode_sound fuel n pair.1 out' grown rest in
      (
        pair.0 ∷ t,
        Reads-Decodes (ground arith) (read_byte-Reads c s x) a d,
        er ∙ ap (λ o. o ++ t) eo ∙ append_assoc out (pair.0 ∷ []) t,
        short,
      )
]

-- the room that one more byte and the bytes behind it take
grow :
    (n : ℕ) (out t : Bytes) (ch : ℕ)
    → length (out ++ ch ∷ t) < n
    → (length out + 1 < n) × (length ((out ++ ch ∷ []) ++ t) < n)
grow n out t ch h = (omega (arith, length-append out (ch ∷ t)), rw (append_assoc out (ch ∷ []) t) h)

decode_round :
    (fuel n c ch : ℕ) (s t out : Bytes) {r : Bytes}
    → c ≢ b'?'
    → read_byte c s ≡ some (ch, t)
    → Allowed ch
    → length out + 1 < n
    → decode fuel n t (out ++ ch ∷ []) ≡ some r
    → decode (suc fuel) n (c ∷ s) out ≡ some r
unfolding decode
decode_round fuel n c ch s t out q x a room h = ground (arith, put_complete n out ch a room)

decode_complete :
    (fuel n : ℕ) {s t : Bytes} (out : Bytes)
    → length s ≤ fuel
    → length (out ++ t) < n
    → Decodes s t
    → decode fuel n s out ≡ some (out ++ t)
unfolding decode read_byte read_escape
decode_complete fuel n out h fits stop = rw (append-nil out) refl
decode_complete zero n out h fits (query e) = absurd (omega arith)
decode_complete (suc fuel) n out h fits (query e) = ground (arith, append-nil out)
decode_complete zero n out h fits (literal q e a d) = absurd (omega arith)
decode_complete (suc fuel) n out h fits (literal {c} {s} {out = t} q e a d) =
    let (room, fits') = grow n out t c fits in
    let rest = decode_complete fuel n (out ++ c ∷ []) (omega arith) fits' d in
    decode_round fuel n c c s s out q (ground arith) a room
      (rest ∙ ap some (append_assoc out (c ∷ []) t))
decode_complete zero n out h fits (escape e x y z a d) = absurd (omega arith)
decode_complete (suc fuel) n out h fits (escape {c} {a = k} {b} {ch} {s} {out = t} e x y z a d) =
    let (room, fits') = grow n out t ch fits in
    let rest = decode_complete fuel n (out ++ ch ∷ []) (omega arith) fits' d in
    decode_round fuel n c ch (k ∷ b ∷ s) s out (ground arith) (ground arith) a room
      (rest ∙ ap some (append_assoc out (ch ∷ []) t))

percent_decode_path_lem :
    (text : Bytes) (n : ℕ)
    → 0 < n
    → percent_decode_path text n ≡ (decode (length text) n text [] >>= λ o. some (or_root n o))
unfolding percent_decode_path
percent_decode_path_lem text n pos = ground arith

-- Into a buffer that is not empty, a path is decoded exactly when it stands for bytes that are
-- allowed and that fit the buffer with the NUL, and these are the result; `/` stands in for no bytes.
pub percent_decode_path_iff :
    (text : Bytes) (out_len : ℕ) (r : Bytes)
    → 0 < out_len
    → (percent_decode_path text out_len ≡ some r)
      ↔ ((out : Bytes) × Decodes text out × (length out < out_len) × (r ≡ or_root out_len out))
percent_decode_path_iff text n r pos =
    let path = percent_decode_path_lem text n pos in
    (
      λ h.
          let (out, x, last) =
            >>=-eq-some (decode (length text) n text []) (λ o. some (or_root n o)) {b = r}
              (sym path ∙ h) in
          let (t, d, e, fits) = decode_sound (length text) n text [] pos x in
          (t, d, rw e at fits, cc),
      λ (out, d, fits, e).
          let found = decode_complete (length text) n [] (omega arith) fits d in
          path ∙ ap (λ o. o >>= λ t. some (or_root n t)) found ∙ ap some (sym e),
    )

hex_digit : ℕ → ℕ
hex_digit d = if ltb d 10 then b'0' + d else b'A' + (d - 10)

hexval-hex_digit : (d : ℕ) → d < 16 → hexval (hex_digit d) ≡ some d
unfolding hexval hex_digit
hexval-hex_digit d h = ground arith

-- every byte written as an escape
abbrev pub percent_encode : Bytes → Bytes
unfolding hex_digit
percent_encode [] = []
percent_encode (c ∷ s) = b'%' ∷ hex_digit (c / 16) ∷ hex_digit (c % 16) ∷ percent_encode s

percent_encode-Decodes :
    (s : Bytes) → All (λ c. Allowed c × (c < 256)) s → Decodes (percent_encode s) s
unfolding hex_digit
percent_encode-Decodes [] h = stop
percent_encode-Decodes (c ∷ s) ((a, small), h) =
    escape refl (hexval-hex_digit (c / 16) (omega arith)) (hexval-hex_digit (c % 16) (omega arith))
      (omega arith) a (percent_encode-Decodes s h)

-- Every path of allowed bytes that fits the buffer can be asked for: its escaped form is decoded to it.
pub decode-encode :
    (c : ℕ) (s : Bytes) (out_len : ℕ)
    → All (λ c. Allowed c × (c < 256)) (c ∷ s)
    → length (c ∷ s) < out_len
    → percent_decode_path (percent_encode (c ∷ s)) out_len ≡ some (c ∷ s)
unfolding or_root
decode-encode c s n h fits =
    (percent_decode_path_iff (percent_encode (c ∷ s)) n (c ∷ s) (omega arith)).1
      (c ∷ s, percent_encode-Decodes (c ∷ s) h, fits, refl)
