-- ===== src/Http2/Answer/Passes.antt =====
-- What is passed on of an answer of the own server (src/http2.c).
use rpsiod.Prelude.{
  ℕ, suc, ◌<◌, ◌≤◌, false, ◌||◌, Bytes, codes, List, [], ◌∷◌, Option, some, leb, ◌==◌, length, drop,
  find, split_at, ℤ, ◌≡◌, refl, ap, inl, inr, arith, Bool-cases, Option-cases, All, All-append,
  length-append, map, tolower, ◌≢◌, sym, ◌∙◌, ltb, ltb→lt, take, take-append-drop, length-drop,
}
use rpsiod.Util.Strings.{streq_ci, streq_ci_iff, safe_copy, safe_copy_bounds, trim}
use rpsiod.Server.PhpHeaders.{line_pieces}
use rpsiod.Http2.Answer.{
  AnswerHeader, Answer, Read, blocked_h2_header, until_nul, nonempty, read_header, read_lines,
  read_status, read_body, read_answer, read_head, parse_loopback_response,
}

-- a header that can be passed on: its name, in lower case, is none that belongs to a connection of HTTP/1.1
abbrev pub Passes : AnswerHeader → Type 0
Passes h =
    (map tolower h.name ≢ codes "connection")
    × (map tolower h.name ≢ codes "transfer-encoding")
    × (map tolower h.name ≢ codes "upgrade")
    × (map tolower h.name ≢ codes "keep-alive")
    × (map tolower h.name ≢ codes "proxy-connection")
    × (h.name ≢ [])
    × (length h.name < 128)
    × (length h.value < 4096)

length-map : (f : ℕ → ℕ) (s : Bytes) → length (map f s) ≡ length s
length-map f [] = refl
length-map f (c ∷ s) = ap suc (length-map f s)

not_lt : (n : ℕ) → ltb n 128 ≡ false → 128 ≤ n
not_lt n h = ground arith

length-cut : (name : Bytes) → 128 ≤ length name → 127 ≤ length (safe_copy 128 name)
unfolding safe_copy
length-cut name h = omega (
  arith,
  length-append (take 127 name) (drop 127 name),
  length-drop 127 name,
  ap length (take-append-drop 127 name),
)

cut-nonempty : (b : Bytes) → (length b == 0) ≡ false → safe_copy 128 b ≢ []
unfolding safe_copy
cut-nonempty [] z e = ground arith
cut-nonempty (c ∷ b) z e = cc

-- A name that a short text does not equal is not cut to it either.
cut-ne :
    (name text : Bytes)
    → streq_ci name text ≡ false
    → length text < 127
    → map tolower text ≡ text
    → map tolower (safe_copy 128 name) ≢ text
cut-ne name text h lt lower e =
    let n : length (safe_copy 128 name) ≡ length text =
      sym (length-map tolower (safe_copy 128 name)) ∙ ap length e in
    elim (Bool-cases (ltb (length name) 128)) [
      | inl fits ↦
          let same = (safe_copy_bounds 128 name (omega arith)).1 (ltb→lt (length name) 128 fits) in
          let equal = (streq_ci_iff name text).1 (ap (map tolower) (sym same) ∙ e ∙ sym lower) in
          absurd (cc)
      | inr long ↦ absurd (omega (arith, n, length-cut name (not_lt (length name) long)))
    ]

-- What is not blocked and not empty passes when it is copied.
copied-Passes :
    (name value : Bytes)
    → blocked_h2_header name ≡ false
    → (length name == 0) ≡ false
    → Passes (record { name = safe_copy 128 name; value = safe_copy 4096 value })
unfolding blocked_h2_header
copied-Passes name value allowed some_name = (
  cut-ne name (codes "connection") (ground arith) (omega arith) refl,
  cut-ne name (codes "transfer-encoding") (ground arith) (omega arith) refl,
  cut-ne name (codes "upgrade") (ground arith) (omega arith) refl,
  cut-ne name (codes "keep-alive") (ground arith) (omega arith) refl,
  cut-ne name (codes "proxy-connection") (ground arith) (omega arith) refl,
  cut-nonempty name some_name,
  (safe_copy_bounds 128 name (omega arith)).0,
  (safe_copy_bounds 4096 value (omega arith)).0,
)

abbrev Passing : Read → Type 0
Passing r = (length r.headers ≤ 96) × All Passes r.headers

read_header-Passing :
    (r : Read) (name value : Bytes) → Passing r → Passing (read_header r name value)
unfolding read_header
read_header-Passing r name value (le, p) =
    elim (Bool-cases (blocked_h2_header name || length name == 0 || leb 96 (length r.headers))) [
      | inl k ↦ rw k (le, p)
      | inr k ↦
          let new : AnswerHeader = record {
            name = safe_copy 128 name;
            value = safe_copy 4096 value;
          } in
          let size = length-append r.headers (new ∷ []) in
          let allowed : blocked_h2_header name ≡ false = ground arith in
          let some_name : (length name == 0) ≡ false = ground arith in
          let room : leb 96 (length r.headers) ≡ false = ground arith in
          rw k (
            rw size (ground arith),
            All-append Passes r.headers (new ∷ []) p
                (copied-Passes name value allowed some_name, tt),
          )
    ]

read_lines-Passing : (lines : List Bytes) (r : Read) → Passing r → Passing (read_lines lines r)
unfolding read_lines
read_lines-Passing [] r p = p
read_lines-Passing (line ∷ lines) r p = elim (Option-cases (split_at b':' line)) [
  | inl q ↦ rw (read_lines, q) (read_lines-Passing lines r p)
  | inr ((name, value), q) ↦
      rw (read_lines, q)
        (read_lines-Passing lines (read_header r (trim name) (trim value))
          (read_header-Passing r (trim name) (trim value) p))
]

read_answer-Passes :
    (status : ℤ) (lines : List Bytes) (body : Bytes) {a : Answer}
    → read_answer status lines body ≡ some a
    → (length a.headers ≤ 96) × All Passes a.headers
unfolding read_answer
read_answer-Passes status lines body {a} h =
    let start : Read = record { headers = []; chunked = false } in
    let r = read_lines lines start in
    let passing = read_lines-Passing lines start (omega arith, tt) in
    elim (Option-cases (read_body r.chunked body)) [
      | inl q ↦ absurd (cc (rw (read_answer, q) at h))
      | inr (b, q) ↦
          let same : r.headers ≡ a.headers = ap_headers (rw (read_answer, q) at h) in
          rw (← same) passing
    ]
  where
    some_inj : {x y : Answer} → ◌≡◌ {A = Option Answer} (some x) (some y) → x ≡ y
    some_inj e = cc

    ap_headers : {x y : Answer} → ◌≡◌ {A = Option Answer} (some x) (some y) → x.headers ≡ y.headers
    ap_headers e = ap (λ z. z.headers) (some_inj e)

-- An answer that is read has at most 96 headers; each has a name that, but for case, is none of connection,
-- transfer-encoding, upgrade, keep-alive and proxy-connection, is not empty and has at most 127 bytes, and a
-- value of at most 4095 bytes.
pub parse_loopback_response-Passes :
    (raw : Bytes) {a : Answer}
    → parse_loopback_response raw ≡ some a
    → (length a.headers ≤ 96) × All Passes a.headers
unfolding parse_loopback_response read_head
parse_loopback_response-Passes raw {a} h = elim (Option-cases (find (13 ∷ 10 ∷ 13 ∷ 10 ∷ []) raw)) [
  | inl q ↦ absurd (cc (rw (parse_loopback_response, q) at h))
  | inr ((head, behind), q) ↦
      head_passes (nonempty (line_pieces (until_nul head))) (drop 4 behind)
        (rw (parse_loopback_response, q) at h)
]
  where
    head_passes :
        (lines : List Bytes) (body : Bytes)
        → read_head lines body ≡ some a
        → (length a.headers ≤ 96) × All Passes a.headers
    head_passes [] body e = absurd cc
    head_passes (first ∷ lines) body e = elim (Option-cases (read_status first)) [
      | inl q ↦ absurd (cc (rw (read_head, q) at e))
      | inr (status, q) ↦ read_answer-Passes status lines body (rw (read_head, q) at e)
    ]
