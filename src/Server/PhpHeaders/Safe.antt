-- ===== src/Server/PhpHeaders/Safe.antt =====
-- What a script cannot do with the headers it sends.
use rpsiod.Prelude.{
  ℕ, suc, Bool, true, false, ◌&&◌, Bytes, codes, List, [], ◌∷◌, ◌++◌, Option, some, none, leb, ◌==◌,
  length, split_at, ℤ, pos, negsuc, ◌≡◌, ◌≢◌, refl, sym, ◌∙◌, arith, inl, inr, Bool-cases,
  Option-cases, append-nil, All, &&-true, ◌<◌, ◌≤◌, ◌⊎◌,
}
use rpsiod.Util.Strings.{streq_ci, trim}
use rpsiod.Config.Site.{Site}
use rpsiod.Server.Headers.{
  Machine, Connection, Row, response_rows, header_removed, head_len, status_line, crlf,
}
use rpsiod.Server.Headers.Head.{rows_text, fit}
use rpsiod.Server.Headers.Framing.{named, named-append, FramedBy, response_rows-FramedBy}
use rpsiod.Server.PhpHeaders.{
  response_header_token_valid, response_header_value_valid, php_response_header_allowed,
  php_header_written, line_pieces, php_options, write_php_response_headers, all_token, token_byte,
  control_byte,
}
use rpsiod.Server.PhpHeaders.Rows.{php_rows, script_rows, write_php_response_headers-fit}

-- a name of the server alone
abbrev Reserved : Bytes → Type 0
Reserved n = (name : Bytes) → streq_ci name n ≡ true → php_response_header_allowed name ≡ false

-- a byte of a name: visible ASCII, and not the colon behind a name
abbrev pub NameByte : ℕ → Type 0
NameByte c = (32 < c) × (c < 127) × (c ≢ b':')

-- a byte of a value: a tab, or no control byte
abbrev pub ValueByte : ℕ → Type 0
ValueByte c = ((32 ≤ c) ⊎ (c ≡ 9)) × (c ≢ 127)

token_byte-NameByte : (c : ℕ) → token_byte c ≡ true → NameByte c
unfolding token_byte
token_byte-NameByte c h = (ground arith, ground arith, λ e. ground arith)

control_byte-ValueByte : (c : ℕ) → control_byte c ≡ false → ValueByte c
control_byte-ValueByte c h = (ground arith, λ e. ground arith)

-- a row that can be a header of a script
abbrev pub Clean : Row → Type 0
Clean row =
    row.written ≡ true
    → (row.name ≢ [])
      × All NameByte row.name
      × All ValueByte row.value
      × (php_response_header_allowed row.name ≡ true)

content_length-Reserved : Reserved (codes "Content-Length")
unfolding php_response_header_allowed
content_length-Reserved name e = ground arith

transfer_encoding-Reserved : Reserved (codes "Transfer-Encoding")
unfolding php_response_header_allowed
transfer_encoding-Reserved name e = ground arith

written_false :
    (site : Option Site) (name value : Bytes)
    → php_response_header_allowed name ≡ false
    → php_header_written site name value ≡ false
unfolding php_header_written
written_false site name value h = ground arith

php_rows-named :
    (n : Bytes) (site : Option Site) (lines : List Bytes)
    → Reserved n
    → named n (php_rows site lines) ≡ []
php_rows-named n site [] r = refl
php_rows-named n site (line ∷ lines) r = elim (Option-cases (split_at b':' line)) [
  | inl q ↦ rw (php_rows, q) (php_rows-named n site lines r)
  | inr ((name, value), q) ↦ elim (Bool-cases (streq_ci (trim name) n)) [
    | inl e ↦
        rw (php_rows, q, e, written_false site (trim name) (trim value) (r (trim name) e))
          (php_rows-named n site lines r)
    | inr e ↦ rw (php_rows, q, e) (php_rows-named n site lines r)
  ]
]

script_rows-named :
    (n : Bytes) (site : Site) (cgi : Option Bytes)
    → Reserved n
    → named n (script_rows site cgi) ≡ []
script_rows-named n site none r = refl
script_rows-named n site (some cgi) r = php_rows-named n (some site) (line_pieces cgi) r

all_token-All : (s : Bytes) → all_token s ≡ true → All NameByte s
unfolding all_token
all_token-All [] h = tt
all_token-All (c ∷ s) h = elim (Bool-cases (token_byte c)) [
  | inl b ↦ (token_byte-NameByte c b, all_token-All s (rw b at h))
  | inr b ↦ absurd (cc (rw b at h))
]

value_valid-All : (s : Bytes) → response_header_value_valid s ≡ true → All ValueByte s
unfolding response_header_value_valid
value_valid-All [] h = tt
value_valid-All (c ∷ s) h = elim (Bool-cases (control_byte c)) [
  | inl b ↦ absurd (cc (rw b at h))
  | inr b ↦ (control_byte-ValueByte c b, value_valid-All s (rw b at h))
]

token_valid-Clean : (s : Bytes) → response_header_token_valid s ≡ true → (s ≢ []) × All NameByte s
unfolding response_header_token_valid
token_valid-Clean [] h = absurd cc
token_valid-Clean (c ∷ s) h =
    let n : (suc (length s) == 0) ≡ false = ground arith in
    (λ e. absurd cc, all_token-All (c ∷ s) (rw n at h))

written-Clean :
    (site : Option Site) (name value : Bytes)
    → Clean (record { written = php_header_written site name value; name = name; value = value })
unfolding php_header_written
written-Clean site name value w =
    let (w3, kept) =
      &&-true
        (response_header_token_valid name
          && response_header_value_valid value
          && php_response_header_allowed name)
        _ w in
    let (w2, allowed) =
      &&-true (response_header_token_valid name && response_header_value_valid value) _ w3 in
    let (token, valid) = &&-true (response_header_token_valid name) _ w2 in
    let (ne, bytes) = token_valid-Clean name token in
    (ne, bytes, value_valid-All value valid, allowed)

php_rows-Clean : (site : Option Site) (lines : List Bytes) → All Clean (php_rows site lines)
php_rows-Clean site [] = tt
php_rows-Clean site (line ∷ lines) = elim (Option-cases (split_at b':' line)) [
  | inl q ↦ rw (php_rows, q) (php_rows-Clean site lines)
  | inr ((name, value), q) ↦
      rw (php_rows, q) (written-Clean site (trim name) (trim value), php_rows-Clean site lines)
]

-- Unless the site removes Content-Length, a head that is written is the status line, the server's own rows,
-- the rows of the script's text and the empty line, and says in one way how long the body is, whatever headers
-- the script sent: by the length that is known in exactly one Content-Length, or by one Transfer-Encoding, which
-- is chunked, where that is asked for. Each row of the script that is written has a name that is not reserved,
-- not empty and of visible ASCII without a colon, and a value without control bytes but tabs; so none ends its
-- line or the head early.
pub write_php_response_headers-Framed :
    (m : Machine) (conn : Connection) (site : Site) (status : ℤ) (content_type : Bytes)
    (content_length : ℤ) (keep_alive : Bool) (cgi : Option Bytes) (chunked : Bool) {out : Bytes}
    → header_removed (some site) (codes "Content-Length") ≡ false
    → write_php_response_headers m conn site status content_type content_length keep_alive cgi
        chunked
      ≡ some out
    → (out
        ≡ status_line status
          ++ rows_text (
              response_rows m conn content_type content_length keep_alive (php_options site chunked)
              ++ script_rows site cgi)
          ++ crlf)
      × All Clean (script_rows site cgi)
      × FramedBy content_length chunked (
          response_rows m conn content_type content_length keep_alive (php_options site chunked)
          ++ script_rows site cgi)
write_php_response_headers-Framed m conn site status content_type content_length keep_alive cgi
      chunked {out} kept h =
    let server =
      response_rows m conn content_type content_length keep_alive (php_options site chunked) in
    (
      fit-some head_len _ out (
          sym (
            write_php_response_headers-fit m conn site status content_type content_length keep_alive
              cgi chunked)
          ∙ h),
      script_rows-Clean site cgi,
      still_framed content_length server (
          response_rows-FramedBy m conn content_type content_length keep_alive
            (php_options site chunked) kept),
    )
  where
    fit-some : (len : ℕ) (text out : Bytes) → fit len text ≡ some out → out ≡ text
    fit-some len text out h = elim (Bool-cases (leb len (length text))) [
      | inl b ↦ absurd (cc (rw b at h))
      | inr b ↦ cc (rw b at h)
    ]

    script_rows-Clean : (site : Site) (cgi : Option Bytes) → All Clean (script_rows site cgi)
    script_rows-Clean site none = tt
    script_rows-Clean site (some cgi) = php_rows-Clean (some site) (line_pieces cgi)

    joined :
        (n : Bytes) (server : List Row)
        → Reserved n
        → named n (server ++ script_rows site cgi) ≡ named n server
    joined n server r =
        rw (named-append n server (script_rows site cgi), script_rows-named n site cgi r)
          (append-nil (named n server))

    still_framed :
        (content_length : ℤ) (server : List Row)
        → FramedBy content_length chunked server
        → FramedBy content_length chunked (server ++ script_rows site cgi)
    still_framed (pos n) server (a, b) = (
      joined _ server content_length-Reserved ∙ a,
      joined _ server transfer_encoding-Reserved ∙ b,
    )
    still_framed (negsuc n) server (a, b) = (
      joined _ server content_length-Reserved ∙ a,
      joined _ server transfer_encoding-Reserved ∙ b,
    )
