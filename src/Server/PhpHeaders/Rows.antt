-- ===== src/Server/PhpHeaders/Rows.antt =====
-- What the head of a script's response consists of.
use rpsiod.Prelude.{
  take-append, ℕ, suc, ◌+◌, ◌-◌, Bool, true, false, Bytes, List, [], ◌∷◌, ◌++◌, Option, some, none,
  leb, length, take, split_at, ℤ, ◌≡◌, refl, sym, ap, ◌∙◌, arith, inl, inr, Bool-cases,
  Option-cases, append_assoc, append-nil, length-append,
}
use rpsiod.Util.Strings.{trim, char_at}
use rpsiod.Config.Site.{Site}
use rpsiod.Server.Headers.{
  Machine, Connection, Row, append_header, append_rows, response_rows, close_head, crlf, head_len,
  status_line, header_line,
}
use rpsiod.Server.Headers.Head.{
  fit, rows_text, append_rows-fit, close_head-fit, build_response_headers-fit,
}
use rpsiod.Server.PhpHeaders.{
  php_header_written, append_named, append_lines, line_pieces, append_php_response_headers,
  php_options, ends_crlf, insert_headers, write_php_response_headers,
}

-- the headers of a script as rows
abbrev pub php_rows : Option Site → List Bytes → List Row
php_rows site [] = []
php_rows site (line ∷ lines) = elim (split_at b':' line) [
  | none ↦ php_rows site lines
  | some (name, value) ↦
      record {
        written = php_header_written site (trim name) (trim value);
        name = trim name;
        value = trim value;
      }
      ∷ php_rows site lines
]

append_lines-rows :
    (len : ℕ) (site : Option Site) (lines : List Bytes) (used : Bytes)
    → append_lines len site lines used ≡ append_rows len used (php_rows site lines)
unfolding append_lines append_rows append_named
append_lines-rows len site [] used = refl
append_lines-rows len site (line ∷ lines) used = elim (Option-cases (split_at b':' line)) [
  | inl q ↦ rw (append_lines, php_rows, q) (append_lines-rows len site lines used)
  | inr ((name, value), q) ↦ elim (Bool-cases (php_header_written site (trim name) (trim value))) [
    | inr w ↦ rw (append_lines, php_rows, q, w) (append_lines-rows len site lines used)
    | inl w ↦ elim (Option-cases (append_header len used (trim name) (trim value))) [
      | inl a ↦ rw (append_lines, php_rows, q, w, a) refl
      | inr (more, a) ↦ rw (append_lines, php_rows, q, w, a) (append_lines-rows len site lines more)
    ]
  ]
]

crlf-first : (a : Bytes) → char_at (a ++ crlf) (length a) ≡ 13
crlf-first [] = refl
crlf-first (x ∷ a) = crlf-first a

crlf-second : (a : Bytes) → char_at (a ++ crlf) (suc (length a)) ≡ 10
crlf-second [] = refl
crlf-second (x ∷ a) = crlf-second a

length-crlf : (a : Bytes) → length (a ++ crlf) ≡ length a + 2
length-crlf a = length-append a crlf

ends_crlf-append : (a : Bytes) → ends_crlf (a ++ crlf) ≡ true
unfolding ends_crlf
ends_crlf-append a =
    let two : length a + 2 - 2 ≡ length a = omega arith in
    let one : length a + 2 - 1 ≡ suc (length a) = omega arith in
    let le : leb 2 (length a + 2) ≡ true = ground arith in
    rw (length-crlf a, two, one, crlf-first a, crlf-second a, le) refl

cut-crlf : (a : Bytes) → take (length (a ++ crlf) - 2) (a ++ crlf) ≡ a
cut-crlf a =
    let two : length a + 2 - 2 ≡ length a = omega arith in
    rw (length-crlf a, two) (take-append a crlf)

-- the rows of the script, which may have sent none
abbrev pub script_rows : Site → Option Bytes → List Row
script_rows site none = []
script_rows site (some cgi) = php_rows (some site) (line_pieces cgi)

-- all rows of the response of a script
abbrev pub all_rows :
    Machine → Connection → Site → Bytes → ℤ → Bool → Option Bytes → Bool → List Row
all_rows m conn site content_type content_length keep_alive cgi chunked =
    response_rows m conn content_type content_length keep_alive (php_options site chunked)
    ++ script_rows site cgi

rows_text-append : (xs ys : List Row) → rows_text (xs ++ ys) ≡ rows_text xs ++ rows_text ys
rows_text-append [] ys = refl
rows_text-append (row ∷ xs) ys = elim (Bool-cases row.written) [
  | inl w ↦
      rw (w, rows_text-append xs ys)
        (sym (append_assoc (header_line row.name row.value) (rows_text xs) (rows_text ys)))
  | inr w ↦ rw w (rows_text-append xs ys)
]

module _ (site : Site) (text : Bytes) where
  longer :
      (b : Bytes)
      → leb head_len (length (text ++ crlf)) ≡ true
      → fit head_len (text ++ b ++ crlf) ≡ none
  longer b h =
      ground (arith, length-crlf text, length-append (text ++ b) crlf, length-append text b)

  shorter : leb head_len (length (text ++ crlf)) ≡ false → leb head_len (length text) ≡ false
  shorter h = ground (arith, length-crlf text)

  -- Headers are put into a head that is ended by its blank line.
  insert_headers-fit :
      (cgi : Option Bytes)
      → insert_headers site cgi (fit head_len (text ++ crlf))
        ≡ fit head_len (text ++ rows_text (script_rows site cgi) ++ crlf)
  unfolding insert_headers append_php_response_headers
  insert_headers-fit none = elim (Bool-cases (leb head_len (length (text ++ crlf)))) [
    | inl long ↦ rw long (sym (longer [] long))
    | inr short ↦ rw (short, ends_crlf-append text, cut-crlf text, append-nil text) (none_fit short)
  ]
    where
      none_fit :
          leb head_len (length (text ++ crlf)) ≡ false
          → close_head head_len (some text) ≡ fit head_len (text ++ crlf)
      none_fit h = rw (fit, shorter h) at (close_head-fit head_len text)
  insert_headers-fit (some cgi) = elim (Bool-cases (leb head_len (length (text ++ crlf)))) [
    | inl long ↦ rw long (sym (longer (rows_text (php_rows (some site) (line_pieces cgi))) long))
    | inr short ↦
        rw
          (
            short,
            ends_crlf-append text,
            cut-crlf text,
            append_lines-rows head_len (some site) (line_pieces cgi) text,
            append_rows-fit head_len (php_rows (some site) (line_pieces cgi)) text (shorter short),
          )
          (close_head-fit head_len (text ++ rows_text (php_rows (some site) (line_pieces cgi))))
  ]

insert_rows-fit :
    (site : Site) (line : Bytes) (rows : List Row) (cgi : Option Bytes)
    → insert_headers site cgi (fit head_len (line ++ rows_text rows ++ crlf))
      ≡ fit head_len (line ++ rows_text (rows ++ script_rows site cgi) ++ crlf)
insert_rows-fit site line rows cgi =
    rw
      (
        rows_text-append rows (script_rows site cgi),
        ← append_assoc line (rows_text rows) (rows_text (script_rows site cgi)),
      )
      (insert_headers-fit site (line ++ rows_text rows) cgi)

-- The head of a script's response is sent exactly where its lines are shorter than the buffer: the status
-- line, the rows of the server, those of the script that are written, and the blank line.
pub write_php_response_headers-fit :
    (m : Machine) (conn : Connection) (site : Site) (status : ℤ) (content_type : Bytes)
    (content_length : ℤ) (keep_alive : Bool) (cgi : Option Bytes) (chunked : Bool)
    → write_php_response_headers m conn site status content_type content_length keep_alive cgi
        chunked
      ≡ fit head_len (
          status_line status
          ++ rows_text (all_rows m conn site content_type content_length keep_alive cgi chunked)
          ++ crlf)
unfolding write_php_response_headers
write_php_response_headers-fit m conn site status content_type content_length keep_alive cgi
      chunked =
    let rows =
      response_rows m conn content_type content_length keep_alive (php_options site chunked) in
    ap (insert_headers site cgi) (
      build_response_headers-fit m conn status content_type content_length keep_alive
        (php_options site chunked) head_len)
    ∙ insert_rows-fit site (status_line status) rows cgi
