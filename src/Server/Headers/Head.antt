-- ===== src/Server/Headers/Head.antt =====
-- What a head consists of, and when it fits its buffer.
use rpsiod.Prelude.{
  ℕ, Bool, true, false, Bytes, List, [], ◌∷◌, ◌++◌, Option, some, none, leb, if◌then◌else◌, length,
  ◌≡◌, refl, sym, inl, inr, arith, Bool-cases, length-append, append_assoc, append-nil, ℤ,
}
use rpsiod.Server.Headers.{
  Machine, Connection, Options, Row, header_line, append_header, append_rows, close_head,
  write_head, response_rows, build_response_headers, status_line, crlf,
}

-- the lines of the rows that are written
abbrev pub rows_text : List Row → Bytes
rows_text [] = []
rows_text (row ∷ rows) =
    if row.written then header_line row.name row.value ++ rows_text rows else rows_text rows

-- a text that fits a buffer with its NUL
abbrev pub fit : ℕ → Bytes → Option Bytes
fit len text = if leb len (length text) then none else some text

pub fit-none : (len : ℕ) (a b : Bytes) → leb len (length a) ≡ true → fit len (a ++ b) ≡ none
fit-none len a b h = ground (arith, length-append a b)

append_header-fit :
    (buf_len : ℕ) (used name value : Bytes)
    → append_header buf_len used name value ≡ fit buf_len (used ++ header_line name value)
unfolding append_header
append_header-fit buf_len used name value =
    ground (arith, length-append used (header_line name value))

pub append_rows-fit :
    (buf_len : ℕ) (rows : List Row) (used : Bytes)
    → leb buf_len (length used) ≡ false
    → append_rows buf_len used rows ≡ fit buf_len (used ++ rows_text rows)
unfolding append_rows
append_rows-fit buf_len [] used fits = rw (append-nil used, fits)
append_rows-fit buf_len (row ∷ rows) used fits = elim (Bool-cases row.written) [
  | inr w ↦ rw w (append_rows-fit buf_len rows used fits)
  | inl w ↦ elim (Bool-cases (leb buf_len (length (used ++ header_line row.name row.value)))) [
    | inl long ↦
        rw
          (
            w,
            append_header-fit buf_len used row.name row.value,
            long,
            ← append_assoc used (header_line row.name row.value) (rows_text rows),
          )
          (sym (fit-none buf_len (used ++ header_line row.name row.value) (rows_text rows) long))
    | inr short ↦
        rw
          (
            w,
            append_header-fit buf_len used row.name row.value,
            short,
            ← append_assoc used (header_line row.name row.value) (rows_text rows),
          )
          (append_rows-fit buf_len rows (used ++ header_line row.name row.value) short)
  ]
]

pub close_head-fit :
    (len : ℕ) (text : Bytes) → close_head len (fit len text) ≡ fit len (text ++ crlf)
unfolding close_head
close_head-fit len text = elim (Bool-cases (leb len (length text))) [
  | inl long ↦ rw long (sym (fit-none len text crlf long))
  | inr short ↦ rw (short, length-append text crlf) refl
]

write_head-fit :
    (len : ℕ) (line : Bytes) (rows : List Row)
    → write_head len line rows ≡ fit len (line ++ rows_text rows ++ crlf)
unfolding write_head close_head
write_head-fit len line rows = elim (Bool-cases (leb len (length line))) [
  | inl long ↦
      rw (long, append_assoc line (rows_text rows) crlf)
        (sym (fit-none len line (rows_text rows ++ crlf) long))
  | inr short ↦
      rw (short, append_rows-fit len rows line short) (close_head-fit len (line ++ rows_text rows))
]

-- A head is built exactly where the status line, the lines of the rows that are written and the blank line
-- are shorter than the buffer, and then it is these.
pub build_response_headers-fit :
    (m : Machine) (conn : Connection) (status : ℤ) (content_type : Bytes) (content_length : ℤ)
    (keep_alive : Bool) (opts : Options) (headers_len : ℕ)
    → build_response_headers m conn status content_type content_length keep_alive opts headers_len
      ≡ fit headers_len (
          status_line status
          ++ rows_text (response_rows m conn content_type content_length keep_alive opts)
          ++ crlf)
unfolding build_response_headers
build_response_headers-fit m conn status content_type content_length keep_alive opts headers_len =
    write_head-fit headers_len (status_line status)
      (response_rows m conn content_type content_length keep_alive opts)
