-- ===== src/Proxy/Forwarded.antt =====
-- Which header lines of a request its upstream gets.
use rpsiod.Prelude.{
  ℕ, zero, suc, ◌+◌, ◌≤◌, true, false, ◌&&◌, not, Bytes, List, [], ◌∷◌, ◌++◌, some, none, leb, ltb,
  ◌==◌, if◌then◌else◌, length, find, is_prefix, ◌≡◌, refl, sym, ap, ◌∙◌, arith, inl, inr,
  Bool-cases, Lacks, All, length-append, append_assoc, append-nil,
}
use rpsiod.Server.Headers.{crlf}
use rpsiod.Server.Headers.Head.{fit, fit-none}
use rpsiod.Proxy.{proxy_skip_header, forward_line, forward_loop}

find-crlf : (a b : Bytes) → Lacks 13 a → find crlf (a ++ (crlf ++ b)) ≡ some (a, crlf ++ b)
unfolding find is_prefix
find-crlf [] b h = refl
find-crlf (c ∷ a) b (ne, h) =
    let other : (13 == c) ≡ false = ground arith in rw (other, find-crlf a b h) refl

find-none : (a : Bytes) → Lacks 13 a → find crlf a ≡ none
unfolding find is_prefix
find-none [] h = refl
find-none (c ∷ a) (ne, h) =
    let other : (13 == c) ≡ false = ground arith in rw (other, find-none a h) refl

-- the lines one behind the other, each with its CRLF
abbrev pub lines_text : List Bytes → Bytes
lines_text [] = []
lines_text (line ∷ lines) = line ++ (crlf ++ lines_text lines)

-- the lines that are not empty and that the proxy does not write itself
abbrev pub kept_lines : List Bytes → List Bytes
kept_lines [] = []
kept_lines (line ∷ lines) =
    if ltb 0 (length line) && not (proxy_skip_header line)
    then line ∷ kept_lines lines
    else kept_lines lines

forward_line-fit :
    (out_len : ℕ) (used line : Bytes)
    → (ltb 0 (length line) && not (proxy_skip_header line)) ≡ true
    → forward_line out_len used line ≡ fit out_len (used ++ (line ++ crlf))
unfolding forward_line
forward_line-fit out_len used line k =
    let size : length used + length line + 2 ≡ length (used ++ (line ++ crlf)) =
      omega (arith, length-append used (line ++ crlf), length-append line crlf) in
    rw (k, size) refl

forward_line-skip :
    (out_len : ℕ) (used line : Bytes)
    → (ltb 0 (length line) && not (proxy_skip_header line)) ≡ false
    → forward_line out_len used line ≡ some used
unfolding forward_line
forward_line-skip out_len used line k = rw k refl

-- The lines that end in a CRLF inside the block are copied, less those that proxy_skip_header names; a last
-- line without one is not. The copy fits exactly where it is shorter than the buffer.
pub forward_loop-lines :
    (fuel out_len : ℕ) (lines : List Bytes) (last used : Bytes)
    → All (Lacks 13) lines
    → Lacks 13 last
    → length (lines_text lines) ≤ fuel
    → leb out_len (length used) ≡ false
    → forward_loop fuel out_len (lines_text lines ++ last) used
      ≡ fit out_len (used ++ lines_text (kept_lines lines))
unfolding forward_loop
forward_loop-lines zero out_len [] last used h l le fits = rw (append-nil used, fits) refl
forward_loop-lines (suc fuel) out_len [] last used h l le fits =
    rw (forward_loop, find-none last l, append-nil used, fits) refl
forward_loop-lines zero out_len (line ∷ lines) last used h l le fits =
    absurd (omega (arith, length-append line (crlf ++ lines_text lines)))
forward_loop-lines (suc fuel) out_len (line ∷ lines) last used (h, hs) l le fits =
    let found = find-crlf line (lines_text lines ++ last) h in
    let same : line ++ (crlf ++ lines_text lines) ++ last
        ≡ line ++ (crlf ++ (lines_text lines ++ last)) =
      append_assoc line (crlf ++ lines_text lines) last in
    let less : length (lines_text lines) ≤ fuel =
      omega (arith, length-append line (crlf ++ lines_text lines)) in
    elim (Bool-cases (ltb 0 (length line) && not (proxy_skip_header line))) [
      | inr k ↦
          rw (same, forward_loop, found, forward_line-skip out_len used line k, k)
            (forward_loop-lines fuel out_len lines last used hs l less fits)
      | inl k ↦
          let more = used ++ (line ++ crlf) in
          let rest = lines_text (kept_lines lines) in
          let whole : used ++ (line ++ (crlf ++ rest)) ≡ more ++ rest =
            ap (λ t. used ++ t) (sym (append_assoc line crlf rest))
            ∙ sym (append_assoc used (line ++ crlf) rest) in
          elim (Bool-cases (leb out_len (length more))) [
            | inl long ↦
                rw (same, forward_loop, found, forward_line-fit out_len used line k, long, k, whole)
                  (sym (fit-none out_len more rest long))
            | inr short ↦
                rw
                  (same, forward_loop, found, forward_line-fit out_len used line k, short, k, whole)
                  (forward_loop-lines fuel out_len lines last more hs l less short)
          ]
    ]
