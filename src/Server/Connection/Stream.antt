-- ===== src/Server/Connection/Stream.antt =====
-- The bytes of a connection as requests, one behind the other.
use rpsiod.Prelude.{
  length-drop, ℕ, zero, suc, ◌+◌, ◌≤◌, Bytes, List, [], ◌∷◌, ◌++◌, leb, if◌then◌else◌, length, take,
  drop, ◌≡◌, ◌≢◌, refl, sym, ap, ◌∙◌, arith, inl, inr, Bool-cases, append_assoc, take-append-drop,
}
use rpsiod.Http.Request.{Request}
use rpsiod.Http.Parse.{parse_request, need_more, done}
use rpsiod.Http.Framing.{parse_request-append}
use rpsiod.Http.Bounds.{parse_request-IsRequest}
use rpsiod.Config.Site.{Config}
use rpsiod.Server.Connection.{
  Arrival, bytes, eof, interrupted, read_error, Exchange, Client, Handlers, exchange_of,
}

-- The text is these requests, each with its body, one behind the other, and the rest: each is what the parser
-- reads at its place, and its body is the bytes behind its head that its content length counts.
abbrev pub Frames : Bytes → List Exchange → Bytes → Type 0
Frames s [] tail = s ≡ tail
Frames s (e ∷ es) tail =
    (behind : Bytes) × (parse_request s ≡ done e.request)
    × (drop e.request.header_len s ≡ e.body ++ behind)
    × (length e.body ≡ e.request.content_length)
    × Frames behind es tail

pub Frames-append :
    (s : Bytes) (es : List Exchange) (mid : Bytes) (fs : List Exchange) (tail : Bytes)
    → Frames s es mid
    → Frames mid fs tail
    → Frames s (es ++ fs) tail
Frames-append s [] mid fs tail e f = rw e f
Frames-append s (x ∷ es) mid fs tail (behind, p, d, l, e) f =
    (behind, p, d, l, Frames-append behind es mid fs tail e f)

-- the bytes that are still to arrive
abbrev pub incoming : List Arrival → Bytes
incoming [] = []
incoming (bytes b ∷ later) = b ++ incoming later
incoming (eof ∷ later) = incoming later
incoming (interrupted ∷ later) = incoming later
incoming (read_error ∷ later) = incoming later

-- the bytes that are not served yet
abbrev pub unserved : Client → Bytes
unserved c = c.buf ++ incoming c.arrivals

drop-append_le : (n : ℕ) (s t : Bytes) → n ≤ length s → drop n (s ++ t) ≡ drop n s ++ t
drop-append_le zero s t h = refl
drop-append_le (suc n) [] t h = absurd (omega arith)
drop-append_le (suc n) (c ∷ s) t h = drop-append_le n s t (omega arith)

drop-nil : (n : ℕ) → drop {A = ℕ} n [] ≡ []
drop-nil zero = refl
drop-nil (suc n) = refl

drop-drop : (m n : ℕ) (s : Bytes) → drop n (drop m s) ≡ drop (m + n) s
drop-drop zero n s = ap (λ k. drop k s) (omega arith)
drop-drop (suc m) n [] = drop-nil n ∙ sym (drop-nil (suc m + n))
drop-drop (suc m) n (c ∷ s) =
    let e : suc m + n ≡ suc (m + n) = omega arith in
    drop-drop m n s ∙ ap (λ k. drop k (c ∷ s)) (sym e)

length-take_eq : (n : ℕ) (s : Bytes) → n ≤ length s → length (take n s) ≡ n
length-take_eq zero s h = refl
length-take_eq (suc n) [] h = absurd (omega arith)
length-take_eq (suc n) (c ∷ s) h = ap suc (length-take_eq n s (omega arith))

-- what is read at the start of the buffer is read at the start of the stream
parse_here :
    (buf more : Bytes) (req : Request)
    → parse_request buf ≡ done req
    → parse_request (buf ++ more) ≡ done req
parse_here buf more req h = parse_request-append buf more (λ e. done_ne (sym h ∙ e)) ∙ h
  where
    done_ne : done req ≢ need_more
    done_ne e = cc

pub header_fits :
    (buf : Bytes) (req : Request) → parse_request buf ≡ done req → req.header_len ≤ length buf
header_fits buf req h = let r = parse_request-IsRequest buf h in r.header_size.1

-- what a read leaves to arrive
pub incoming_rest :
    (room : ℕ) (b : Bytes) (later : List Arrival)
    → incoming (if leb (length b) room then later else bytes (drop room b) ∷ later)
      ≡ drop room b ++ incoming later
incoming_rest room b later = elim (Bool-cases (leb (length b) room)) [
  | inr l ↦ rw l refl
  | inl l ↦ rw (l, empty (drop room b) (ground (arith, length-drop room b))) refl
]
  where
    empty : (s : Bytes) → length s ≡ 0 → s ≡ []
    empty [] e = refl
    empty (c ∷ s) e = absurd (omega arith)

module _ (cfg : Config) (h : Handlers) where
  pub frame_one :
      (c : Client) (req : Request) (more : Bytes)
      → parse_request c.buf ≡ done req
      → req.header_len + req.content_length ≤ length c.buf
      → Frames
          (c.buf ++ more)
          (exchange_of cfg h c req ∷ [])
          (drop (req.header_len + req.content_length) c.buf ++ more)
  unfolding exchange_of
  frame_one c req more p le =
      let head = req.header_len in
      let n = req.content_length in
      let behind = drop head c.buf in
      let size = length-drop head c.buf in
      (
        drop (head + n) c.buf ++ more,
        parse_here c.buf more req p,
        drop-append_le head c.buf more (omega arith)
            ∙ ap (λ s. s ++ more) (sym (take-append-drop n behind))
            ∙ append_assoc (take n behind) (drop n behind) more
            ∙ ap (λ s. take n behind ++ (s ++ more)) (drop-drop head n c.buf),
        length-take_eq n behind (rw size (omega arith)),
        refl,
      )
