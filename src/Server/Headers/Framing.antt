-- ===== src/Server/Headers/Framing.antt =====
-- How a head says where its body ends.
use rpsiod.Prelude.{
  ℕ, Bool, true, false, ◌&&◌, not, Bytes, codes, List, [], ◌∷◌, ◌++◌, Option, some, none,
  if◌then◌else◌, ◌≡◌, refl, append-nil, ◌∙◌, inl, inr, arith, Bool-cases, ℤ, pos, negsuc, decimal,
}
use rpsiod.Util.Strings.{streq_ci}
use rpsiod.Config.Site.{Site, HeaderPair}
use rpsiod.Server.Headers.{
  Machine, Connection, Options, Row, header_removed, protected_response_header, optional, default,
  length_rows, first_rows, last_rows, added_rows, site_rows, response_rows,
}

-- the values of the headers of a name, whatever the case
abbrev pub named : Bytes → List Row → List Bytes
named n [] = []
named n (row ∷ rows) =
    if streq_ci row.name n && row.written then row.value ∷ named n rows else named n rows

-- the rows have other names, or are not written
abbrev pub lacks : Bytes → List Row → Bool
lacks n [] = true
lacks n (row ∷ rows) = not (streq_ci row.name n && row.written) && lacks n rows

pub named-append : (n : Bytes) (xs ys : List Row) → named n (xs ++ ys) ≡ named n xs ++ named n ys
named-append n [] ys = refl
named-append n (row ∷ rows) ys = elim (Bool-cases (streq_ci row.name n && row.written)) [
  | inl w ↦ rw (w, named-append n rows ys) refl
  | inr w ↦ rw (w, named-append n rows ys) refl
]

pub named-lacks : (n : Bytes) (rows : List Row) → lacks n rows ≡ true → named n rows ≡ []
named-lacks n [] h = refl
named-lacks n (row ∷ rows) h = elim (Bool-cases (streq_ci row.name n && row.written)) [
  | inl w ↦ absurd (cc (rw w at h))
  | inr w ↦ rw w (named-lacks n rows (rw w at h))
]

-- a name that no added header has
abbrev Protected : Bytes → Type 0
Protected n = (name : Bytes) → streq_ci name n ≡ true → protected_response_header name ≡ true

added_rows-lacks :
    (n : Bytes) (site : Option Site) (hs : List HeaderPair)
    → Protected n
    → named n (added_rows site hs) ≡ []
unfolding added_rows
added_rows-lacks n site [] p = refl
added_rows-lacks n site (h ∷ hs) p = elim (Bool-cases (streq_ci h.name n)) [
  | inl e ↦ rw (e, p h.name e) (added_rows-lacks n site hs p)
  | inr e ↦ rw e (added_rows-lacks n site hs p)
]

site_rows-lacks : (n : Bytes) (site : Option Site) → Protected n → named n (site_rows site) ≡ []
unfolding site_rows
site_rows-lacks n none p = refl
site_rows-lacks n (some site) p = added_rows-lacks n (some site) site.headers_add p

content_length-Protected : Protected (codes "Content-Length")
unfolding protected_response_header
content_length-Protected name e = ground arith

transfer_encoding-Protected : Protected (codes "Transfer-Encoding")
unfolding protected_response_header
transfer_encoding-Protected name e = ground arith

module _ (m : Machine) (conn : Connection) (content_type : Bytes) (keep_alive : Bool)
    (opts : Options) where
  first_rows-content_length : named (codes "Content-Length") (first_rows m content_type opts) ≡ []
  unfolding first_rows optional default streq_ci
  first_rows-content_length = refl

  first_rows-transfer_encoding :
      named (codes "Transfer-Encoding") (first_rows m content_type opts) ≡ []
  unfolding first_rows optional default streq_ci
  first_rows-transfer_encoding = refl

  last_rows-content_length : named (codes "Content-Length") (last_rows m conn keep_alive opts) ≡ []
  unfolding last_rows optional default streq_ci
  last_rows-content_length = refl

  last_rows-transfer_encoding :
      named (codes "Transfer-Encoding") (last_rows m conn keep_alive opts) ≡ []
  unfolding last_rows optional default streq_ci
  last_rows-transfer_encoding = refl

  -- what is left of the rows under a name that only the length may have
  response_rows-named :
      (n : Bytes) (content_length : ℤ)
      → named n (first_rows m content_type opts) ≡ []
      → named n (last_rows m conn keep_alive opts) ≡ []
      → Protected n
      → named n (response_rows m conn content_type content_length keep_alive opts)
        ≡ named n (length_rows opts.site content_length opts.chunked_response)
  unfolding response_rows
  response_rows-named n content_length first last p =
      let lengths = length_rows opts.site content_length opts.chunked_response in
      rw
        (
          named-append n (first_rows m content_type opts)
              (lengths ++ (last_rows m conn keep_alive opts ++ site_rows opts.site)),
          first,
          named-append n lengths (last_rows m conn keep_alive opts ++ site_rows opts.site),
          named-append n (last_rows m conn keep_alive opts) (site_rows opts.site),
          last,
          site_rows-lacks n opts.site p,
        )
        (append-nil (named n lengths))

  length_rows-content_length :
      (n : ℕ)
      → header_removed opts.site (codes "Content-Length") ≡ false
      → named (codes "Content-Length") (length_rows opts.site (pos n) opts.chunked_response)
        ≡ decimal n ∷ []
  unfolding length_rows default streq_ci
  length_rows-content_length n h = rw h refl

  length_rows-chunked :
      (n : ℕ)
      → named (codes "Transfer-Encoding") (length_rows opts.site (negsuc n) opts.chunked_response)
        ≡ (if opts.chunked_response then codes "chunked" ∷ [] else [])
  unfolding length_rows streq_ci
  length_rows-chunked n = refl

  length_rows-no_chunked :
      (n : ℕ)
      → named (codes "Transfer-Encoding") (length_rows opts.site (pos n) opts.chunked_response) ≡ []
  unfolding length_rows default streq_ci
  length_rows-no_chunked n = refl

  length_rows-no_length :
      (n : ℕ)
      → named (codes "Content-Length") (length_rows opts.site (negsuc n) opts.chunked_response) ≡ []
  unfolding length_rows streq_ci
  length_rows-no_length n = refl

-- The rows say in one way how long the body is: a body of known length by its length alone, another by the
-- chunked coding alone, where that is asked for.
abbrev pub FramedBy : ℤ → Bool → List Row → Type 0
FramedBy (pos n) chunked rows =
    (named (codes "Content-Length") rows ≡ decimal n ∷ [])
    × (named (codes "Transfer-Encoding") rows ≡ [])
FramedBy (negsuc n) chunked rows =
    (named (codes "Content-Length") rows ≡ [])
    × (named (codes "Transfer-Encoding") rows ≡ (if chunked then codes "chunked" ∷ [] else []))

-- Unless the site removes Content-Length, a body of known length has its length in exactly one header
-- Content-Length and no Transfer-Encoding; a body of unknown length has no Content-Length, and one
-- Transfer-Encoding, which is chunked, exactly if that is asked for. Headers that the site adds do not matter.
pub response_rows-FramedBy :
    (m : Machine) (conn : Connection) (content_type : Bytes) (content_length : ℤ)
    (keep_alive : Bool) (opts : Options)
    → header_removed opts.site (codes "Content-Length") ≡ false
    → FramedBy content_length opts.chunked_response
        (response_rows m conn content_type content_length keep_alive opts)
response_rows-FramedBy m conn content_type (pos n) keep_alive opts h = (
  response_rows-named m conn content_type keep_alive opts _ (pos n)
        (first_rows-content_length m conn content_type keep_alive opts)
        (last_rows-content_length m conn content_type keep_alive opts) content_length-Protected
      ∙ length_rows-content_length m conn content_type keep_alive opts n h,
  response_rows-named m conn content_type keep_alive opts _ (pos n)
        (first_rows-transfer_encoding m conn content_type keep_alive opts)
        (last_rows-transfer_encoding m conn content_type keep_alive opts)
        transfer_encoding-Protected
      ∙ length_rows-no_chunked m conn content_type keep_alive opts n,
)
response_rows-FramedBy m conn content_type (negsuc n) keep_alive opts h = (
  response_rows-named m conn content_type keep_alive opts _ (negsuc n)
        (first_rows-content_length m conn content_type keep_alive opts)
        (last_rows-content_length m conn content_type keep_alive opts) content_length-Protected
      ∙ length_rows-no_length m conn content_type keep_alive opts n,
  response_rows-named m conn content_type keep_alive opts _ (negsuc n)
        (first_rows-transfer_encoding m conn content_type keep_alive opts)
        (last_rows-transfer_encoding m conn content_type keep_alive opts)
        transfer_encoding-Protected
      ∙ length_rows-chunked m conn content_type keep_alive opts n,
)
