-- ===== src/Server/Connection/Frames.antt =====
-- Which requests a connection serves, and why it stops.
use rpsiod.Prelude.{
  ℕ, zero, suc, ◌+◌, ◌-◌, ◌<◌, ◌≤◌, ◌&&◌, Bool, true, false, Bytes, List, [], ◌∷◌, ◌++◌, leb, ltb,
  ◌==◌, none, if◌then◌else◌, length, take, drop, ◌≡◌, ◌≢◌, refl, sym, ap, ◌∙◌, arith, inl, inr,
  Bool-cases, ==_iff, append_assoc, take-append-drop,
}
use rpsiod.Http.Request.{Request}
use rpsiod.Http.Parse.{parse_request, Outcome, need_more, done, bad}
use rpsiod.Config.Site.{Config}
use rpsiod.Server.Connection.{
  Arrival, bytes, eof, interrupted, read_error, Exchange, Client, Handled, waiting, closed,
  out_of_fuel, Next, go_on, stop, buffer_size, Handlers, body_have, buffered_request_ready, exceeds,
  exchange_of, keep, kept, serve_one, with_request, process_outcome, process, read_bytes,
  read_arrivals, turn, handle_client_event,
}
use rpsiod.Server.Connection.Stream.{
  Frames, Frames-append, incoming, unserved, header_fits, incoming_rest, frame_one,
}
use rpsiod.Server.Connection.Reasons.{
  Closes, buffer_full, bad_request, too_large, served_last, stays_blocking, no_bytes, Waits,
  exceeds-TooLarge, not_ready-Idle, nothing_taken, dropped-NoKeep,
}
use rpsiod.Server.Connection.Ends.{work, handle_client_event_ends}

snoc-ne : (es : List Exchange) (e : Exchange) → es ++ (e ∷ []) ≢ []
snoc-ne [] e h = cc
snoc-ne (x ∷ es) e h = cc

no_room : (head n : ℕ) → ltb (buffer_size - head) n ≡ true → buffer_size < head + n
no_room head n h = ground arith

module _ (cfg : Config) (h : Handlers) where
  -- what is served so far stands in the stream before what is not
  abbrev Inv : Bytes → Client → Type 0
  Inv s c = Frames s c.served (unserved c)

  -- what the handler leaves
  abbrev pub Served : Bytes → Handled → Type 0
  Served s (waiting c) = Waits s c
  Served s (closed c status) = Closes cfg h s c status
  Served s out_of_fuel = ⊥

  abbrev InvNext : Bytes → Next → Type 0
  InvNext s (go_on c) = Inv s c
  InvNext s (stop r) = Served s r

  kept-Inv : (s : Bytes) (c : Client) → Inv s c → c.served ≢ [] → InvNext s (kept cfg h c)
  unfolding kept
  kept-Inv s c i ne = elim (Bool-cases (buffered_request_ready c.buf)) [
    | inl r ↦ rw (kept, r) i
    | inr r ↦ rw (kept, r) (idle r h.nonblocking_ok refl)
  ]
    where
      idle :
          buffered_request_ready c.buf ≡ false
          → (b : Bool) → h.nonblocking_ok ≡ b
          → InvNext s (if b then stop (waiting c) else stop (closed c none))
      idle r true e = (i, not_ready-Idle c.buf r, inr ne)
      idle r false e = stays_blocking i e

  serve_one-Inv :
      (s : Bytes) (c : Client) (req : Request)
      → parse_request c.buf ≡ done req
      → req.header_len + req.content_length ≤ length c.buf
      → Inv s c
      → InvNext s (serve_one cfg h c req)
  unfolding serve_one keep kept exchange_of
  serve_one-Inv s c req p le i =
      let e = exchange_of cfg h c req in
      let next =
        Frames-append s c.served (unserved c) (e ∷ []) _ i
          (frame_one cfg h c req (incoming c.arrivals) p le) in
      elim (Bool-cases
        (e.keep_alive && h.serve_ok (record req { keep_alive = e.keep_alive }) e.body)) [
          | inr k ↦
              rw (serve_one, k)
                (served_last _ next c.served e refl (dropped-NoKeep cfg h c _ req refl k))
          | inl k ↦ rw (serve_one, k) (kept-Inv s (keep cfg h c req) next (snoc-ne c.served e))
        ]

  with_request-Inv :
      (s : Bytes) (c : Client) (req : Request)
      → parse_request c.buf ≡ done req
      → Inv s c
      → InvNext s (with_request cfg h c req)
  unfolding with_request
  with_request-Inv s c req p i = elim (Bool-cases (exceeds (h.site_of req) req)) [
    | inl x ↦ rw (with_request, x) (too_large i req p (exceeds-TooLarge h req x))
    | inr x ↦
        elim (Bool-cases
          (ltb 0 req.content_length && ltb (body_have c.buf req) req.content_length)) [
            | inl w ↦ elim (Bool-cases (ltb (buffer_size - req.header_len) req.content_length)) [
              | inl b ↦
                  let fits = header_fits c.buf req p in
                  rw (with_request, x, w, b)
                    (too_large i req p (inr (no_room req.header_len req.content_length b)))
              | inr b ↦ rw (with_request, x, w, b) i
            ]
            | inr w ↦
                let head = header_fits c.buf req p in
                rw (with_request, x, w) (serve_one-Inv s c req p (ground arith) i)
          ]
  ]

  process_outcome-Inv :
      (s : Bytes) (c : Client) (o : Outcome)
      → parse_request c.buf ≡ o
      → Inv s c
      → InvNext s (process_outcome cfg h c o)
  unfolding process_outcome
  process_outcome-Inv s c need_more p i = i
  process_outcome-Inv s c bad p i = bad_request i p
  process_outcome-Inv s c (done req) p i = with_request-Inv s c req p i

  read_bytes-Inv :
      (s : Bytes) (c : Client) (b : Bytes) (later : List Arrival)
      → c.arrivals ≡ bytes b ∷ later
      → Frames s c.served (c.buf ++ (b ++ incoming later))
      → InvNext s (read_bytes cfg h c b later)
  unfolding read_bytes process
  read_bytes-Inv s c b later q i =
      let room = buffer_size - length c.buf in
      let rest = if leb (length b) room then later else bytes (drop room b) ∷ later in
      let same : c.buf ++ take room b ++ incoming rest ≡ c.buf ++ (b ++ incoming later) =
        append_assoc c.buf (take room b) (incoming rest)
        ∙ ap (λ t. c.buf ++ (take room b ++ t)) (incoming_rest room b later)
        ∙ ap (λ t. c.buf ++ t) (sym (append_assoc (take room b) (drop room b) (incoming later)))
        ∙ ap (λ t. c.buf ++ (t ++ incoming later)) (take-append-drop room b) in
      let j : Frames s c.served (c.buf ++ take room b ++ incoming rest) = rw same i in
      elim (Bool-cases (length (take room b) == 0)) [
        | inl z ↦ rw (read_bytes, z) (no_bytes (rw q i) (nothing_taken c b later q z))
        | inr n ↦ elim (Bool-cases (length (c.buf ++ take room b) == buffer_size)) [
          | inl f ↦ rw (read_bytes, n, f) (buffer_full j ((==_iff _ _).0 f))
          | inr f ↦ rw (read_bytes, n, f) (process_outcome-Inv s _ _ refl j)
        ]
      ]

  turn-Inv : (s : Bytes) (c : Client) → Inv s c → InvNext s (turn cfg h c)
  unfolding turn process
  turn-Inv s c i = elim (Bool-cases (buffered_request_ready c.buf)) [
    | inl r ↦ rw (turn, r) (process_outcome-Inv s c (parse_request c.buf) refl i)
    | inr r ↦ rw (turn, r) (arrivals-Inv r c.arrivals refl)
  ]
    where
      arrivals-Inv :
          buffered_request_ready c.buf ≡ false
          → (later : List Arrival) → c.arrivals ≡ later
          → InvNext s (read_arrivals cfg h c later)
      arrivals-Inv r [] q = (i, not_ready-Idle c.buf r, inl q)
      arrivals-Inv r (bytes b ∷ later) q = read_bytes-Inv s c b later q (rw q at i)
      arrivals-Inv r (eof ∷ later) q = no_bytes i (later, inl q)
      arrivals-Inv r (read_error ∷ later) q = no_bytes i (later, inr (inl q))
      arrivals-Inv r (interrupted ∷ later) q = rw q at i

  handled-Served :
      (fuel : ℕ) (s : Bytes) (c : Client)
      → Inv s c
      → handle_client_event cfg h fuel c ≢ out_of_fuel
      → Served s (handle_client_event cfg h fuel c)
  unfolding handle_client_event
  handled-Served zero s c i ne = absurd (ne refl)
  handled-Served (suc fuel) s c i ne =
      next (turn cfg h c) (λ c' j ne'. handled-Served fuel s c' j ne') (turn-Inv s c i) ne
    where
      next :
          (t : Next)
          → ((c' : Client)
              → Inv s c'
              → handle_client_event cfg h fuel c' ≢ out_of_fuel
              → Served s (handle_client_event cfg h fuel c'))
          → InvNext s t
          → elim t [ stop r ↦ r | go_on c' ↦ handle_client_event cfg h fuel c' ] ≢ out_of_fuel
          → Served s (elim t [ stop r ↦ r | go_on c' ↦ handle_client_event cfg h fuel c' ])
      next (stop r) later n ne = n
      next (go_on c') later n ne = later c' n ne

  -- Whatever arrives and however it is cut into reads, with fuel for the reads and bytes: the requests that a
  -- connection serves are those that the parser reads one behind the other from the start of the stream, each
  -- with the body that its content length counts. It stops for one of these reasons alone. It waits, where the
  -- buffer holds no whole request, and no read is left or a request was served. It answers 400, where the
  -- buffer is full behind a read or what it holds is not a request; or 413, where a body exceeds its site's
  -- limit or the buffer. It is closed behind a request that cannot keep it, where the descriptor stays
  -- blocking, or where a read gives nothing.
  pub handle_client_event-Served :
      (fuel : ℕ) (s : Bytes) (c : Client)
      → Frames s c.served (unserved c)
      → work c < fuel
      → Served s (handle_client_event cfg h fuel c)
  handle_client_event-Served fuel s c i lt =
      handled-Served fuel s c i (handle_client_event_ends cfg h fuel c lt)
