-- ===== src/Server/Connection/Ends.antt =====
-- The loop over the reads and the requests of a connection ends.
use rpsiod.Prelude.{
  length-drop, ℕ, zero, suc, ◌+◌, ◌-◌, ◌*◌, ◌<◌, ◌≤◌, true, false, ◌&&◌, Bytes, List, [], ◌∷◌, ◌++◌,
  Option, some, none, leb, ltb, ◌==◌, if◌then◌else◌, length, take, drop, ℤ, pos, ◌≡◌, ◌≢◌, refl, ap,
  arith, inl, inr, Bool-cases, take-append-drop, length-append,
}
use rpsiod.Http.Request.{Request}
use rpsiod.Http.Parse.{parse_request, Outcome, need_more, done, bad}
use rpsiod.Http.Bounds.{parse_request-IsRequest}
use rpsiod.Config.Site.{Config}
use rpsiod.Server.Connection.{
  Arrival, bytes, eof, interrupted, read_error, Client, waiting, closed, out_of_fuel, Next, go_on,
  stop, buffer_size, Handlers, body_have, ready_of, buffered_request_ready, exceeds, exchange_of,
  keep, kept, serve_one, with_request, process_outcome, process, read_bytes, read_arrivals, turn,
  handle_client_event,
}

-- Each read takes a step, and so does each byte: when it is read, and when its request is served.
abbrev pub weight : List Arrival → ℕ
weight [] = 0
weight (bytes b ∷ later) = 1 + 2 * length b + weight later
weight (eof ∷ later) = 1 + weight later
weight (interrupted ∷ later) = 1 + weight later
weight (read_error ∷ later) = 1 + weight later

abbrev pub work : Client → ℕ
work c = length c.buf + weight c.arrivals

-- the loop goes on with no more work than this, or the handler is done
abbrev AtMost : ℕ → Next → Type 0
AtMost n (go_on c) = work c ≤ n
AtMost n (stop r) = r ≢ out_of_fuel

abbrev LessThan : ℕ → Next → Type 0
LessThan n (go_on c) = work c < n
LessThan n (stop r) = r ≢ out_of_fuel

waiting-ne : (c : Client) → waiting c ≢ out_of_fuel
waiting-ne c e = cc

closed-ne : (c : Client) (s : Option ℤ) → closed c s ≢ out_of_fuel
closed-ne c s e = cc

AtMost-of_less : (n : ℕ) (t : Next) → LessThan n t → AtMost n t
AtMost-of_less n (go_on c) h = omega arith
AtMost-of_less n (stop r) h = h

outcome_ready :
    (buf : Bytes) → buffered_request_ready buf ≡ true → ready_of buf (parse_request buf) ≡ true
unfolding buffered_request_ready
outcome_ready buf r = elim (Bool-cases (length buf == 0)) [
  | inl z ↦ absurd (cc (rw (buffered_request_ready, z) at r))
  | inr z ↦ rw (buffered_request_ready, z) at r
]

-- a read moves bytes into the buffer
read_less :
    (room : ℕ) (buf b : Bytes) (later : List Arrival) (n : ℕ)
    → (length (take room b) == 0) ≡ false
    → length buf + (1 + 2 * length b + weight later) ≤ n
    → length (buf ++ take room b)
        + weight (if leb (length b) room then later else bytes (drop room b) ∷ later)
      < n
read_less room buf b later n some_bytes le =
    let whole = length-append (take room b) (drop room b) in
    let same : length (take room b ++ drop room b) ≡ length b =
      ap length (take-append-drop room b) in
    let buffer = length-append buf (take room b) in
    elim (Bool-cases (leb (length b) room)) [
      | inl l ↦ rw (l, buffer) (ground (arith, whole, same))
      | inr l ↦ rw (l, buffer) (ground (arith, whole, same))
    ]

module _ (cfg : Config) (h : Handlers) where
  kept-AtMost : (c : Client) → AtMost (work c) (kept cfg h c)
  unfolding kept
  kept-AtMost c = elim (Bool-cases (buffered_request_ready c.buf)) [
    | inl r ↦ rw (kept, r) (omega arith)
    | inr r ↦ elim (Bool-cases h.nonblocking_ok) [
      | inl b ↦ rw (kept, r, b) (waiting-ne c)
      | inr b ↦ rw (kept, r, b) (closed-ne c none)
    ]
  ]

  less_of : (m n : ℕ) (t : Next) → AtMost m t → m < n → LessThan n t
  less_of m n (go_on c) a lt = omega arith
  less_of m n (stop r) a lt = a

  serve_one-LessThan :
      (c : Client) (req : Request)
      → parse_request c.buf ≡ done req
      → LessThan (work c) (serve_one cfg h c req)
  unfolding serve_one keep
  serve_one-LessThan c req p =
      let e = exchange_of cfg h c req in
      let consumed = req.header_len + req.content_length in
      let ok = parse_request-IsRequest c.buf p in
      let start = ok.header_start in
      let inside = ok.header_size.1 in
      elim (Bool-cases
        (e.keep_alive && h.serve_ok (record req { keep_alive = e.keep_alive }) e.body)) [
          | inr k ↦ rw (serve_one, k) (closed-ne _ none)
          | inl k ↦
              rw (serve_one, k)
                (less_of (work (keep cfg h c req)) (work c) (kept cfg h (keep cfg h c req))
                  (kept-AtMost (keep cfg h c req))
                  (omega (arith, length-drop consumed c.buf, start, inside)))
        ]

  with_request-LessThan :
      (c : Client) (req : Request)
      → parse_request c.buf ≡ done req
      → leb req.content_length (body_have c.buf req) ≡ true
      → LessThan (work c) (with_request cfg h c req)
  unfolding with_request
  with_request-LessThan c req p whole = elim (Bool-cases (exceeds (h.site_of req) req)) [
    | inl x ↦ rw (with_request, x) (closed-ne c (some (pos 413)))
    | inr x ↦
        let there : (ltb 0 req.content_length && ltb (body_have c.buf req) req.content_length)
            ≡ false =
          ground arith in
        rw (with_request, x, there) (serve_one-LessThan c req p)
  ]

  with_request-AtMost :
      (c : Client) (req : Request)
      → parse_request c.buf ≡ done req
      → AtMost (work c) (with_request cfg h c req)
  unfolding with_request
  with_request-AtMost c req p = elim (Bool-cases (exceeds (h.site_of req) req)) [
    | inl x ↦ rw (with_request, x) (closed-ne c (some (pos 413)))
    | inr x ↦
        elim (Bool-cases
          (ltb 0 req.content_length && ltb (body_have c.buf req) req.content_length)) [
            | inl w ↦ elim (Bool-cases (ltb (buffer_size - req.header_len) req.content_length)) [
              | inl b ↦ rw (with_request, x, w, b) (closed-ne c (some (pos 413)))
              | inr b ↦ rw (with_request, x, w, b) (omega arith)
            ]
            | inr w ↦
                rw (with_request, x, w)
                  (AtMost-of_less (work c) (serve_one cfg h c req) (serve_one-LessThan c req p))
          ]
  ]

  process_outcome-AtMost :
      (c : Client) (o : Outcome)
      → parse_request c.buf ≡ o
      → AtMost (work c) (process_outcome cfg h c o)
  unfolding process_outcome
  process_outcome-AtMost c need_more p = omega arith
  process_outcome-AtMost c bad p = closed-ne c (some (pos 400))
  process_outcome-AtMost c (done req) p = with_request-AtMost c req p

  ready_outcome-LessThan :
      (c : Client) (o : Outcome)
      → parse_request c.buf ≡ o
      → ready_of c.buf o ≡ true
      → LessThan (work c) (process_outcome cfg h c o)
  unfolding process_outcome ready_of
  ready_outcome-LessThan c need_more p r = cc
  ready_outcome-LessThan c bad p r = closed-ne c (some (pos 400))
  ready_outcome-LessThan c (done req) p r = with_request-LessThan c req p r

  read_bytes-LessThan :
      (c : Client) (b : Bytes) (later : List Arrival) (n : ℕ)
      → length c.buf + (1 + 2 * length b + weight later) ≤ n
      → LessThan n (read_bytes cfg h c b later)
  unfolding read_bytes process
  read_bytes-LessThan c b later n le =
      let room = buffer_size - length c.buf in
      let rest = if leb (length b) room then later else bytes (drop room b) ∷ later in
      let c' = record c { arrivals = rest; buf = c.buf ++ take room b } in
      elim (Bool-cases (length (take room b) == 0)) [
        | inl z ↦ rw (read_bytes, z) (closed-ne c none)
        | inr z ↦ elim (Bool-cases (length (c.buf ++ take room b) == buffer_size)) [
          | inl f ↦ rw (read_bytes, z, f) (closed-ne c' (some (pos 400)))
          | inr f ↦
              rw (read_bytes, z, f)
                (less_of (work c') n (process_outcome cfg h c' (parse_request c'.buf))
                  (process_outcome-AtMost c' (parse_request c'.buf) refl)
                  (read_less room c.buf b later n z le))
        ]
      ]

  turn-LessThan : (c : Client) → LessThan (work c) (turn cfg h c)
  unfolding turn process
  turn-LessThan c = elim (Bool-cases (buffered_request_ready c.buf)) [
    | inl r ↦
        rw (turn, r) (ready_outcome-LessThan c (parse_request c.buf) refl (outcome_ready c.buf r))
    | inr r ↦ rw (turn, r) (arrivals-LessThan c.arrivals (work c) (omega arith))
  ]
    where
      arrivals-LessThan :
          (later : List Arrival) (n : ℕ)
          → length c.buf + weight later ≤ n
          → LessThan n (read_arrivals cfg h c later)
      arrivals-LessThan [] n le = waiting-ne c
      arrivals-LessThan (bytes b ∷ later) n le = read_bytes-LessThan c b later n le
      arrivals-LessThan (eof ∷ later) n le = closed-ne c none
      arrivals-LessThan (read_error ∷ later) n le = closed-ne c none
      arrivals-LessThan (interrupted ∷ later) n le = omega arith

  -- The handler returns for whatever has arrived: one turn more than there are bytes in the buffer, reads, and
  -- twice the bytes of the reads is enough.
  pub handle_client_event_ends :
      (fuel : ℕ) (c : Client) → work c < fuel → handle_client_event cfg h fuel c ≢ out_of_fuel
  unfolding handle_client_event
  handle_client_event_ends zero c lt = absurd (omega arith)
  handle_client_event_ends (suc fuel) c lt =
      next (turn cfg h c) (λ c' lt'. handle_client_event_ends fuel c' lt') (turn-LessThan c)
    where
      next :
          (t : Next)
          → ((c' : Client) → work c' < fuel → handle_client_event cfg h fuel c' ≢ out_of_fuel)
          → LessThan (work c) t
          → elim t [ stop r ↦ r | go_on c' ↦ handle_client_event cfg h fuel c' ] ≢ out_of_fuel
      next (stop r) later n = n
      next (go_on c') later n = later c' (omega arith)
