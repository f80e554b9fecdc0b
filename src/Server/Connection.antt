-- ===== src/Server/Connection.antt =====
-- src/server.c: what a connection makes of the bytes that arrive, `handle_client_event`.
pub mod Stream
pub mod Reasons
pub mod Frames
pub mod Ends
use rpsiod.Prelude.{
  ℕ, zero, suc, ◌+◌, ◌-◌, ◌%◌, Bool, true, false, ◌&&◌, ◌||◌, not, Bytes, codes, List, [], ◌∷◌,
  ◌++◌, Option, some, none, leb, ltb, ◌==◌, if◌then◌else◌, length, take, drop, get_elem?, ℤ, pos,
  negsuc,
}
use rpsiod.Util.Strings.{streq_ci}
use rpsiod.Http.Request.{Request}
use rpsiod.Http.Parse.{parse_request, Outcome, need_more, done, bad}
use rpsiod.Config.Site.{Site, Config}

-- what `client_read` gives: bytes, of which it takes as many as it has room for, the end of the stream, or an
-- error; where nothing is left it would block
pub data Arrival : Type 0 where
  bytes : Bytes → Arrival
  eof : Arrival
  interrupted : Arrival
  read_error : Arrival

-- a request that was handed to `serve_request`, with its `keep_alive` at that time, and its body
pub record Exchange : Type 0 where
  pub request : Request
  pub keep_alive : Bool
  pub body : Bytes

-- `client_object`, as far as this loop reads and writes it, with what is still to arrive and what was served
pub record Client : Type 0 where
  pub arrivals : List Arrival
  pub buf : Bytes
  pub keep_alive_requests : ℕ
  pub idle_keep_alive : Bool
  pub served : List Exchange

-- The handler returns and the connection stays open, or it is closed, where the status of an answer other
-- than of `serve_request` is given.
pub data Handled : Type 0 where
  waiting : Client → Handled
  closed : Client → Option ℤ → Handled
  out_of_fuel : Handled

-- the loop goes on, or the handler is done
pub data Next : Type 0 where
  go_on : Client → Next
  stop : Handled → Next

-- `RPSIOD_CLIENT_BUFFER`
abbrev pub buffer_size : ℕ
buffer_size = 32768

-- `unsigned`
abbrev u32 : ℕ
u32 = 4294967296

pub unsigned_of : ℤ → ℕ
unsigned_of (pos n) = n % u32
unsigned_of (negsuc n) = u32 - 1 - n % u32

-- the site that `rpsiod_config_find_site_for_listener` gives, whether `serve_request` returns 0, and whether
-- the descriptor can be set not to block
pub record Handlers : Type 0 where
  pub site_of : Request → Option Site
  pub serve_ok : Request → Bytes → Bool
  pub nonblocking_ok : Bool

abbrev pub body_have : Bytes → Request → ℕ
body_have buf req = length buf - req.header_len

ready_of : Bytes → Outcome → Bool
ready_of buf bad = true
ready_of buf need_more = false
ready_of buf (done req) = leb req.content_length (body_have buf req)

-- `buffered_request_ready`
unfoldable pub buffered_request_ready : Bytes → Bool
unfolding ready_of
buffered_request_ready buf = if length buf == 0 then false else ready_of buf (parse_request buf)

pub exceeds : Option Site → Request → Bool
exceeds none req = false
exceeds (some site) req = ltb site.max_body_size req.content_length

is_proxy : Option Site → Bool
is_proxy none = false
is_proxy (some site) = streq_ci site.routing_type (codes "proxy")

module _ (cfg : Config) (h : Handlers) where
  -- whether the connection can be kept for another request
  should_keep_alive : Client → Request → Bool
  unfolding unsigned_of is_proxy
  should_keep_alive c req =
      cfg.keep_alive_enabled
      && req.keep_alive
      && ltb ((c.keep_alive_requests + 1) % u32) (unsigned_of cfg.keep_alive_max_requests)
      && not (is_proxy (h.site_of req))

  -- the request and its body, as they are served
  pub exchange_of : Client → Request → Exchange
  unfolding should_keep_alive
  exchange_of c req = record {
    request = req;
    keep_alive = should_keep_alive c req;
    body = take req.content_length (drop req.header_len c.buf);
  }

  -- the client behind a request that was served and that keeps the connection
  keep : Client → Request → Client
  unfolding exchange_of
  keep c req = record c {
    buf = drop (req.header_len + req.content_length) c.buf;
    keep_alive_requests = (c.keep_alive_requests + 1) % u32;
    idle_keep_alive = true;
    served = c.served ++ (exchange_of c req ∷ []);
  }

  -- what follows a request that was served
  kept : Client → Next
  kept c =
      if buffered_request_ready c.buf
      then go_on c
      else if h.nonblocking_ok
      then stop (waiting c)
      else stop (closed c none)

  -- a whole request is served
  serve_one : Client → Request → Next
  unfolding exchange_of keep kept
  serve_one c req =
      let e = exchange_of c req in
      if e.keep_alive && h.serve_ok (record req { keep_alive = e.keep_alive }) e.body
      then kept (keep c req)
      else stop (closed (record c { served = c.served ++ (e ∷ []) }) none)

  -- the guards before it
  with_request : Client → Request → Next
  unfolding exceeds serve_one
  with_request c req =
      if exceeds (h.site_of req) req
      then stop (closed c (some (pos 413)))
      else if ltb 0 req.content_length && ltb (body_have c.buf req) req.content_length
      then if ltb (buffer_size - req.header_len) req.content_length
        then stop (closed c (some (pos 413)))
        else go_on c
      else serve_one c req

  process_outcome : Client → Outcome → Next
  unfolding with_request
  process_outcome c need_more = go_on c
  process_outcome c bad = stop (closed c (some (pos 400)))
  process_outcome c (done req) = with_request c req

  -- the loop's body behind the read
  process : Client → Next
  unfolding process_outcome
  process c = process_outcome c (parse_request c.buf)

  -- bytes that arrive fill the buffer
  read_bytes : Client → Bytes → List Arrival → Next
  unfolding process
  read_bytes c b later =
      let room = buffer_size - length c.buf in
      let c' = record c {
        arrivals = if leb (length b) room then later else bytes (drop room b) ∷ later;
        buf = c.buf ++ take room b;
      } in
      if length (take room b) == 0
      then stop (closed c none)
      else if length c'.buf == buffer_size
      then stop (closed c' (some (pos 400)))
      else process c'

  read_arrivals : Client → List Arrival → Next
  unfolding read_bytes
  read_arrivals c [] = stop (waiting c)
  read_arrivals c (eof ∷ later) = stop (closed c none)
  read_arrivals c (read_error ∷ later) = stop (closed c none)
  read_arrivals c (interrupted ∷ later) = go_on (record c { arrivals = later })
  read_arrivals c (bytes b ∷ later) = read_bytes c b later

  -- one turn of the loop
  turn : Client → Next
  unfolding read_arrivals process
  turn c = if buffered_request_ready c.buf then process c else read_arrivals c c.arrivals

  -- `handle_client_event`
  unfoldable pub handle_client_event : ℕ → Client → Handled
  unfolding turn
  handle_client_event zero c = out_of_fuel
  handle_client_event (suc fuel) c = elim (turn c) [
    | stop r ↦ r
    | go_on c' ↦ handle_client_event fuel c'
  ]
