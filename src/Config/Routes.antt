-- ===== src/Config/Routes.antt =====
-- src/config.c: the route table, an open-addressing hash table with linear probing.
pub mod Probe
pub mod Insert
pub mod Refines
pub mod Build
use Prim.Native.Nat.{bit_xor}
use rpsiod.Prelude.{
  ℕ, zero, suc, ◌+◌, ◌-◌, ◌*◌, ◌%◌, ◌^◌, ◌≤◌, ◌<◌, Bool, true, false, ◌&&◌, ◌||◌, not, Bytes, codes,
  List, [], ◌∷◌, ◌++◌, ◌≡◌, refl, Option, some, none, arith, ltb, leb, ◌==◌, if◌then◌else◌, length,
  get_or, set, replicate, take, map, tolower, str_eq, u64, drop,
}
use rpsiod.Util.Strings.{streq_ci, safe_copy, starts_with}
use rpsiod.Config.Site.{Site}

-- `rpsiod_route_entry`
pub record RouteEntry : Type 0 where
  pub used : Bool
  pub default_site : Bool
  pub host : Bytes
  pub listen_ip : Bytes
  pub port : ℕ
  pub site_index : ℕ

-- a zeroed entry of the table
abbrev pub empty_entry : RouteEntry
empty_entry = record {
  used = false;
  default_site = false;
  host = [];
  listen_ip = [];
  port = 0;
  site_index = 0;
}

-- the arguments by which an entry is found: a host that is normalized, or empty for a default site
pub record RouteKey : Type 0 where
  pub host : Bytes
  pub port : ℕ
  pub listen_ip : Bytes
  pub default_site : Bool

abbrev pub table_size : ℕ
table_size = 4096

-- `normalize_route_host` into a buffer of 256 bytes
unfoldable pub normalize_route_host : Bytes → Bytes
normalize_route_host host = map tolower (take 255 host)

-- one round of the hash
hash_byte : ℕ → ℕ → ℕ
hash_byte h c = (bit_xor h c * 1099511628211) % u64

hash_bytes : ℕ → Bytes → ℕ
hash_bytes h [] = h
hash_bytes h (c ∷ s) = hash_bytes (hash_byte h c) s

-- the text that is hashed for the host
hash_text : RouteKey → Bytes
hash_text k = if k.default_site then codes "*" else k.host

-- `route_hash_key`
unfoldable pub route_hash_key : RouteKey → ℕ
unfolding hash_bytes hash_byte hash_text
route_hash_key k =
    let hosted = hash_bytes 1469598103934665603 (map tolower (hash_text k)) in
    hash_bytes (hash_byte hosted k.port) k.listen_ip

-- equality of two flags
bool_eq : Bool → Bool → Bool
bool_eq true b = b
bool_eq false b = not b

-- `route_entry_matches`
unfoldable pub route_entry_matches : RouteEntry → RouteKey → Bool
unfolding bool_eq
route_entry_matches entry k =
    entry.used
    && bool_eq entry.default_site k.default_site
    && entry.port == k.port
    && str_eq entry.listen_ip k.listen_ip
    && (k.default_site || streq_ci entry.host k.host)

abbrev pub Table : Type 0
Table = List RouteEntry

-- `(start + probe) % RPSIOD_ROUTE_TABLE_SIZE`
abbrev pub index_of : RouteKey → ℕ → ℕ
index_of k probe = (route_hash_key k % table_size + probe) % table_size

abbrev pub entry_at : Table → ℕ → RouteEntry
entry_at table idx = get_or table idx empty_entry

-- what adding a route does: a table, or one of the two errors
pub data Added : Type 0 where
  added : Table → Added
  duplicate full : Added

-- the entry that is written for a key
abbrev pub new_entry : RouteKey → ℕ → RouteEntry
new_entry k site_index = record {
  used = true;
  default_site = k.default_site;
  host = safe_copy 256 k.host;
  listen_ip = safe_copy 64 k.listen_ip;
  port = k.port;
  site_index = site_index;
}

-- the loop of `add_route_entry`, on the probes that are left
unfoldable pub add_loop : ℕ → ℕ → Table → RouteKey → ℕ → Added
add_loop zero probe table k site_index = full
add_loop (suc left) probe table k site_index =
    let entry = entry_at table (index_of k probe) in
    let rest = add_loop left (probe + 1) table k site_index in
    if not entry.used
    then added (set table (index_of k probe) (new_entry k site_index))
    else if route_entry_matches entry k
    then (if not (entry.site_index == site_index) then duplicate else added table)
    else rest

-- the key of a request for a host
unfoldable pub route_key : Bytes → ℕ → Bytes → Bool → RouteKey
route_key host port listen_ip default_site = record {
  host = if default_site then [] else normalize_route_host host;
  port = port;
  listen_ip = listen_ip;
  default_site = default_site;
}

-- `add_route_entry`, less the counter of the entries
unfoldable pub add_route_entry : Table → Bytes → ℕ → Bytes → ℕ → Bool → Added
add_route_entry table host port listen_ip site_index default_site =
    if port == 0
    then added table
    else add_loop table_size 0 table (route_key host port listen_ip default_site) site_index

-- the loop of `lookup_route`, on the probes that are left; the index of the site
unfoldable pub lookup_loop : ℕ → ℕ → Table → RouteKey → Option ℕ
lookup_loop zero probe table k = none
lookup_loop (suc left) probe table k =
    let entry = entry_at table (index_of k probe) in
    let rest = lookup_loop left (probe + 1) table k in
    if not entry.used
    then none
    else if route_entry_matches entry k
    then some entry.site_index
    else rest

-- an index below the number of sites (`NULL` otherwise)
site_of : ℕ → Option ℕ → Option ℕ
site_of site_count none = none
site_of site_count (some i) = if ltb i site_count then some i else none

-- `lookup_route`
unfoldable pub lookup_route : Table → ℕ → Bytes → ℕ → Bytes → Bool → Option ℕ
unfolding site_of
lookup_route table site_count host port listen_ip default_site =
    site_of site_count (lookup_loop table_size 0 table (route_key host port listen_ip default_site))

abbrev any_ip : Bytes
any_ip = codes "0.0.0.0"

-- a second lookup where the first finds nothing
or_else : Option ℕ → Option ℕ → Option ℕ
or_else (some i) other = some i
or_else none other = other

-- a lookup at one address, and at the wildcard address where that is another
lookup_listener : Table → ℕ → Bytes → ℕ → Bytes → Bool → Option ℕ
unfolding or_else
lookup_listener table site_count host port ip default_site =
    or_else (lookup_route table site_count host port ip default_site) (
      if not (str_eq ip any_ip)
      then lookup_route table site_count host port any_ip default_site
      else none)

-- `rpsiod_config_find_site_for_listener`; no address is the empty one
unfoldable pub find_site_for_listener : Table → ℕ → Bytes → ℕ → Bytes → Option ℕ
unfolding lookup_listener
find_site_for_listener table site_count host port listen_ip =
    let ip = if length listen_ip == 0 then any_ip else listen_ip in
    or_else (lookup_listener table site_count host port ip false)
      (lookup_listener table site_count [] port ip true)

-- `rpsiod_config_find_site`
unfoldable pub find_site : Table → ℕ → Bytes → ℕ → Option ℕ
find_site table site_count host port = find_site_for_listener table site_count host port []
