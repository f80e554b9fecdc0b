-- ===== src/Config/Routes/Probe.antt =====
-- The paths that keys take through the route table.
use rpsiod.Prelude.{ℕ, ◌<◌, true, ◌≡◌, ◌⊎◌, arith, length, map, tolower, str_eq_iff}
use rpsiod.Util.Strings.{streq_ci_iff, streq_ci_refl, safe_copy_bounds}
use rpsiod.Config.Routes.{
  RouteEntry, RouteKey, Table, table_size, route_hash_key, route_entry_matches, hash_text, index_of,
  entry_at, new_entry,
}

-- the key that an entry was written for
abbrev pub key_of : RouteEntry → RouteKey
key_of e = record {
  host = e.host;
  port = e.port;
  listen_ip = e.listen_ip;
  default_site = e.default_site;
}

-- what a match says
pub record Match (e : RouteEntry) (k : RouteKey) : Type 0 where
  pub used : e.used ≡ true
  pub default_site : e.default_site ≡ k.default_site
  pub port : e.port ≡ k.port
  pub listen_ip : e.listen_ip ≡ k.listen_ip
  pub host : (k.default_site ≡ true) ⊎ (map tolower e.host ≡ map tolower k.host)

pub matches-Match : (e : RouteEntry) (k : RouteKey) → route_entry_matches e k ≡ true → Match e k
unfolding route_entry_matches
matches-Match e k h = record {
  used = ground arith;
  default_site = ground arith;
  port = ground arith;
  listen_ip = ground (arith, str_eq_iff e.listen_ip k.listen_ip);
  host = ground (arith, streq_ci_iff e.host k.host);
}

Match-hash_text :
    (e : RouteEntry) (k : RouteKey)
    → Match e k
    → map tolower (hash_text (key_of e)) ≡ map tolower (hash_text k)
unfolding hash_text
Match-hash_text e k m = ground (arith, m.host, m.default_site)

-- An entry that matches a key begins its path where the key does.
pub Match-hash :
    (e : RouteEntry) (k : RouteKey) → Match e k → route_hash_key (key_of e) ≡ route_hash_key k
unfolding route_hash_key
Match-hash e k m = cc (Match-hash_text e k m, m.port, m.listen_ip)

pub Match-index :
    (e : RouteEntry) (k : RouteKey) (n : ℕ) → Match e k → index_of (key_of e) n ≡ index_of k n
Match-index e k n m = rw (Match-hash e k m)

-- Two probes of one path do not meet.
pub probes_differ :
    (k : RouteKey) (n q : ℕ) → n < table_size → q < table_size → index_of k n ≡ index_of k q → n ≡ q
probes_differ k n q hn hq e = omega arith

pub index-lt : (k : RouteKey) (n : ℕ) → index_of k n < table_size
index-lt k n = omega arith

-- a key that the buffers of an entry hold whole
pub record Fits (k : RouteKey) : Type 0 where
  pub host : length k.host < 256
  pub listen_ip : length k.listen_ip < 64

pub key_of-new : (k : RouteKey) (i : ℕ) → Fits k → key_of (new_entry k i) ≡ k
key_of-new k i f =
    let h = (safe_copy_bounds 256 k.host (omega arith)).1 f.host in
    let l = (safe_copy_bounds 64 k.listen_ip (omega arith)).1 f.listen_ip in
    λ j. record { host = h j; port = k.port; listen_ip = l j; default_site = k.default_site }

pub new-matches : (k : RouteKey) (i : ℕ) → Fits k → route_entry_matches (new_entry k i) k ≡ true
unfolding route_entry_matches
new-matches k i f =
    let h = (safe_copy_bounds 256 k.host (omega arith)).1 f.host in
    let l = (safe_copy_bounds 64 k.listen_ip (omega arith)).1 f.listen_ip in
    rw (h, l) (ground (arith, str_eq_iff k.listen_ip k.listen_ip, streq_ci_refl k.host))

abbrev pub Used : Table → ℕ → Type 0
Used table idx = (entry_at table idx).used ≡ true

-- The entry at `idx` stands on its own path, and no slot before it on the path is free.
pub record Settled (table : Table) (idx : ℕ) : Type 0 where
  pub probe : ℕ
  pub below : probe < table_size
  pub stands : index_of (key_of (entry_at table idx)) probe ≡ idx
  pub path : (m : ℕ) → m < probe → Used table (index_of (key_of (entry_at table idx)) m)

-- the invariant of the table
pub record Gapless (table : Table) : Type 0 where
  pub size : length table ≡ table_size
  pub settled : (idx : ℕ) → Used table idx → Settled table idx
