-- ===== src/Config/Routes/Build/Reaches.antt =====
-- Every route of the sites is found in the table that is built from them.

use rpsiod.Prelude.{
  ℕ, ◌<◌, List, [], ◌∷◌, ◌≡◌, ◌≢◌, ◌⊎◌, inl, inr, refl, sym, ◌∙◌, some, arith, ◌==◌, length,
  Bool-cases, All, ℕ_discrete,
}
use rpsiod.Config.Site.{Site}
use rpsiod.Config.Routes.{
  Table, table_size, Added, added, duplicate, full, add_route_entry, route_key, RouteKey,
}
use rpsiod.Config.Routes.Probe.{Gapless}
use rpsiod.Config.Routes.Refines.{
  IsKey, route_key-IsKey, search_route, insert_route, insert_route-Gapless, search-insert_self,
  search-insert_other, empty-Gapless, add_loop_found,
}
use rpsiod.Config.Routes.Build.{Route, site_routes, add_routes, and_then, build_route_table}

RouteKey-discrete : Discrete RouteKey
RouteKey-discrete = hlevel ℕ_discrete

abbrev pub key : Route → RouteKey
key r = route_key r.host r.port r.listen_ip r.default_site

abbrev pub ShortIp : Route → Type 0
ShortIp r = length r.listen_ip < 64

-- the route leads to its site; a port of 0 has no route
abbrev pub Leads : Table → Route → Type 0
Leads table r = r.port ≢ 0 → search_route table (key r) ≡ some r.site_index

abbrev add : Table → Route → Added
add table r = add_route_entry table r.host r.port r.listen_ip r.site_index r.default_site

module _ (table table' : Table) (r : Route) (short : ShortIp r) (g : Gapless table)
    (e : add table r ≡ added table') where
  add-cases :
      ((r.port ≡ 0) × (table' ≡ table))
      ⊎ ((r.port ≢ 0) × (insert_route table (key r) r.site_index ≡ added table'))
  unfolding add_route_entry
  add-cases = elim (Bool-cases (r.port == 0)) [
    | inl z ↦ inl (ground arith, ground arith)
    | inr nz ↦ inr (ground arith, ground arith)
  ]

  is_key : IsKey (key r)
  is_key = route_key-IsKey r.host r.port r.listen_ip r.default_site short

  add-Gapless : Gapless table'
  add-Gapless = elim add-cases [
    | inl (_, same) ↦ rw same g
    | inr (_, ins) ↦ insert_route-Gapless (key r) r.site_index is_key g ins
  ]

  add-Leads : Leads table' r
  add-Leads nz = elim add-cases [
    | inl (z, _) ↦ absurd (nz z)
    | inr (_, ins) ↦ search-insert_self (key r) r.site_index is_key g ins
  ]

  -- A route that is found stays found, with its site.
  add-keeps :
      (k : RouteKey) (j : ℕ)
      → IsKey k
      → search_route table k ≡ some j
      → search_route table' k ≡ some j
  add-keeps k j ik found = elim add-cases [
    | inl (_, same) ↦ rw same found
    | inr (_, ins) ↦ elim (RouteKey-discrete (key r) k) [
      | no ne ↦ search-insert_other (key r) r.site_index is_key g ins k ik ne ∙ found
      | yes same ↦
          let there = add_loop_found table_size 0 table (key r) r.site_index j (rw same found) in
          let unchanged : table' ≡ table = ground (arith, sym there ∙ ins) in rw unchanged found
    ]
  ]

-- what a run of additions leaves behind
record Outcome (table table' : Table) (rs : List Route) : Type 0 where
  gapless : Gapless table'
  lead : All (Leads table') rs
  keeps :
      (k : RouteKey) (j : ℕ)
      → IsKey k
      → search_route table k ≡ some j
      → search_route table' k ≡ some j

and_then-eq-added :
    (a : Added) (f : Table → Added) {u : Table}
    → and_then a f ≡ added u
    → (t : Table) × (a ≡ added t) × (f t ≡ added u)
and_then-eq-added (added t) f h = (t, refl, h)
and_then-eq-added duplicate f h = absurd (cc)
and_then-eq-added full f h = absurd (cc)

add_routes-Outcome :
    (rs : List Route) (table table' : Table)
    → Gapless table
    → All ShortIp rs
    → add_routes table rs ≡ added table'
    → Outcome table table' rs
unfolding add_routes
add_routes-Outcome [] table table' g _ e =
    let same : table' ≡ table = ground arith in
    rw same (record { gapless = g; lead = tt; keeps = λ k j ik h. h })
add_routes-Outcome (r ∷ rs) table table' g (short, shorts) e =
    let (t, first, rest) = and_then-eq-added (add table r) (λ t. add_routes t rs) e in
    let o = add_routes-Outcome rs t table' (add-Gapless table t r short g first) shorts rest in
    record {
      gapless = o.gapless;
      lead = (
        λ nz.
            o.keeps (key r) r.site_index (is_key table t r short g first)
              (add-Leads table t r short g first nz),
        o.lead,
      );
      keeps = λ k j ik h. o.keeps k j ik (add-keeps table t r short g first k j ik h);
    }

-- Every route of every enabled site leads to the site in a table that was built: the domains, the
-- hosts of a redirect between `www.` and the bare name, and the default domains, at both ports. The
-- addresses have to fit their buffers.
pub build_route_table-Leads :
    (sites : List Site) {table : Table}
    → All ShortIp (site_routes 0 sites)
    → build_route_table sites ≡ added table
    → All (Leads table) (site_routes 0 sites)
unfolding build_route_table
build_route_table-Leads sites {table} short e =
    (add_routes-Outcome (site_routes 0 sites) _ table (empty-Gapless table_size refl) short e).lead
