-- ===== src/Tests/ConfigTests.antt =====
-- The theorems on the route table of src/config.c at concrete tables.
use rpsiod.Prelude.{ℕ, codes, [], ◌∷◌, ◌≡◌, ◌≢◌, ◌↔◌, refl, false, some}
use rpsiod.Prelude.{All, arith, replicate, set, str_eq}
use rpsiod.Util.Strings.{streq_ci}
use rpsiod.Config.Site.{Site, site_defaults}
use rpsiod.Config.Routes.{
  Table, RouteKey, table_size, empty_entry, new_entry, index_of, added, duplicate, add_loop,
  route_key, add_route_entry, route_hash_key, normalize_route_host,
}
use rpsiod.Config.Routes.Probe.{Gapless}
use rpsiod.Config.Routes.Refines.{
  IsKey, route_key-IsKey, empty-Gapless, insert_route, search_route, insert_route-refines,
  insert_route-duplicate_iff,
}
use rpsiod.Config.Routes.Build.{
  site_routes, build_route_table, add_routes, domain_routes, redirect_hosts,
  explicit_default_domain,
}
use rpsiod.Config.Routes.Build.Reaches.{Leads, build_route_table-Leads}

abbrev example_key : RouteKey
example_key = route_key (codes "Example.com") 80 (codes "0.0.0.0") false

abbrev empty_table : Table
empty_table = replicate table_size empty_entry

abbrev one_route : Table
one_route = set empty_table (index_of example_key 0) (new_entry example_key 3)

insert-example : insert_route empty_table example_key 3 ≡ added one_route
unfolding add_loop route_hash_key route_key normalize_route_host
insert-example = refl

example_key-IsKey : IsKey example_key
example_key-IsKey = route_key-IsKey (codes "Example.com") 80 (codes "0.0.0.0") false (omega arith)

insert_route-refines_example :
    (search_route one_route example_key ≡ some 3)
    × ((k : RouteKey)
        → IsKey k
        → example_key ≢ k
        → search_route one_route k ≡ search_route empty_table k)
    × Gapless one_route
insert_route-refines_example =
    insert_route-refines empty_table one_route example_key 3 example_key-IsKey
      (empty-Gapless table_size refl) insert-example

insert_route-duplicate_iff_example :
    (insert_route one_route example_key 4 ≡ duplicate)
    ↔ ((j : ℕ) × (search_route one_route example_key ≡ some j) × (j ≢ 4))
insert_route-duplicate_iff_example = insert_route-duplicate_iff one_route example_key 4

-- A site with one domain that answers at two ports and for its name with `www.`.
abbrev example_site : Site
example_site = record site_defaults {
  domains = codes "a.org" ∷ [];
  http_port = 80;
  https_port = 0;
  blocked_direct_access = [];
  rate_limit_enabled = false;
  rate_limit_requests = 0;
  rate_limit_window_sec = 0;
}

abbrev site_key : RouteKey
site_key = route_key (codes "a.org") 80 (codes "0.0.0.0") false

abbrev site_table : Table
site_table = set empty_table (index_of site_key 0) (new_entry site_key 0)

build-example : build_route_table (example_site ∷ []) ≡ added site_table
unfolding add_loop route_hash_key route_key normalize_route_host build_route_table add_route_entry
    add_routes site_routes domain_routes redirect_hosts explicit_default_domain str_eq streq_ci
build-example = refl

build_route_table-Leads_example : All (Leads site_table) (site_routes 0 (example_site ∷ []))
unfolding site_routes domain_routes redirect_hosts explicit_default_domain str_eq streq_ci
build_route_table-Leads_example =
    build_route_table-Leads (example_site ∷ []) (omega arith) build-example
