-- ===== src/Tests/ReadTests.antt =====
-- The reading of a sites file, and the methods of a site.
use rpsiod.Prelude.{
  Bytes, codes, [], ◌∷◌, ◌≡◌, ◌↔◌, ◌⊎◌, refl, true, Option, some, str_eq, split_at, decimal, strtol,
  sign, signed, number_of, map, tolower,
}
use rpsiod.Util.Strings.{streq_ci, safe_copy, trim}
use rpsiod.Config.Site.{site_defaults, config_defaults}
use rpsiod.Config.Text.{
  done, strip_comment, indent_level, split_key_value, stack_set, path_has, parent_is, key_is, has,
  below, apply_bool_value, apply_port_value, parse_bool_strict, parse_port_strict, map_applied,
}
use rpsiod.Config.Sites.{apply_site_value}
use rpsiod.Config.SiteLists.{apply_site_list_value, append_string}
use rpsiod.Config.Load.{parse_sites_file, file_lines, line_text, line_level}
use rpsiod.Config.Methods.{site_allows_method_iff, site_allows_method, Listed}

abbrev sites_text : Bytes
sites_text =
    codes
      "sites:\n    - name: \"demo\" # the first\n        match:\n            domains:\n                - a.org\n        listen:\n            ports:\n                http: 8080\n"

-- a file system with one file
abbrev files : Bytes → Option Bytes
files path = some sites_text

read-example :
    parse_sites_file files (codes "/etc/rpsiod/sites.yml") config_defaults
    ≡ done (record config_defaults {
      sites =
          record site_defaults {
            name = codes "demo";
            domains = codes "a.org" ∷ [];
            http_port = 8080;
          }
          ∷ [];
    })
unfolding parse_sites_file file_lines line_text line_level apply_site_value apply_site_list_value
    append_string strip_comment indent_level split_key_value stack_set path_has parent_is key_is has
    below apply_bool_value apply_port_value parse_bool_strict parse_port_strict map_applied str_eq
    split_at strtol sign signed number_of streq_ci safe_copy trim decimal
read-example = refl

site_allows_method_iff_example : (site_allows_method site_defaults (codes "HEAD") ≡ true) ↔ (
    Listed (codes "GET" ∷ codes "HEAD" ∷ []) (codes "HEAD")
    ⊎ (map tolower (codes "HEAD") ≡ map tolower (codes "HEAD"))
      × Listed (codes "GET" ∷ codes "HEAD" ∷ []) (codes "GET"))
site_allows_method_iff_example = site_allows_method_iff site_defaults (codes "HEAD")
