-- ===== src/Config/SiteLists.antt =====
-- src/config.c: `apply_site_list_value`, which adds an item to one of the lists of a site.
use rpsiod.Prelude.{
  ℕ, true, ◌&&◌, Bytes, codes, List, [], ◌∷◌, ◌++◌, ltb, ◌==◌, if◌then◌else◌, length,
}
use rpsiod.Util.Strings.{streq_ci, safe_copy}
use rpsiod.Config.Text.{Line, has, below, Applied, done, fail}
use rpsiod.Config.Site.{Site}

-- an item behind the others, in a buffer of `size` bytes, if there are fewer than `limit`
unfoldable pub append_string : ℕ → ℕ → List Bytes → Bytes → List Bytes
append_string limit size arr value =
    if ltb (length arr) limit then arr ++ safe_copy size value ∷ [] else arr

-- `apply_compression_algorithm`
unfoldable pub apply_compression_algorithm : Bytes → Site → Applied Site
apply_compression_algorithm value site =
    if streq_ci value (codes "gzip")
    then done (record site { compression_gzip = true })
    else if streq_ci value (codes "br")
    then done (record site { compression_br = true })
    else fail (codes "compression.algorithms entries must be gzip or br")

-- the first rule of `SITE_LIST_RULES` that matches
list_value : Line → Site → Applied Site
unfolding append_string apply_compression_algorithm
list_value l site =
    if below l "domains"
    then done (record site { domains = append_string 32 256 site.domains l.value })
    else if below l "index"
    then done (record site { indexes = append_string 16 128 site.indexes l.value })
    else if below l "allowedMethods"
    then done (record site { allowed_methods = append_string 16 16 site.allowed_methods l.value })
    else if below l "blockDirectAccess"
    then done (record site {
      blocked_direct_access = append_string 64 128 site.blocked_direct_access l.value;
    })
    else if below l "remove" && has l "headers"
    then done (record site { headers_remove = append_string 32 128 site.headers_remove l.value })
    else if below l "algorithms" && has l "compression"
    then apply_compression_algorithm l.value site
    else done site

-- `apply_site_list_value`, on a site
unfoldable pub apply_site_list_value : Line → Site → Applied Site
unfolding list_value
apply_site_list_value l site = if length l.value == 0 then done site else list_value l site
