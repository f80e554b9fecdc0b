-- ===== src/Config/Methods.antt =====
-- src/config.c: the methods that a site allows, and its error pages.
use rpsiod.Prelude.{
  Bool, true, false, ◌&&◌, Bytes, codes, List, [], ◌∷◌, Option, some, none, ◌==◌, if◌then◌else◌,
  ◌≡◌, ◌↔◌, ◌⊎◌, map, tolower, arith, ℤ, pos, negsuc,
}
use rpsiod.Util.Strings.{streq_ci, streq_ci_iff}
use rpsiod.Config.Site.{Site, ErrorPage}

-- the loop over the allowed methods
method_listed : List Bytes → Bytes → Bool
method_listed [] method = false
method_listed (m ∷ ms) method = if streq_ci m method then true else method_listed ms method

-- `rpsiod_site_allows_method`; its call of itself is for GET, which does not call again
unfoldable pub site_allows_method : Site → Bytes → Bool
unfolding method_listed
site_allows_method site method =
    if streq_ci method (codes "HEAD") && method_listed site.allowed_methods (codes "GET")
    then true
    else method_listed site.allowed_methods method

int_eq : ℤ → ℤ → Bool
int_eq (pos m) (pos n) = m == n
int_eq (negsuc m) (negsuc n) = m == n
int_eq _ _ = false

error_page_in : List ErrorPage → ℤ → Option Bytes
unfolding int_eq
error_page_in [] status = none
error_page_in (p ∷ ps) status =
    let rest = error_page_in ps status in if int_eq p.code status then some p.path else rest

-- `rpsiod_site_error_page`
unfoldable pub site_error_page : Site → ℤ → Option Bytes
unfolding error_page_in
site_error_page site status = error_page_in site.error_pages status

-- a method that is in a list but for case
abbrev pub Listed : List Bytes → Bytes → Type 0
Listed [] method = ⊥
Listed (m ∷ ms) method = (map tolower m ≡ map tolower method) ⊎ Listed ms method

method_listed_iff :
    (ms : List Bytes) (method : Bytes) → (method_listed ms method ≡ true) ↔ Listed ms method
unfolding method_listed
method_listed_iff [] method = (λ h. absurd (cc), λ h. absurd h)
method_listed_iff (m ∷ ms) method = (
  ground (arith, streq_ci_iff m method, method_listed_iff ms method),
  ground (arith, streq_ci_iff m method, method_listed_iff ms method),
)

-- A method is allowed exactly when the site lists it, but for case, or it is HEAD and the site
-- lists GET.
pub site_allows_method_iff :
    (site : Site) (method : Bytes)
    → (site_allows_method site method ≡ true) ↔ (
        Listed site.allowed_methods method
        ⊎ (map tolower method ≡ map tolower (codes "HEAD"))
          × Listed site.allowed_methods (codes "GET"))
unfolding site_allows_method
site_allows_method_iff site method =
    let head = streq_ci_iff method (codes "HEAD") in
    let get = method_listed_iff site.allowed_methods (codes "GET") in
    let same = method_listed_iff site.allowed_methods method in
    (ground (arith, head, get, same), ground (arith, head, get, same))
