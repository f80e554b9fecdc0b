-- ===== src/Config/Validate/Valid.antt =====
-- What the checks of the configuration let through.
use mathlib.Core.Path.{subst}
use rpsiod.Prelude.{
  ℕ, suc, ◌+◌, ◌<◌, ◌≤◌, Bool, true, false, ◌&&◌, ◌||◌, not, Bytes, codes, List, [], ◌∷◌, Option,
  some, none, ltb, ◌==◌, if◌then◌else◌, length, ℤ, pos, negsuc, ◌≡◌, ◌≢◌, ◌⊎◌, inl, inr, refl, sym,
  ap, ◌∙◌, arith, All, Bool-cases, map, tolower,
}
use rpsiod.Util.Strings.{streq_ci, safe_copy, starts_with, streq_ci_iff}
use rpsiod.Config.Site.{Site, Config, LogPath}
use rpsiod.Config.Text.{Applied, done, fail, ◌>>=◌, ◌>>◌, require}
use rpsiod.Config.Validate.{
  is_absolute, value_is_one_of_ci, log_ok, domain_in, check_domains, int_is, is_static, is_proxy,
  is_php, rooted, or_default, check_root, fill_lists, ssl_storage_of, check_ssl, check_php,
  check_site_head, named, validate_site, validate_sites, validate_keys, validate_server, validate,
}

>>=-eq-done {ℓ κ} :
    {A : Type ℓ} {B : Type κ} (m : Applied A) (f : A → Applied B) {b : B}
    → (m >>= f) ≡ done b
    → (a : A) × (m ≡ done a) × (f a ≡ done b)
>>=-eq-done (done a) f h = (a, refl, h)
>>=-eq-done (fail message) f h = cc

require-eq-done {ℓ} :
    {B : Type ℓ} (t : Bool) (message : Bytes) (k : Applied B) {b : B}
    → (require t message >> k) ≡ done b
    → (t ≡ true) × (k ≡ done b)
require-eq-done true message k h = (refl, h)
require-eq-done false message k h = cc

require-done : (t : Bool) (message : Bytes) {u : Unit {0}} → require t message ≡ done u → t ≡ true
require-done true message h = refl
require-done false message h = cc

-- the domains are not empty, and no two of them are the same text in lower case
abbrev pub Distinct : List Bytes → Type 0
Distinct [] = Unit {0}
Distinct (d ∷ ds) = (d ≢ []) × All (λ e. map tolower d ≢ map tolower e) ds × Distinct ds

domain_in-Distinct :
    (d : Bytes) (ds : List Bytes)
    → domain_in d ds ≡ false
    → All (λ e. map tolower d ≢ map tolower e) ds
unfolding domain_in
domain_in-Distinct d [] h = tt
domain_in-Distinct d (e ∷ ds) h = elim (Bool-cases (streq_ci d e)) [
  | inl q ↦ absurd (cc)
  | inr q ↦
      ((λ same. absurd (cc ((streq_ci_iff d e).1 same))), domain_in-Distinct d ds (ground arith))
]

check_domains-Distinct :
    (site : Site) (ds : List Bytes) {u : Unit {0}} → check_domains site ds ≡ done u → Distinct ds
unfolding check_domains
check_domains-Distinct site [] h = tt
check_domains-Distinct site (d ∷ ds) h =
    let (some_bytes, h1) = require-eq-done (not (length d == 0)) _ _ h in
    let (fresh, h2) = require-eq-done (not (domain_in d ds)) _ _ h1 in
    (ground arith, domain_in-Distinct d ds (ground arith), check_domains-Distinct site ds h2)

-- what the checks up to the document root say of a site
pub record Described (site : Site) : Type 0 where
  pub domains : Distinct site.domains
  pub some_domain : site.domains ≢ []
  pub ports :
      (site.http_port ≢ 0) × (site.https_port ≢ 0) × (site.php_port ≢ 0) × (site.proxy_port ≢ 0)
  pub routing : ((is_static site || is_proxy site) || is_php site) ≡ true
  pub status :
      (site.redirect_www_status ≡ pos 301)
      ⊎ (site.redirect_www_status ≡ pos 302)
      ⊎ (site.redirect_www_status ≡ pos 307)
      ⊎ (site.redirect_www_status ≡ pos 308)

int_is-eq : (i : ℤ) (n : ℕ) → int_is i n ≡ true → i ≡ pos n
unfolding int_is
int_is-eq (pos m) n h = ground arith
int_is-eq (negsuc m) n h = cc

one_of_four :
    (a b c d : Bool) → (a || b || c || d) ≡ true → (a ≡ true) ⊎ (b ≡ true) ⊎ (c ≡ true) ⊎ (d ≡ true)
one_of_four a b c d h = ground arith

statuses :
    (i : ℤ)
    → (int_is i 301 || int_is i 302 || int_is i 307 || int_is i 308) ≡ true
    → (i ≡ pos 301) ⊎ (i ≡ pos 302) ⊎ (i ≡ pos 307) ⊎ (i ≡ pos 308)
statuses i h = elim (one_of_four (int_is i 301) (int_is i 302) (int_is i 307) (int_is i 308) h) [
  | inl a ↦ inl (int_is-eq i 301 a)
  | inr (inl b) ↦ inr (inl (int_is-eq i 302 b))
  | inr (inr (inl c)) ↦ inr (inr (inl (int_is-eq i 307 c)))
  | inr (inr (inr d)) ↦ inr (inr (inr (int_is-eq i 308 d)))
]

nonempty : (ds : List Bytes) → not (length ds == 0) ≡ true → ds ≢ []
nonempty [] h = cc
nonempty (d ∷ ds) h = cc

all_ports :
    (a b c d : ℕ)
    → not (a == 0 || b == 0 || c == 0 || d == 0) ≡ true
    → (a ≢ 0) × (b ≢ 0) × (c ≢ 0) × (d ≢ 0)
all_ports a b c d h = ground arith

check_site_head-Described :
    (site : Site) {u : Unit {0}} → check_site_head site ≡ done u → Described site
unfolding check_site_head
check_site_head-Described site h =
    let (some_domain, h1) = require-eq-done (not (length site.domains == 0)) _ _ h in
    let (serves, h2) = require-eq-done (value_is_one_of_ci site.serve_as _) _ _ h1 in
    let (v, domains, h3) = >>=-eq-done (check_domains site site.domains) _ h2 in
    let (ports, h4) =
      require-eq-done
        (not (
          site.http_port == 0
          || site.https_port == 0
          || site.php_port == 0
          || site.proxy_port == 0))
        _ _ h3 in
    let (routing, h5) = require-eq-done (is_static site || is_proxy site || is_php site) _ _ h4 in
    let (mode, h6) = require-eq-done (value_is_one_of_ci site.redirect_www_mode _) _ _ h5 in
    let status = require-done _ _ h6 in
    record {
      domains = check_domains-Distinct site site.domains domains;
      some_domain = nonempty site.domains some_domain;
      ports = all_ports site.http_port site.https_port site.php_port site.proxy_port ports;
      routing = routing;
      status = statuses site.redirect_www_status status;
    }

-- a log is off, or its path stands below the directory of the logs
abbrev pub Logged : LogPath → Type 0
Logged log =
    (log.enabled ≡ false)
    ⊎ (is_absolute log.path ≡ true) × (starts_with log.path (codes "/var/log/rpsiod/") ≡ true)

log_ok-Logged : (log : LogPath) → log_ok log ≡ true → Logged log
unfolding log_ok
log_ok-Logged log h = ground arith

-- what a check of a whole site leaves
pub record Valid (site : Site) : Type 0 where
  pub described : Described site
  pub name : site.name ≢ []
  pub indexes : site.indexes ≢ []
  pub allowed_methods : site.allowed_methods ≢ []
  pub access_log : Logged site.access_log
  pub error_log : Logged site.error_log
  pub storage :
      site.ssl_enabled ≡ true → starts_with site.ssl_storage (codes "/var/lib/rpsiod/ssl/") ≡ true
  pub root : (is_static site || is_php site) ≡ true → is_absolute site.static_root ≡ true
  pub scripts : is_php site ≡ true → site.php_enabled ≡ true

-- what the check of the root does to a site
record Opened (site t : Site) : Type 0 where
  scripts : Bool
  is_record : t ≡ record site { php_enabled = scripts }
  root : (is_static site || is_php site) ≡ true → is_absolute site.static_root ≡ true
  on : is_php site ≡ true → scripts ≡ true

rooted-eq-done :
    (site : Site) (o : Option Bytes) {t : Site}
    → rooted site o ≡ done t
    → t ≡ record site { php_enabled = if is_php site then true else site.php_enabled }
unfolding rooted
rooted-eq-done site (some text) h = cc
rooted-eq-done site none h = elim (Bool-cases (is_php site)) [
  | inl e ↦ ground arith
  | inr e ↦ ground arith
]

check_root-Opened :
    (root_error : Bytes → Option Bytes) (site : Site) {t : Site}
    → check_root root_error site ≡ done t
    → Opened site t
unfolding check_root
check_root-Opened root_error site {t} h = elim (Bool-cases (is_static site || is_php site)) [
  | inl e ↦
      let (absolute, h1) = require-eq-done (is_absolute site.static_root) _ _ (rw e at h) in
      record {
        scripts = if is_php site then true else site.php_enabled;
        is_record = rooted-eq-done site (root_error site.static_root) h1;
        root = λ _. absolute;
        on = λ p. rw p refl;
      }
  | inr e ↦
      let (a, h1) = require-eq-done (streq_ci site.proxy_scheme _) _ _ (rw e at h) in
      let (b, h2) =
        require-eq-done (not (length site.proxy_host == 0) && not (site.proxy_port == 0)) _ _ h1 in
      record {
        scripts = site.php_enabled;
        is_record = ground arith;
        root = λ r. absurd (cc);
        on = λ p. ground arith;
      }
]

-- what the check of the certificates does to a site
record Secured (site t : Site) : Type 0 where
  storage : Bytes
  is_record : t ≡ record site { ssl_storage = storage }
  below : site.ssl_enabled ≡ true → starts_with storage (codes "/var/lib/rpsiod/ssl/") ≡ true

check_ssl-Secured : (site : Site) {t : Site} → check_ssl site ≡ done t → Secured site t
unfolding check_ssl
check_ssl-Secured site {t} h = elim (Bool-cases site.ssl_enabled) [
  | inr e ↦ record {
    storage = site.ssl_storage;
    is_record = ground arith;
    below = λ on. absurd (cc);
  }
  | inl e ↦
      let (a, h1) = require-eq-done (value_is_one_of_ci site.ssl_mode _) _ _ (rw e at h) in
      let (b, h2) = require-eq-done (value_is_one_of_ci site.ssl_provider _) _ _ h1 in
      let (c, h3) = require-eq-done (value_is_one_of_ci site.ssl_challenge _) _ _ h2 in
      let (d, h4) = require-eq-done (is_absolute (ssl_storage_of site) && _) _ _ h3 in
      record { storage = ssl_storage_of site; is_record = ground arith; below = λ on. ground arith }
]

or_default-nonempty : (xs : List Bytes) (y : Bytes) (ys : List Bytes) → or_default xs (y ∷ ys) ≢ []
unfolding or_default
or_default-nonempty [] y ys h = cc
or_default-nonempty (x ∷ xs) y ys h = cc

name_or-nonempty : (name text : Bytes) → text ≢ [] → (if length name == 0 then text else name) ≢ []
name_or-nonempty [] text h = h
name_or-nonempty (c ∷ name) text h = ground arith

named-nonempty : (i : ℕ) (site : Site) → (named i site).name ≢ []
unfolding named safe_copy
named-nonempty i site = name_or-nonempty site.name _ (λ e. cc)

Valid-of :
    (site : Site) (scripts : Bool) (storage : Bytes)
    → Described site
    → site.name ≢ []
    → Logged site.access_log
    → Logged site.error_log
    → (site.ssl_enabled ≡ true → starts_with storage (codes "/var/lib/rpsiod/ssl/") ≡ true)
    → ((is_static site || is_php site) ≡ true → is_absolute site.static_root ≡ true)
    → (is_php site ≡ true → scripts ≡ true)
    → Valid (record (fill_lists (record site { php_enabled = scripts })) { ssl_storage = storage })
unfolding fill_lists is_static is_php is_proxy
Valid-of site scripts storage d name access error below root on = record {
  described = record {
    domains = d.domains;
    some_domain = d.some_domain;
    ports = d.ports;
    routing = d.routing;
    status = d.status;
  };
  name = name;
  indexes = or_default-nonempty site.indexes _ _;
  allowed_methods = or_default-nonempty site.allowed_methods _ _;
  access_log = access;
  error_log = error;
  storage = below;
  root = root;
  scripts = on;
}

done-injective : {a b : Site} → done a ≡ done b → a ≡ b
done-injective h = cc

Valid-from :
    (site opened secured t : Site)
    → Described site
    → site.name ≢ []
    → Opened site opened
    → log_ok (fill_lists opened).access_log ≡ true
    → log_ok (fill_lists opened).error_log ≡ true
    → Secured (fill_lists opened) secured
    → secured ≡ t
    → Valid t
unfolding fill_lists
Valid-from site opened secured t d name o access error s same =
    subst Valid
      (ap (λ x. record (fill_lists x) { ssl_storage = s.storage }) (sym o.is_record)
        ∙ (sym s.is_record ∙ same))
      (Valid-of site o.scripts s.storage d name
        (log_ok-Logged site.access_log (subst (λ x. log_ok x.access_log ≡ true) o.is_record access))
        (log_ok-Logged site.error_log (subst (λ x. log_ok x.error_log ≡ true) o.is_record error))
        (λ on. s.below (subst (λ x. x.ssl_enabled ≡ true) (sym o.is_record) on)) o.root o.on)

-- A site that passes is valid.
pub validate_site-Valid :
    (root_error : Bytes → Option Bytes) (i : ℕ) (site : Site) {t : Site}
    → validate_site root_error i site ≡ done t
    → Valid t
unfolding validate_site
validate_site-Valid root_error i unnamed {t} h =
    let site = named i unnamed in
    let (v, head, h1) = >>=-eq-done (check_site_head site) _ h in
    let (opened, root, h2) = >>=-eq-done (check_root root_error site) _ h1 in
    let (access, h3) = require-eq-done (log_ok (fill_lists opened).access_log) _ _ h2 in
    let (error, h4) = require-eq-done (log_ok (fill_lists opened).error_log) _ _ h3 in
    let (secured, ssl, h5) = >>=-eq-done (check_ssl (fill_lists opened)) _ h4 in
    let (w, php, h6) = >>=-eq-done (check_php secured) _ h5 in
    Valid-from site opened secured t (check_site_head-Described site head)
      (named-nonempty i unnamed) (check_root-Opened root_error site root) access error
      (check_ssl-Secured (fill_lists opened) ssl) (done-injective h6)

Valid-cons :
    (t : Site) (us ts : List Site) (n : ℕ)
    → t ∷ us ≡ ts
    → Valid t
    → All Valid us
    → length us ≡ n
    → All Valid ts × (length ts ≡ suc n)
Valid-cons t us ts n same v vs l =
    subst (λ xs. All Valid xs × (length xs ≡ suc n)) same ((v, vs), ap suc l)

Valid-nil : (ts : List Site) → [] ≡ ts → All Valid ts × (length ts ≡ 0)
Valid-nil ts same = subst (λ xs. All Valid xs × (length xs ≡ 0)) same (tt, refl)

done_sites : {a b : List Site} → done a ≡ done b → a ≡ b
done_sites h = cc

done_config : {a b : Config} → done a ≡ done b → a ≡ b
done_config h = cc

pub validate_sites-Valid :
    (root_error : Bytes → Option Bytes) (i : ℕ) (sites : List Site) {ts : List Site}
    → validate_sites root_error i sites ≡ done ts
    → All Valid ts × (length ts ≡ length sites)
unfolding validate_sites
validate_sites-Valid root_error i [] {ts} h = Valid-nil ts (done_sites h)
validate_sites-Valid root_error i (site ∷ sites) {ts} h =
    let (t, first, h1) = >>=-eq-done (validate_site root_error i site) _ h in
    let (us, others, h2) = >>=-eq-done (validate_sites root_error (i + 1) sites) _ h1 in
    let ih = validate_sites-Valid root_error (i + 1) sites others in
    Valid-cons t us ts (length sites) (done_sites h2) (validate_site-Valid root_error i site first)
      ih.0 ih.1

some_sites : (sites : List Site) → not (length sites == 0) ≡ true → 0 < length sites
some_sites sites h = ground arith

validate_server-some :
    (cfg : Config) {u : Unit {0}} → validate_server cfg ≡ done u → 0 < length cfg.sites
unfolding validate_server
validate_server-some cfg h =
    let (v, keys, h1) = >>=-eq-done (validate_keys cfg) _ h in
    some_sites cfg.sites (require-done _ _ h1)

-- what `validate` leaves of the sites and of the cache
abbrev pub Checked : Config → Config → Type 0
Checked cfg checked =
    All Valid checked.sites
    × (length checked.sites ≡ length cfg.sites)
    × (0 < length checked.sites)
    × (checked.open_file_cache_max ≤ 256)

capped-le : (n : ℕ) → (if ltb 256 n then 256 else n) ≤ 256
capped-le n = ground arith

-- A configuration that passes has at least one site, as many as were read, and all of them are valid:
-- named, with domains that are not empty and differ but for case, ports, a known routing, a status
-- of redirects, an index and a method, logs below the directory of the logs, certificates below theirs,
-- and an absolute document root where files are served; the cache holds at most 256 files.
pub validate-Valid :
    (root_error : Bytes → Option Bytes) (cfg : Config) {checked : Config}
    → validate root_error cfg ≡ done checked
    → Checked cfg checked
unfolding validate
validate-Valid root_error cfg {checked} h =
    let (u, server, h1) = >>=-eq-done (validate_server cfg) _ h in
    let (sites, all_valid, h2) = >>=-eq-done (validate_sites root_error 0 cfg.sites) _ h1 in
    let (valid, len) = validate_sites-Valid root_error 0 cfg.sites all_valid in
    let filled = validate_server-some cfg server in
    subst (Checked cfg) (done_config h2)
      (valid, len, omega arith, capped-le cfg.open_file_cache_max)
