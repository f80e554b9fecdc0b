-- ===== src/Config/Load.antt =====
-- src/config.c: the loops over the lines of the two files, and `rpsiod_config_load`. A file is what
-- `fopen` finds at its path, if it finds one; `none` stands for its failure.
use rpsiod.Prelude.{
  ℕ, zero, suc, ◌+◌, not, Bytes, codes, List, [], ◌∷◌, ◌++◌, Option, some, none, leb, ◌==◌,
  if◌then◌else◌, length, take, drop, drop_while, split_at, decimal,
}
use rpsiod.Util.Strings.{safe_copy, trim, char_at}
use rpsiod.Config.Site.{Site, Config, site_defaults, config_defaults}
use rpsiod.Config.Text.{
  Applied, done, fail, ◌>>=◌, ◌>>◌, require, Stack, empty_stack, stack_set, strip_comment,
  indent_level, split_key_value, is_space,
}
use rpsiod.Config.Server.{apply_server_value}
use rpsiod.Config.Sites.{apply_site_value}
use rpsiod.Config.SiteLists.{apply_site_list_value}
use rpsiod.Config.Validate.{validate}

-- the bytes that one call of `fgets` with a buffer of 4096 bytes reads
first_line : Bytes → Bytes
first_line text = elim (split_at 10 (take 4095 text)) [
  | none ↦ take 4095 text
  | some (before, behind) ↦ before ++ 10 ∷ []
]

-- What the calls of `fgets` give, on fuel: every call reads a byte.
read_lines : ℕ → Bytes → List Bytes
unfolding first_line
read_lines fuel [] = []
read_lines zero (c ∷ s) = []
read_lines (suc fuel) (c ∷ s) =
    let line = first_line (c ∷ s) in line ∷ read_lines fuel (drop (length line) (c ∷ s))

unfoldable pub file_lines : Bytes → List Bytes
unfolding read_lines
file_lines text = read_lines (length text) text

-- the text of a line, without its comment, its indent and the blanks around it
unfoldable pub line_text : Bytes → Bytes
line_text raw = trim (drop_while is_space (strip_comment raw))

unfoldable pub line_level : Bytes → ℕ
line_level raw = indent_level (strip_comment raw)

-- `set_err(err, err_len, "%s:%d: %s", path, line_no, message)`
at_line : Bytes → ℕ → Bytes → Bytes
at_line path line_no message = path ++ codes ":" ++ decimal line_no ++ codes ": " ++ message

located {ℓ} : {A : Type ℓ} → Bytes → ℕ → Applied A → Applied A
unfolding at_line
located path line_no (done a) = done a
located path line_no (fail message) = fail (at_line path line_no message)

key_value : Bytes → Applied (Bytes × Bytes)
key_value line = elim (split_key_value line) [
  | none ↦ fail (codes "expected key/value")
  | some kv ↦ done kv
]

-- what the loop of the server's file keeps
record ServerState : Type 0 where
  cfg : Config
  stack : Stack

-- one round of it
server_line : Bytes → ServerState → Applied ServerState
unfolding key_value
server_line raw s = if length (line_text raw) == 0 then done s else (do
  (key, value) ← key_value (line_text raw)
  cfg ←
      apply_server_value
        (record { stack = s.stack; level = line_level raw; key = key; value = value }) s.cfg
  done (record { cfg = cfg; stack = stack_set s.stack (line_level raw) key }))

server_lines : Bytes → ℕ → List Bytes → ServerState → Applied ServerState
unfolding located server_line
server_lines path line_no [] s = done s
server_lines path line_no (raw ∷ lines) s = do
  t ← located path line_no (server_line raw s)
  server_lines path (line_no + 1) lines t

-- What the loop of the sites' file keeps: the sites before the current one, the current one, which is
-- missing before the first item (`NULL`), and the stack.
record SitesState : Type 0 where
  before : List Site
  site : Option Site
  stack : Stack

-- the sites of the state
all_sites : SitesState → List Site
all_sites s = elim s.site [ none ↦ s.before | some site ↦ s.before ++ site ∷ [] ]

-- a setter on the current site
on_site : (Site → Applied Site) → SitesState → Applied SitesState
on_site f s = elim s.site [
  | none ↦ done s
  | some site ↦ do t ← f site; done (record s { site = some t })
]

-- the key that stands behind the dash of a new site, if one does
first_key : ℕ → Bytes → SitesState → Applied SitesState
unfolding on_site
first_key level item s = elim (split_key_value item) [
  | none ↦ done s
  | some (key, value) ↦
      on_site
        (apply_site_value (record { stack = s.stack; level = level + 1; key = key; value = value }))
        s
]

-- an item of a list: a new site at level 1, else a value of the current site
site_item : ℕ → Bytes → SitesState → Applied SitesState
unfolding first_key on_site all_sites
site_item level item s =
    if level == 1
    then (do
      require (not (leb 64 (length (all_sites s)))) (codes "too many sites")
      fresh ← done (record { before = all_sites s; site = some site_defaults; stack = s.stack })
      if length item == 0 then done fresh else first_key level item fresh)
    else on_site
        (apply_site_list_value (record { stack = s.stack; level = level; key = []; value = item }))
        s

-- one round of the loop
site_line : Bytes → SitesState → Applied SitesState
unfolding site_item key_value on_site
site_line raw s =
    let line = line_text raw in
    let level = line_level raw in
    if length line == 0
    then done s
    else if char_at line 0 == b'-'
    then site_item level (trim (drop 1 line)) s
    else (do
      (key, value) ← key_value line
      t ←
          on_site
            (apply_site_value (record { stack = s.stack; level = level; key = key; value = value }))
            s
      done (record t { stack = stack_set t.stack level key }))

site_lines : Bytes → ℕ → List Bytes → SitesState → Applied SitesState
unfolding located site_line
site_lines path line_no [] s = done s
site_lines path line_no (raw ∷ lines) s = do
  t ← located path line_no (site_line raw s)
  site_lines path (line_no + 1) lines t

cannot_open : Bytes → Bytes
cannot_open path = codes "failed to open " ++ path

-- `parse_server_file`
unfoldable pub parse_server_file : (Bytes → Option Bytes) → Bytes → Config → Applied Config
unfolding cannot_open server_lines
parse_server_file read_file path cfg = elim (read_file path) [
  | none ↦ fail (cannot_open path)
  | some text ↦ do
    s ← server_lines path 1 (file_lines text) (record { cfg = cfg; stack = empty_stack })
    done s.cfg
]

-- `parse_sites_file`
unfoldable pub parse_sites_file : (Bytes → Option Bytes) → Bytes → Config → Applied Config
unfolding cannot_open site_lines all_sites
parse_sites_file read_file path cfg = elim (read_file path) [
  | none ↦ fail (cannot_open path)
  | some text ↦ do
    s ←
        site_lines path 1 (file_lines text)
          (record { before = cfg.sites; site = none; stack = empty_stack })
    done (record cfg { sites = all_sites s })
]

-- `rpsiod_config_load`, up to the route table; a path that is not given is `none`
unfoldable pub config_load :
    (Bytes → Option Bytes) → (Bytes → Option Bytes) → Option Bytes → Option Bytes → Applied Config
config_load read_file root_error server_path sites_path = do
  path ← done (elim server_path [ none ↦ codes "/etc/rpsiod/server.yml" | some p ↦ p ])
  read ←
      parse_server_file read_file path (record config_defaults { server_file = safe_copy 512 path })
  effective ← done (elim sites_path [ none ↦ read.sites_file | some p ↦ p ])
  loaded ←
      parse_sites_file read_file effective
        (record read { loaded_sites_file = safe_copy 512 effective })
  validate root_error loaded
