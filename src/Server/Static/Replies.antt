-- ===== src/Server/Static/Replies.antt =====
-- src/server.c: what tells a file or a script from the pages, errors and redirects of a site.
use rpsiod.Prelude.{
  Bool, true, false, Bytes, Option, some, none, ◌==◌, if◌then◌else◌, length, ◌≡◌, ◌≢◌, inl, inr,
  refl, arith, Bool-cases, ℤ, pos,
}
use rpsiod.Config.Site.{Site}
use rpsiod.Config.Methods.{site_error_page}
use rpsiod.Server.Files.{FileSystem, Opened, Stat}
use rpsiod.Server.MetaCache.{MetaEntry}
use rpsiod.Server.Static.{
  Reply, static_file, status_page, script, Caches, error_reply, error_page_or, page_of, page_or,
  maintenance_reply, redirect_directory_slash,
}

-- a reply that is a static file or the output of a script
pub data Served : Type 0 where
  sent : Bytes → Stat → MetaEntry → Served
  run : Bytes → Served

abbrev pub reply_of : Served → Reply
reply_of (sent path st entry) = static_file path st entry
reply_of (run path) = script path

-- Pages, errors and redirects are neither.
page_or-ne :
    (s : Served) (o : Option Reply) (r : Reply)
    → ((p : Reply) → o ≡ some p → p ≢ reply_of s)
    → r ≢ reply_of s
    → page_or o r ≢ reply_of s
unfolding page_or
page_or-ne s none r h k = k
page_or-ne s (some p) r h k = h p refl

page_of-ne :
    (s : Served) (page : Bytes) (status : ℤ) (o : Opened) (p : Reply)
    → page_of page status o ≡ some p
    → p ≢ reply_of s
unfolding page_of
page_of-ne (sent path st entry) page status o p h e = ground arith
page_of-ne (run path) page status o p h e = ground arith

error_page_or-ne :
    (s : Served) (fs : FileSystem) (status : ℤ) (page : Option Bytes)
    → error_page_or fs status page ≢ reply_of s
unfolding error_page_or
error_page_or-ne (sent path st entry) fs status none e = cc
error_page_or-ne (run path) fs status none e = cc
error_page_or-ne s fs status (some page) e = elim (Bool-cases (length page == 0)) [
  | inl z ↦ status_page-ne s status (rw z at e)
  | inr n ↦
      page_or-ne s (page_of page status (fs.open_path page)) (status_page status)
        (page_of-ne s page status (fs.open_path page)) (status_page-ne s status) (rw n at e)
]
  where
    status_page-ne : (s : Served) (status : ℤ) → status_page status ≢ reply_of s
    status_page-ne (sent path st entry) status e = cc
    status_page-ne (run path) status e = cc

pub error_reply-ne :
    (s : Served) (fs : FileSystem) (site : Site) (status : ℤ)
    → error_reply fs site status ≢ reply_of s
unfolding error_reply
error_reply-ne s fs site status = error_page_or-ne s fs status (site_error_page site status)

pub maintenance_reply-ne :
    (s : Served) (fs : FileSystem) (site : Site) → maintenance_reply fs site ≢ reply_of s
unfolding maintenance_reply
maintenance_reply-ne s fs site e = elim (Bool-cases (length site.maintenance_page == 0)) [
  | inl z ↦ error_reply-ne s fs site site.maintenance_status (rw z at e)
  | inr n ↦
      page_or-ne s _ _
        (page_of-ne s site.maintenance_page site.maintenance_status
          (fs.open_path site.maintenance_page))
        (error_reply-ne s fs site site.maintenance_status) (rw n at e)
]

pub redirect_directory_slash-ne :
    (s : Served) (fs : FileSystem) (site : Site) (path : Bytes)
    → redirect_directory_slash fs site path ≢ reply_of s
unfolding redirect_directory_slash
redirect_directory_slash-ne (sent p st entry) fs site path =
    ground (arith, error_reply-ne (sent p st entry) fs site (pos 414))
redirect_directory_slash-ne (run p) fs site path =
    ground (arith, error_reply-ne (run p) fs site (pos 414))

-- A guard that was passed.
pub pass :
    (s : Served) (b : Bool) (x y : Caches × Reply)
    → (if b then x else y).1 ≡ reply_of s
    → x.1 ≢ reply_of s
    → (b ≡ false) × (y.1 ≡ reply_of s)
pass s true x y h ne = absurd (ne h)
pass s false x y h ne = (refl, h)

pub pass_reply :
    (s : Served) (b : Bool) (x y : Reply)
    → (if b then x else y) ≡ reply_of s
    → x ≢ reply_of s
    → (b ≡ false) × (y ≡ reply_of s)
pass_reply s true x y h ne = absurd (ne h)
pass_reply s false x y h ne = (refl, h)
