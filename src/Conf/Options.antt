-- ===== src/Conf/Options.antt =====
-- The options of a configuration file keep the handle in shape, and reading a line returns.
use flappy.Base.{
  ℕ, ◌≡◌, refl, Bool, ◌⊎◌, inl, inr, List, [], ◌∷◌, Option, none, some, ◌==◌, arith, Bytes, length,
  Bool-cases, Option-cases, All,
}
use flappy.Conf.{
  Key, key_architecture, key_bestmatching, key_cachedir, key_ignorepkg, key_include, key_keepconf,
  key_noextract, key_preserve, key_repository, key_rootdir, key_staging, key_syslog, key_virtualpkg,
  skip_blanks,
}
use flappy.Conf.Store.{Handle, Globbed, max_path, arch_size}
use flappy.Conf.Files.{
  Line, Opened, lines, unreadable, Parsing, set_option, parse_line, parse_lines,
}
use flappy.Conf.Kept.{
  IsHandle, Returns, Returns-bind, print_field-size, store_repo-IsHandle,
  store_preserved_file-IsHandle, store_virtualpkg-IsHandle, store_noextract-IsHandle,
  store_ignored_pkg-IsHandle,
}
use flappy.Conf.Total.{Fits, List-cases, parse_option_total}

-- The handle of the state is in shape.
abbrev pub InShape : Parsing → Type 0
InShape s = IsHandle s.0

abbrev pub Include : Type 0
Include = Option (Bytes → Handle → Option Parsing)

-- What an include does keeps the handle in shape.
abbrev pub Keeps : Include → Type 0
Keeps none = Unit
Keeps (some f) = (val : Bytes) (xhp : Handle) → IsHandle xhp → Returns InShape (f val xhp)

pub Opened-cases :
    (o : Opened) → ((text : List Line) × (o ≡ lines text)) ⊎ ((errno : ℕ) × (o ≡ unreadable errno))
Opened-cases (lines text) = inl (text, refl)
Opened-cases (unreadable errno) = inr (errno, refl)

module _ (fnmatch : Bytes → Bytes → ℕ → Bool) (realpath : Bytes → Option Bytes)
    (glob : Bytes → Globbed) (fopen : Bytes → Opened) where
  set_option-InShape :
      (include : Include) (key : Key) (val : Bytes) (xhp : Handle) (rv : ℕ)
      → Keeps include
      → IsHandle xhp
      → Returns InShape (set_option fnmatch realpath glob fopen include key val (xhp, rv))
  unfolding set_option
  set_option-InShape include key_rootdir val xhp rv k h = (
    _,
    refl,
    record {
      rootdir_fits = print_field-size max_path val (omega arith);
      cachedir_fits = h.cachedir_fits;
      arch_fits = h.arch_fits;
      once = h.once;
    },
  )
  set_option-InShape include key_cachedir val xhp rv k h = (
    _,
    refl,
    record {
      rootdir_fits = h.rootdir_fits;
      cachedir_fits = print_field-size max_path val (omega arith);
      arch_fits = h.arch_fits;
      once = h.once;
    },
  )
  set_option-InShape include key_architecture val xhp rv k h = (
    _,
    refl,
    record {
      rootdir_fits = h.rootdir_fits;
      cachedir_fits = h.cachedir_fits;
      arch_fits = print_field-size arch_size val (omega arith);
      once = h.once;
    },
  )
  set_option-InShape include key_staging val xhp rv k h = (
    _,
    refl,
    record {
      rootdir_fits = h.rootdir_fits;
      cachedir_fits = h.cachedir_fits;
      arch_fits = h.arch_fits;
      once = h.once;
    },
  )
  set_option-InShape include key_syslog val xhp rv k h = (
    _,
    refl,
    record {
      rootdir_fits = h.rootdir_fits;
      cachedir_fits = h.cachedir_fits;
      arch_fits = h.arch_fits;
      once = h.once;
    },
  )
  set_option-InShape include key_keepconf val xhp rv k h = (
    _,
    refl,
    record {
      rootdir_fits = h.rootdir_fits;
      cachedir_fits = h.cachedir_fits;
      arch_fits = h.arch_fits;
      once = h.once;
    },
  )
  set_option-InShape include key_bestmatching val xhp rv k h = (
    _,
    refl,
    record {
      rootdir_fits = h.rootdir_fits;
      cachedir_fits = h.cachedir_fits;
      arch_fits = h.arch_fits;
      once = h.once;
    },
  )
  set_option-InShape include key_repository val xhp rv k h =
      let (x, e, ok) = store_repo-IsHandle fnmatch realpath xhp val h in ((x, rv), rw e refl, ok)
  set_option-InShape include key_preserve val xhp rv k h =
      let (x, e, ok) = store_preserved_file-IsHandle fnmatch realpath glob xhp val h in
      ((x, rv), rw e refl, ok)
  set_option-InShape include key_virtualpkg val xhp rv k h =
      (_, refl, store_virtualpkg-IsHandle xhp val h)
  set_option-InShape include key_ignorepkg val xhp rv k h =
      (_, refl, store_ignored_pkg-IsHandle xhp val h)
  set_option-InShape include key_noextract val xhp rv k h =
      (_, refl, store_noextract-IsHandle xhp val h)
  set_option-InShape none key_include val xhp rv k h = (_, refl, h)
  set_option-InShape (some f) key_include val xhp rv k h = k val xhp h

  parse_line-InShape :
      (include : Include) (linebuf : Line) (xhp : Handle) (rv : ℕ)
      → Keeps include
      → Fits linebuf
      → IsHandle xhp
      → Returns InShape (parse_line fnmatch realpath glob fopen include linebuf (xhp, rv))
  unfolding parse_line
  parse_line-InShape include linebuf xhp rv k fits h =
      elim (List-cases (skip_blanks linebuf.text)) [
        | inl e ↦ ((xhp, rv), rw (parse_line, e) refl, h)
        | inr (c, line, e) ↦ elim (Bool-cases (c == b'#')) [
          | inl f ↦ ((xhp, rv), rw (parse_line, e, f) refl, h)
          | inr f ↦
              let (o, p) =
                parse_option_total (c ∷ line) (length linebuf.text) linebuf.behind (rw e at fits) in
              elim (Option-cases o) [
                | inl error ↦ ((xhp, rv), rw (parse_line, e, f, p, error) refl, h)
                | inr ((key, val), is) ↦
                    let (s, set, ok) = set_option-InShape include key val xhp rv k h in
                    (s, rw (parse_line, e, f, p, is) set, ok)
              ]
        ]
      ]

  pub parse_lines-InShape :
      (include : Include) (text : List Line) (s : Parsing)
      → Keeps include
      → All Fits text
      → InShape s
      → Returns InShape (parse_lines fnmatch realpath glob fopen include text s)
  unfolding parse_lines
  parse_lines-InShape include [] s k fits h = (s, refl, h)
  parse_lines-InShape include (line ∷ rest) s k fits h =
      Returns-bind InShape InShape (parse_line fnmatch realpath glob fopen include line s)
        (parse_lines fnmatch realpath glob fopen include rest)
        (parse_line-InShape include line s.0 s.1 k fits.0 h)
        (λ s' h'. parse_lines-InShape include rest s' k fits.1 h')
