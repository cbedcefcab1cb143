-- ===== src/Conf/Tests.antt =====
-- The configuration at inputs that meet the hypotheses of its theorems.
use flappy.Base.{
  ℕ, ◌≡◌, refl, subst, some, none, Option, Bytes, codes, Bool, false, inl, inr, List, [], ◌∷◌, ◌++◌,
  All, Any, arith, str_eq,
}
use flappy.Pkgver.{pkg_name, pkgpattern_name}
use flappy.Arrays.{name_size}
use flappy.Dicts.{dict_get}
use flappy.Find.{vpkg_user_conf}
use flappy.Repo.Unique.{Unique}
use flappy.Conf.{Key, key_rootdir, keys, skip_blanks, parse_option}
use flappy.Conf.Value.{IsValue}
use flappy.Conf.Line.{parse_option-keys, parse_option_indented}
use flappy.Conf.Store.{Handle, Globbed, matched, store_virtualpkg}
use flappy.Conf.Files.{Line, Opened, lines, conf_init}
use flappy.Conf.Kept.{IsHandle, Returns}
use flappy.Conf.Total.{Fits}
use flappy.Conf.Options.{InShape}
use flappy.Conf.Init.{AllFit, conf_init-InShape}
use flappy.Conf.Virtual.{store_virtualpkg-vpkg_user_conf}

abbrev never : Bytes → Bytes → ℕ → Bool
never p s flags = false

abbrev absolute : Bytes → Option Bytes
absolute path = some (codes "/r/" ++ path)

is_key : Any (λ k. Path (Bytes × Key) k (codes "rootdir", key_rootdir)) keys
is_key = inr (inr (inr (inr (inr (inr (inr (inr (inr (inl refl)))))))))

mnt : IsValue (codes "/mnt")
mnt = record {
  text = omega arith;
  ends = inr (b'/', codes "mnt", codes "/mn", b't', refl, refl, refl, refl);
}

parse_option-keys_example :
    parse_option (codes "rootdir = /mnt  ") 16 [] ≡ some (some (key_rootdir, codes "/mnt"))
parse_option-keys_example =
    parse_option-keys (codes "rootdir") key_rootdir (codes " ") (codes " ") (codes "/mnt")
      (codes "  ") [] is_key (refl, tt) (refl, tt) (refl, (refl, tt)) mnt

parse_option_indented_example :
    parse_option (codes "rootdir = /mnt  ") 18 (0 ∷ 0 ∷ [])
    ≡ some (some (key_rootdir, codes "/mnt  "))
parse_option_indented_example =
    parse_option_indented (codes "rootdir") key_rootdir (codes " ") (codes " ") (codes "/mnt")
      (codes "  ") (0 ∷ 0 ∷ []) 2 is_key (refl, tt) (refl, tt) (refl, (refl, tt)) mnt
      (λ e. absurd (cc e)) (omega arith) (omega arith)

abbrev fresh : Handle
fresh = record {
  rootdir = codes "/";
  cachedir = [];
  native_arch = codes "x86_64";
  use_stage = false;
  disable_syslog = false;
  keep_config = false;
  bestmatch = false;
  ignore_conf_repos = false;
  repositories = [];
  ignored_pkgs = [];
  noextract = [];
  preserved_files = [];
  vpkgd = [];
  vpkgd_conf = [];
}

fresh-IsHandle : IsHandle fresh
unfolding Unique
fresh-IsHandle = record {
  rootdir_fits = omega arith;
  cachedir_fits = omega arith;
  arch_fits = omega arith;
  once = tt;
}

abbrev text : List Line
text =
    record { text = codes "# repositories"; behind = [] }
    ∷ record { text = codes "  repository=https://r "; behind = 0 ∷ 0 ∷ [] }
    ∷ record { text = codes "virtualpkg=awk:mawk"; behind = [] }
    ∷ []

text-Fits : All Fits text
unfolding skip_blanks
text-Fits = (omega arith, (omega arith, (omega arith, tt)))

abbrev fopen : Bytes → Opened
fopen path = lines text

abbrev glob : Bytes → Globbed
glob pattern = matched (codes "/etc/flappy.d/a.conf" ∷ [])

fopen-AllFit : AllFit never absolute glob fopen
fopen-AllFit path l e = subst (All Fits) (same l e) text-Fits
  where
    same : (l : List Line) → lines text ≡ lines l → text ≡ l
    same l e = cc e

conf_init-InShape_example :
    Returns InShape (conf_init never absolute glob fopen (codes "/etc/flappy.d") [] fresh)
conf_init-InShape_example =
    conf_init-InShape never absolute glob fopen (codes "/etc/flappy.d") [] fresh fopen-AllFit
      fresh-IsHandle

awk-plain : pkgpattern_name name_size (codes "awk") ≡ none
unfolding pkgpattern_name
awk-plain = refl

awk-bare : pkg_name name_size (codes "awk") ≡ none
unfolding pkg_name
awk-bare = refl

nothing-stored : dict_get fresh.vpkgd (codes "awk") ≡ none
unfolding dict_get
nothing-stored = refl

store_virtualpkg-vpkg_user_conf_example :
    (vpkg_user_conf never (store_virtualpkg fresh (codes "awk:mawk")).vpkgd (codes "awk")
      ≡ some (some (codes "mawk")))
    × ((other : Bytes)
        → str_eq (codes "awk") other ≡ false
        → dict_get (store_virtualpkg fresh (codes "awk:mawk")).vpkgd other
          ≡ dict_get fresh.vpkgd other)
store_virtualpkg-vpkg_user_conf_example =
    store_virtualpkg-vpkg_user_conf never fresh (codes "awk") b'm' (codes "awk") (omega arith)
      (omega arith) awk-plain awk-bare nothing-stored
