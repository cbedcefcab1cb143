-- ===== src/Conf/Files.antt =====
-- Configuration files: `parse_file`, `parse_files_glob` and `flappy_conf_init` of lib/conf.c. glob(3),
-- realpath(3) and what stands in a file are arguments. A line is its text without the newline, with
-- what stands behind it in the buffer of getline(3).
use flappy.Base.{
  ℕ, Bool, false, not, ◌||◌, List, [], ◌∷◌, ◌++◌, Option, none, some, ◌==◌, ltb, if◌then◌else◌,
  ◌>>=◌, Bytes, codes, length, drop, strrchr, str_eq, upto,
}
use flappy.Conf.{
  Key, key_architecture, key_bestmatching, key_cachedir, key_ignorepkg, key_include, key_keepconf,
  key_noextract, key_preserve, key_repository, key_rootdir, key_staging, key_syslog, key_virtualpkg,
  skip_blanks, parse_option,
}
use flappy.Conf.Store.{
  Handle, Globbed, matched, no_match, no_space, other_error, max_path, arch_size, store_virtualpkg,
  is_true, print_field, store_noextract, store_ignored_pkg, store_repo, store_preserved_file,
}

pub record Line : Type 0 where
  pub text : Bytes
  pub behind : Bytes

-- What fopen(3) gives: the lines of the file, or errno.
pub data Opened : Type 0 where
  lines : List Line → Opened
  unreadable : ℕ → Opened

-- ENOMEM, and PATH_MAX.
abbrev pub enomem : ℕ
enomem = 12

abbrev pub path_max : ℕ
path_max = 4096

-- dirname(3) and basename(3) of a path that does not end with a slash.
unfoldable pub dirname : Bytes → Bytes
dirname path = elim (strrchr path b'/') [
  | none ↦ codes "."
  | some slash ↦ elim (upto path slash) [ [] ↦ codes "/" | c ∷ dir ↦ c ∷ dir ]
]

unfoldable pub basename : Bytes → Bytes
basename path = elim (strrchr path b'/') [ none ↦ path | some slash ↦ drop 1 slash ]

unfoldable pub has_name : List Bytes → Bytes → Bool
has_name [] fname = false
has_name (n ∷ names) fname = str_eq n fname || has_name names fname

-- The state of `parse_file`: the handle and `rv`.
abbrev pub Parsing : Type 0
Parsing = Handle × ℕ

-- A field that is printed: ENOMEM if it was cut.
abbrev pub stored : Bool → Handle → ℕ → Parsing
stored cut xhp rv = (xhp, if cut then enomem else rv)

-- snprintf(tmppath, PATH_MAX, "%s/%s", pat[0] == '/' ? xhp->rootdir : cwd, pat)
abbrev pub glob_path : Bytes → Bytes → Handle → Bytes
glob_path cwd pat xhp =
    let base : Bytes = elim pat [ [] ↦ cwd | c ∷ rest ↦ if c == b'/' then xhp.rootdir else cwd ] in
    base ++ b'/' ∷ pat

module _ (fnmatch : Bytes → Bytes → ℕ → Bool) (realpath : Bytes → Option Bytes)
    (glob : Bytes → Globbed) (fopen : Bytes → Opened) where
  -- The cases of `parse_file`. `include` does `parse_files_glob` for an include, and is missing in a
  -- nested file.
  unfoldable pub set_option :
      Option (Bytes → Handle → Option Parsing) → Key → Bytes → Parsing → Option Parsing
  set_option include key_rootdir val (xhp, rv) =
      let (field, cut) = print_field max_path val in
      some (stored cut (record xhp { rootdir = field }) rv)
  set_option include key_cachedir val (xhp, rv) =
      let (field, cut) = print_field max_path val in
      some (stored cut (record xhp { cachedir = field }) rv)
  set_option include key_architecture val (xhp, rv) =
      let (field, cut) = print_field arch_size val in
      some (stored cut (record xhp { native_arch = field }) rv)
  set_option include key_staging val (xhp, rv) = some (record xhp { use_stage = is_true val }, rv)
  set_option include key_syslog val (xhp, rv) =
      some (record xhp { disable_syslog = not (is_true val) }, rv)
  set_option include key_repository val (xhp, rv) =
      store_repo fnmatch realpath xhp val >>= λ x. some (x, rv)
  set_option include key_virtualpkg val (xhp, rv) = some (store_virtualpkg xhp val, 0)
  set_option include key_preserve val (xhp, rv) =
      store_preserved_file fnmatch realpath glob xhp val >>= λ x. some (x, rv)
  set_option include key_keepconf val (xhp, rv) =
      some (record xhp { keep_config = is_true val }, rv)
  set_option include key_bestmatching val (xhp, rv) =
      some (record xhp { bestmatch = is_true val }, rv)
  set_option include key_ignorepkg val (xhp, rv) = some (store_ignored_pkg xhp val, rv)
  set_option include key_noextract val (xhp, rv) = some (store_noextract xhp val, rv)
  set_option none key_include val (xhp, rv) = some (xhp, rv)
  set_option (some include) key_include val (xhp, rv) = include val xhp

  -- One round of the loop over the lines, and that loop.
  unfoldable pub parse_line :
      Option (Bytes → Handle → Option Parsing) → Line → Parsing → Option Parsing
  parse_line include linebuf (xhp, rv) = elim (skip_blanks linebuf.text) [
    | [] ↦ some (xhp, rv)
    | c ∷ line ↦
        if c == b'#'
        then some (xhp, rv)
        else (parse_option (c ∷ line) (length linebuf.text) linebuf.behind >>= λ o. elim o [
          | none ↦ some (xhp, rv)
          | some (key, val) ↦ set_option include key val (xhp, rv)
        ])
  ]

  unfoldable pub parse_lines :
      Option (Bytes → Handle → Option Parsing) → List Line → Parsing → Option Parsing
  parse_lines include [] s = some s
  parse_lines include (line ∷ rest) s = do
    s' ← parse_line include line s
    parse_lines include rest s'

  -- `parse_file`, given what an include does.
  unfoldable pub parse_file_with :
      Option (Bytes → Handle → Option Parsing) → Bytes → Handle → Option Parsing
  parse_file_with include path xhp = elim (fopen path) [
    | unreadable errno ↦ some (xhp, errno)
    | lines text ↦ parse_lines include text (xhp, 0)
  ]

  -- The loop of `parse_files_glob`, where `parse` is `parse_file`: the names that were seen, the handle
  -- and `rv`. With no `seen` every file is parsed.
  unfoldable pub files_loop :
      (Bytes → Handle → Option Parsing)
      → Option (List Bytes)
      → List Bytes
      → Parsing
      → Option (Option (List Bytes) × Parsing)
  files_loop parse seen [] s = some (seen, s)
  files_loop parse seen (path ∷ paths) (xhp, rv) =
      let masked : Bool = elim seen [
        | none ↦ false
        | some names ↦ has_name names (basename path)
      ] in
      let seen' : Option (List Bytes) = elim seen [
        | none ↦ none
        | some names ↦ some (basename path ∷ names)
      ] in
      let skip = files_loop parse seen paths (xhp, rv) in
      let next =
        parse path xhp >>= λ s. files_loop parse seen' paths (s.0, if s.1 == 0 then rv else s.1) in
      if masked then skip else next

  -- The part of `parse_files_glob` after glob(3).
  unfoldable pub files_globbed :
      (Bytes → Handle → Option Parsing)
      → Option (List Bytes)
      → Handle
      → Globbed
      → Option (Option (List Bytes) × Parsing)
  files_globbed parse seen xhp no_space = some (seen, (xhp, enomem))
  files_globbed parse seen xhp no_match = some (seen, (xhp, 0))
  files_globbed parse seen xhp other_error = some (seen, (xhp, 0))
  files_globbed parse seen xhp (matched paths) = files_loop parse seen paths (xhp, 0)

  unfoldable pub parse_files_glob :
      (Bytes → Handle → Option Parsing)
      → Option (List Bytes)
      → Bytes
      → Bytes
      → Handle
      → Option (Option (List Bytes) × Parsing)
  parse_files_glob parse seen cwd pat xhp =
      let path = glob_path cwd pat xhp in
      let globbed = files_globbed parse seen xhp (glob path) in
      if ltb (length path) path_max then globbed else some (seen, (xhp, enomem))

  -- `parse_file` of a nested file, and of one that is not.
  unfoldable pub parse_nested : Bytes → Handle → Option Parsing
  parse_nested = parse_file_with none

  unfoldable pub parse_file : Bytes → Handle → Option Parsing
  parse_file path =
      parse_file_with
        (some
          (λ val xhp. parse_files_glob parse_nested none (dirname path) val xhp >>= λ r. some r.1))
        path

  -- One of the directories of `flappy_conf_init`.
  unfoldable pub dir_files :
      Bytes → Option (List Bytes) → Handle → Option (Option (List Bytes) × Parsing)
  dir_files [] seen xhp = some (seen, (xhp, 0))
  dir_files (c ∷ dir) seen xhp = parse_files_glob parse_file seen (c ∷ dir) (codes "*.conf") xhp

  -- `flappy_conf_init`
  unfoldable pub conf_init : Bytes → Bytes → Handle → Option Parsing
  conf_init confdir sysconfdir xhp = do
    (seen, s) ← dir_files confdir (some []) xhp
    let rest = dir_files sysconfdir seen s.0 >>= λ r. some r.1
    if not (s.1 == 0) then some s else rest
