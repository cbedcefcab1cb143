-- ===== src/Conf/Store.antt =====
-- What a configuration sets: the fields of `struct flappy_handle` that lib/conf.c fills, and
-- `vpkg_map_add`, `store_virtualpkg`, `store_preserved_file`, `store_repo`, `store_ignored_pkg` and
-- `store_noextract`. An array that is missing has no element. glob(3) and realpath(3) are arguments.
use flappy.Base.{
  ℕ, ◌+◌, ◌-◌, Bool, not, List, [], ◌∷◌, ◌++◌, map, Option, none, some, ltb, if◌then◌else◌, ◌>>=◌,
  Bytes, codes, length, take, drop, strchr, str_eq, to_lower, upto,
}
use flappy.Pkgver.{pkg_name}
use flappy.Arrays.{name_size, by_string, match_string_in_array}
use flappy.Dicts.{Dict, dict_get, dict_set}
use flappy.Repo.{repo_store}

pub record Handle : Type 0 where
  pub rootdir : Bytes
  pub cachedir : Bytes
  pub native_arch : Bytes
  pub use_stage : Bool
  pub disable_syslog : Bool
  pub keep_config : Bool
  pub bestmatch : Bool
  pub ignore_conf_repos : Bool
  pub repositories : List Bytes
  pub ignored_pkgs : List Bytes
  pub noextract : List Bytes
  pub preserved_files : List Bytes
  pub vpkgd : Dict (Dict Bytes)
  pub vpkgd_conf : Dict (Dict Bytes)

-- The result of glob(3).
pub data Globbed : Type 0 where
  matched : List Bytes → Globbed
  no_match no_space other_error : Globbed

-- FLAPPY_MAXPATH, and the size of `native_arch`.
abbrev pub max_path : ℕ
max_path = 512

abbrev pub arch_size : ℕ
arch_size = 64

-- `vpkg_map_add`
unfoldable pub vpkg_map_add : Dict (Dict Bytes) → Bytes → Bytes → Bytes → Dict (Dict Bytes)
vpkg_map_add d pkgname vpkgver provider =
    let providers : Dict Bytes = elim (dict_get d pkgname) [
      | none ↦ []
      | some providers ↦ providers
    ] in
    dict_set d pkgname (dict_set providers vpkgver provider)

-- snprintf(pkgverbuf, sizeof(pkgverbuf), "%s-99999_1", vpkgname)
abbrev pub print_vpkgver : Bytes → Bytes
print_vpkgver vpkgname = take (name_size + 9 - 1) (vpkgname ++ codes "-99999_1")

-- The part of `store_virtualpkg` after the search for the colon.
unfoldable pub store_provider : Handle → Bytes → Option Bytes → Handle
store_provider xhp val none = xhp
store_provider xhp val (some []) = xhp
store_provider xhp val (some (colon ∷ [])) = xhp
store_provider xhp val (some (colon ∷ c ∷ s)) =
    let left = upto val (colon ∷ c ∷ s) in
    let provider = c ∷ s in
    let (vpkgname, vpkgver) : Bytes × Bytes = elim (pkg_name name_size left) [
      | some namebuf ↦ (namebuf, left)
      | none ↦ (left, print_vpkgver left)
    ] in
    record xhp {
      vpkgd = vpkg_map_add xhp.vpkgd vpkgname vpkgver provider;
      vpkgd_conf = vpkg_map_add xhp.vpkgd_conf vpkgname vpkgver provider;
    }

unfoldable pub store_virtualpkg : Handle → Bytes → Handle
store_virtualpkg xhp val = store_provider xhp val (strchr val b':')

-- The test of strcasecmp(val, "true").
unfoldable pub is_true : Bytes → Bool
is_true val = str_eq (map to_lower val) (codes "true")

-- snprintf(field, size, "%s", val): what is stored, and whether it was cut.
unfoldable pub print_field : ℕ → Bytes → Bytes × Bool
print_field size val = (take (size - 1) val, not (ltb (length val) size))

unfoldable pub store_noextract : Handle → Bytes → Handle
store_noextract xhp [] = xhp
store_noextract xhp (c ∷ value) = record xhp { noextract = xhp.noextract ++ (c ∷ value) ∷ [] }

unfoldable pub store_ignored_pkg : Handle → Bytes → Handle
store_ignored_pkg xhp pkgname = record xhp { ignored_pkgs = xhp.ignored_pkgs ++ pkgname ∷ [] }

module _ (fnmatch : Bytes → Bytes → ℕ → Bool) (realpath : Bytes → Option Bytes) where
  unfoldable pub store_repo : Handle → Bytes → Option Handle
  store_repo xhp repo =
      if xhp.ignore_conf_repos
      then some xhp
      else (repo_store fnmatch realpath xhp.repositories repo >>= λ r.
          some (record xhp { repositories = r.0 }))

  -- The loop of `store_preserved_file` over what glob(3) gives.
  unfoldable pub preserve_loop : Bytes → List Bytes → List Bytes → Option (List Bytes)
  preserve_loop rootdir preserved [] = some preserved
  preserve_loop rootdir preserved (path ∷ paths) = do
    b ← match_string_in_array fnmatch preserved path by_string
    let preserved' = if b then preserved else preserved ++ drop (length rootdir) path ∷ []
    preserve_loop rootdir preserved' paths

  -- The part of `store_preserved_file` after glob(3).
  unfoldable pub preserve_globbed : Handle → Bytes → Globbed → Option Handle
  preserve_globbed xhp file no_match = do
    b ← match_string_in_array fnmatch xhp.preserved_files file by_string
    let files = if b then xhp.preserved_files else xhp.preserved_files ++ file ∷ []
    some (record xhp { preserved_files = files })
  preserve_globbed xhp file no_space = some xhp
  preserve_globbed xhp file other_error = some xhp
  preserve_globbed xhp file (matched paths) = do
    files ← preserve_loop xhp.rootdir xhp.preserved_files paths
    some (record xhp { preserved_files = files })

  unfoldable pub store_preserved_file : (Bytes → Globbed) → Handle → Bytes → Option Handle
  store_preserved_file glob xhp file = preserve_globbed xhp file (glob (xhp.rootdir ++ file))
