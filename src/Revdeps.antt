-- ===== src/Revdeps.antt =====
-- Reverse dependencies: `generate_full_revdeps_tree` and `flappy_pkgdb_get_pkg_revdeps` of
-- lib/pkgdb.c, on a database that is open. `none` is an abort, or a write outside an array in
-- `mkversion`.
pub mod Table
pub mod Tests
use flappy.Base.{
  ℕ, ◌≡◌, refl, Bool, List, [], ◌∷◌, ◌++◌, Option, none, some, if◌then◌else◌, ◌>>=◌, Bytes, codes,
}
use flappy.Pkgver.{pkg_name, pkgpattern_name}
use flappy.Arrays.{name_size, by_string, match_string_in_array}
use flappy.Dicts.{Dict, dict_get, dict_set, Pkgd, PkgDict}
use flappy.Find.{found, missing, vpkg_user_conf, pkgdb_get_pkg}

-- The name of a run-time dependency.
unfoldable pub dep_name : Bytes → Option Bytes
dep_name pkgdep = elim (pkgpattern_name name_size pkgdep) [
  | some curpkgname ↦ some curpkgname
  | none ↦ pkg_name name_size pkgdep
]

-- An array of a dictionary; a missing array has no element.
abbrev pub array_at : Dict (List Bytes) → Bytes → List Bytes
array_at d key = elim (dict_get d key) [ none ↦ [] | some array ↦ array ]

abbrev pub run_depends_of : Pkgd → List Bytes
run_depends_of pkgd = elim pkgd.run_depends [ none ↦ [] | some rundeps ↦ rundeps ]

module _ (fnmatch : Bytes → Bytes → ℕ → Bool) (vpkgd : Dict (Dict Bytes)) where
  -- The package that is configured for a name, or the name.
  unfoldable pub provider : Bytes → Option Bytes
  provider curpkgname = do
    vpkgname ← vpkg_user_conf fnmatch vpkgd curpkgname
    some (elim vpkgname [ none ↦ curpkgname | some v ↦ v ])

  -- The same by way of `vpkg_cache`, and the cache after it.
  cached : Dict Bytes → Bytes → Option (Bytes × Dict Bytes)
  cached vpkg_cache curpkgname = elim (dict_get vpkg_cache curpkgname) [
    | some v ↦ some (v, vpkg_cache)
    | none ↦ do v ← provider curpkgname; some (v, dict_set vpkg_cache curpkgname v)
  ]

  -- `pkgver` is put in the array of `v`, where it is not yet.
  add_revdep : Dict (List Bytes) → Bytes → Bytes → Option (Dict (List Bytes))
  add_revdep revdeps v pkgver =
      let pkg = array_at revdeps v in
      do
        b ← match_string_in_array fnmatch pkg pkgver by_string
        some (if b then revdeps else dict_set revdeps v (pkg ++ pkgver ∷ []))

  -- The loop over the dependencies of a package, one round of the loop over the packages, and that
  -- loop.
  deps_loop :
      List Bytes → Bytes → Dict (List Bytes) → Dict Bytes → Option (Dict (List Bytes) × Dict Bytes)
  deps_loop [] pkgver revdeps vpkg_cache = some (revdeps, vpkg_cache)
  deps_loop (pkgdep ∷ rundeps) pkgver revdeps vpkg_cache = do
    curpkgname ← dep_name pkgdep
    (v, vpkg_cache') ← cached vpkg_cache curpkgname
    revdeps' ← add_revdep revdeps v pkgver
    deps_loop rundeps pkgver revdeps' vpkg_cache'

  pkg_round : Pkgd → Dict (List Bytes) → Dict Bytes → Option (Dict (List Bytes) × Dict Bytes)
  pkg_round pkgd revdeps vpkg_cache = elim (run_depends_of pkgd) [
    | [] ↦ some (revdeps, vpkg_cache)
    | dep ∷ rundeps ↦ do pkgver ← pkgd.pkgver; deps_loop (dep ∷ rundeps) pkgver revdeps vpkg_cache
  ]

  pub pkgs_loop : PkgDict → Dict (List Bytes) → Dict Bytes → Option (Dict (List Bytes))
  pkgs_loop [] revdeps vpkg_cache = some revdeps
  pkgs_loop ((key, pkgd) ∷ pkgdb) revdeps vpkg_cache = do
    (revdeps', vpkg_cache') ← pkg_round pkgd revdeps vpkg_cache
    pkgs_loop pkgdb revdeps' vpkg_cache'

  -- `xhp->pkgdb_revdeps` after the call: it is made once.
  unfoldable pub generate_full_revdeps_tree :
      Option (Dict (List Bytes)) → PkgDict → Option (Dict (List Bytes))
  generate_full_revdeps_tree (some revdeps) pkgdb = some revdeps
  generate_full_revdeps_tree none pkgdb = pkgs_loop pkgdb [] []

  -- The array that is returned, which may be missing, and `xhp->pkgdb_revdeps` after the call.
  unfoldable pub pkgdb_get_pkg_revdeps :
      Option (Dict (List Bytes))
      → PkgDict
      → Bytes
      → Option (Option (List Bytes) × Option (Dict (List Bytes)))
  pkgdb_get_pkg_revdeps known pkgdb pkg = do
    r ← pkgdb_get_pkg fnmatch pkgdb pkg
    elim r [
      | missing errno ↦ some (none, known)
      | found pkgd ↦ do
        revdeps ← generate_full_revdeps_tree known pkgdb
        pkgver ← pkgd.pkgver
        some ((pkg_name name_size pkgver >>= λ pkgname. dict_get revdeps pkgname), some revdeps)
    ]
