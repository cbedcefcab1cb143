-- ===== src/Deptree/Tests.antt =====
-- The full dependency tree of a package whose two dependencies share one.
use flappy.Base.{
  ℕ, ◌≡◌, refl, Bool, false, [], ◌∷◌, Option, none, some, Bytes, codes, str_eq, All, true,
  if◌then◌else◌,
}
use flappy.Pkgver.{pkg_name, pkg_version, pkgpattern_name, pkgpattern_version}
use flappy.Arrays.{match_string_in_array, round}
use flappy.Dicts.{empty_pkgd, dict_get, dict_set, Dict, Pkgd, PkgDict}
use flappy.Find.{Found, found, missing, pkgdb_get_pkg, find_pkg_in_dict, match_pkg_by_pkgver}
use flappy.Revdeps.{dep_name}
use flappy.Deptree.{
  Item, Tree, add_item, add_depn, links_loop, add_deps_recursive, is_provided, dep_round,
  deps_round, end_depends, item_depends, ordered_depends, get_pkg_fulldeptree, find_pkgdb,
  pkgdb_get_pkg_fulldeptree,
}
use flappy.Deptree.Closed.{IsTree}
use flappy.Deptree.Database.{IsListed, pkgdb_get_pkg_fulldeptree-IsTree}

abbrev never : Bytes → Bytes → ℕ → Bool
never p s flags = false

abbrev app : Pkgd
app = record empty_pkgd {
  pkgver = some (codes "a-1_1");
  pkgname = some (codes "a");
  run_depends = some (codes "b-1_1" ∷ codes "c-1_1" ∷ []);
}

abbrev left : Pkgd
left = record empty_pkgd {
  pkgver = some (codes "b-1_1");
  pkgname = some (codes "b");
  run_depends = some (codes "c-1_1" ∷ []);
}

abbrev shared : Pkgd
shared = record empty_pkgd { pkgver = some (codes "c-1_1"); pkgname = some (codes "c") }

abbrev database : PkgDict
database = (codes "a", app) ∷ (codes "b", left) ∷ (codes "c", shared) ∷ []

in_order :
    pkgdb_get_pkg_fulldeptree never [] database [] (codes "a")
    ≡ some (some (codes "b-1_1" ∷ codes "c-1_1" ∷ []), [])
unfolding pkgdb_get_pkg_fulldeptree get_pkg_fulldeptree ordered_depends item_depends end_depends
    deps_round dep_round is_provided find_pkgdb add_item add_depn links_loop add_deps_recursive
    dep_name pkgdb_get_pkg find_pkg_in_dict match_pkg_by_pkgver pkg_name pkg_version pkgpattern_name
    pkgpattern_version match_string_in_array round dict_get dict_set str_eq
in_order = refl

-- A search in the pool, where the dependencies of one package are missing.
abbrev find_app : Bytes → Option Found
find_app dep = if str_eq dep (codes "a") then some (found app) else some (missing none)

abbrev stale : Dict Item
stale = (codes "a", record { pkgver = codes "a-1_1"; dbase = [] }) ∷ []

-- The call gives NULL, and the table is not emptied; the next call for the package then gives an
-- empty array.
left_behind : get_pkg_fulldeptree never find_app true 2 [] (codes "a") ≡ some (none, stale)
unfolding get_pkg_fulldeptree ordered_depends item_depends end_depends deps_round dep_round add_item
    dict_get dict_set str_eq
left_behind = refl

no_error : get_pkg_fulldeptree never find_app true 2 stale (codes "a") ≡ some (some [], [])
unfolding get_pkg_fulldeptree ordered_depends item_depends links_loop add_deps_recursive
    match_string_in_array dict_get str_eq
no_error = refl

finds_a : find_pkgdb never [] database (codes "a") ≡ some (found app)
unfolding find_pkgdb pkgdb_get_pkg find_pkg_in_dict match_pkg_by_pkgver pkg_name pkg_version
    pkgpattern_version dict_get str_eq
finds_a = refl

finds_b : find_pkgdb never [] database (codes "b-1_1") ≡ some (found left)
unfolding find_pkgdb pkgdb_get_pkg find_pkg_in_dict match_pkg_by_pkgver pkg_name pkg_version
    pkgpattern_version dict_get str_eq
finds_b = refl

finds_c : find_pkgdb never [] database (codes "c-1_1") ≡ some (found shared)
unfolding find_pkgdb pkgdb_get_pkg find_pkg_in_dict match_pkg_by_pkgver pkg_name pkg_version
    pkgpattern_version dict_get str_eq
finds_c = refl

name_b : dep_name (codes "b-1_1") ≡ some (codes "b")
unfolding dep_name pkgpattern_name pkg_name
name_b = refl

name_c : dep_name (codes "c-1_1") ≡ some (codes "c")
unfolding dep_name pkgpattern_name pkg_name
name_c = refl

database-IsListed : All (IsListed never [] database) database
database-IsListed = (
  record {
    name = refl;
    pkgver = codes "a-1_1";
    has_pkgver = refl;
    deps = (
      ((codes "b", name_b), (found left, finds_b)),
      (((codes "c", name_c), (found shared, finds_c)), tt),
    );
  },
  (
    record {
      name = refl;
      pkgver = codes "b-1_1";
      has_pkgver = refl;
      deps = (((codes "c", name_c), (found shared, finds_c)), tt);
    },
    (record { name = refl; pkgver = codes "c-1_1"; has_pkgver = refl; deps = tt }, tt),
  ),
)

pkgdb_get_pkg_fulldeptree-IsTree_example :
    (u : Tree) × (pkgdb_get_pkg_fulldeptree never [] database [] (codes "a")
      ≡ some (some u.result, []))
    × IsTree never (find_pkgdb never [] database) false app u
pkgdb_get_pkg_fulldeptree-IsTree_example =
    pkgdb_get_pkg_fulldeptree-IsTree never [] database (codes "a") app database-IsListed finds_a
