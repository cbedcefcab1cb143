-- ===== src/Orphans/Recursive/Tests.antt =====
-- The removal of a package with all that only it needs.
use flappy.Base.{
  str_eq, List, ℕ, ◌≡◌, refl, some, none, Bytes, codes, Bool, true, false, [], ◌∷◌, All,
}
use flappy.Pkgver.{pkg_name, pkg_version, pkgpattern_name, pkgpattern_version}
use flappy.Dicts.{empty_pkgd, dict_get, Pkgd, PkgDict}
use flappy.Find.{found, pkgdb_get_pkg, find_pkg_in_dict, match_pkg_by_pkgver}
use flappy.Find.First.{vpkg_user_conf-nil}
use flappy.Revdeps.{dep_name, provider}
use flappy.Revdeps.Table.{target, IsRegistered}
use flappy.Deptree.{find_pkgdb}
use flappy.Deptree.Database.{IsListed}
use flappy.Orphans.Built.{IsInstalled, BuiltOn}
use flappy.Orphans.Recursive.{Removal, find_pkg_removal}
use flappy.Orphans.Recursive.Closed.{Picks, find_pkg_removal-BuiltOn}

abbrev never : Bytes → Bytes → ℕ → Bool
never p s flags = false

abbrev tool : Pkgd
tool = record empty_pkgd {
  pkgver = some (codes "a-1_1");
  pkgname = some (codes "a");
  run_depends = some (codes "b-2_1" ∷ []);
}

abbrev needed : Pkgd
needed = record empty_pkgd {
  pkgver = some (codes "b-2_1");
  pkgname = some (codes "b");
  automatic_install = some true;
}

abbrev database : PkgDict
database = (codes "b", needed) ∷ (codes "a", tool) ∷ []

b-name : dep_name (codes "b-2_1") ≡ some (codes "b")
unfolding dep_name pkgpattern_name pkg_name
b-name = refl

b-target : target never [] (codes "b-2_1") ≡ some (codes "b")
unfolding target dep_name provider pkgpattern_name pkg_name
b-target = rw (vpkg_user_conf-nil never (codes "b")) refl

b-found : find_pkgdb never [] database (codes "b-2_1") ≡ some (found needed)
unfolding find_pkgdb pkgdb_get_pkg find_pkg_in_dict match_pkg_by_pkgver pkg_name pkg_version
    pkgpattern_version dict_get str_eq
b-found = refl

a-found : pkgdb_get_pkg never database (codes "a") ≡ some (found tool)
unfolding pkgdb_get_pkg find_pkg_in_dict pkg_version pkgpattern_version dict_get str_eq
a-found = refl

database-IsRegistered : All (IsRegistered never []) database
database-IsRegistered = (
  record { pkgver = codes "b-2_1"; has_pkgver = refl; known = tt },
  (record { pkgver = codes "a-1_1"; has_pkgver = refl; known = ((codes "b", b-target), tt) }, tt),
)

database-IsInstalled : All (IsInstalled database) database
unfolding pkg_name pkgpattern_version dict_get str_eq
database-IsInstalled = (
  record {
    pkgver = codes "b-2_1";
    has_pkgver = refl;
    no_pattern = refl;
    named = refl;
    stored = refl;
  },
  (
    record {
      pkgver = codes "a-1_1";
      has_pkgver = refl;
      no_pattern = refl;
      named = refl;
      stored = refl;
    },
    tt,
  ),
)

database-IsListed : All (IsListed never [] database) database
database-IsListed = (
  record { name = refl; pkgver = codes "b-2_1"; has_pkgver = refl; deps = tt },
  (
    record {
      name = refl;
      pkgver = codes "a-1_1";
      has_pkgver = refl;
      deps = (((codes "b", b-name), (found needed, b-found)), tt);
    },
    tt,
  ),
)

find_pkg_removal-BuiltOn_example :
    (first : List Pkgd) × (r : Removal) × (find_pkg_removal never [] database none []
        (codes "a" ∷ [])
      ≡ some (r, []))
    × Picks never [] database (codes "a" ∷ []) first
    × BuiltOn never [] database first r.0
find_pkg_removal-BuiltOn_example =
    find_pkg_removal-BuiltOn never [] database (codes "a" ∷ []) database-IsRegistered
      database-IsInstalled database-IsListed ((found tool, a-found), tt)
