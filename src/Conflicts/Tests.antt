-- ===== src/Conflicts/Tests.antt =====
-- The check of conflicts on a transaction that settles one.
use flappy.Base.{str_eq, List, ℕ, ◌≡◌, refl, some, Bytes, codes, Bool, false, [], ◌∷◌, All}
use flappy.Pkgver.{pkg_name, pkg_version, pkgpattern_version}
use flappy.Dicts.{empty_pkgd, dict_get, Pkgd, PkgDict}
use flappy.Find.{
  pkgdb_get_pkg, find_pkg_in_dict, find_pkg_in_array, get_pkg_in_array, find_loop, is_pkg,
}
use flappy.Conflicts.{
  check_conflicts, each_pkg, pkg_conflicts_trans, pkgdb_conflicts_cb, conflicts_loop, judge_trans,
  judge_installed, trans_install, trans_remove,
}
use flappy.Conflicts.Clear.{ClearIn, ClearFor, check_conflicts-ClearIn}

abbrev never : Bytes → Bytes → ℕ → Bool
never p s flags = false

abbrev installed : Pkgd
installed = record empty_pkgd { pkgver = some (codes "a-1_1"); pkgname = some (codes "a") }

abbrev removed : Pkgd
removed = record installed { transaction = some trans_remove }

abbrev new : Pkgd
new = record empty_pkgd {
  pkgver = some (codes "b-1_1");
  pkgname = some (codes "b");
  transaction = some trans_install;
  conflicts = some (codes "a" ∷ []);
}

abbrev database : PkgDict
database = (codes "a", installed) ∷ []

abbrev transaction : List Pkgd
transaction = new ∷ removed ∷ []

no_conflict : check_conflicts never [] database (installed ∷ []) transaction [] ≡ some []
unfolding check_conflicts each_pkg pkg_conflicts_trans pkgdb_conflicts_cb conflicts_loop judge_trans
    judge_installed pkgdb_get_pkg find_pkg_in_dict find_pkg_in_array get_pkg_in_array find_loop
    is_pkg pkg_name pkg_version pkgpattern_version dict_get str_eq
no_conflict = refl

-- Without the removal it is reported.
reported :
    check_conflicts never [] database (installed ∷ []) (new ∷ []) []
    ≡ some (codes "CONFLICT: b-1_1 with installed pkg a-1_1 (matched by a)" ∷ [])
unfolding check_conflicts each_pkg pkg_conflicts_trans pkgdb_conflicts_cb conflicts_loop judge_trans
    judge_installed pkgdb_get_pkg find_pkg_in_dict find_pkg_in_array get_pkg_in_array find_loop
    is_pkg pkg_name pkg_version pkgpattern_version dict_get str_eq
reported = refl

check_conflicts-ClearIn_example :
    All (ClearIn never [] transaction database) transaction
    × All (ClearFor never [] transaction) (installed ∷ [])
check_conflicts-ClearIn_example =
    check_conflicts-ClearIn never [] transaction database (installed ∷ []) [] no_conflict
