-- ===== src/Broken/Tests.antt =====
-- The check of reverse dependencies on updates that keep and break one.
use flappy.Base.{
  ℕ, ◌≡◌, ◌≤◌, refl, Bool, true, false, List, [], ◌∷◌, none, some, arith, Bytes, codes, length,
  str_eq, All,
}
use flappy.Pkgver.{pkg_name, pkg_version, pkgpattern_version}
use flappy.Dicts.{empty_pkgd, dict_get, Dict, Pkgd, PkgDict}
use flappy.Find.{
  pkgdb_get_pkg, find_pkg_in_dict, find_pkg_in_array, get_pkg_in_array, find_loop, is_pkg,
  match_pkg_by_pkgver,
}
use flappy.Revdeps.{pkgdb_get_pkg_revdeps, generate_full_revdeps_tree}
use flappy.Conflicts.{trans_remove}
use flappy.Broken.{
  check_removed, check_rev, rev_round, revs_loop, check_pkg, check_round, transaction_loop,
  transaction_check_revdeps, pkg_is_ignored,
}
use flappy.Broken.Unbroken.{Unbroken, transaction_check_revdeps-Unbroken}

abbrev never : Bytes → Bytes → ℕ → Bool
never p s flags = false

abbrev lib : Pkgd
lib = record empty_pkgd { pkgver = some (codes "a-1_1"); pkgname = some (codes "a") }

abbrev user : Pkgd
user = record empty_pkgd {
  pkgver = some (codes "b-1_1");
  pkgname = some (codes "b");
  run_depends = some (codes "a-1_1" ∷ []);
}

abbrev database : PkgDict
database = (codes "a", lib) ∷ (codes "b", user) ∷ []

abbrev table : Dict (List Bytes)
table = (codes "a", codes "b-1_1" ∷ []) ∷ []

abbrev removed : Pkgd
removed = record lib { transaction = some trans_remove }

abbrev removed_user : Pkgd
removed_user = record user { transaction = some trans_remove }

abbrev transaction : List Pkgd
transaction = removed ∷ removed_user ∷ []

both_removed :
    transaction_check_revdeps never transaction [] none database [] (some table)
    ≡ some (none, true, some table)
unfolding transaction_check_revdeps transaction_loop check_round check_pkg revs_loop rev_round
    check_rev check_removed pkgdb_get_pkg_revdeps generate_full_revdeps_tree pkg_is_ignored
    pkgdb_get_pkg find_pkg_in_dict find_pkg_in_array get_pkg_in_array find_loop is_pkg
    match_pkg_by_pkgver pkg_name pkg_version pkgpattern_version dict_get str_eq
both_removed = refl

one_removed :
    transaction_check_revdeps never (removed ∷ []) [] none database [] (some table)
    ≡ some (some (codes "a-1_1 in transaction breaks installed pkg `b-1_1'" ∷ []), true, some table)
unfolding transaction_check_revdeps transaction_loop check_round check_pkg revs_loop rev_round
    check_rev check_removed pkgdb_get_pkg_revdeps generate_full_revdeps_tree pkg_is_ignored
    pkgdb_get_pkg find_pkg_in_dict find_pkg_in_array get_pkg_in_array find_loop is_pkg
    match_pkg_by_pkgver pkg_name pkg_version pkgpattern_version dict_get str_eq
one_removed = refl

transaction_check_revdeps-Unbroken_example :
    All (Unbroken never transaction [] none database (some table)) transaction
transaction_check_revdeps-Unbroken_example =
    transaction_check_revdeps-Unbroken never transaction [] none database [] (some table)
      (some table) none both_removed small
  where
    small : length {A = Bytes} [] ≤ length {A = Bytes} []
    small = omega arith
