-- ===== src/Goals/Remove/Tests.antt =====
-- The removal of a package with what only it needs, and of a package that nothing needs any more.
use flappy.Base.{ℕ, ◌≡◌, refl, Bool, true, false, [], ◌∷◌, none, some, Bytes, codes, str_eq, All}
use flappy.Revdeps.{generate_full_revdeps_tree, pkgdb_get_pkg_revdeps}
use flappy.TransStore.{transaction_store}
use flappy.Pkgver.{pkg_name, pkg_version, pkgpattern_version}
use flappy.Dicts.{empty_pkgd, dict_get, Pkgd}
use flappy.Orphans.{
  orphan_loop, orphan_pass, orphan_round, check_revdeps, count_queued, is_queued, find_pkg_orphans,
}
use flappy.Find.{
  is_pkg, find_loop, get_pkg_in_array, match_pkg_by_pkgver, missing, pkgdb_get_pkg,
  find_pkg_in_dict, find_pkg_in_array,
}
use flappy.Goals.{share_replaces, transaction_pkg_type_set, RepoPool}
use flappy.Goals.Remove.{
  remove_all, put_pkgdb, Removing, transaction_remove_pkg, transaction_autoremove_pkgs, remove_one,
  remove_marked,
}
use flappy.Goals.Remove.Marked.{
  IsRemoval, transaction_remove_pkg-IsRemoval, transaction_autoremove_pkgs-IsRemoval,
}

abbrev never : Bytes → Bytes → ℕ → Bool
never p s flags = false

abbrev tool : Pkgd
tool = record empty_pkgd { pkgver = some (codes "a-1_1"); pkgname = some (codes "a") }

abbrev needless : Pkgd
needless = record empty_pkgd {
  pkgver = some (codes "b-2_1");
  pkgname = some (codes "b");
  automatic_install = some true;
}

abbrev waiting : Pkgd
waiting = record empty_pkgd { pkgver = some (codes "c-1_1"); pkgname = some (codes "c") }

-- No repository.
abbrev repositories : RepoPool ℕ
repositories = record {
  get_pkg = λ d pkg. some (missing none);
  get_virtualpkg = λ d pkg. some (missing none);
  has_repo = λ d url. false;
  get_from = λ d url pkg. some (missing none);
  put = λ d before after. d;
}

abbrev removing : Removing
removing = record {
  pkgdb = (codes "b", needless) ∷ (codes "a", tool) ∷ [];
  transd = some (waiting ∷ []);
  known = some [];
  items = [];
}

-- The copy in the queue.
abbrev copy : Pkgd → Bytes → Pkgd
copy pkgd requirement = record pkgd { transaction = some 5; replaces = some (requirement ∷ []) }

abbrev tool_removed : Removing
tool_removed = record removing {
  pkgdb = (codes "b", needless) ∷ (codes "a", record tool { transaction = some 5 }) ∷ [];
  transd = some (waiting ∷ copy tool (codes "a>=0") ∷ []);
}

abbrev needless_removed : Removing
needless_removed = record removing {
  pkgdb = (codes "b", record needless { transaction = some 5 }) ∷ (codes "a", tool) ∷ [];
  transd = some (waiting ∷ copy needless (codes "b>=0") ∷ []);
}

alone :
    transaction_remove_pkg never [] repositories removing (codes "a") false ≡ some (0, tool_removed)
unfolding transaction_remove_pkg remove_one remove_marked put_pkgdb transaction_store
    transaction_pkg_type_set share_replaces pkgdb_get_pkg find_pkg_in_dict find_pkg_in_array
    get_pkg_in_array find_loop match_pkg_by_pkgver pkg_name pkg_version pkgpattern_version dict_get
    str_eq is_pkg
alone = refl

automatic : transaction_autoremove_pkgs never [] repositories removing ≡ some (0, needless_removed)
unfolding transaction_autoremove_pkgs find_pkg_orphans orphan_loop orphan_pass orphan_round
    check_revdeps count_queued is_queued pkgdb_get_pkg_revdeps remove_all remove_one remove_marked
    put_pkgdb transaction_store transaction_pkg_type_set share_replaces pkgdb_get_pkg
    find_pkg_in_dict find_pkg_in_array get_pkg_in_array find_loop match_pkg_by_pkgver pkg_name
    pkg_version pkgpattern_version dict_get str_eq generate_full_revdeps_tree is_pkg
automatic = refl

transaction_remove_pkg-IsRemoval_example :
    All (IsRemoval (waiting ∷ [])) (waiting ∷ copy tool (codes "a>=0") ∷ [])
transaction_remove_pkg-IsRemoval_example =
    transaction_remove_pkg-IsRemoval never [] repositories (waiting ∷ []) removing (codes "a") false
      (0, tool_removed) refl alone

transaction_autoremove_pkgs-IsRemoval_example :
    All (IsRemoval (waiting ∷ [])) (waiting ∷ copy needless (codes "b>=0") ∷ [])
transaction_autoremove_pkgs-IsRemoval_example =
    transaction_autoremove_pkgs-IsRemoval never [] repositories (waiting ∷ []) removing
      (0, needless_removed) refl automatic
