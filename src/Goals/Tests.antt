-- ===== src/Goals/Tests.antt =====
-- Goals on a database with one package, of which the repositories have a newer version.
use flappy.Base.{
  ℕ, ◌≡◌, ◌≢◌, refl, Bool, false, List, [], ◌∷◌, Option, none, some, arith, Bytes, codes, str_eq,
  if◌then◌else◌,
}
use flappy.Pkgver.{pkg_name, pkg_version, pkgpattern_version}
use flappy.Dicts.{empty_pkgd, dict_get, Pkgd}
use flappy.Find.{
  found, missing, pkgdb_get_pkg, find_pkg_in_dict, find_pkg_in_array, get_pkg_in_array, find_loop,
  match_pkg_by_pkgver,
}
use flappy.Find.Entry.{pkgdb_get_virtualpkg-nil}
use flappy.State.{set_new_state, get_state, pkg_state_installed}
use flappy.TransStore.{transaction_store}
use flappy.Goals.{
  choose_virtual, RepoPool, packages, respect, trans_find_pkg, choose, choose_virtual, choose_repo,
  compare_installed, queue_goal, queue_named, queue_state, goal_type, store_goal,
  transaction_pkg_type_set, share_replaces,
}
use flappy.Goals.Origin.{Origin}
use flappy.Goals.Choose.{Goal}
use flappy.Goals.Queue.{Stored, trans_find_pkg-Stored}
use flappy.Goals.Refused.{trans_find_pkg-Same}
use flappy.Goals.Update.{update_loop, update_all, autoupdate, Session, transaction_update_packages}
use flappy.Goals.Update.Kept.{queue, transaction_update_packages-queue}

abbrev never : Bytes → Bytes → ℕ → Bool
never p s flags = false

abbrev newer : Pkgd
newer = record empty_pkgd { pkgver = some (codes "a-2_1"); pkgname = some (codes "a") }

-- The dictionary of the repository.
abbrev repositories : RepoPool Pkgd
repositories = record {
  get_pkg = λ d pkg. some (if str_eq pkg (codes "a") then found d else missing none);
  get_virtualpkg = λ d pkg. some (missing none);
  has_repo = λ d url. false;
  get_from = λ d url pkg. some (missing none);
  put = λ d before after. after;
}

abbrev queued : Pkgd
queued = record newer {
  state = some (codes "not-installed");
  transaction = some 1;
  replaces = some (codes "a>=0" ∷ []);
}

installs :
    (r : Pkgd) × (trans_find_pkg never [] repositories [] false false
        (newer, none)
        (codes "a")
        false
      ≡ some (0, (r, some (queued ∷ []))))
unfolding trans_find_pkg choose choose_virtual choose_repo compare_installed queue_goal queue_named
    queue_state goal_type store_goal transaction_pkg_type_set share_replaces respect pkgdb_get_pkg
    find_pkg_in_dict find_pkg_in_array get_pkg_in_array find_loop match_pkg_by_pkgver pkg_name
    pkg_version pkgpattern_version pkg_state_installed set_new_state get_state transaction_store
    dict_get str_eq
installs = (
  record newer { state = some (codes "not-installed"); transaction = some 1 },
  rw (pkgdb_get_virtualpkg-nil never (codes "a")) refl,
)

trans_find_pkg-Stored_example :
    (p : Option Pkgd) × (d : Pkgd) × (t : ℕ) × (after : List Pkgd) × Origin never [] repositories []
      newer false
      (codes "a")
      p
      d
    × Goal false p d t
    × (some (queued ∷ []) ≡ some after)
    × Stored never [] false false [] (respect p d) t after
trans_find_pkg-Stored_example =
    trans_find_pkg-Stored never [] repositories [] false false newer none (codes "a") false
      (installs.0, some (queued ∷ [])) installs.1

-- There is no package `b`.
nothing :
    trans_find_pkg never [] repositories [] false false
      (newer, some (queued ∷ []))
      (codes "b")
      false
    ≡ some (2, (newer, some (queued ∷ [])))
unfolding trans_find_pkg choose choose_virtual choose_repo pkgdb_get_pkg find_pkg_in_dict pkg_name
    pkg_version pkgpattern_version dict_get str_eq
nothing = rw (pkgdb_get_virtualpkg-nil never (codes "b")) refl

two_nonzero : ◌≢◌ {A = ℕ} 2 0
two_nonzero e = omega arith

trans_find_pkg-Same_example : queued ∷ [] ≡ packages (some (queued ∷ []))
trans_find_pkg-Same_example =
    trans_find_pkg-Same never [] repositories [] false false newer (some (queued ∷ [])) (codes "b")
      false (2, (newer, some (queued ∷ []))) nothing two_nonzero

abbrev session : Session Pkgd
session = record { world = (newer, some (queued ∷ [])); known = none; force_remove = false }

none_found :
    transaction_update_packages never [] repositories [] false false session ≡ some (17, session)
unfolding transaction_update_packages autoupdate update_all update_loop pkgdb_get_pkg
    find_pkg_in_dict pkg_version pkgpattern_version dict_get str_eq
none_found = rw (pkgdb_get_virtualpkg-nil never (codes "flappy")) refl

transaction_update_packages-queue_example : queue session ≡ queue session
transaction_update_packages-queue_example =
    transaction_update_packages-queue never [] repositories [] false false session (17, session)
      refl none_found refl
