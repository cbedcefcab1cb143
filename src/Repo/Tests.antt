-- ===== src/Repo/Tests.antt =====
-- The repositories at inputs that meet the hypotheses of their theorems.
use flappy.Base.{
  List, ◌++◌, Any, suc, ◌==◌, ℕ, ◌≡◌, ◌≢◌, refl, some, none, Option, Bytes, codes, Bool, false,
  if◌then◌else◌, inl, inr, [], ◌∷◌, All, str_eq, str_eq_iff, Bool-cases, arith,
}
use flappy.Pkgver.{pkg_name, pkgpattern_version, pkg_version}
use flappy.Dicts.{empty_pkgd, dict_get, Pkgd}
use flappy.Dewey.Compare.Order.{IsVersion}
use flappy.Find.Conf.{find_virtualpkg_in_conf}
use flappy.Find.{find_pkg_in_dict, find_pkg_in_dict, Found, found}
use flappy.Repo.Unique.{Unique, repo_store-Unique}
use flappy.Repo.{
  repo_store, stored_uri, complete, Repo, Pool, Conf, Callback, rpool_get_repo, rpool_foreach,
  repo_get_pkg, repo_find_pkg, best_pkg,
}
use flappy.Repo.Served.{served, IsPool, KeepsUri, run}
use flappy.Repo.Foreach.{rpool_foreach-run, outcome}
use flappy.Repo.Improves.{Answers}
use flappy.Repo.Best.{IsBest, found_in, repo_find_pkg-IsBest}

abbrev never : Bytes → Bytes → ℕ → Bool
never p s flags = false

abbrev sample_pkg : Bytes → Pkgd
sample_pkg pkgver = record empty_pkgd { pkgver = some pkgver }

abbrev old : Repo
old = record { uri = codes "/old"; idx = some ((codes "a", sample_pkg (codes "a-1_1")) ∷ []) }

abbrev new : Repo
new = record { uri = codes "/new"; idx = some ((codes "a", sample_pkg (codes "a-2_1")) ∷ []) }

abbrev open_repo : Bytes → Option Repo
open_repo uri =
    if str_eq uri (codes "/old")
    then some old
    else if str_eq uri (codes "/new")
    then some new
    else none

open_repo-KeepsUri : KeepsUri open_repo
open_repo-KeepsUri uri repo h = elim (Bool-cases (str_eq uri (codes "/old"))) [
  | inl e ↦
      let it : some old ≡ some repo = rw e at h in
      let same : old ≡ repo = cc it in rw ((str_eq_iff uri (codes "/old")).0 e, ← same) refl
  | inr e ↦ elim (Bool-cases (str_eq uri (codes "/new"))) [
    | inl k ↦
        let it : some new ≡ some repo = rw (e, k) at h in
        let same : new ≡ repo = cc it in rw ((str_eq_iff uri (codes "/new")).0 k, ← same) refl
    | inr k ↦ absurd (cc (rw (e, k) at h))
  ]
]

abbrev pool : Pool
pool = record { repositories = codes "/old" ∷ codes "/gone" ∷ codes "/new" ∷ []; queue = [] }

pool-IsPool : IsPool open_repo pool
unfolding rpool_get_repo
pool-IsPool = record { opened = λ uri repo h. absurd (cc h) }

abbrev conf : Conf
conf = record { vpkgd = []; vpkgd_conf = none; unwritten = [] }

pool-served : served open_repo pool.repositories ≡ old ∷ new ∷ []
unfolding served str_eq
pool-served = refl

pool-served-some : served open_repo pool.repositories ≢ []
pool-served-some e = absurd (cc (pool-served, e))

abbrev offered : Bytes → Bytes → Pkgd
offered uri pkgver = record (sample_pkg pkgver) {
  repository = some uri;
  pkgname = some (codes "a");
}

old-IsVersion : IsVersion (codes "a-1_1")
old-IsVersion = omega arith

new-IsVersion : IsVersion (codes "a-2_1")
new-IsVersion = omega arith

old-offers :
    repo_get_pkg never conf old (codes "a") ≡ some (found (offered (codes "/old") (codes "a-1_1")))
unfolding repo_get_pkg complete find_virtualpkg_in_conf find_pkg_in_dict pkg_name pkgpattern_version
    dict_get str_eq pkg_version
old-offers = refl

new-offers :
    repo_get_pkg never conf new (codes "a") ≡ some (found (offered (codes "/new") (codes "a-2_1")))
unfolding repo_get_pkg complete find_virtualpkg_in_conf find_pkg_in_dict pkg_name pkgpattern_version
    dict_get str_eq pkg_version
new-offers = refl

old-Answers : Answers never conf (λ r. 0) (codes "a") old
old-Answers = (
  found (offered (codes "/old") (codes "a-1_1")),
  old-offers,
  (codes "a-1_1", refl, old-IsVersion),
)

new-Answers : Answers never conf (λ r. 0) (codes "a") new
new-Answers = (
  found (offered (codes "/new") (codes "a-2_1")),
  new-offers,
  (codes "a-2_1", refl, new-IsVersion),
)

pool-Answers : All (Answers never conf (λ r. 0) (codes "a")) (served open_repo pool.repositories)
pool-Answers = rw pool-served (old-Answers, (new-Answers, tt))

repo_find_pkg-IsBest_example :
    (f : Found) × (found_in (repo_find_pkg never conf open_repo (λ r. 0) pool (codes "a") best_pkg)
      ≡ some f)
    × IsBest never conf (λ r. 0) (codes "a") (served open_repo pool.repositories) f
repo_find_pkg-IsBest_example =
    repo_find_pkg-IsBest never conf (λ r. 0) (codes "a") open_repo pool open_repo-KeepsUri
      pool-IsPool pool-served-some pool-Answers

-- Counts the repositories and stops at the second one.
abbrev count : Callback ℕ
count repo n = some (0, n == 1, suc n)

rpool_foreach-run_example :
    (outcome (rpool_foreach open_repo count pool 0)
      ≡ run count (served open_repo pool.repositories) false 0)
    × ((pool' : Pool) (rv : ℕ) (arg' : ℕ)
        → rpool_foreach open_repo count pool 0 ≡ some (pool', rv, arg')
        → IsPool open_repo pool')
rpool_foreach-run_example = rpool_foreach-run open_repo open_repo-KeepsUri count pool 0 pool-IsPool

abbrev absolute : Bytes → Option Bytes
absolute path = some (codes "/r/" ++ path)

one-Unique : Unique (codes "/a" ∷ [])
unfolding Unique
one-Unique = ((λ h. h), tt)

repo_store-Unique_example :
    (after : List Bytes) × (b : Bool) × (repo_store never absolute (codes "/a" ∷ []) (codes "b")
      ≡ some (after, b))
    × Unique after
    × Any (λ y. y ≡ stored_uri absolute (codes "b")) after
    × (b ≡ false → after ≡ codes "/a" ∷ [])
repo_store-Unique_example =
    repo_store-Unique never absolute (codes "/a" ∷ []) (codes "b") one-Unique
