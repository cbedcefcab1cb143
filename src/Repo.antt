-- ===== src/Repo.antt =====
-- Repositories and the pool of repositories: `flappy_repo_store`, `flappy_repo_remove`,
-- `flappy_repo_get_pkg` and `flappy_repo_get_virtualpkg` of lib/repo.c, and lib/rpool.c. What is
-- found on disk is an argument: the repository that `flappy_repo_open` gives for an URI, if it
-- does. A result `none` is an abort, or a write outside an array in `mkversion`.
pub mod Unique
pub mod Served
pub mod Foreach
pub mod Version
pub mod Improves
pub mod Best
pub mod Tests
use flappy.Base.{
  ℕ, zero, suc, ◌+◌, ◌≡◌, refl, Bool, true, false, not, ◌&&◌, ◌||◌, List, [], ◌∷◌, ◌++◌, Option,
  none, some, ◌==◌, if◌then◌else◌, ◌>>=◌, length, get_elem?, Bytes, codes, str_eq,
}
use flappy.Pkgver.{pkg_name}
use flappy.Pattern.{is_some}
use flappy.Arrays.{name_size, by_string, match_string_in_array, remove_string_from_array}
use flappy.PkgPath.{enoent, repository_is_remote}
use flappy.Dicts.{Dict, Pkgd, PkgDict}
use flappy.Find.{Found, found, missing, find_pkg_in_dict, find_virtualpkg_in_dict}
use flappy.Find.Conf.{find_virtualpkg_in_conf}
use flappy.Dewey.Compare.{Sign, less, equal, greater, cmpver}

pub record Repo : Type 0 where
  pub uri : Bytes
  pub idx : Option PkgDict

-- The parts of the handle and the queue `rpool_queue`.
pub record Pool : Type 0 where
  pub repositories : List Bytes
  pub queue : List Repo

-- ENOTSUP
abbrev pub enotsup : ℕ
enotsup = 95

-- `flappy_rpool_get_repo`
pub rpool_get_repo : List Repo → Bytes → Option Repo
rpool_get_repo [] url = none
rpool_get_repo (repo ∷ queue) url =
    let next = rpool_get_repo queue url in if str_eq url repo.uri then some repo else next

-- The URI that is stored: a relative path of a local repository is made absolute.
abbrev pub stored_uri : (Bytes → Option Bytes) → Bytes → Bytes
stored_uri realpath [] = []
stored_uri realpath (c ∷ repo) =
    if repository_is_remote (c ∷ repo) || c == b'/'
    then c ∷ repo
    else elim (realpath (c ∷ repo)) [ some url ↦ url | none ↦ c ∷ repo ]

-- `flappy_repo_store`: the array after the call, and what it returns. `realpath` is the answer of
-- realpath(3).
unfoldable pub repo_store :
    (Bytes → Bytes → ℕ → Bool)
    → (Bytes → Option Bytes)
    → List Bytes
    → Bytes
    → Option (List Bytes × Bool)
repo_store fnmatch realpath repositories repo =
    let stored = stored_uri realpath repo in
    do
      b ← match_string_in_array fnmatch repositories stored by_string
      some (if b then (repositories, false) else (repositories ++ stored ∷ [], true))

-- A callback of `flappy_rpool_foreach`: what it returns, `*done`, and its argument afterwards.
abbrev pub Callback : Type 0 → Type 0
Callback S = Repo → S → Option (ℕ × Bool × S)

module _ (open_repo : Bytes → Option Repo) where
  -- The repository of an URI, from the queue or opened and put at its tail.
  pub registered : Pool → Bytes → Option (Repo × Pool)
  registered pool repouri = elim (rpool_get_repo pool.queue repouri) [
    | some repo ↦ some (repo, pool)
    | none ↦ do
      repo ← open_repo repouri
      some (repo, record pool { queue = pool.queue ++ repo ∷ [] })
  ]

  -- The loop of `flappy_rpool_foreach` from the index `n`, with fuel.
  pub foreach_loop : {S : Type 0} → Callback S → ℕ → Pool → ℕ → Bool → S → Option (Pool × ℕ × S)
  foreach_loop fn zero pool n foundrepo arg = none
  foreach_loop fn (suc fuel) pool n foundrepo arg = elim (get_elem? pool.repositories n) [
    | none ↦ some (pool, if foundrepo then 0 else enotsup, arg)
    | some repouri ↦ elim (registered pool repouri) [
      | none ↦ do
        (left, removed) ← remove_string_from_array pool.repositories repouri
        foreach_loop fn fuel (record pool { repositories = left }) n foundrepo arg
      | some (repo, pool') ↦ do
        (rv, done, arg') ← fn repo arg
        let next = foreach_loop fn fuel pool' (suc n) true arg'
        if not (rv == 0) || done then some (pool', rv, arg') else next
    ]
  ]

  pub rpool_foreach : {S : Type 0} → Callback S → Pool → S → Option (Pool × ℕ × S)
  rpool_foreach fn pool arg = foreach_loop fn (suc (length pool.repositories)) pool 0 false arg

-- The part of `flappy_repo_get_pkg` and `flappy_repo_get_virtualpkg` that completes the dictionary.
pub complete : Repo → Pkgd → Found
complete repo pkgd =
    if is_some pkgd.repository && is_some pkgd.pkgname then found pkgd else elim pkgd.pkgver [
      | none ↦ missing none
      | some pkgver ↦ elim (pkg_name name_size pkgver) [
        | none ↦ missing none
        | some pkgname ↦ found (record pkgd { repository = some repo.uri; pkgname = some pkgname })
      ]
    ]

-- What the handle holds of the configured virtual packages, and the array that is never written.
pub record Conf : Type 0 where
  pub vpkgd : Dict (Dict Bytes)
  pub vpkgd_conf : Option (Dict (Dict Bytes))
  pub unwritten : Bytes

-- `struct rpool_fpkg` without the pattern.
pub record Fpkg : Type 0 where
  pub pkgd : Option Pkgd
  pub bestpkgver : Option Bytes

pub data Kind : Type 0 where
  best_pkg virtual_pkg real_pkg : Kind

abbrev pub best_of : Pkgd → Fpkg
best_of pkgd = record { pkgd = some pkgd; bestpkgver = pkgd.pkgver }

module _ (fnmatch : Bytes → Bytes → ℕ → Bool) (conf : Conf) where
  pub repo_get_pkg : Repo → Bytes → Option Found
  repo_get_pkg repo pkg = elim repo.idx [
    | none ↦ some (missing none)
    | some idx ↦ do
      c ← find_virtualpkg_in_conf fnmatch conf.unwritten conf.vpkgd_conf idx pkg
      let real = find_pkg_in_dict fnmatch idx pkg >>= λ f.
          some (elim f [ found pkgd ↦ complete repo pkgd | missing errno ↦ missing errno ])
      elim c [ found pkgd ↦ some (complete repo pkgd) | missing errno ↦ real ]
  ]

  pub repo_get_virtualpkg : Repo → Bytes → Option Found
  repo_get_virtualpkg repo pkg = elim repo.idx [
    | none ↦ some (missing none)
    | some idx ↦ do
      f ← find_virtualpkg_in_dict fnmatch conf.vpkgd idx pkg
      some (elim f [ found pkgd ↦ complete repo pkgd | missing errno ↦ missing errno ])
  ]

  pub find_virtualpkg_cb : Bytes → Callback Fpkg
  find_virtualpkg_cb pattern repo rpf = do
    f ← repo_get_virtualpkg repo pattern
    some (elim f [
      | found pkgd ↦ (0, true, record rpf { pkgd = some pkgd })
      | missing errno ↦ (0, false, record rpf { pkgd = none })
    ])

  pub find_pkg_cb : Bytes → Callback Fpkg
  find_pkg_cb pattern repo rpf = do
    f ← repo_get_pkg repo pattern
    some (elim f [
      | found pkgd ↦ (0, true, record rpf { pkgd = some pkgd })
      | missing errno ↦ (0, false, record rpf { pkgd = none })
    ])

  -- `errno` is what stands in errno where the search of the repository finds nothing and sets none.
  pub find_best_pkg_cb : (Repo → ℕ) → Bytes → Callback Fpkg
  find_best_pkg_cb errno pattern repo rpf = do
    f ← repo_get_pkg repo pattern
    elim f [
      | missing set ↦
          let e : ℕ = elim set [ some e ↦ e | none ↦ errno repo ] in
          some (if not (e == 0) && not (e == enoent) then e else 0, false, rpf)
      | found pkgd ↦ elim rpf.bestpkgver [
        | none ↦ some (0, false, best_of pkgd)
        | some bestpkgver ↦ do
          repopkgver ← pkgd.pkgver
          sign ← cmpver repopkgver bestpkgver
          some (0, false, elim sign [ greater ↦ best_of pkgd | _ ↦ rpf ])
      ]
    ]

  abbrev callback : (Repo → ℕ) → Bytes → Kind → Callback Fpkg
  callback errno pkg best_pkg = find_best_pkg_cb errno pkg
  callback errno pkg virtual_pkg = find_virtualpkg_cb pkg
  callback errno pkg real_pkg = find_pkg_cb pkg

  -- The pool after the call, and the package.
  pub repo_find_pkg :
      (Bytes → Option Repo) → (Repo → ℕ) → Pool → Bytes → Kind → Option (Pool × Found)
  repo_find_pkg open_repo errno pool pkg type = do
    (pool', rv, rpf) ←
        rpool_foreach open_repo (callback errno pkg type) pool
          (record { pkgd = none; bestpkgver = none })
    some (
      pool',
      if not (rv == 0)
          then missing (some rv)
          else elim rpf.pkgd [ none ↦ missing (some enoent) | some pkgd ↦ found pkgd ],
    )

  -- `flappy_rpool_get_pkg`; `bestmatch` is FLAPPY_FLAG_BESTMATCH.
  pub rpool_get_pkg :
      (Bytes → Option Repo) → (Repo → ℕ) → Bool → Pool → Bytes → Option (Pool × Found)
  rpool_get_pkg open_repo errno bestmatch pool pkg =
      repo_find_pkg open_repo errno pool pkg (if bestmatch then best_pkg else real_pkg)

  pub rpool_get_virtualpkg :
      (Bytes → Option Repo) → (Repo → ℕ) → Pool → Bytes → Option (Pool × Found)
  rpool_get_virtualpkg open_repo errno pool pkg = repo_find_pkg open_repo errno pool pkg virtual_pkg
