-- ===== src/Goals.antt =====
-- Goals of a transaction: `trans_find_pkg`, `flappy_transaction_pkg_type_set` and the updates and
-- installations of lib/transaction_ops.c, with `flappy_pkg_reverts` of lib/util.c, on a database that
-- is open. `none` is an abort, a key that is missing, or a write outside an array in `mkversion`.
pub mod Choose
pub mod Origin
pub mod Queue
pub mod Refused
pub mod Update
pub mod Remove
pub mod Tests
use flappy.Base.{
  ℕ, ◌≡◌, refl, Bool, true, false, not, ◌&&◌, ◌||◌, List, [], ◌∷◌, Option, none, some, ◌==◌,
  if◌then◌else◌, ◌>>=◌, Bytes, str_eq,
}
use flappy.Pkgver.{pkg_name, pkg_version}
use flappy.Dewey.Compare.{Sign, less, equal, greater, cmpver}
use flappy.Arrays.{name_size}
use flappy.PkgPath.{enoent, einval}
use flappy.Dicts.{Dict, Pkgd, PkgDict}
use flappy.Find.{Found, found, missing, pkgdb_get_pkg, pkgdb_get_virtualpkg, find_pkg_in_array}
use flappy.State.{set_new_state, pkg_state_installed}
use flappy.Conflicts.{trans_install, trans_update, trans_remove, trans_hold}
use flappy.TransStore.{queued_copy, transaction_store}

-- EEXIST
abbrev pub eexist : ℕ
eexist = 17

-- FLAPPY_TRANS_REINSTALL, _CONFIGURE and _DOWNLOAD.
abbrev pub trans_reinstall : ℕ
trans_reinstall = 2

abbrev pub trans_configure : ℕ
trans_configure = 4

abbrev pub trans_download : ℕ
trans_download = 7

-- FLAPPY_PKG_STATE_NOT_INSTALLED
abbrev pub state_not_installed : ℕ
state_not_installed = 5

-- The repositories, which are open: the searches of the pool, whether a repository is there by its
-- URL, the search of that repository, and `put`, by which a dictionary that was found is what the
-- second argument says from then on.
pub record RepoPool (R : Type 0) : Type 0 where
  pub get_pkg : R → Bytes → Option Found
  pub get_virtualpkg : R → Bytes → Option Found
  pub has_repo : R → Bytes → Bool
  pub get_from : R → Bytes → Bytes → Option Found
  pub put : R → Pkgd → Pkgd → R

-- The types that can be set.
abbrev pub is_type : ℕ → Bool
is_type ttype =
    ttype == trans_install
    || ttype == trans_update
    || ttype == trans_configure
    || ttype == trans_remove
    || ttype == trans_reinstall
    || ttype == trans_hold
    || ttype == trans_download

-- `flappy_transaction_pkg_type_set`: the dictionary, and what is returned.
unfoldable pub transaction_pkg_type_set : Pkgd → ℕ → Pkgd × Bool
transaction_pkg_type_set pkg_repod ttype =
    if is_type ttype
    then (record pkg_repod { transaction = some ttype }, true)
    else (pkg_repod, false)

-- The loop of `flappy_pkg_reverts`, and that function.
unfoldable pub has_revert : List Bytes → Bytes → Bool
has_revert [] version = false
has_revert (revertver ∷ reverts) version = str_eq version revertver || has_revert reverts version

unfoldable pub pkg_reverts : Pkgd → Bytes → Option Bool
pkg_reverts pkg pkgver = elim pkg.reverts [
  | none ↦ some false
  | some [] ↦ some false
  | some (r ∷ reverts) ↦ pkg_version pkgver >>= λ version. some (has_revert (r ∷ reverts) version)
]

-- The repositories, and the packages of the transaction, if there is one.
abbrev pub World : Type 0 → Type 0
World R = R × Option (List Pkgd)

abbrev pub packages : Option (List Pkgd) → List Pkgd
packages transd = elim transd [ none ↦ [] | some pkgs ↦ pkgs ]

-- The codes ENOENT, EEXIST and EINVAL.
pub data Refusal : Type 0 where
  not_found already_there invalid : Refusal

abbrev pub code_of : Refusal → ℕ
code_of not_found = enoent
code_of already_there = eexist
code_of invalid = einval

-- What the first parts of `trans_find_pkg` come to: a code that is returned, or the installed
-- package, the one of a repository, and the type.
pub data Choice : Type 0 where
  refused : Refusal → Choice
  chosen : Option Pkgd → Pkgd → ℕ → Choice

-- The keys that an installed package hands on.
unfoldable pub respect : Option Pkgd → Pkgd → Pkgd
respect none pkg_repod = pkg_repod
respect (some pkg_pkgdb) pkg_repod = record pkg_repod {
  automatic_install = elim pkg_pkgdb.automatic_install [
    | none ↦ pkg_repod.automatic_install
    | some b ↦ some b
  ];
  hold = pkg_pkgdb.hold || pkg_repod.hold;
  repolock = pkg_pkgdb.repolock || pkg_repod.repolock;
}

-- The type for a package in a state.
unfoldable pub goal_type : Bool → Pkgd → ℕ → ℕ → ℕ
goal_type force pkg_repod state ttype =
    if not force && pkg_repod.hold
    then trans_hold
    else if state == state_not_installed
    then trans_install
    else ttype

-- The comparison with the installed version.
unfoldable pub compare_installed : Option Pkgd → Pkgd → ℕ → Option Choice
compare_installed none pkg_repod ttype = some (chosen none pkg_repod ttype)
compare_installed (some pkg_pkgdb) pkg_repod ttype = pkg_repod.pkgver >>= λ repopkgver.
    pkg_pkgdb.pkgver >>= λ instpkgver. cmpver repopkgver instpkgver >>= λ s.
    if ttype == trans_update
    then elim s [
      | greater ↦ some (chosen (some pkg_pkgdb) pkg_repod ttype)
      | _ ↦ pkg_reverts pkg_repod instpkgver >>= λ r.
          some (if r then chosen (some pkg_pkgdb) pkg_repod ttype else refused already_there)
    ]
    else some (elim s [
      | greater ↦ chosen (some pkg_pkgdb) pkg_repod trans_update
      | _ ↦ chosen (some pkg_pkgdb) pkg_repod ttype
    ])

module _ (fnmatch : Bytes → Bytes → ℕ → Bool) (vpkgd : Dict (Dict Bytes)) {R : Type 0}
    (repos : RepoPool R) (pkgdb : PkgDict) where
  -- The package of a repository, or ENOENT.
  abbrev pub chosen_or : Option Pkgd → ℕ → Option Found → Option Choice
  chosen_or pkg_pkgdb ttype o = o >>= λ f. some (elim f [
    | found pkg_repod ↦ chosen pkg_pkgdb pkg_repod ttype
    | missing errno ↦ refused not_found
  ])

  -- The search of the repositories.
  unfoldable pub choose_repo : R → Option Pkgd → Bytes → Bool → Option Choice
  choose_repo pool none pkg force = repos.get_pkg pool pkg >>= λ f. elim f [
    | found pkg_repod ↦ some (chosen none pkg_repod trans_install)
    | missing errno ↦ chosen_or none trans_install (repos.get_virtualpkg pool pkg)
  ]
  choose_repo pool (some pkg_pkgdb) pkg force =
      let ttype : ℕ = if force then trans_reinstall else trans_update in
      if not pkg_pkgdb.repolock
      then chosen_or (some pkg_pkgdb) ttype (repos.get_pkg pool pkg)
      else (pkg_pkgdb.repository >>= λ repoloc.
          if repos.has_repo pool repoloc
          then chosen_or (some pkg_pkgdb) ttype (repos.get_from pool repoloc pkg)
          else some (refused not_found))

  -- The search with an installed virtual package, if no real one is installed.
  unfoldable pub choose_virtual : R → Option Pkgd → Bytes → Bool → Option Choice
  choose_virtual pool none pkg force = choose_repo pool none pkg force
  choose_virtual pool (some vpkg_pkgdb) pkg force = repos.get_pkg pool pkg >>= λ f. elim f [
    | found pkg_repod ↦ choose_repo pool none pkg force
    | missing errno ↦ elim vpkg_pkgdb.pkgname [
      | none ↦ some (refused invalid)
      | some pkgname ↦ choose_repo pool (some vpkg_pkgdb) pkgname force
    ]
  ]

  -- The first part of `trans_find_pkg`, up to the search of the repositories; `download_only` is
  -- FLAPPY_FLAG_DOWNLOAD_ONLY.
  unfoldable pub choose : Bool → R → Bytes → Bool → Option Choice
  choose download_only pool pkg force =
      let buf : Bytes = elim (pkg_name name_size pkg) [ some buf ↦ buf | none ↦ pkg ] in
      pkgdb_get_pkg fnmatch pkgdb buf >>= λ f. elim f [
        | found pkg_pkgdb ↦
            choose_repo pool (if download_only then none else some pkg_pkgdb) pkg force
        | missing errno ↦ pkgdb_get_virtualpkg fnmatch vpkgd pkgdb buf >>= λ g. elim g [
          | found vpkg_pkgdb ↦ choose_virtual pool (some vpkg_pkgdb) pkg force
          | missing errno' ↦ choose_virtual pool none pkg force
        ]
      ]

  -- The dictionary of the repository after it was stored: the array `replaces` is shared with the
  -- copy in the queue, where there is a copy.
  unfoldable pub share_replaces : List Pkgd → Pkgd → Option Pkgd
  share_replaces pkgs pkgrd = elim pkgrd.replaces [
    | none ↦ some pkgrd
    | some replaces ↦ pkgrd.pkgname >>= λ pkgname. pkgrd.pkgver >>= λ pkgver.
        find_pkg_in_array fnmatch pkgs pkgname 0 >>= λ f.
        let shared = record pkgrd { replaces = (queued_copy pkgrd pkgname false).replaces } in
        elim f [
          | missing errno ↦ some shared
          | found d ↦ d.pkgver >>= λ curpkgver.
              cmpver pkgver curpkgver >>= λ s. some (elim s [ greater ↦ shared | _ ↦ pkgrd ])
        ]
  ]

  -- The last part: the type is set, and the package is stored. `install_auto` is
  -- FLAPPY_FLAG_INSTALL_AUTO.
  unfoldable pub store_goal : Bool → R → List Pkgd → Pkgd → ℕ → Option (ℕ × World R)
  store_goal install_auto pool pkgs pkg_repod ttype =
      let (marked, set) = transaction_pkg_type_set pkg_repod ttype in
      let autoinst : Bool = if ttype == trans_install then install_auto else false in
      if not set
      then some (einval, (pool, some pkgs))
      else (transaction_store fnmatch pkgs marked autoinst >>= λ r.
          (if r.1 then share_replaces pkgs marked else some marked) >>= λ kept.
          some (if r.1 then 0 else einval, (repos.put pool pkg_repod kept, some r.0)))

  -- The part with the state of the package.
  unfoldable pub queue_state : Bool → Bool → R → List Pkgd → Pkgd → ℕ → ℕ → Option (ℕ × World R)
  queue_state install_auto force pool pkgs pkg_repod state ttype =
      let (stated, rv) = set_new_state pkg_repod state in
      if rv == 0
      then store_goal install_auto (repos.put pool pkg_repod stated) pkgs stated
          (goal_type force stated state ttype)
      else some (rv, (pool, some pkgs))

  unfoldable pub queue_named : Bool → Bool → R → List Pkgd → Pkgd → ℕ → Option (ℕ × World R)
  queue_named install_auto force pool pkgs pkg_repod ttype = elim pkg_repod.pkgname [
    | none ↦ some (einval, (pool, some pkgs))
    | some pkgname ↦ pkg_state_installed fnmatch pkgdb pkgname >>= λ s.
        if s.0 == 0
        then (s.1 >>= λ state. queue_state install_auto force pool pkgs pkg_repod state ttype)
        else if s.0 == enoent
        then queue_state install_auto force pool pkgs pkg_repod state_not_installed ttype
        else some (s.0, (pool, some pkgs))
  ]

  -- The part from the preparation of the transaction on.
  unfoldable pub queue_goal : Bool → Bool → R → List Pkgd → Pkgd → ℕ → Option (ℕ × World R)
  queue_goal install_auto force pool pkgs pkg_repod ttype =
      if not (ttype == trans_update)
      then queue_named install_auto force pool pkgs pkg_repod ttype
      else (pkg_repod.pkgver >>= λ repopkgver. find_pkg_in_array fnmatch pkgs repopkgver 0 >>= λ f.
          elim f [
            | found queued ↦ some (eexist, (pool, some pkgs))
            | missing errno ↦ queue_named install_auto force pool pkgs pkg_repod ttype
          ])

  -- `trans_find_pkg`: what is returned, and the state afterwards.
  unfoldable pub trans_find_pkg : Bool → Bool → World R → Bytes → Bool → Option (ℕ × World R)
  trans_find_pkg download_only install_auto (pool, transd) pkg force =
      choose download_only pool pkg force >>= λ c. elim c [
        | refused rv ↦ some (code_of rv, (pool, transd))
        | chosen pkg_pkgdb pkg_repod ttype ↦ compare_installed pkg_pkgdb pkg_repod ttype >>= λ d.
            elim d [
              | refused rv ↦ some (code_of rv, (pool, transd))
              | chosen pkg_pkgdb' pkg_repod' ttype' ↦
                  let respected = respect pkg_pkgdb' pkg_repod' in
                  queue_goal install_auto force (repos.put pool pkg_repod' respected)
                    (packages transd) respected ttype'
            ]
      ]
