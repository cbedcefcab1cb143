-- ===== src/Conflicts.antt =====
-- Conflicts of a transaction: lib/transaction_check_conflicts.c, on a database that is open. The
-- packages of the database are visited by threads; the order in which they take them is an
-- argument. `none` is an abort, or a write outside an array in `mkversion`.
pub mod Quiet
pub mod Verdicts
pub mod Clear
pub mod Tests
use flappy.Base.{
  ℕ, ◌≡◌, refl, Bool, true, false, not, ◌||◌, List, [], ◌∷◌, ◌++◌, Option, none, some, ◌==◌,
  if◌then◌else◌, ◌>>=◌, Bytes, codes, str_eq,
}
use flappy.Dicts.{Dict, Pkgd, PkgDict}
use flappy.Find.{
  Found, found, missing, transaction_pkg_type, pkgdb_get_pkg, pkgdb_get_virtualpkg,
  find_pkg_in_array, find_virtualpkg_in_array,
}

-- FLAPPY_TRANS_INSTALL, _UPDATE, _REMOVE and _HOLD.
abbrev pub trans_install : ℕ
trans_install = 1

abbrev pub trans_update : ℕ
trans_update = 3

abbrev pub trans_remove : ℕ
trans_remove = 5

abbrev pub trans_hold : ℕ
trans_hold = 6

abbrev pub installed_message : Bytes → Bytes → Bytes → Bytes
installed_message repopkgver pkgver cfpkg =
    codes "CONFLICT: "
    ++ repopkgver
    ++ codes " with installed pkg "
    ++ pkgver
    ++ codes " (matched by "
    ++ cfpkg
    ++ codes ")"

abbrev pub queued_message : Bytes → Bytes → Bytes → Bytes
queued_message repopkgver pkgver cfpkg =
    codes "CONFLICT: "
    ++ repopkgver
    ++ codes " with "
    ++ pkgver
    ++ codes " in transaction (matched by "
    ++ cfpkg
    ++ codes ")"

-- What a round of a loop over conflicts comes to: nothing, a message, or the end of the loop.
pub data Verdict : Type 0 where
  passes : Verdict
  reports : Bytes → Verdict
  ends : Verdict

-- The second search, if the first finds nothing.
abbrev pub either : Option Found → Option Found → Option Found
either a b = a >>= λ f. elim f [ found pkgd ↦ some (found pkgd) | missing errno ↦ b ]

-- To be removed, or on hold.
abbrev pub is_left : Pkgd → Bool
is_left pkgd = transaction_pkg_type pkgd == trans_remove || transaction_pkg_type pkgd == trans_hold

-- An installed package with one of these in the transaction is no conflict.
abbrev pub is_changed : Found → Bool
is_changed (missing errno) = false
is_changed (found tpkgd) =
    transaction_pkg_type tpkgd == trans_install
    || transaction_pkg_type tpkgd == trans_update
    || is_left tpkgd

-- A loop over conflicts, with the messages so far.
unfoldable pub conflicts_loop :
    (Bytes → Option Verdict) → List Bytes → List Bytes → Option (List Bytes)
conflicts_loop judge [] cflicts = some cflicts
conflicts_loop judge (cfpkg ∷ rest) cflicts = do
  v ← judge cfpkg
  let next = conflicts_loop judge rest cflicts
  elim v [
    | passes ↦ next
    | reports m ↦ conflicts_loop judge rest (cflicts ++ m ∷ [])
    | ends ↦ some cflicts
  ]

-- A conflict with a package in the transaction; `bare` is what a package without pkgver comes to.
unfoldable pub judge_queued : Option Verdict → Bytes → Bytes → Bytes → Pkgd → Option Verdict
judge_queued bare repopkgver repopkgname cfpkg pkgd =
    if is_left pkgd
    then some passes
    else (pkgd.pkgname >>= λ pkgname.
        if str_eq pkgname repopkgname then some passes else elim pkgd.pkgver [
          | none ↦ bare
          | some pkgver ↦ some (reports (queued_message repopkgver pkgver cfpkg))
        ])

abbrev pub conflicts_of : Pkgd → List Bytes
conflicts_of pkgd = elim pkgd.conflicts [ none ↦ [] | some l ↦ l ]

-- The loops over the transaction and over the packages of the database.
unfoldable pub each_pkg :
    (Pkgd → List Bytes → Option (List Bytes)) → List Pkgd → List Bytes → Option (List Bytes)
each_pkg fn [] cflicts = some cflicts
each_pkg fn (pkgd ∷ pkgs) cflicts = fn pkgd cflicts >>= λ cflicts'. each_pkg fn pkgs cflicts'

module _ (fnmatch : Bytes → Bytes → ℕ → Bool) (vpkgd : Dict (Dict Bytes)) where
  -- The search in the transaction.
  abbrev pub find_queued : List Pkgd → Bytes → Option Found
  find_queued array cfpkg =
      either (find_pkg_in_array fnmatch array cfpkg 0)
        (find_virtualpkg_in_array fnmatch vpkgd array cfpkg 0)

  abbrev pub find_installed : PkgDict → Bytes → Option Found
  find_installed pkgdb cfpkg =
      either (pkgdb_get_pkg fnmatch pkgdb cfpkg) (pkgdb_get_virtualpkg fnmatch vpkgd pkgdb cfpkg)

  -- A conflict with an installed package.
  unfoldable pub judge_installed : List Pkgd → Bytes → Bytes → Bytes → Pkgd → Option Verdict
  judge_installed array repopkgver repopkgname cfpkg pkgd =
      if pkgd.hold
      then some passes
      else (pkgd.pkgname >>= λ pkgname.
          if str_eq pkgname repopkgname
          then some passes
          else (pkgd.pkgver >>= λ pkgver. find_pkg_in_array fnmatch array pkgname 0 >>= λ f. some (
              if is_changed f
              then passes
              else reports (installed_message repopkgver pkgver cfpkg))))

  -- One round of `pkg_conflicts_trans`, and that function.
  unfoldable pub judge_trans : PkgDict → List Pkgd → Bytes → Bytes → Bytes → Option Verdict
  judge_trans pkgdb array repopkgver repopkgname cfpkg = find_installed pkgdb cfpkg >>= λ f.
      elim f [
        | found pkgd ↦ judge_installed array repopkgver repopkgname cfpkg pkgd
        | missing errno ↦ find_queued array cfpkg >>= λ g. elim g [
          | found pkgd ↦ judge_queued (some ends) repopkgver repopkgname cfpkg pkgd
          | missing errno ↦ some passes
        ]
      ]

  unfoldable pub pkg_conflicts_trans : PkgDict → List Pkgd → Pkgd → List Bytes → Option (List Bytes)
  pkg_conflicts_trans pkgdb array pkg_repod cflicts = elim (conflicts_of pkg_repod) [
    | [] ↦ some cflicts
    | cf ∷ cfs ↦
        if is_left pkg_repod
        then some cflicts
        else (pkg_repod.pkgver >>= λ repopkgver. pkg_repod.pkgname >>= λ repopkgname.
            conflicts_loop (judge_trans pkgdb array repopkgver repopkgname) (cf ∷ cfs) cflicts)
  ]

  -- One round of `pkgdb_conflicts_cb`, and that function.
  unfoldable pub judge_pkgdb : List Pkgd → Bytes → Bytes → Bytes → Option Verdict
  judge_pkgdb pkgs repopkgver repopkgname cfpkg = find_queued pkgs cfpkg >>= λ g. elim g [
    | found pkgd ↦ judge_queued none repopkgver repopkgname cfpkg pkgd
    | missing errno ↦ some passes
  ]

  unfoldable pub pkgdb_conflicts_cb : List Pkgd → Pkgd → List Bytes → Option (List Bytes)
  pkgdb_conflicts_cb pkgs obj cflicts = elim (conflicts_of obj) [
    | [] ↦ some cflicts
    | cf ∷ cfs ↦ obj.pkgver >>= λ repopkgver. obj.pkgname >>= λ repopkgname.
        find_pkg_in_array fnmatch pkgs repopkgname 0 >>= λ f. elim f [
          | found pkgd ↦ some cflicts
          | missing errno ↦
              conflicts_loop (judge_pkgdb pkgs repopkgver repopkgname) (cf ∷ cfs) cflicts
        ]
  ]

  -- `flappy_transaction_check_conflicts`: the array `conflicts` of the transaction after the call.
  -- `visited` are the packages of the database in the order in which they are taken.
  unfoldable pub check_conflicts :
      PkgDict → List Pkgd → List Pkgd → List Bytes → Option (List Bytes)
  check_conflicts pkgdb visited pkgs cflicts = do
    cflicts' ← each_pkg (pkg_conflicts_trans pkgdb pkgs) pkgs cflicts
    each_pkg (pkgdb_conflicts_cb pkgs) visited cflicts'
