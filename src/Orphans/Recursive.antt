-- ===== src/Orphans/Recursive.antt =====
-- What is removed with a list of packages: `flappy_find_pkg_orphans` of lib/package_orphans.c with
-- that list, on a database that is open. `none` is an abort, a pkgver that is missing, a write
-- outside an array in `mkversion`, or no fuel left.
pub mod Rounds
pub mod Closed
pub mod Tests
use flappy.Base.{
  ℕ, zero, suc, ◌+◌, ◌≡◌, refl, Bool, not, List, [], ◌∷◌, ◌++◌, Option, none, some, ◌==◌,
  if◌then◌else◌, ◌>>=◌, Bytes, length,
}
use flappy.Dicts.{Dict, Pkgd, PkgDict}
use flappy.Find.{found, missing, pkgdb_get_pkg}
use flappy.Revdeps.{pkgdb_get_pkg_revdeps}
use flappy.Deptree.{Item, pkgdb_get_pkg_fulldeptree}
use flappy.Orphans.{is_automatic, elements, is_queued, count_queued}

-- `flappy_array_get`
unfoldable pub array_get : List Pkgd → ℕ → Option Pkgd
array_get [] i = none
array_get (pkgd ∷ array) zero = some pkgd
array_get (pkgd ∷ array) (suc i) = array_get array i

-- `array` and `xhp->pkgdb_revdeps`.
abbrev pub Removal : Type 0
Removal = List Pkgd × Option (Dict (List Bytes))

module _ (fnmatch : Bytes → Bytes → ℕ → Bool) (vpkgd : Dict (Dict Bytes)) (pkgdb : PkgDict) where
  -- The loop over the list of packages.
  unfoldable pub user_loop : List Bytes → List Pkgd → Option (List Pkgd)
  user_loop [] array = some array
  user_loop (pkgver ∷ orphans_user) array = pkgdb_get_pkg fnmatch pkgdb pkgver >>= λ f.
      user_loop orphans_user (elim f [ found pkgd ↦ array ++ pkgd ∷ [] | missing errno ↦ array ])

  -- The part of a round with an automatic package.
  unfoldable pub automatic_round : Pkgd → Bytes → Removal → Option Removal
  automatic_round deppkgd deppkgver (array, known) =
      pkgdb_get_pkg_revdeps fnmatch vpkgd known pkgdb deppkgver >>= λ r.
      count_queued fnmatch vpkgd pkgdb array (elements r.0) >>= λ cnt.
      some (if cnt == length (elements r.0) then (array ++ deppkgd ∷ [], r.1) else (array, r.1))

  -- One round of the loop over the full dependency tree of a package, and that loop.
  unfoldable pub rdep_round : Bytes → Removal → Option Removal
  rdep_round deppkgver (array, known) = is_queued fnmatch vpkgd pkgdb array deppkgver >>= λ b.
      if b
      then some (array, known)
      else (pkgdb_get_pkg fnmatch pkgdb deppkgver >>= λ f. elim f [
        | missing errno ↦ some (array, known)
        | found deppkgd ↦
            if not (is_automatic deppkgd)
            then some (array, known)
            else automatic_round deppkgd deppkgver (array, known)
      ])

  unfoldable pub rdeps_loop : List Bytes → Removal → Option Removal
  rdeps_loop [] removal = some removal
  rdeps_loop (deppkgver ∷ rdeps) removal =
      rdep_round deppkgver removal >>= λ removal'. rdeps_loop rdeps removal'

  -- The loop over the array, which grows, from the index `i` on; with `items` of the full
  -- dependency trees.
  unfoldable pub removal_loop : ℕ → ℕ → Removal → Dict Item → Option (Removal × Dict Item)
  removal_loop zero i removal items = none
  removal_loop (suc fuel) i removal items = elim (array_get removal.0 i) [
    | none ↦ some (removal, items)
    | some pkgd ↦ pkgd.pkgver >>= λ pkgver.
        pkgdb_get_pkg_fulldeptree fnmatch vpkgd pkgdb items pkgver >>= λ t.
        rdeps_loop (elements t.0) removal >>= λ removal'. removal_loop fuel (suc i) removal' t.1
  ]

  -- The fuel is one more than there are packages in the list and in the database.
  unfoldable pub find_pkg_removal :
      Option (Dict (List Bytes)) → Dict Item → List Bytes → Option (Removal × Dict Item)
  find_pkg_removal known items orphans_user = user_loop orphans_user [] >>= λ array.
      removal_loop (suc (length orphans_user + length pkgdb)) 0 (array, known) items
