-- ===== src/Orphans.antt =====
-- Packages that nothing needs any more: `flappy_find_pkg_orphans` of lib/package_orphans.c without a
-- list of packages, on a database that is open. `none` is an abort, or a write outside an array in
-- `mkversion`, or no fuel left.
pub mod Queue
pub mod Built
pub mod Rounds
pub mod Automatic
pub mod Recursive
pub mod Tests
use flappy.Base.{
  ℕ, zero, suc, ◌+◌, ◌≡◌, refl, Bool, true, false, not, List, [], ◌∷◌, ◌++◌, Option, none, some,
  ◌==◌, if◌then◌else◌, ◌>>=◌, Bytes, length,
}
use flappy.Dicts.{Dict, Pkgd, PkgDict}
use flappy.Find.{found, missing, find_pkg_in_array}
use flappy.Revdeps.{pkgdb_get_pkg_revdeps}

-- `automatic-install`, which is false where it is missing.
abbrev pub is_automatic : Pkgd → Bool
is_automatic pkgd = elim pkgd.automatic_install [ none ↦ false | some automatic ↦ automatic ]

-- An array that may be missing.
abbrev pub elements : Option (List Bytes) → List Bytes
elements array = elim array [ none ↦ [] | some l ↦ l ]

-- `array`, `added` and `xhp->pkgdb_revdeps`.
abbrev pub Pass : Type 0
Pass = List Pkgd × Bool × Option (Dict (List Bytes))

module _ (fnmatch : Bytes → Bytes → ℕ → Bool) (vpkgd : Dict (Dict Bytes)) (pkgdb : PkgDict) where
  -- Whether `flappy_find_pkg_in_array` finds a package.
  unfoldable pub is_queued : List Pkgd → Bytes → Option Bool
  is_queued array pkgver = do
    f ← find_pkg_in_array fnmatch array pkgver 0
    some (elim f [ found pkgd ↦ true | missing errno ↦ false ])

  -- The number of reverse dependencies that are found in the array.
  unfoldable pub count_queued : List Pkgd → List Bytes → Option ℕ
  count_queued array [] = some 0
  count_queued array (revdepver ∷ revdeps) = do
    b ← is_queued array revdepver
    cnt ← count_queued array revdeps
    some (if b then suc cnt else cnt)

  -- The part of a round after the test of the array.
  unfoldable pub check_revdeps : Pkgd → Bytes → Pass → Option Pass
  check_revdeps pkgd pkgver (array, added, known) = do
    (r, known') ← pkgdb_get_pkg_revdeps fnmatch vpkgd known pkgdb pkgver
    let revdeps = elements r
    cnt ← count_queued array revdeps
    some (
        if length revdeps == 0
        then (array ++ pkgd ∷ [], true, known')
        else if cnt == length revdeps
        then (array ++ pkgd ∷ [], true, known')
        else (array, added, known'))

  -- One round of the loop over the database, and that loop.
  unfoldable pub orphan_round : Pkgd → Pass → Option Pass
  orphan_round pkgd pass = elim pkgd.pkgver [
    | none ↦ some pass
    | some pkgver ↦
        let next = is_queued pass.0 pkgver >>= λ b.
        if b then some pass else check_revdeps pkgd pkgver pass in
        if not (is_automatic pkgd) then some pass else next
  ]

  unfoldable pub orphan_pass : PkgDict → Pass → Option Pass
  orphan_pass [] pass = some pass
  orphan_pass ((key, pkgd) ∷ rest) pass = do pass' ← orphan_round pkgd pass; orphan_pass rest pass'

  -- The loop until no package is added, with fuel: the array and `xhp->pkgdb_revdeps`.
  unfoldable pub orphan_loop :
      ℕ → List Pkgd → Option (Dict (List Bytes)) → Option (List Pkgd × Option (Dict (List Bytes)))
  orphan_loop zero array known = none
  orphan_loop (suc fuel) array known = do
    (array', added, known') ← orphan_pass pkgdb (array, false, known)
    let next = orphan_loop fuel array' known'
    if added then next else some (array', known')

  unfoldable pub find_pkg_orphans :
      Option (Dict (List Bytes)) → Option (List Pkgd × Option (Dict (List Bytes)))
  find_pkg_orphans known = orphan_loop (suc (length pkgdb)) [] known
