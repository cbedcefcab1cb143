-- ===== src/Goals/Remove.antt =====
-- Removals: `flappy_transaction_remove_pkg` and `flappy_transaction_autoremove_pkgs` of
-- lib/transaction_ops.c, on a database that is open. `none` is an abort, a key that is missing, a
-- write outside an array in `mkversion`, or no fuel left.
pub mod Marked
pub mod Tests
use flappy.Base.{
  ℕ, ◌≡◌, refl, Bool, true, false, List, [], ◌∷◌, Option, none, some, if◌then◌else◌, ◌>>=◌, Bytes,
  str_eq,
}
use flappy.PkgPath.{enoent, einval}
use flappy.Dicts.{Dict, Pkgd, PkgDict}
use flappy.Find.{found, missing, pkgdb_get_pkg}
use flappy.Conflicts.{trans_remove}
use flappy.TransStore.{transaction_store}
use flappy.Deptree.{Item}
use flappy.Orphans.{find_pkg_orphans}
use flappy.Orphans.Recursive.{find_pkg_removal}
use flappy.Goals.{RepoPool, packages, transaction_pkg_type_set, share_replaces}

-- The database, the packages of the transaction, if there is one, `xhp->pkgdb_revdeps`, and `items`
-- of the full dependency trees.
pub record Removing : Type 0 where
  pub pkgdb : PkgDict
  pub transd : Option (List Pkgd)
  pub known : Option (Dict (List Bytes))
  pub items : Dict Item

-- The dictionary of the database with this pkgver is `marked` from then on.
unfoldable pub put_pkgdb : PkgDict → Bytes → Pkgd → PkgDict
put_pkgdb [] pkgver marked = []
put_pkgdb ((key, pkgd) ∷ pkgdb) pkgver marked =
    let rest = put_pkgdb pkgdb pkgver marked in
    elim pkgd.pkgver [
      | none ↦ (key, pkgd) ∷ rest
      | some v ↦ if str_eq v pkgver then (key, marked) ∷ rest else (key, pkgd) ∷ rest
    ]

module _ (fnmatch : Bytes → Bytes → ℕ → Bool) (vpkgd : Dict (Dict Bytes)) {R : Type 0}
    (repos : RepoPool R) where
  -- A package that is marked is stored: what the store returns.
  unfoldable pub remove_marked : Bytes → Pkgd → Removing → Option (Bool × Removing)
  remove_marked pkgver marked s =
      let pkgs = packages s.transd in
      transaction_store fnmatch pkgs marked false >>= λ r.
      (if r.1 then share_replaces fnmatch vpkgd repos s.pkgdb pkgs marked else some marked)
      >>= λ kept. some (r.1, record s { pkgdb = put_pkgdb s.pkgdb pkgver kept; transd = some r.0 })

  -- A package of the database is marked, and stored.
  unfoldable pub remove_one : Pkgd → Removing → Option (Bool × Removing)
  remove_one pkgd s = pkgd.pkgver >>= λ pkgver.
      remove_marked pkgver (transaction_pkg_type_set pkgd trans_remove).0 s

  -- The loop over the orphans.
  unfoldable pub remove_all : List Pkgd → Removing → Option (ℕ × Removing)
  remove_all [] s = some (0, s)
  remove_all (obj ∷ orphans) s = remove_one obj s >>= λ r. elim r.0 [
    | true ↦ remove_all orphans r.1
    | false ↦ some (einval, r.1)
  ]

  unfoldable pub transaction_remove_pkg : Removing → Bytes → Bool → Option (ℕ × Removing)
  transaction_remove_pkg s pkgname recursive = pkgdb_get_pkg fnmatch s.pkgdb pkgname >>= λ f.
      let s' = record s { transd = some (packages s.transd) } in
      elim f [
        | missing errno ↦ some (enoent, s)
        | found pkgd ↦
            if recursive
            then (find_pkg_removal fnmatch vpkgd s.pkgdb s.known s.items (pkgname ∷ []) >>= λ o.
                remove_all o.0.0 (record s' { known = o.0.1; items = o.1 }))
            else (remove_one pkgd s' >>= λ r. some (if r.0 then 0 else einval, r.1))
      ]

  unfoldable pub transaction_autoremove_pkgs : Removing → Option (ℕ × Removing)
  transaction_autoremove_pkgs s = find_pkg_orphans fnmatch vpkgd s.pkgdb s.known >>= λ o. elim o.0 [
    | [] ↦ some (0, record s { known = o.1 })
    | obj ∷ orphans ↦
        remove_all (obj ∷ orphans) (record s { transd = some (packages s.transd); known = o.1 })
  ]
