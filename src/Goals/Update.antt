-- ===== src/Goals/Update.antt =====
-- Updates and installations: `flappy_autoupdate`, `flappy_transaction_update_packages`,
-- `flappy_transaction_update_pkg` and `flappy_transaction_install_pkg` of lib/transaction_ops.c, on a
-- database that is open. `none` is an abort, a key that is missing, or a write outside an array in
-- `mkversion`.
pub mod Kept
use flappy.Base.{
  ℕ, ◌≡◌, refl, Bool, true, false, not, ◌&&◌, ◌||◌, List, [], ◌∷◌, Option, none, some, ◌==◌,
  if◌then◌else◌, ◌>>=◌, Bytes, codes, str_eq,
}
use flappy.Pkgver.{pkg_name}
use flappy.Arrays.{name_size}
use flappy.PkgPath.{enoent, einval}
use flappy.Dicts.{Dict, Pkgd, PkgDict}
use flappy.Find.{found, missing, pkgdb_get_pkg, pkgdb_get_virtualpkg}
use flappy.Revdeps.{pkgdb_get_pkg_revdeps}
use flappy.Orphans.{elements}
use flappy.Goals.{eexist, RepoPool, World, trans_find_pkg}

-- EBUSY and ENODEV
abbrev pub ebusy : ℕ
ebusy = 16

abbrev pub enodev : ℕ
enodev = 19

-- There is no update.
abbrev pub is_no_update : ℕ → Bool
is_no_update rv = rv == enoent || rv == eexist || rv == enodev

-- The repositories and the queue, `xhp->pkgdb_revdeps`, and FLAPPY_FLAG_FORCE_REMOVE_REVDEPS.
pub record Session (R : Type 0) : Type 0 where
  pub world : World R
  pub known : Option (Dict (List Bytes))
  pub force_remove : Bool

-- What `flappy_autoupdate` returns: 1, 0, -1 and EINVAL.
pub data Autoupdate : Type 0 where
  updates no_update fails invalid : Autoupdate

module _ (fnmatch : Bytes → Bytes → ℕ → Bool) (vpkgd : Dict (Dict Bytes)) {R : Type 0}
    (repos : RepoPool R) (pkgdb : PkgDict) (download_only install_auto : Bool) where
  -- The call of `trans_find_pkg`.
  unfoldable pub goal : Session R → Bytes → Bool → Option (ℕ × Session R)
  goal s pkg force =
      trans_find_pkg fnmatch vpkgd repos pkgdb download_only install_auto s.world pkg force >>= λ r.
      some (r.0, record s { world = r.1 })

  -- The loop over the reverse dependencies: the code that it ends with, if it ends early.
  unfoldable pub revdeps_goals : List Bytes → Session R → Option (Option ℕ × Session R)
  revdeps_goals [] s = some (none, s)
  revdeps_goals (curpkgver ∷ rdeps) s = pkg_name name_size curpkgver >>= λ curpkgn.
      goal s curpkgn false >>= λ r. elim (r.0 == 0 || is_no_update r.0) [
        | true ↦ revdeps_goals rdeps r.1
        | false ↦ some (some r.0, r.1)
      ]

  -- The reverse dependencies of a package.
  unfoldable pub revdeps_of : Session R → Bytes → Option (List Bytes × Session R)
  revdeps_of s pkg = pkgdb_get_pkg_revdeps fnmatch vpkgd s.known pkgdb pkg >>= λ r.
      some (elements r.0, record s { known = r.1 })

  -- The part of `flappy_autoupdate` with the package.
  unfoldable pub autoupdate_with : Session R → Pkgd → Option (Autoupdate × Session R)
  autoupdate_with s pkgd = elim pkgd.pkgver [
    | none ↦ some (invalid, s)
    | some pkgver ↦ elim pkgd.pkgname [
      | none ↦ some (invalid, s)
      | some pkgname ↦ goal s pkgname false >>= λ r.
          if r.0 == 0
          then (if download_only
              then some (no_update, r.1)
              else (revdeps_of r.1 (codes "flappy") >>= λ d. revdeps_goals d.0 d.1 >>= λ e.
                  some (elim e.0 [
                    | some rv ↦ (fails, e.1)
                    | none ↦ (updates, record e.1 { force_remove = true })
                  ])))
          else some (if is_no_update r.0 then no_update else fails, r.1)
    ]
  ]

  unfoldable pub autoupdate : Session R → Option (Autoupdate × Session R)
  autoupdate s = pkgdb_get_pkg fnmatch pkgdb (codes "flappy") >>= λ f. elim f [
    | found pkgd ↦ autoupdate_with s pkgd
    | missing errno ↦ pkgdb_get_virtualpkg fnmatch vpkgd pkgdb (codes "flappy") >>= λ g. elim g [
      | found pkgd ↦ autoupdate_with s pkgd
      | missing errno' ↦ some (no_update, s)
    ]
  ]

  -- The loop of `flappy_transaction_update_packages`: `newpkg_found`, and `rv`.
  unfoldable pub update_loop : PkgDict → Bool → ℕ → Session R → Option (Bool × ℕ × Session R)
  update_loop [] newpkg_found rv s = some (newpkg_found, rv, s)
  update_loop ((key, pkgd) ∷ rest) newpkg_found rv s = elim pkgd.pkgver [
    | none ↦ update_loop rest newpkg_found rv s
    | some pkgver ↦ elim (pkg_name name_size pkgver) [
      | none ↦ some (newpkg_found, einval, s)
      | some pkgname ↦ goal s pkgname false >>= λ r.
          update_loop rest (newpkg_found || r.0 == 0) (if is_no_update r.0 then 0 else r.0) r.1
    ]
  ]

  -- The rest of `flappy_transaction_update_packages`, with the `rv` of the beginning.
  unfoldable pub update_all : ℕ → Session R → Option (ℕ × Session R)
  update_all rv s = update_loop pkgdb false rv s >>= λ r. some (if r.0 then r.1 else eexist, r.2)

  unfoldable pub transaction_update_packages : Session R → Option (ℕ × Session R)
  transaction_update_packages s = autoupdate s >>= λ a. elim a.0 [
    | updates ↦ some (ebusy, a.1)
    | fails ↦ some (einval, a.1)
    | no_update ↦ update_all 0 a.1
    | invalid ↦ update_all einval a.1
  ]

  -- The reverse dependencies, and the package.
  unfoldable pub goals_with : Session R → Bytes → Bool → Option (ℕ × Session R)
  goals_with s pkg force = revdeps_of s pkg >>= λ d.
      revdeps_goals (if download_only then [] else d.0) d.1 >>= λ e. elim e.0 [
        | some rv ↦ some (rv, e.1)
        | none ↦ goal e.1 pkg force
      ]

  -- `flappy_transaction_update_pkg` and `flappy_transaction_install_pkg`.
  unfoldable pub transaction_install_pkg : Session R → Bytes → Bool → Option (ℕ × Session R)
  transaction_install_pkg s pkg force = autoupdate s >>= λ a. elim a.0 [
    | updates ↦ some (if str_eq pkg (codes "flappy") then 0 else ebusy, a.1)
    | fails ↦ some (einval, a.1)
    | no_update ↦ goals_with a.1 pkg force
    | invalid ↦ goals_with a.1 pkg force
  ]

  abbrev pub transaction_update_pkg : Session R → Bytes → Bool → Option (ℕ × Session R)
  transaction_update_pkg s pkg force = transaction_install_pkg s pkg force
