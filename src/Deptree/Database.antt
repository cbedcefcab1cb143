-- ===== src/Deptree/Database.antt =====
-- The full dependency tree of a package of the database.
use flappy.Base.{
  ℕ, suc, ◌≡◌, refl, ap, ap₂, ◌∙◌, subst, Bool, false, inl, inr, List, [], ◌∷◌, some, Bytes, length,
  Option-cases, All,
}
use flappy.Dicts.{Dict, Pkgd, PkgDict}
use flappy.Find.{Found, found, pkgdb_get_pkg}
use flappy.Find.First.{Found-cases}
use flappy.Find.Entry.{Entry, pkgdb_get_pkg-Entry, pkgdb_get_virtualpkg-Entry}
use flappy.Revdeps.{dep_name, run_depends_of}
use flappy.Deptree.{Tree, get_pkg_fulldeptree, find_pkgdb, pkgdb_get_pkg_fulldeptree}
use flappy.Deptree.Loop.{IsPkg}
use flappy.Deptree.Closed.{IsTree, get_pkg_fulldeptree-IsTree}

keys_of : PkgDict → List Bytes
keys_of [] = []
keys_of ((key, pkgd) ∷ d) = key ∷ keys_of d

length-keys_of : (d : PkgDict) → length (keys_of d) ≡ length d
unfolding keys_of
length-keys_of [] = refl
length-keys_of ((key, pkgd) ∷ d) = ap suc (length-keys_of d)

module _ (fnmatch : Bytes → Bytes → ℕ → Bool) (vpkgd : Dict (Dict Bytes)) (pkgdb : PkgDict) where
  -- An entry under its name, with a pkgver, whose dependencies have names and are searched for.
  pub record IsListed (e : Bytes × Pkgd) : Type 0 where
    pub name : e.1.pkgname ≡ some e.0
    pub pkgver : Bytes
    pub has_pkgver : e.1.pkgver ≡ some pkgver
    pub deps :
        All
          (λ dep.
            ((d : Bytes) × (dep_name dep ≡ some d))
            × ((f : Found) × (find_pkgdb fnmatch vpkgd pkgdb dep ≡ some f)))
          (run_depends_of e.1)

  pub find_pkgdb-Entry :
      (dep : Bytes) (q : Pkgd) → find_pkgdb fnmatch vpkgd pkgdb dep ≡ some (found q) → Entry pkgdb q
  unfolding find_pkgdb
  find_pkgdb-Entry dep q h = elim (Option-cases (pkgdb_get_pkg fnmatch pkgdb dep)) [
    | inl e ↦ absurd (cc (rw (find_pkgdb, e) at h))
    | inr (f, e) ↦ elim (Found-cases f) [
      | inl (x, k) ↦
          let it : some (found x) ≡ some (found q) = rw (find_pkgdb, e, k) at h in
          let same : x ≡ q = cc it in
          pkgdb_get_pkg-Entry fnmatch pkgdb dep q (e ∙ ap some (k ∙ ap found same))
      | inr (errno, k) ↦
          pkgdb_get_virtualpkg-Entry fnmatch vpkgd pkgdb dep q (rw (find_pkgdb, e, k) at h)
    ]
  ]

  Entry-IsPkg :
      (d : PkgDict) (q : Pkgd)
      → All IsListed d
      → Entry d q
      → IsPkg (find_pkgdb fnmatch vpkgd pkgdb) (keys_of d) q
  unfolding keys_of
  Entry-IsPkg [] q all at = absurd at
  Entry-IsPkg ((key, p) ∷ d) q all (inl is) =
      subst (IsPkg (find_pkgdb fnmatch vpkgd pkgdb) (key ∷ keys_of d)) is (record {
        name = key;
        has_name = all.0.name;
        known = inl refl;
        pkgver = all.0.pkgver;
        has_pkgver = all.0.has_pkgver;
        deps = all.0.deps;
      })
  Entry-IsPkg ((key, p) ∷ d) q all (inr at) =
      let k = Entry-IsPkg d q all.1 at in
      record {
        name = k.name;
        has_name = k.has_name;
        known = inr k.known;
        pkgver = k.pkgver;
        has_pkgver = k.has_pkgver;
        deps = k.deps;
      }

  -- `flappy_pkgdb_get_pkg_fulldeptree`, with the table of items empty, on a database whose entries
  -- have their names for keys and pkgvers, and whose dependencies have names, the search for each of
  -- which ends: for a package that is found it returns an array, and the table is empty again. Of the
  -- table before that: it has an item for the package; each item is for a package that is reached
  -- from it by what is found for dependencies, and each of that package's dependencies is missing, or
  -- by the name of something that it provides, or has an item, by its name or for the package that is
  -- found. The array has the pkgver of each item, but for that of the package itself, which may be
  -- missing; it has nothing else, and nothing twice.
  pub pkgdb_get_pkg_fulldeptree-IsTree :
      (pkg : Bytes) (root : Pkgd)
      → All IsListed pkgdb
      → find_pkgdb fnmatch vpkgd pkgdb pkg ≡ some (found root)
      → (u : Tree) × (pkgdb_get_pkg_fulldeptree fnmatch vpkgd pkgdb [] pkg
          ≡ some (some u.result, []))
        × IsTree fnmatch (find_pkgdb fnmatch vpkgd pkgdb) false root u
  unfolding pkgdb_get_pkg_fulldeptree
  pkgdb_get_pkg_fulldeptree-IsTree pkg root all finds =
      let search = find_pkgdb fnmatch vpkgd pkgdb in
      let (r, runs, end) =
        get_pkg_fulldeptree-IsTree fnmatch search false (keys_of pkgdb) root
          (Entry-IsPkg pkgdb root all (find_pkgdb-Entry pkg root finds))
          (λ dep q h. Entry-IsPkg pkgdb q all (find_pkgdb-Entry dep q h)) pkg finds in
      elim end [
        | inl (null, is) ↦ absurd (cc is)
        | inr (u, gives, emptied, tree) ↦
            let fuel : suc (length (keys_of pkgdb)) ≡ suc (length pkgdb) =
              ap suc (length-keys_of pkgdb) in
            (
              u,
              subst (λ n. get_pkg_fulldeptree fnmatch search false n [] pkg ≡ some r) fuel runs
                  ∙ ap₂ (λ a b. some (a, b)) gives emptied,
              tree,
            )
      ]
