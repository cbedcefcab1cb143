-- ===== src/Broken/Table.antt =====
-- The table of reverse dependencies, `xhp->pkgdb_revdeps`, is made once, and later calls find the
-- same in it.
use flappy.Base.{
  ℕ, ◌≡◌, refl, sym, ◌∙◌, subst, Bool, ◌⊎◌, inl, inr, List, Option, none, some, ◌>>=◌, Bytes,
  Option-cases,
}
use flappy.Pkgver.{pkg_name}
use flappy.Arrays.{name_size}
use flappy.Dicts.{Dict, dict_get, PkgDict}
use flappy.Find.{pkgdb_get_pkg}
use flappy.Find.First.{Found-cases}
use flappy.Revdeps.{generate_full_revdeps_tree, pkgdb_get_pkg_revdeps}

module _ (fnmatch : Bytes → Bytes → ℕ → Bool) (vpkgd : Dict (Dict Bytes)) (pkgdb : PkgDict) where
  -- The table of reverse dependencies is as it was, or the one that is made of it.
  abbrev pub SameTable : Option (Dict (List Bytes)) → Option (Dict (List Bytes)) → Type 0
  SameTable known k =
      (k ≡ known)
      ⊎ ((t : Dict (List Bytes)) × (generate_full_revdeps_tree fnmatch vpkgd known pkgdb ≡ some t)
          × (k ≡ some t))

  generate-SameTable :
      (known k : Option (Dict (List Bytes))) (t : Dict (List Bytes))
      → SameTable known k
      → generate_full_revdeps_tree fnmatch vpkgd k pkgdb ≡ some t
      → generate_full_revdeps_tree fnmatch vpkgd known pkgdb ≡ some t
  unfolding generate_full_revdeps_tree
  generate-SameTable known k t (inl same) h =
      subst (λ x. generate_full_revdeps_tree fnmatch vpkgd x pkgdb ≡ some t) same h
  generate-SameTable known k t (inr (t', e, same)) h = e ∙ sym same ∙ table k t' same h
    where
      table :
          (x : Option (Dict (List Bytes))) (t' : Dict (List Bytes))
          → x ≡ some t'
          → generate_full_revdeps_tree fnmatch vpkgd x pkgdb ≡ some t
          → x ≡ some t
      table none t' same h = absurd (cc same)
      table (some x) t' same h = h

  -- The same reverse dependencies are found with such a table.
  pub revdeps-SameTable :
      (known k : Option (Dict (List Bytes))) (n : Bytes)
      (r : Option (List Bytes) × Option (Dict (List Bytes)))
      → SameTable known k
      → pkgdb_get_pkg_revdeps fnmatch vpkgd k pkgdb n ≡ some r
      → SameTable known r.1
        × ((k' : Option (Dict (List Bytes))) × (pkgdb_get_pkg_revdeps fnmatch vpkgd known pkgdb n
              ≡ some (r.0, k')))
  unfolding pkgdb_get_pkg_revdeps
  revdeps-SameTable known k n r same h = elim (Option-cases (pkgdb_get_pkg fnmatch pkgdb n)) [
    | inl e ↦ absurd (cc (rw (pkgdb_get_pkg_revdeps, e) at h))
    | inr (f, e) ↦ elim (Found-cases f) [
      | inr (errno, z) ↦
          let it : some (none, k) ≡ some r = rw (pkgdb_get_pkg_revdeps, e, z) at h in
          let at : (none, k) ≡ r = cc it in
          subst
            (λ x.
              SameTable known x.1
              × ((k' : Option (Dict (List Bytes))) × (pkgdb_get_pkg_revdeps fnmatch vpkgd known
                      pkgdb n
                    ≡ some (x.0, k'))))
            at (same, (known, rw (pkgdb_get_pkg_revdeps, e, z) refl))
      | inl (d, z) ↦ elim (Option-cases (generate_full_revdeps_tree fnmatch vpkgd k pkgdb)) [
        | inl g ↦ absurd (cc (rw (pkgdb_get_pkg_revdeps, e, z, g) at h))
        | inr (t, g) ↦ elim (Option-cases d.pkgver) [
          | inl y ↦ absurd (cc (rw (pkgdb_get_pkg_revdeps, e, z, g, y) at h))
          | inr (v, y) ↦
              let whole = generate-SameTable known k t same g in
              let revs : Option (List Bytes) =
                pkg_name name_size v >>= λ pkgname. dict_get t pkgname in
              let it : some (revs, some t) ≡ some r = rw (pkgdb_get_pkg_revdeps, e, z, g, y) at h in
              let at : (revs, some t) ≡ r = cc it in
              subst
                (λ x.
                  SameTable known x.1
                  × ((k' : Option (Dict (List Bytes))) × (pkgdb_get_pkg_revdeps fnmatch vpkgd known
                          pkgdb n
                        ≡ some (x.0, k'))))
                at (inr (t, whole, refl), (some t, rw (pkgdb_get_pkg_revdeps, e, z, whole, y) refl))
        ]
      ]
    ]
  ]
