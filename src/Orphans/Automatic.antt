-- ===== src/Orphans/Automatic.antt =====
-- The loops of `flappy_find_pkg_orphans` build the greatest array of orphans.
use flappy.Base.{
  All-at, All-of, ℕ, zero, suc, ◌<◌, ◌≡◌, ◌↔◌, refl, Bool, true, false, ◌⊎◌, inl, inr, List, [],
  ◌∷◌, ◌++◌, Option, none, some, arith, Bytes, length, All, Any,
}
use flappy.Dicts.{Dict, Pkgd, PkgDict}
use flappy.Revdeps.{generate_full_revdeps_tree}
use flappy.Revdeps.Table.{revdeps_tree-Lists, IsRegistered, Needs, Lists}
use flappy.Orphans.{Pass, orphan_pass, orphan_loop, find_pkg_orphans}
use flappy.Orphans.Queue.{waiting-length, waiting, Holds}
use flappy.Orphans.Built.{start, Settled-greatest, IsInstalled, Built, Settled}
use flappy.Orphans.Rounds.{Known, orphan_round-Round}

module _ (fnmatch : Bytes → Bytes → ℕ → Bool) (vpkgd : Dict (Dict Bytes)) (pkgdb : PkgDict) where
  -- The table of reverse dependencies.
  module _ (t : Dict (List Bytes)) where
    -- What is shown of a pass over a part of the database.
    record Passed (es : PkgDict) (a : List Pkgd) (added : Bool) (r : Option Pass) : Type 0 where
      array' : List Pkgd
      added' : Bool
      known' : Option (Dict (List Bytes))
      ends : r ≡ some (array', added', known')
      keeps : Known fnmatch vpkgd pkgdb t known'
      built : Built fnmatch vpkgd pkgdb array'
      does :
          ((array' ≡ a) × (added' ≡ added) × All (Settled fnmatch vpkgd pkgdb a) es)
          ⊎ ((added' ≡ true) × (waiting array' pkgdb < waiting a pkgdb))

    orphan_pass-Passed :
        (es : PkgDict) (a : List Pkgd) (added : Bool) (known : Option (Dict (List Bytes)))
        → All (λ e. IsInstalled pkgdb e × Any (λ x. x ≡ e) pkgdb) es
        → ((n x : Bytes) → Lists t n x ↔ Needs fnmatch vpkgd pkgdb n x)
        → All (IsInstalled pkgdb) pkgdb
        → Built fnmatch vpkgd pkgdb a
        → Known fnmatch vpkgd pkgdb t known
        → Passed es a added (orphan_pass fnmatch vpkgd pkgdb es (a, added, known))
    unfolding orphan_pass
    orphan_pass-Passed [] a added known each lists all built k = record {
      array' = a;
      added' = added;
      known' = known;
      ends = refl;
      keeps = k;
      built = built;
      does = inl (refl, refl, tt);
    }
    orphan_pass-Passed ((key, pkgd) ∷ es) a added known each lists all built k =
        let here =
          orphan_round-Round fnmatch vpkgd pkgdb t (key, pkgd) a added known each.0.0 lists all
            built k each.0.1 in
        elim here.does [
          | inl (e, settled) ↦
              let rest =
                orphan_pass-Passed es a added here.known' each.1 lists all built here.keeps in
              record {
                array' = rest.array';
                added' = rest.added';
                known' = rest.known';
                ends = rw e rest.ends;
                keeps = rest.keeps;
                built = rest.built;
                does = elim rest.does [
                  | inl (same, flag, later) ↦ inl (same, flag, (settled, later))
                  | inr more ↦ inr more
                ];
              }
          | inr (e, built', fewer) ↦
              let rest =
                orphan_pass-Passed es (a ++ pkgd ∷ []) true here.known' each.1 lists all built'
                  here.keeps in
              record {
                array' = rest.array';
                added' = rest.added';
                known' = rest.known';
                ends = rw e rest.ends;
                keeps = rest.keeps;
                built = rest.built;
                does = elim rest.does [
                  | inl (same, flag, later) ↦ inr (flag, rw same fewer)
                  | inr (flag, less) ↦ inr (flag, omega arith)
                ];
              }
        ]

    orphan_loop-Built :
        (fuel : ℕ) (a : List Pkgd) (known : Option (Dict (List Bytes)))
        → ((n x : Bytes) → Lists t n x ↔ Needs fnmatch vpkgd pkgdb n x)
        → All (IsInstalled pkgdb) pkgdb
        → Built fnmatch vpkgd pkgdb a
        → Known fnmatch vpkgd pkgdb t known
        → waiting a pkgdb < fuel
        → (a' : List Pkgd) × (known' : Option (Dict (List Bytes))) × (orphan_loop fnmatch vpkgd
              pkgdb fuel a known
            ≡ some (a', known'))
          × Known fnmatch vpkgd pkgdb t known'
          × Built fnmatch vpkgd pkgdb a'
          × All (Settled fnmatch vpkgd pkgdb a') pkgdb
    unfolding orphan_loop
    orphan_loop-Built zero a known lists all built k small = absurd (omega arith)
    orphan_loop-Built (suc fuel) a known lists all built k small =
        let each =
          All-of (λ e. IsInstalled pkgdb e × Any (λ x. x ≡ e) pkgdb) pkgdb
            (λ e at. (All-at (IsInstalled pkgdb) pkgdb e all at, at)) in
        let p = orphan_pass-Passed pkgdb a false known each lists all built k in
        elim p.does [
          | inl (same, flag, settled) ↦
              (a, p.known', rw (p.ends, flag, same) refl, p.keeps, built, settled)
          | inr (flag, less) ↦
              let (a', known', e, keeps, built', settled) =
                orphan_loop-Built fuel p.array' p.known' lists all p.built p.keeps (omega arith) in
              (a', known', rw (p.ends, flag) e, keeps, built', settled)
        ]

  find_pkg_orphans-parts :
      All (IsRegistered fnmatch vpkgd) pkgdb
      → All (IsInstalled pkgdb) pkgdb
      → (a : List Pkgd) × (known : Option (Dict (List Bytes))) × (find_pkg_orphans fnmatch vpkgd
            pkgdb none
          ≡ some (a, known))
        × Built fnmatch vpkgd pkgdb a
        × All (Settled fnmatch vpkgd pkgdb a) pkgdb
  unfolding find_pkg_orphans generate_full_revdeps_tree
  find_pkg_orphans-parts registered all =
      let (t, made, lists) = revdeps_tree-Lists fnmatch vpkgd pkgdb registered in
      let (a, known, e, keeps, built, settled) =
        orphan_loop-Built t (suc (length pkgdb)) [] none lists all start made
          (omega (arith, waiting-length [] pkgdb)) in
      (a, known, e, built, settled)

  -- `flappy_find_pkg_orphans` without a list of packages, on a database of which each package has
  -- dependencies with a provider and is kept under its name with a pkgver that is no pattern: it
  -- returns an array that is built by adding an automatic package of the database that is not in it
  -- yet, once every package of the database with a dependency on its name is, where a name for
  -- which a package is configured stands for that package.
  pub find_pkg_orphans-Built :
      All (IsRegistered fnmatch vpkgd) pkgdb
      → All (IsInstalled pkgdb) pkgdb
      → (a : List Pkgd) × (known : Option (Dict (List Bytes))) × (find_pkg_orphans fnmatch vpkgd
            pkgdb none
          ≡ some (a, known))
        × Built fnmatch vpkgd pkgdb a
  find_pkg_orphans-Built registered all =
      let (a, known, e, built, settled) = find_pkg_orphans-parts registered all in
      (a, known, e, built)

  -- `flappy_find_pkg_orphans` without a list of packages, on a database of which each package has
  -- dependencies with a provider and is kept under its name with a pkgver that is no pattern: it
  -- returns an array that leaves out no package of any array that is built by adding an automatic
  -- package that is not in it yet, once every package with a dependency on its name is, where a
  -- name for which a package is configured stands for that package.
  pub find_pkg_orphans_greatest :
      All (IsRegistered fnmatch vpkgd) pkgdb
      → All (IsInstalled pkgdb) pkgdb
      → (a : List Pkgd) × (known : Option (Dict (List Bytes))) × (find_pkg_orphans fnmatch vpkgd
            pkgdb none
          ≡ some (a, known))
        × ((b : List Pkgd) (x : Bytes) → Built fnmatch vpkgd pkgdb b → Holds b x → Holds a x)
  find_pkg_orphans_greatest registered all =
      let (a, known, e, built, settled) = find_pkg_orphans-parts registered all in
      (a, known, e, λ b x. Settled-greatest fnmatch vpkgd pkgdb a b x settled)
