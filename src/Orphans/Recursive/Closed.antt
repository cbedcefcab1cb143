-- ===== src/Orphans/Recursive/Closed.antt =====
-- What is removed with a list of packages: the loop over the array ends, and only adds packages that
-- nothing else needs.
use flappy.Base.{
  All-at, All-of, subst, ℕ, zero, suc, ◌+◌, ◌≤◌, ◌<◌, ◌≡◌, ◌↔◌, refl, sym, ap, ◌∙◌, Bool, ◌⊎◌, inl,
  inr, List, [], ◌∷◌, ◌++◌, append-nil, append_assoc, Option, none, some, arith, Bytes, length,
  Option-cases, All, Any,
}
use flappy.Dicts.{Dict, Pkgd, PkgDict}
use flappy.Find.{Found, found, missing, pkgdb_get_pkg}
use flappy.Find.First.{Found-cases}
use flappy.Find.Exact.{find_pkg_in_dict-exact}
use flappy.Find.Entry.{Entry, pkgdb_get_pkg-Entry}
use flappy.Revdeps.Table.{revdeps_tree-Lists, IsRegistered, Needs, Lists}
use flappy.Deptree.{find_pkgdb, pkgdb_get_pkg_fulldeptree}
use flappy.Deptree.Steps.{Reach, start, next}
use flappy.Deptree.Database.{IsListed, find_pkgdb-Entry, pkgdb_get_pkg_fulldeptree-IsTree}
use flappy.Orphans.Queue.{waiting, waiting-length}
use flappy.Orphans.Built
use flappy.Orphans.Built.{IsInstalled, BuiltOn}
use flappy.Orphans.Rounds.{Known}
use flappy.Orphans.Recursive.{
  Removal, array_get, user_loop, rdeps_loop, removal_loop, find_pkg_removal,
}
use flappy.Orphans.Recursive.Rounds.{InDatabase, IsKnown, Sound, rdeps_loop-Stepped}

Entry-InDatabase :
    (pkgdb d : PkgDict) (q : Pkgd)
    → ((e : Bytes × Pkgd) → Any (λ x. x ≡ e) d → Any (λ x. x ≡ e) pkgdb)
    → Entry d q
    → InDatabase pkgdb q
Entry-InDatabase pkgdb [] q up at = absurd at
Entry-InDatabase pkgdb ((key, p) ∷ d) q up (inl is) =
    (key, up (key, q) (inl (ap (λ x. (key, x)) is)))
Entry-InDatabase pkgdb ((key, p) ∷ d) q up (inr at) =
    Entry-InDatabase pkgdb d q (λ e h. up e (inr h)) at

array_get-InDatabase :
    (pkgdb : PkgDict) (a : List Pkgd) (i : ℕ) (d : Pkgd)
    → All (InDatabase pkgdb) a
    → array_get a i ≡ some d
    → (i < length a) × InDatabase pkgdb d
unfolding array_get
array_get-InDatabase pkgdb [] i d all h = absurd (cc h)
array_get-InDatabase pkgdb (x ∷ a) zero d all h =
    let same : x ≡ d = cc h in (omega arith, subst (InDatabase pkgdb) same all.0)
array_get-InDatabase pkgdb (x ∷ a) (suc i) d all h =
    let (less, at) = array_get-InDatabase pkgdb a i d all.1 h in (omega (arith, less), at)

module _ (fnmatch : Bytes → Bytes → ℕ → Bool) (vpkgd : Dict (Dict Bytes)) (pkgdb : PkgDict) where
  -- The packages that are found for the list, in its order.
  abbrev pub Picks : List Bytes → List Pkgd → Type 0
  Picks [] first = first ≡ []
  Picks (u ∷ users) first =
      ((p : Pkgd) × (rest : List Pkgd) × (pkgdb_get_pkg fnmatch pkgdb u ≡ some (found p))
        × (first ≡ p ∷ rest)
        × Picks users rest)
      ⊎ ((e : Option ℕ) × (pkgdb_get_pkg fnmatch pkgdb u ≡ some (missing e)) × Picks users first)

  -- The search for the package ends.
  abbrev pub Ends : Bytes → Type 0
  Ends u = (f : Found) × (pkgdb_get_pkg fnmatch pkgdb u ≡ some f)

  user_loop-Picks :
      (users : List Bytes) (acc : List Pkgd)
      → All Ends users
      → (rest : List Pkgd) × (user_loop fnmatch vpkgd pkgdb users acc ≡ some (acc ++ rest))
        × Picks users rest
        × All (InDatabase pkgdb) rest
        × (length rest ≤ length users)
  unfolding user_loop
  user_loop-Picks [] acc ends = ([], ap some (sym (append-nil acc)), refl, tt, omega arith)
  user_loop-Picks (u ∷ users) acc ends =
      let (f, at) = ends.0 in
      elim (Found-cases f) [
        | inl (p, e) ↦
            let (rest, runs, picks, inside, few) = user_loop-Picks users (acc ++ p ∷ []) ends.1 in
            (
              p ∷ rest,
              rw (user_loop, at, e) (runs ∙ ap some (append_assoc acc (p ∷ []) rest)),
              inl (p, rest, at ∙ ap some e, refl, picks),
              (
                Entry-InDatabase pkgdb pkgdb p (λ x h. h)
                    (pkgdb_get_pkg-Entry fnmatch pkgdb u p (at ∙ ap some e)),
                inside,
              ),
              omega (arith, few),
            )
        | inr (errno, e) ↦
            let (rest, runs, picks, inside, few) = user_loop-Picks users acc ends.1 in
            (
              rest,
              rw (user_loop, at, e) runs,
              inr (errno, at ∙ ap some e, picks),
              inside,
              omega (arith, few),
            )
      ]

  Reach-InDatabase :
      (root q : Pkgd)
      → InDatabase pkgdb root
      → Reach (find_pkgdb fnmatch vpkgd pkgdb) root q
      → InDatabase pkgdb q
  Reach-InDatabase root q at start = at
  Reach-InDatabase root q at (next q' dep reach m finds) =
      Entry-InDatabase pkgdb pkgdb q (λ x h. h) (find_pkgdb-Entry fnmatch vpkgd pkgdb dep q finds)

  -- The full dependency tree of a package of the database is one of packages of the database.
  tree-IsKnown :
      (d : Pkgd) (v : Bytes)
      → All (IsInstalled pkgdb) pkgdb
      → All (IsListed fnmatch vpkgd pkgdb) pkgdb
      → InDatabase pkgdb d
      → d.pkgver ≡ some v
      → (l : List Bytes) × (pkgdb_get_pkg_fulldeptree fnmatch vpkgd pkgdb [] v ≡ some (some l, []))
        × All (IsKnown pkgdb) l
  unfolding find_pkgdb pkgdb_get_pkg
  tree-IsKnown d v all listed (key, at) is =
      let i = All-at (IsInstalled pkgdb) pkgdb (key, d) all at in
      let both : some i.pkgver ≡ some v = sym i.has_pkgver ∙ is in
      let same : i.pkgver ≡ v = cc both in
      let there =
        (find_pkg_in_dict-exact fnmatch pkgdb i.pkgver key d i.no_pattern i.named).1
          (i.stored, i.has_pkgver) in
      let finds : find_pkgdb fnmatch vpkgd pkgdb i.pkgver ≡ some (found d) =
        rw (find_pkgdb, pkgdb_get_pkg, there) refl in
      let (u, runs, tree) =
        pkgdb_get_pkg_fulldeptree-IsTree fnmatch vpkgd pkgdb v d listed
          (subst (λ x. find_pkgdb fnmatch vpkgd pkgdb x ≡ some (found d)) same finds) in
      (
        u.result,
        runs,
        All-of (IsKnown pkgdb) u.result (λ x m.
            let (n, item, here, has) = tree.listed x m in
            let w = tree.whole n item here in
            (w.pkg, Reach-InDatabase d w.pkg (key, at) w.reach, w.pkgver ∙ ap some has)),
      )

  removal_step :
      (fuel i : ℕ) (a : List Pkgd) (known : Option (Dict (List Bytes))) (d : Pkgd) (v : Bytes)
      (l : List Bytes) (r : Removal)
      → array_get a i ≡ some d
      → d.pkgver ≡ some v
      → pkgdb_get_pkg_fulldeptree fnmatch vpkgd pkgdb [] v ≡ some (some l, [])
      → rdeps_loop fnmatch vpkgd pkgdb l (a, known) ≡ some r
      → removal_loop fnmatch vpkgd pkgdb (suc fuel) i (a, known) []
        ≡ removal_loop fnmatch vpkgd pkgdb fuel (suc i) r []
  unfolding removal_loop
  removal_step fuel i a known d v l r at is tree loop = simp (removal_loop, at, is, tree, loop)

  module _ (t : Dict (List Bytes)) (first : List Pkgd) where
    removal_loop-Sound :
        (fuel i : ℕ) (a : List Pkgd) (known : Option (Dict (List Bytes)))
        → All (IsInstalled pkgdb) pkgdb
        → All (IsListed fnmatch vpkgd pkgdb) pkgdb
        → ((n x : Bytes) → Lists t n x ↔ Needs fnmatch vpkgd pkgdb n x)
        → Sound fnmatch vpkgd pkgdb t first a
        → Known fnmatch vpkgd pkgdb t known
        → length a + waiting a pkgdb < fuel + i
        → i ≤ length a
        → (r : Removal) × (removal_loop fnmatch vpkgd pkgdb fuel i (a, known) [] ≡ some (r, []))
          × Sound fnmatch vpkgd pkgdb t first r.0
    unfolding removal_loop
    removal_loop-Sound zero i a known all listed lists s k enough small = absurd (omega arith)
    removal_loop-Sound (suc fuel) i a known all listed lists s k enough small =
        elim (Option-cases (array_get a i)) [
          | inl e ↦ ((a, known), rw (removal_loop, e) refl, s)
          | inr (d, e) ↦
              let (less, at) = array_get-InDatabase pkgdb a i d s.inside e in
              let (key, here) = at in
              let installed = All-at (IsInstalled pkgdb) pkgdb (key, d) all here in
              let (l, tree, each) =
                tree-IsKnown d installed.pkgver all listed at installed.has_pkgver in
              let one =
                rdeps_loop-Stepped fnmatch vpkgd pkgdb t first all lists l a known s k each in
              let longer = one.bounded in
              let grown = one.grows in
              let (r, runs, s') =
                removal_loop-Sound fuel (suc i) one.array' one.known' all listed lists one.sound
                  one.keeps (omega (arith, longer)) (omega (arith, grown, less)) in
              (
                r,
                removal_step fuel i a known d installed.pkgver l (one.array', one.known') e
                      installed.has_pkgver tree one.ends
                    ∙ runs,
                s',
              )
        ]

  -- `flappy_find_pkg_orphans` with a list of packages, on a database of which each package has a
  -- pkgver that is no pattern and dependencies with names and providers, and is kept under its name,
  -- by its pkgver and by its key `pkgname`, where the search for each dependency and for each of the
  -- list ends: it returns the packages that are found for the list, in its order, followed by
  -- automatic packages of the database, each of which is not in the array before, and is added once
  -- every package of the database with a dependency on its name is, where a name for which a package
  -- is configured stands for that package. The table of the full dependency trees is left empty.
  pub find_pkg_removal-BuiltOn :
      (users : List Bytes)
      → All (IsRegistered fnmatch vpkgd) pkgdb
      → All (IsInstalled pkgdb) pkgdb
      → All (IsListed fnmatch vpkgd pkgdb) pkgdb
      → All Ends users
      → (first : List Pkgd) × (r : Removal) × (find_pkg_removal fnmatch vpkgd pkgdb none [] users
          ≡ some (r, []))
        × Picks users first
        × BuiltOn fnmatch vpkgd pkgdb first r.0
  unfolding find_pkg_removal
  find_pkg_removal-BuiltOn users registered all listed ends =
      let (t, made, lists) = revdeps_tree-Lists fnmatch vpkgd pkgdb registered in
      let (first, runs, picks, inside, few) = user_loop-Picks users [] ends in
      let enough = waiting-length first pkgdb in
      let (r, loop, s) =
        removal_loop-Sound t first (suc (length users + length pkgdb)) 0 first none all listed lists
          (record { built = Built.BuiltOn.start; inside = inside }) made
          (omega (arith, few, enough)) (omega arith) in
      (first, r, rw (find_pkg_removal, runs) loop, picks, s.built)
