-- ===== src/Orphans/Rounds.antt =====
-- One round of `flappy_find_pkg_orphans`: it settles a package, or adds it to the array.
use flappy.Base.{
  All-at, All-of, subst, ℕ, ◌<◌, ◌≡◌, ◌↔◌, refl, sym, ap, Bool, true, false, ◌⊎◌, inl, inr, List,
  [], ◌∷◌, ◌++◌, Option, some, ◌==◌, if◌then◌else◌, arith, Bytes, length, Bool-cases, All, Any,
}
use flappy.Dicts.{Dict, dict_get, Pkgd, PkgDict}
use flappy.Find.{pkgdb_get_pkg}
use flappy.Find.Exact.{some-pkg_version, find_pkg_in_dict-exact}
use flappy.Revdeps.{array_at, generate_full_revdeps_tree, pkgdb_get_pkg_revdeps}
use flappy.Revdeps.Table.{Needs, Lists}
use flappy.Orphans.{is_automatic, Pass, orphan_round, check_revdeps}
use flappy.Orphans.Queue.{
  has-Holds, is_queued-has, waiting-append_lt, has-Holds_not, count_queued-Holds, waiting, IsPlain,
  Holds, has,
}
use flappy.Orphans.Built.{next, Needs-IsPlain, Built-HasPkgver, IsInstalled, Built, Settled}

choose_full :
    {A : Type 0} (a b : A) (l n : ℕ) → n ≡ l → (if l == 0 then a else if n == l then a else b) ≡ a
choose_full {A} a b l n is = ground arith

choose_fewer :
    {A : Type 0} (a b : A) (l n : ℕ) → n < l → (if l == 0 then a else if n == l then a else b) ≡ b
choose_fewer {A} a b l n fewer = ground arith

module _ (fnmatch : Bytes → Bytes → ℕ → Bool) (vpkgd : Dict (Dict Bytes)) (pkgdb : PkgDict) where
  -- The table of reverse dependencies, known or to be made.
  module _ (t : Dict (List Bytes)) where
    abbrev pub Known : Option (Dict (List Bytes)) → Type 0
    Known known = generate_full_revdeps_tree fnmatch vpkgd known pkgdb ≡ some t

    pub revdeps-array_at :
        (e : Bytes × Pkgd) (i : IsInstalled pkgdb e) (known : Option (Dict (List Bytes)))
        → Known known
        → pkgdb_get_pkg_revdeps fnmatch vpkgd known pkgdb i.pkgver ≡ some (dict_get t e.0, some t)
    unfolding pkgdb_get_pkg_revdeps pkgdb_get_pkg generate_full_revdeps_tree
    revdeps-array_at e i known k =
        let there =
          (find_pkg_in_dict-exact fnmatch pkgdb i.pkgver e.0 e.1 i.no_pattern i.named).1
            (i.stored, i.has_pkgver) in
        rw (there, k, i.has_pkgver, i.named) refl

    -- What is shown of a round.
    pub record Round (e : Bytes × Pkgd) (a : List Pkgd) (added : Bool) (r : Option Pass)
        : Type 0 where
      pub known' : Option (Dict (List Bytes))
      pub keeps : Known known'
      pub does :
          ((r ≡ some (a, added, known')) × Settled fnmatch vpkgd pkgdb a e)
          ⊎ ((r ≡ some (a ++ e.1 ∷ [], true, known'))
              × Built fnmatch vpkgd pkgdb (a ++ e.1 ∷ [])
              × (waiting (a ++ e.1 ∷ []) pkgdb < waiting a pkgdb))

    check_revdeps-Round :
        (e : Bytes × Pkgd) (i : IsInstalled pkgdb e) (a : List Pkgd) (added : Bool)
        (known : Option (Dict (List Bytes)))
        → ((n x : Bytes) → Lists t n x ↔ Needs fnmatch vpkgd pkgdb n x)
        → All (IsInstalled pkgdb) pkgdb
        → Built fnmatch vpkgd pkgdb a
        → Known known
        → Any (λ x. x ≡ e) pkgdb
        → is_automatic e.1 ≡ true
        → has a i.pkgver ≡ false
        → Round e a added (check_revdeps fnmatch vpkgd pkgdb e.1 i.pkgver (a, added, known))
    unfolding check_revdeps generate_full_revdeps_tree
    check_revdeps-Round e i a added known lists all built k at auto new =
        let revs = array_at t e.0 in
        let plain : All IsPlain revs = All-of IsPlain revs (λ x in_revs.
          Needs-IsPlain fnmatch vpkgd pkgdb pkgdb e.0 x all ((lists e.0 x).0 in_revs)) in
        let (n, count, full) =
          count_queued-Holds fnmatch vpkgd pkgdb a revs
            (Built-HasPkgver fnmatch vpkgd pkgdb a built) plain in
        record {
          known' = some t;
          keeps = refl;
          does = elim full [
            | inl (is, holds) ↦ inr (
              rw (check_revdeps, revdeps-array_at e i known k, count)
                  (ap some (choose_full {A = Pass} _ _ (length revs) n is)),
              next a e.0 e.1 i.pkgver built at i.has_pkgver auto (has-Holds_not a i.pkgver new)
                  (λ x needs. All-at (Holds a) revs x holds ((lists e.0 x).1 needs)),
              waiting-append_lt a e.0 e.1 i.pkgver pkgdb i.has_pkgver new at,
            )
            | inr (fewer, left) ↦
                let (x, in_revs, out) = left in
                inl (
                  rw (check_revdeps, revdeps-array_at e i known k, count)
                      (ap some (choose_fewer {A = Pass} _ _ (length revs) n fewer)),
                  λ auto. inr (x, (lists e.0 x).0 in_revs, out),
                )
          ];
        }

    pub orphan_round-Round :
        (e : Bytes × Pkgd) (a : List Pkgd) (added : Bool) (known : Option (Dict (List Bytes)))
        → IsInstalled pkgdb e
        → ((n x : Bytes) → Lists t n x ↔ Needs fnmatch vpkgd pkgdb n x)
        → All (IsInstalled pkgdb) pkgdb
        → Built fnmatch vpkgd pkgdb a
        → Known known
        → Any (λ x. x ≡ e) pkgdb
        → Round e a added (orphan_round fnmatch vpkgd pkgdb e.1 (a, added, known))
    unfolding orphan_round
    orphan_round-Round e a added known i lists all built k at =
        let queued =
          is_queued-has fnmatch vpkgd pkgdb a i.pkgver (Built-HasPkgver fnmatch vpkgd pkgdb a built)
            (record {
              no_pattern = i.no_pattern;
              versioned = some-pkg_version i.pkgver e.0 i.named;
            }) in
        elim (Bool-cases (is_automatic e.1)) [
          | inl auto ↦ elim (Bool-cases (has a i.pkgver)) [
            | inl h ↦ record {
              known' = known;
              keeps = k;
              does = inl (
                rw (orphan_round, i.has_pkgver, auto, queued, h) refl,
                λ s. inl (
                    rw i.has_pkgver
                      (has-Holds a i.pkgver (Built-HasPkgver fnmatch vpkgd pkgdb a built) h)),
              );
            }
            | inr h ↦
                let step : orphan_round fnmatch vpkgd pkgdb e.1 (a, added, known)
                    ≡ check_revdeps fnmatch vpkgd pkgdb e.1 i.pkgver (a, added, known) =
                  simp (orphan_round, i.has_pkgver, auto, queued, h) in
                subst (Round e a added) (sym step)
                  (check_revdeps-Round e i a added known lists all built k at auto h)
          ]
          | inr manual ↦ record {
            known' = known;
            keeps = k;
            does = inl (rw (orphan_round, i.has_pkgver, manual) refl, λ s. absurd (cc (manual, s)));
          }
        ]
