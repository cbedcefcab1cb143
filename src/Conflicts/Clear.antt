-- ===== src/Conflicts/Clear.antt =====
-- A check of conflicts that reports nothing leaves no conflict unsettled.
use flappy.Base.{
  ℕ, ◌≤◌, ◌≡◌, sym, ap, ◌∙◌, subst, Bool, false, inl, inr, List, ◌∷◌, Option, some, arith, Bytes,
  length, Bool-cases, Option-cases, All,
}
use flappy.Dicts.{Dict, Pkgd, PkgDict}
use flappy.Find.{missing, find_pkg_in_array}
use flappy.Find.First.{Found-cases}
use flappy.Conflicts.{
  is_left, conflicts_of, conflicts_loop, judge_trans, pkg_conflicts_trans, judge_pkgdb,
  pkgdb_conflicts_cb, each_pkg, check_conflicts,
}
use flappy.Conflicts.Quiet.{
  Strings-cases, same_length, All-map, conflicts_loop-length, conflicts_loop-passes,
  each_pkg-length, each_pkg-quiet,
}
use flappy.Conflicts.Verdicts.{
  judge_pkgdb-verdict, judge_trans-verdict, QueuedClear, InstalledClear,
}

module _ (fnmatch : Bytes → Bytes → ℕ → Bool) (vpkgd : Dict (Dict Bytes)) (pkgs : List Pkgd) where
  -- The conflicts of a package that is not left are settled.
  abbrev pub ClearIn : PkgDict → Pkgd → Type 0
  ClearIn pkgdb p =
      is_left p ≡ false
      → (name : Bytes) → p.pkgname ≡ some name
      → All (InstalledClear fnmatch vpkgd pkgs pkgdb name) (conflicts_of p)

  -- The conflicts of an installed package that is not in the transaction are settled.
  abbrev pub ClearFor : Pkgd → Type 0
  ClearFor o =
      (name : Bytes) (errno : Option ℕ)
      → o.pkgname ≡ some name
      → find_pkg_in_array fnmatch pkgs name 0 ≡ some (missing errno)
      → All (QueuedClear fnmatch vpkgd pkgs name) (conflicts_of o)

  pkg_conflicts_trans-run :
      (pkgdb : PkgDict) (p : Pkgd) (m r : List Bytes)
      → pkg_conflicts_trans fnmatch vpkgd pkgdb pkgs p m ≡ some r
      → (length m ≤ length r) × (length r ≤ length m → ClearIn pkgdb p)
  unfolding pkg_conflicts_trans
  pkg_conflicts_trans-run pkgdb p m r h = elim (Strings-cases (conflicts_of p)) [
    | inl e ↦
        let it : some m ≡ some r = rw (pkg_conflicts_trans, e) at h in
        (same_length m r (cc it), λ small left name is. rw e tt)
    | inr (cf, cfs, e) ↦ elim (Bool-cases (is_left p)) [
      | inl k ↦
          let it : some m ≡ some r = rw (pkg_conflicts_trans, e, k) at h in
          (same_length m r (cc it), λ small left name is. absurd (cc (k, left)))
      | inr k ↦ elim (Option-cases p.pkgver) [
        | inl f ↦ absurd (cc (rw (pkg_conflicts_trans, e, k, f) at h))
        | inr (ver, f) ↦ elim (Option-cases p.pkgname) [
          | inl g ↦ absurd (cc (rw (pkg_conflicts_trans, e, k, f, g) at h))
          | inr (n, g) ↦
              let judge = judge_trans fnmatch vpkgd pkgdb pkgs ver n in
              let loop : conflicts_loop judge (cf ∷ cfs) m ≡ some r =
                rw (pkg_conflicts_trans, e, k, f, g) at h in
              (
                conflicts_loop-length judge (cf ∷ cfs) m r loop,
                λ small left name is.
                    let both : some n ≡ some name = sym g ∙ is in
                    let all =
                      conflicts_loop-passes judge (cf ∷ cfs) m r
                        (λ c. (judge_trans-verdict fnmatch vpkgd pkgs pkgdb ver n c).0) loop
                        small in
                    subst (λ l. All (InstalledClear fnmatch vpkgd pkgs pkgdb name) l) (sym e)
                      (subst (λ x. All (InstalledClear fnmatch vpkgd pkgs pkgdb x) (cf ∷ cfs))
                        (cc both)
                        (All-map (cf ∷ cfs)
                          (λ c. (judge_trans-verdict fnmatch vpkgd pkgs pkgdb ver n c).1) all)),
              )
        ]
      ]
    ]
  ]

  pkgdb_conflicts_cb-run :
      (o : Pkgd) (m r : List Bytes)
      → pkgdb_conflicts_cb fnmatch vpkgd pkgs o m ≡ some r
      → (length m ≤ length r) × (length r ≤ length m → ClearFor o)
  unfolding pkgdb_conflicts_cb
  pkgdb_conflicts_cb-run o m r h = elim (Strings-cases (conflicts_of o)) [
    | inl e ↦
        let it : some m ≡ some r = rw (pkgdb_conflicts_cb, e) at h in
        (same_length m r (cc it), λ small name errno is out. rw e tt)
    | inr (cf, cfs, e) ↦ elim (Option-cases o.pkgver) [
      | inl f ↦ absurd (cc (rw (pkgdb_conflicts_cb, e, f) at h))
      | inr (ver, f) ↦ elim (Option-cases o.pkgname) [
        | inl g ↦ absurd (cc (rw (pkgdb_conflicts_cb, e, f, g) at h))
        | inr (n, g) ↦ elim (Option-cases (find_pkg_in_array fnmatch pkgs n 0)) [
          | inl k ↦ absurd (cc (rw (pkgdb_conflicts_cb, e, f, g, k) at h))
          | inr (found_, k) ↦ elim (Found-cases found_) [
            | inl (q, z) ↦
                let it : some m ≡ some r = rw (pkgdb_conflicts_cb, e, f, g, k, z) at h in
                (
                  same_length m r (cc it),
                  λ small name errno is out.
                      let both : some n ≡ some name = sym g ∙ is in
                      let same : n ≡ name = cc both in
                      absurd
                        (cc (sym k ∙ ap (λ x. find_pkg_in_array fnmatch pkgs x 0) same ∙ out, z)),
                )
            | inr (errno', z) ↦
                let judge = judge_pkgdb fnmatch vpkgd pkgs ver n in
                let loop : conflicts_loop judge (cf ∷ cfs) m ≡ some r =
                  rw (pkgdb_conflicts_cb, e, f, g, k, z) at h in
                (
                  conflicts_loop-length judge (cf ∷ cfs) m r loop,
                  λ small name errno is out.
                      let both : some n ≡ some name = sym g ∙ is in
                      let all =
                        conflicts_loop-passes judge (cf ∷ cfs) m r
                          (λ c. (judge_pkgdb-verdict fnmatch vpkgd pkgs ver n c).0) loop small in
                      subst (λ l. All (QueuedClear fnmatch vpkgd pkgs name) l) (sym e)
                        (subst (λ x. All (QueuedClear fnmatch vpkgd pkgs x) (cf ∷ cfs)) (cc both)
                          (All-map (cf ∷ cfs)
                            (λ c. (judge_pkgdb-verdict fnmatch vpkgd pkgs ver n c).1) all)),
                )
          ]
        ]
      ]
    ]
  ]

  -- `flappy_transaction_check_conflicts`, whichever order the packages of the database are visited
  -- in: where it returns with no message more than before, each conflict of a package of the
  -- transaction, unless that is to be removed or on hold, is settled, and so is each conflict of an
  -- installed package that is not in the transaction. With an installed package a conflict is
  -- settled if that package is on hold, is the package itself, or is installed, updated, removed or
  -- on hold in the transaction; with one in the transaction, if that is to be removed or on hold, or
  -- is the package itself.
  pub check_conflicts-ClearIn :
      (pkgdb : PkgDict) (visited : List Pkgd) (m : List Bytes)
      → check_conflicts fnmatch vpkgd pkgdb visited pkgs m ≡ some m
      → All (ClearIn pkgdb) pkgs × All ClearFor visited
  unfolding check_conflicts
  check_conflicts-ClearIn pkgdb visited m h =
      elim (Option-cases (each_pkg (pkg_conflicts_trans fnmatch vpkgd pkgdb pkgs) pkgs m)) [
        | inl e ↦ absurd (cc (rw (check_conflicts, e) at h))
        | inr (m', e) ↦
            let rest : each_pkg (pkgdb_conflicts_cb fnmatch vpkgd pkgs) visited m' ≡ some m =
              rw (check_conflicts, e) at h in
            let Grows : (Pkgd → List Bytes → Option (List Bytes)) → Type 0 =
              λ fn. (p : Pkgd) (m r : List Bytes) → fn p m ≡ some r → length m ≤ length r in
            let one : Grows (pkg_conflicts_trans fnmatch vpkgd pkgdb pkgs) =
              λ p a b k. (pkg_conflicts_trans-run pkgdb p a b k).0 in
            let two : Grows (pkgdb_conflicts_cb fnmatch vpkgd pkgs) =
              λ p a b k. (pkgdb_conflicts_cb-run p a b k).0 in
            let up = each_pkg-length _ pkgs m m' one e in
            let up' = each_pkg-length _ visited m' m two rest in
            (
              All-map pkgs
                  (λ p q.
                    let (a, b, k, small) = q in (pkg_conflicts_trans-run pkgdb p a b k).1 small)
                  (each_pkg-quiet _ pkgs m m' one e (omega arith)),
              All-map visited
                  (λ p q. let (a, b, k, small) = q in (pkgdb_conflicts_cb-run p a b k).1 small)
                  (each_pkg-quiet _ visited m' m two rest (omega arith)),
            )
      ]
