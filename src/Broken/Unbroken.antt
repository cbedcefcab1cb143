-- ===== src/Broken/Unbroken.antt =====
-- A check of reverse dependencies that adds no message leaves every reverse dependency settled.
use flappy.Base.{
  ℕ, ◌≤◌, ◌≡◌, refl, sym, ap, ◌∙◌, subst, Bool, true, false, ◌⊎◌, inl, inr, List, [], ◌∷◌, Option,
  none, some, ◌==◌, ◌&&◌, if◌then◌else◌, arith, Bytes, length, Bool-cases, Option-cases, All,
}
use flappy.Pkgver.{pkg_name}
use flappy.Arrays.{name_size}
use flappy.Dicts.{Dict, Pkgd, PkgDict}
use flappy.Find.{transaction_pkg_type}
use flappy.Revdeps.{pkgdb_get_pkg_revdeps}
use flappy.Conflicts.{trans_install, trans_hold}
use flappy.Orphans.{elements}
use flappy.Broken.{
  Checked, pkg_is_ignored, rev_round, revs_loop, check_pkg, check_round, transaction_loop,
  transaction_check_revdeps,
}
use flappy.Broken.Table.{SameTable, revdeps-SameTable}
use flappy.Broken.Rounds.{Settles, stays_quiet, Settled, rev_round-Settles}

module _ (fnmatch : Bytes → Bytes → ℕ → Bool) (pkgs : List Pkgd) where
  revs_loop-Settles :
      (pkgdb : PkgDict) (obj : Pkgd) (ver : Bytes) (revs m : List Bytes) (r : Checked)
      → revs_loop fnmatch pkgs pkgdb obj ver revs m ≡ some r
      → Settles m (All (Settled fnmatch pkgs pkgdb obj ver) revs) r
  unfolding revs_loop
  revs_loop-Settles pkgdb obj ver [] m r h = stays_quiet m true _ r h (λ _. tt)
  revs_loop-Settles pkgdb obj ver (rev ∷ revs) m r h =
      elim (Option-cases (rev_round fnmatch pkgs pkgdb obj ver rev m)) [
        | inl e ↦ absurd (cc (rw (revs_loop, e) at h))
        | inr (c, e) ↦
            let (up, one) = rev_round-Settles fnmatch pkgs pkgdb obj ver rev m c e in
            elim (Bool-cases c.1) [
              | inl z ↦
                  let (up', all) =
                    revs_loop-Settles pkgdb obj ver revs c.0 r (rw (revs_loop, e, z) at h) in
                  (omega arith, λ small on. (one (omega arith) z, all (omega arith) on))
              | inr z ↦
                  let (up', on) =
                    stays_quiet c.0 false ⊥ r (rw (revs_loop, e, z) at h) (λ is. cc is) in
                  (omega arith, λ small is. absurd (on (omega arith) is))
            ]
      ]

  module _ (vpkgd : Dict (Dict Bytes)) (ignored : Option (List Bytes)) (pkgdb : PkgDict) where
    -- The package is ignored, or its reverse dependencies are settled.
    abbrev pub RevsSettled : Option (Dict (List Bytes)) → Pkgd → Bytes → Bytes → Type 0
    RevsSettled known obj ver name =
        (revs : Option (List Bytes)) × (k : Option (Dict (List Bytes))) × (pkgdb_get_pkg_revdeps
            fnmatch vpkgd known pkgdb name
          ≡ some (revs, k))
        × ((pkg_is_ignored fnmatch ignored ver ≡ some true)
            ⊎ All (Settled fnmatch pkgs pkgdb obj ver) (elements revs))

    -- The package is on hold or is installed anew, or its reverse dependencies are settled.
    abbrev pub Unbroken : Option (Dict (List Bytes)) → Pkgd → Type 0
    Unbroken known obj =
        (transaction_pkg_type obj == trans_hold) ≡ false
        → (ver : Bytes) × (name : Bytes) × (obj.pkgver ≡ some ver)
          × (pkg_name name_size ver ≡ some name)
          × ((transaction_pkg_type obj == trans_install) ≡ false → RevsSettled known obj ver name)

    abbrev Passed :
        Option (Dict (List Bytes))
        → List Bytes
        → Type 0
        → Checked × Option (Dict (List Bytes))
        → Type 0
    Passed known m P r = SameTable fnmatch vpkgd pkgdb known r.1 × Settles m P r.0

    passed :
        (known k : Option (Dict (List Bytes))) (m : List Bytes) (P : Type 0) (b : Bool)
        (r : Checked × Option (Dict (List Bytes)))
        → SameTable fnmatch vpkgd pkgdb known k
        → some ((m, b), k) ≡ some r
        → (b ≡ true → P)
        → Passed known m P r
    passed known k m P b r same h holds =
        let at : ((m, b), k) ≡ r = cc h in
        subst (Passed known m P) at (same, stays_quiet m b P (m, b) refl holds)

    -- The round with the pkgver and the name of the package.
    abbrev Named : Option (Dict (List Bytes)) → Pkgd → Bytes → Type 0
    Named known obj ver =
        (name : Bytes) × (pkg_name name_size ver ≡ some name)
        × ((transaction_pkg_type obj == trans_install) ≡ false → RevsSettled known obj ver name)

    check_pkg-Passed :
        (obj : Pkgd) (ver : Bytes) (m : List Bytes) (known k : Option (Dict (List Bytes)))
        (r : Checked × Option (Dict (List Bytes)))
        → SameTable fnmatch vpkgd pkgdb known k
        → check_pkg fnmatch pkgs vpkgd ignored pkgdb obj ver m k ≡ some r
        → Passed known m (Named known obj ver) r
    unfolding check_pkg
    check_pkg-Passed obj ver m known k r same h = elim (Option-cases (pkg_name name_size ver)) [
      | inl e ↦ passed known k m _ false r same (rw (check_pkg, e) at h) (λ is. absurd (cc is))
      | inr (n, e) ↦ elim (Bool-cases (transaction_pkg_type obj == trans_install)) [
        | inl z ↦
            passed known k m _ true r same (rw (check_pkg, e, z) at h)
              (λ _. (n, e, λ other. absurd (cc (z, other))))
        | inr z ↦ elim (Option-cases (pkgdb_get_pkg_revdeps fnmatch vpkgd k pkgdb n)) [
          | inl g ↦ absurd (cc (rw (check_pkg, e, z, g) at h))
          | inr (t, g) ↦
              let (same', (k', found_)) =
                revdeps-SameTable fnmatch vpkgd pkgdb known k n t same g in
              let settled : (pkg_is_ignored fnmatch ignored ver ≡ some true)
                    ⊎ All (Settled fnmatch pkgs pkgdb obj ver) (elements t.0)
                  → Named known obj ver =
                λ s. (n, e, λ _. (t.0, k', found_, s)) in
              elim (Option-cases t.0) [
                | inl y ↦
                    passed known t.1 m _ true r same' (rw (check_pkg, e, z, g, y) at h)
                      (λ _. settled (inr (rw y tt)))
                | inr (revs, y) ↦ elim (Bool-cases (length revs == 0)) [
                  | inl c ↦
                      passed known t.1 m _ true r same' (rw (check_pkg, e, z, g, y, c) at h)
                        (λ _. settled (inr (rw y (none_settled revs c))))
                  | inr c ↦ elim (Option-cases (pkg_is_ignored fnmatch ignored ver)) [
                    | inl i ↦ absurd (cc (rw (check_pkg, e, z, g, y, c, i) at h))
                    | inr (b, i) ↦ elim (Bool-cases b) [
                      | inl j ↦
                          passed known t.1 m _ true r same'
                            (rw (check_pkg, e, z, g, y, c, i, j) at h)
                            (λ _. settled (inl (i ∙ ap some j)))
                      | inr j ↦ elim (Option-cases (revs_loop fnmatch pkgs pkgdb obj ver revs m)) [
                        | inl q ↦ absurd (cc (rw (check_pkg, e, z, g, y, c, i, j, q) at h))
                        | inr (w, q) ↦
                            let (up, all) = revs_loop-Settles pkgdb obj ver revs m w q in
                            let it : some (w, t.1) ≡ some r =
                              rw (check_pkg, e, z, g, y, c, i, j, q) at h in
                            let at : (w, t.1) ≡ r = cc it in
                            subst (Passed known m (Named known obj ver)) at
                              (same', (up, λ small on. settled (inr (rw y (all small on)))))
                      ]
                    ]
                  ]
                ]
              ]
        ]
      ]
    ]
      where
        none_settled :
            (l : List Bytes) → (length l == 0) ≡ true → All (Settled fnmatch pkgs pkgdb obj ver) l
        none_settled [] h = tt
        none_settled (x ∷ l) h = absurd (ground arith)

    check_round-Passed :
        (obj : Pkgd) (m : List Bytes) (known k : Option (Dict (List Bytes)))
        (r : Checked × Option (Dict (List Bytes)))
        → SameTable fnmatch vpkgd pkgdb known k
        → check_round fnmatch pkgs vpkgd ignored pkgdb obj m k ≡ some r
        → Passed known m (Unbroken known obj) r
    unfolding check_round
    check_round-Passed obj m known k r same h =
        elim (Bool-cases (transaction_pkg_type obj == trans_hold)) [
          | inl e ↦
              passed known k m _ true r same (rw (check_round, e) at h)
                (λ _ other. absurd (cc (e, other)))
          | inr e ↦ elim (Option-cases obj.pkgver) [
            | inl z ↦
                passed known k m _ false r same (rw (check_round, e, z) at h) (λ is. absurd (cc is))
            | inr (ver, z) ↦
                let (same', (up, all)) =
                  check_pkg-Passed obj ver m known k r same (rw (check_round, e, z) at h) in
                (
                  same',
                  (up, λ small on other. let (n, is, rest) = all small on in (ver, n, z, is, rest)),
                )
          ]
        ]

    transaction_loop-Passed :
        (l : List Pkgd) (m : List Bytes) (known k : Option (Dict (List Bytes)))
        (r : Checked × Option (Dict (List Bytes)))
        → SameTable fnmatch vpkgd pkgdb known k
        → transaction_loop fnmatch pkgs vpkgd ignored pkgdb l m k ≡ some r
        → Passed known m (All (Unbroken known) l) r
    unfolding transaction_loop
    transaction_loop-Passed [] m known k r same h = passed known k m _ true r same h (λ _. tt)
    transaction_loop-Passed (obj ∷ l) m known k r same h =
        elim (Option-cases (check_round fnmatch pkgs vpkgd ignored pkgdb obj m k)) [
          | inl e ↦ absurd (cc (rw (transaction_loop, e) at h))
          | inr (p, e) ↦
              let (same', (up, one)) = check_round-Passed obj m known k p same e in
              elim (Bool-cases p.0.1) [
                | inl z ↦
                    let (same'', (up', all)) =
                      transaction_loop-Passed l p.0.0 known p.1 r same'
                        (rw (transaction_loop, e, z) at h) in
                    (same'', (omega arith, λ small on. (one (omega arith) z, all (omega arith) on)))
                | inr z ↦
                    let it : some p ≡ some r = rw (transaction_loop, e, z) at h in
                    let at : p ≡ r = cc it in
                    subst (Passed known m (All (Unbroken known) (obj ∷ l))) at
                      (same', (up, λ small on. absurd (cc (z, on))))
              ]
        ]

    -- `flappy_transaction_check_revdeps`: where it returns true and leaves no message more than
    -- before, every package of the transaction that is not on hold has a pkgver with a name, and
    -- unless it is installed anew or ignored, each of its installed reverse dependencies is to be
    -- removed, or is as follows, by its dictionary in the transaction, or else in the database. If
    -- the package is to be removed, it is marked as replaced, or the reverse dependency is to be
    -- removed too. Otherwise the virtual packages that the package provides, up to the first
    -- without a name, meet the dependencies by their name, and the reverse dependency has no
    -- dependency by the package's name, or one that the package's version meets, or is to be
    -- updated.
    pub transaction_check_revdeps-Unbroken :
        (m : List Bytes) (known k : Option (Dict (List Bytes))) (left : Option (List Bytes))
        → transaction_check_revdeps fnmatch pkgs vpkgd ignored pkgdb m known ≡ some (left, true, k)
        → length (elements left) ≤ length m
        → All (Unbroken known) pkgs
    unfolding transaction_check_revdeps
    transaction_check_revdeps-Unbroken m known k left h small =
        elim (Option-cases (transaction_loop fnmatch pkgs vpkgd ignored pkgdb pkgs m known)) [
          | inl e ↦ absurd (cc (rw (transaction_check_revdeps, e) at h))
          | inr (p, e) ↦
              let (same, (up, all)) = transaction_loop-Passed pkgs m known known p (inl refl) e in
              let Result : Type 0 = Option (List Bytes) × Bool × Option (Dict (List Bytes)) in
              let it : some (if p.0.1 && length p.0.0 == 0 then none else some p.0.0, p.0.1, p.1)
                  ≡ some (left, true, k) =
                rw (transaction_check_revdeps, e) at h in
              let on : p.0.1 ≡ true = cc it in
              let kept : (if p.0.1 && length p.0.0 == 0 then none else some p.0.0) ≡ left = cc it in
              elim (Bool-cases (length p.0.0 == 0)) [
                | inl z ↦ all (ground arith) on
                | inr z ↦
                    let is : some p.0.0 ≡ left = rw (on, z) at kept in all (rw (sym is) at small) on
              ]
        ]
