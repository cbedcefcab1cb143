-- ===== src/Goals/Update/Kept.antt =====
-- An update of all packages that finds nothing leaves the queue as it was.
use flappy.Base.{
  ℕ, ◌≡◌, ◌≢◌, refl, sym, ap, ◌∙◌, subst, Bool, true, false, ◌||◌, ◌⊎◌, inl, inr, List, [], ◌∷◌,
  Option, some, ◌==◌, if◌then◌else◌, arith, Bytes, codes, Bool-cases, Option-cases,
}
use flappy.Pkgver.{pkg_name}
use flappy.Arrays.{name_size}
use flappy.PkgPath.{einval}
use flappy.Dicts.{Dict, Pkgd, PkgDict}
use flappy.Find.{pkgdb_get_pkg, pkgdb_get_virtualpkg}
use flappy.Find.First.{Found-cases}
use flappy.Goals.{eexist, RepoPool, packages, trans_find_pkg}
use flappy.Goals.Refused.{trans_find_pkg-Same}
use flappy.Goals.Update.{
  ebusy, is_no_update, Session, Autoupdate, updates, no_update, fails, invalid, goal, revdeps_of,
  revdeps_goals, autoupdate_with, autoupdate, update_loop, update_all, transaction_update_packages,
}

-- The packages of the transaction.
abbrev pub queue : {R : Type 0} → Session R → List Pkgd
queue s = packages s.world.1

Autoupdate-cases :
    (a : Autoupdate) → (a ≡ updates) ⊎ ((a ≡ no_update) ⊎ ((a ≡ fails) ⊎ (a ≡ invalid)))
Autoupdate-cases updates = inl refl
Autoupdate-cases no_update = inr (inl refl)
Autoupdate-cases fails = inr (inr (inl refl))
Autoupdate-cases invalid = inr (inr (inr refl))

not_zero : (a : ℕ) → (a == 0) ≡ false → a ≢ 0
not_zero a h e = ground arith

kept_code : (a : ℕ) → (if is_no_update a then 0 else a) ≢ eexist
kept_code a h = ground arith

or_false : (a b : Bool) → (a || b) ≡ false → (a ≡ false) × (b ≡ false)
or_false true b h = absurd (cc h)
or_false false b h = (refl, h)

module _ (fnmatch : Bytes → Bytes → ℕ → Bool) (vpkgd : Dict (Dict Bytes)) {R : Type 0}
    (repos : RepoPool R) (pkgdb : PkgDict) (dl auto : Bool) where
  goal-queue :
      (s : Session R) (pkg : Bytes) (force : Bool) (r : ℕ × Session R)
      → goal fnmatch vpkgd repos pkgdb dl auto s pkg force ≡ some r
      → r.0 ≢ 0
      → queue r.1 ≡ queue s
  unfolding goal
  goal-queue s pkg force r h code =
      elim (Option-cases (trans_find_pkg fnmatch vpkgd repos pkgdb dl auto s.world pkg force)) [
        | inl e ↦ absurd (cc (rw (goal, e) at h))
        | inr (w, e) ↦
            let it : some (w.0, record s { world = w.1 }) ≡ some r = rw (goal, e) at h in
            let is : (w.0, record s { world = w.1 }) ≡ r = cc it in
            let code' : w.0 ≢ 0 = λ z. code (sym (ap (λ x. x.0) is) ∙ z) in
            sym (ap (λ x. queue x.1) is)
            ∙ trans_find_pkg-Same fnmatch vpkgd repos pkgdb dl auto s.world.0 s.world.1 pkg force w
                e code'
      ]

  -- Where no update is found, the queue is as it was; and the code is not EEXIST.
  update_loop-queue :
      (l : PkgDict) (newpkg : Bool) (rv : ℕ) (s : Session R) (r : Bool × ℕ × Session R)
      → update_loop fnmatch vpkgd repos pkgdb dl auto l newpkg rv s ≡ some r
      → rv ≢ eexist
      → (r.1 ≢ eexist) × (r.0 ≡ false → (newpkg ≡ false) × (queue r.2 ≡ queue s))
  unfolding update_loop
  update_loop-queue [] newpkg rv s r h code =
      let is : ◌≡◌ {A = Bool × ℕ × Session R} (newpkg, rv, s) r = cc h in
      (
        λ e. code (ap (λ x. x.1) is ∙ e),
        λ off. (ap (λ x. x.0) is ∙ off, sym (ap (λ x. queue x.2) is)),
      )
  update_loop-queue ((key, d) ∷ l) newpkg rv s r h code = elim (Option-cases d.pkgver) [
    | inl e ↦ update_loop-queue l newpkg rv s r (rw (update_loop, e) at h) code
    | inr (v, e) ↦ elim (Option-cases (pkg_name name_size v)) [
      | inl k ↦
          let it : ◌≡◌ {A = Option (Bool × ℕ × Session R)} (some (newpkg, einval, s)) (some r) =
            rw (update_loop, e, k) at h in
          let is : ◌≡◌ {A = Bool × ℕ × Session R} (newpkg, einval, s) r = cc it in
          (
            λ z. let bad : ◌≡◌ {A = ℕ} einval eexist = ap (λ x. x.1) is ∙ z in absurd (omega arith),
            λ off. (ap (λ x. x.0) is ∙ off, sym (ap (λ x. queue x.2) is)),
          )
      | inr (n, k) ↦ elim (Option-cases (goal fnmatch vpkgd repos pkgdb dl auto s n false)) [
        | inl z ↦ absurd (cc (rw (update_loop, e, k, z) at h))
        | inr (g, z) ↦
            let (other, rest) =
              update_loop-queue l (newpkg || g.0 == 0) (if is_no_update g.0 then 0 else g.0) g.1 r
                (rw (update_loop, e, k, z) at h) (kept_code g.0) in
            (
              other,
              λ off.
                  let (none_new, same) = rest off in
                  let (a, b) = or_false newpkg (g.0 == 0) none_new in
                  (a, same ∙ goal-queue s n false g z (not_zero g.0 b)),
            )
      ]
    ]
  ]

  update_all-queue :
      (rv : ℕ) (s : Session R) (r : ℕ × Session R)
      → update_all fnmatch vpkgd repos pkgdb dl auto rv s ≡ some r
      → rv ≢ eexist
      → r.0 ≡ eexist
      → queue r.1 ≡ queue s
  unfolding update_all
  update_all-queue rv s r h code ends =
      elim (Option-cases (update_loop fnmatch vpkgd repos pkgdb dl auto pkgdb false rv s)) [
        | inl e ↦ absurd (cc (rw (update_all, e) at h))
        | inr (u, e) ↦
            let (other, same) = update_loop-queue pkgdb false rv s u e code in
            let it : some (if u.0 then u.1 else eexist, u.2) ≡ some r = rw (update_all, e) at h in
            let is : (if u.0 then u.1 else eexist, u.2) ≡ r = cc it in
            elim (Bool-cases u.0) [
              | inl z ↦
                  let now : (if u.0 then u.1 else eexist) ≡ eexist = ap (λ x. x.0) is ∙ ends in
                  absurd (other (rw z at now))
              | inr z ↦ sym (ap (λ x. queue x.1) is) ∙ (same z).1
            ]
      ]

  -- Without an update, the queue is as it was.
  abbrev Quiet : Session R → Autoupdate × Session R → Type 0
  Quiet s a = (a.0 ≡ no_update) ⊎ (a.0 ≡ invalid) → queue a.1 ≡ queue s

  answers :
      (s s' : Session R) (a : Autoupdate) (r : Autoupdate × Session R)
      → some (a, s') ≡ some r
      → ((a ≡ no_update) ⊎ (a ≡ invalid) → queue s' ≡ queue s)
      → Quiet s r
  answers s s' a r h holds = let is : (a, s') ≡ r = cc h in subst (Quiet s) is holds

  not_quiet : (a : Autoupdate) → (a ≡ updates) ⊎ (a ≡ fails) → ¬ ((a ≡ no_update) ⊎ (a ≡ invalid))
  not_quiet a (inl e) (inl f) = cc (e, f)
  not_quiet a (inl e) (inr f) = cc (e, f)
  not_quiet a (inr e) (inl f) = cc (e, f)
  not_quiet a (inr e) (inr f) = cc (e, f)

  autoupdate_with-Quiet :
      (s : Session R) (d : Pkgd) (a : Autoupdate × Session R)
      → dl ≡ false
      → autoupdate_with fnmatch vpkgd repos pkgdb dl auto s d ≡ some a
      → Quiet s a
  unfolding autoupdate_with
  autoupdate_with-Quiet s d a plain h = elim (Option-cases d.pkgver) [
    | inl e ↦ answers s s invalid a (rw (autoupdate_with, e) at h) (λ _. refl)
    | inr (v, e) ↦ elim (Option-cases d.pkgname) [
      | inl k ↦ answers s s invalid a (rw (autoupdate_with, e, k) at h) (λ _. refl)
      | inr (n, k) ↦ elim (Option-cases (goal fnmatch vpkgd repos pkgdb dl auto s n false)) [
        | inl z ↦ absurd (cc (rw (autoupdate_with, e, k, z) at h))
        | inr (g, z) ↦ elim (Bool-cases (g.0 == 0)) [
          | inr y ↦
              answers s g.1 (if is_no_update g.0 then no_update else fails) a
                (rw (autoupdate_with, e, k, z, y) at h)
                (λ _. goal-queue s n false g z (not_zero g.0 y))
          | inl y ↦
              elim (Option-cases
                (revdeps_of fnmatch vpkgd repos pkgdb false auto g.1 (codes "flappy"))) [
                  | inl x ↦ absurd (cc (rw (autoupdate_with, e, k, z, y, plain, x) at h))
                  | inr (l, x) ↦
                      elim (Option-cases
                        (revdeps_goals fnmatch vpkgd repos pkgdb false auto l.0 l.1)) [
                          | inl w ↦ absurd (cc (rw (autoupdate_with, e, k, z, y, plain, x, w) at h))
                          | inr (m, w) ↦ elim (Option-cases m.0) [
                            | inr (rv, q) ↦
                                answers s m.1 fails a
                                  (rw (autoupdate_with, e, k, z, y, plain, x, w, q) at h)
                                  (λ c. absurd (not_quiet fails (inr refl) c))
                            | inl q ↦
                                answers s (record m.1 { force_remove = true }) updates a
                                  (rw (autoupdate_with, e, k, z, y, plain, x, w, q) at h)
                                  (λ c. absurd (not_quiet updates (inl refl) c))
                          ]
                        ]
                ]
        ]
      ]
    ]
  ]

  autoupdate-Quiet :
      (s : Session R) (a : Autoupdate × Session R)
      → dl ≡ false
      → autoupdate fnmatch vpkgd repos pkgdb dl auto s ≡ some a
      → Quiet s a
  unfolding autoupdate
  autoupdate-Quiet s a plain h =
      elim (Option-cases (pkgdb_get_pkg fnmatch pkgdb (codes "flappy"))) [
        | inl e ↦ absurd (cc (rw (autoupdate, e) at h))
        | inr (f, e) ↦ elim (Found-cases f) [
          | inl (d, k) ↦ autoupdate_with-Quiet s d a plain (rw (autoupdate, e, k) at h)
          | inr (errno, k) ↦
              elim (Option-cases (pkgdb_get_virtualpkg fnmatch vpkgd pkgdb (codes "flappy"))) [
                | inl z ↦ absurd (cc (rw (autoupdate, e, k, z) at h))
                | inr (g, z) ↦ elim (Found-cases g) [
                  | inl (d, y) ↦
                      autoupdate_with-Quiet s d a plain (rw (autoupdate, e, k, z, y) at h)
                  | inr (errno', y) ↦
                      answers s s no_update a (rw (autoupdate, e, k, z, y) at h) (λ _. refl)
                ]
              ]
        ]
      ]

  -- `flappy_transaction_update_packages` without FLAPPY_FLAG_DOWNLOAD_ONLY: where it returns EEXIST,
  -- the queue of the transaction is as it was.
  pub transaction_update_packages-queue :
      (s : Session R) (r : ℕ × Session R)
      → dl ≡ false
      → transaction_update_packages fnmatch vpkgd repos pkgdb dl auto s ≡ some r
      → r.0 ≡ eexist
      → queue r.1 ≡ queue s
  unfolding transaction_update_packages
  transaction_update_packages-queue s r plain h ends =
      elim (Option-cases (autoupdate fnmatch vpkgd repos pkgdb dl auto s)) [
        | inl e ↦ absurd (cc (rw (transaction_update_packages, e) at h))
        | inr (a, e) ↦
            let quiet = autoupdate-Quiet s a plain e in
            let coded : (c : ℕ) → c ≢ eexist → some (c, a.1) ≡ some r → queue r.1 ≡ queue s =
              λ c other it.
                let is : (c, a.1) ≡ r = cc it in absurd (other (ap (λ x. x.0) is ∙ ends)) in
            elim (Autoupdate-cases a.0) [
              | inl k ↦ coded ebusy (λ z. omega arith) (rw (transaction_update_packages, e, k) at h)
              | inr (inl k) ↦
                  update_all-queue 0 a.1 r (rw (transaction_update_packages, e, k) at h)
                    (λ z. omega arith) ends
                  ∙ quiet (inl k)
              | inr (inr (inl k)) ↦
                  coded einval (λ z. omega arith) (rw (transaction_update_packages, e, k) at h)
              | inr (inr (inr k)) ↦
                  update_all-queue einval a.1 r (rw (transaction_update_packages, e, k) at h)
                    (λ z. omega arith) ends
                  ∙ quiet (inr k)
            ]
      ]
