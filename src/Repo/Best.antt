-- ===== src/Repo/Best.antt =====
-- The best version of a package that the repositories of the pool offer.
use flappy.Base.{
  subst, ℕ, ◌≡◌, ◌≢◌, refl, sym, ap, ◌∙◌, Bool, true, false, inl, inr, List, [], ◌∷◌, Option, none,
  some, ◌>>=◌, Bytes, Option-cases, All, Any,
}
use flappy.PkgPath.{enoent}
use flappy.Dewey.Compare.Order.{IsVersion}
use flappy.Dicts.{Pkgd}
use flappy.Find.{Found, found, missing}
use flappy.Repo.{Repo, Pool, Conf, Fpkg, best_pkg, repo_find_pkg, rpool_foreach}
use flappy.Repo.Served.{served, IsPool, KeepsUri, run}
use flappy.Repo.Foreach.{outcome, rpool_foreach-run}
use flappy.Repo.Version.{NotAbove-self, NotAbove-trans, IsRead, NotAbove}
use flappy.Repo.Improves.{Improves-step, IsAnswer, Offers, Answers, cb, Improves}

-- The result without the pool.
abbrev pub found_in : Option (Pool × Found) → Option Found
found_in r = r >>= λ x. some x.1

module _ (fnmatch : Bytes → Bytes → ℕ → Bool) (conf : Conf) (errno : Repo → ℕ)
    (pattern : Bytes) where
  Offers-IsRead :
      (repo : Repo) (q : Pkgd)
      → Answers fnmatch conf errno pattern repo
      → Offers fnmatch conf errno pattern repo q
      → (v : Bytes) × (q.pkgver ≡ some v) × IsVersion v
  Offers-IsRead repo q (found p, e, ans) o =
      let same : p ≡ q = cc (e, o) in
      subst (λ x. IsAnswer fnmatch conf errno pattern repo (found x)) same ans
  Offers-IsRead repo q (missing s, e, ans) o = absurd (cc (e, o))

  Improves-trans :
      (a b c : Fpkg) (repo : Repo) (repos : List Repo)
      → IsRead a.bestpkgver
      → Answers fnmatch conf errno pattern repo
      → Improves fnmatch conf errno pattern a b (repo ∷ [])
      → Improves fnmatch conf errno pattern b c repos
      → Improves fnmatch conf errno pattern a c (repo ∷ repos)
  Improves-trans a b c repo repos ra ans ab bc = record {
    source = elim bc.source [
      | inl same ↦ elim ab.source [
        | inl first ↦ inl (same ∙ first)
        | inr (p, is, inl o) ↦ inr (p, same ∙ is, inl o)
        | inr (p, is, inr o) ↦ absurd o
      ]
      | inr (p, is, o) ↦ inr (p, is, inr o)
    ];
    read = bc.read;
    keeps =
        NotAbove-trans a.bestpkgver b.bestpkgver c.bestpkgver ra ab.read bc.read ab.keeps bc.keeps;
    tops = (
      λ q o.
          let (v, is, reads) = Offers-IsRead repo q ans o in
          NotAbove-trans q.pkgver b.bestpkgver c.bestpkgver (subst IsRead (sym is) reads) ab.read
            bc.read (ab.tops.0 q o) bc.keeps,
      bc.tops,
    );
  }

  run-Improves :
      (repos : List Repo) (rpf : Fpkg)
      → All (Answers fnmatch conf errno pattern) repos
      → IsRead rpf.bestpkgver
      → (rpf' : Fpkg) × (run (cb fnmatch conf errno pattern) repos true rpf ≡ some (0, rpf'))
        × Improves fnmatch conf errno pattern rpf rpf' repos
  unfolding run
  run-Improves [] rpf all ok = (
    rpf,
    refl,
    record { source = inl refl; read = ok; keeps = NotAbove-self rpf.bestpkgver ok; tops = tt },
  )
  run-Improves (repo ∷ repos) rpf all ok =
      let (b, now, ab) = Improves-step fnmatch conf errno pattern repo rpf all.0 ok in
      let (c, rest, bc) = run-Improves repos b all.1 ab.read in
      (c, rw (now, rest) refl, Improves-trans rpf b c repo repos ok all.0 ab bc)

  -- The package that is found, for a list of repositories.
  abbrev pub IsBest : List Repo → Found → Type 0
  IsBest repos (found p) =
      Any (λ r. Offers fnmatch conf errno pattern r p) repos
      × All (λ r. (q : Pkgd) → Offers fnmatch conf errno pattern r q → NotAbove q.pkgver p.pkgver)
          repos
  IsBest repos (missing set) =
      (set ≡ some enoent) × All (λ r. (q : Pkgd) → ¬ Offers fnmatch conf errno pattern r q) repos

  -- Where there is no package, no repository offers one.
  Offers-none :
      (repos : List Repo)
      → All (Answers fnmatch conf errno pattern) repos
      → All (λ r. (q : Pkgd) → Offers fnmatch conf errno pattern r q → NotAbove q.pkgver none) repos
      → All (λ r. (q : Pkgd) → ¬ Offers fnmatch conf errno pattern r q) repos
  Offers-none [] all tops = tt
  Offers-none (repo ∷ repos) all tops = (
    λ q o.
        let (v, is, reads) = Offers-IsRead repo q all.0 o in
        subst (λ b. NotAbove b none) is (tops.0 q o),
    Offers-none repos all.1 tops.1,
  )

  abbrev nothing : Fpkg
  nothing = record { pkgd = none; bestpkgver = none }

  abbrev answer : Fpkg → Found
  answer rpf = elim rpf.pkgd [ none ↦ missing (some enoent) | some pkgd ↦ found pkgd ]

  IsBest-answer :
      (repos : List Repo) (rpf : Fpkg)
      → All (Answers fnmatch conf errno pattern) repos
      → Improves fnmatch conf errno pattern nothing rpf repos
      → IsBest repos (answer rpf)
  IsBest-answer repos rpf all better = elim better.source [
    | inl same ↦
        let tops =
          subst
            (λ f.
              All
                (λ r.
                  (q : Pkgd)
                  → Offers fnmatch conf errno pattern r q
                  → NotAbove q.pkgver f.bestpkgver)
                repos)
            same better.tops in
        subst (λ f. IsBest repos (answer f)) (sym same) (refl, Offers-none repos all tops)
    | inr (p, is, offered) ↦
        let tops =
          subst
            (λ f.
              All
                (λ r.
                  (q : Pkgd)
                  → Offers fnmatch conf errno pattern r q
                  → NotAbove q.pkgver f.bestpkgver)
                repos)
            is better.tops in
        subst (λ f. IsBest repos (answer f)) (sym is) (offered, tops)
  ]

  run-Improves-some :
      (repos : List Repo)
      → repos ≢ []
      → All (Answers fnmatch conf errno pattern) repos
      → (rpf : Fpkg) × (run (cb fnmatch conf errno pattern) repos false nothing ≡ some (0, rpf))
        × Improves fnmatch conf errno pattern nothing rpf repos
  unfolding run
  run-Improves-some [] any all = absurd (any refl)
  run-Improves-some (repo ∷ repos) any all = run-Improves (repo ∷ repos) nothing all tt

  -- What is made of the result of `flappy_rpool_foreach`.
  repo_find_pkg-outcome :
      (open_repo : Bytes → Option Repo) (pool : Pool) (rpf : Fpkg)
      → outcome (rpool_foreach open_repo (cb fnmatch conf errno pattern) pool nothing)
        ≡ some (0, rpf)
      → found_in (repo_find_pkg fnmatch conf open_repo errno pool pattern best_pkg)
        ≡ some (answer rpf)
  unfolding repo_find_pkg
  repo_find_pkg-outcome open_repo pool rpf e =
      elim (Option-cases (rpool_foreach open_repo (cb fnmatch conf errno pattern) pool nothing)) [
        | inl none_ ↦ absurd (cc (rw none_ at e))
        | inr ((pool', rv, rpf'), is) ↦
            let both : some (rv, rpf') ≡ some (0, rpf) = rw is at e in
            let zero_ : rv ≡ 0 = cc both in
            let same : rpf' ≡ rpf = cc both in rw (is, zero_) (ap (λ f. some (answer f)) same)
      ]

  -- `repo_find_pkg` with BEST_PKG, on a pool whose queue holds what the URIs are opened as, where a
  -- repository that is opened has its URI and one of the pool can be opened; where the search of
  -- each of these finds a package with a version shorter than 2^30 bytes and without numbers of more
  -- than nine digits, or finds nothing, with errno 0 or ENOENT: it returns. It finds nothing, with
  -- ENOENT, where no repository has a package, and else a package of a repository that no package
  -- that a repository has is above by `flappy_cmpver`.
  pub repo_find_pkg-IsBest :
      (open_repo : Bytes → Option Repo) (pool : Pool)
      → KeepsUri open_repo
      → IsPool open_repo pool
      → served open_repo pool.repositories ≢ []
      → All (Answers fnmatch conf errno pattern) (served open_repo pool.repositories)
      → (f : Found) × (found_in (repo_find_pkg fnmatch conf open_repo errno pool pattern best_pkg)
          ≡ some f)
        × IsBest (served open_repo pool.repositories) f
  repo_find_pkg-IsBest open_repo pool keeps ok any all =
      let (rpf, e, better) = run-Improves-some (served open_repo pool.repositories) any all in
      let (v, kept) =
        rpool_foreach-run open_repo keeps (cb fnmatch conf errno pattern) pool nothing ok in
      (
        answer rpf,
        repo_find_pkg-outcome open_repo pool rpf (v ∙ e),
        IsBest-answer (served open_repo pool.repositories) rpf all better,
      )
