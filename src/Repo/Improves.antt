-- ===== src/Repo/Improves.antt =====
-- What `find_best_pkg_cb` does to the best package so far.
use flappy.Base.{
  subst, ℕ, ◌≡◌, ◌≢◌, refl, sym, Bool, false, ◌⊎◌, inl, inr, List, [], ◌∷◌, Option, none, some,
  Bytes, Option-cases, All, Any,
}
use flappy.PkgPath.{enoent}
use flappy.Dewey.Compare.{Sign, less, equal, greater, cmpver}
use flappy.Dewey.Compare.Order.{IsVersion}
use flappy.Dicts.{Pkgd}
use flappy.Find.{Found, found, missing}
use flappy.Repo.{Repo, Conf, Fpkg, best_of, repo_get_pkg, find_best_pkg_cb}
use flappy.Repo.Version.{cmpver-greater, NotAbove-same, NotAbove-self, NotAbove, IsRead, quiet}

module _ (fnmatch : Bytes → Bytes → ℕ → Bool) (conf : Conf) (errno : Repo → ℕ)
    (pattern : Bytes) where
  -- The repository has this package for the pattern.
  abbrev pub Offers : Repo → Pkgd → Type 0
  Offers repo p = repo_get_pkg fnmatch conf repo pattern ≡ some (found p)

  -- The search of the repository finds a package with a version, or nothing, with an errno that
  -- stands for just that.
  abbrev pub IsAnswer : Repo → Found → Type 0
  IsAnswer repo (found p) = (v : Bytes) × (p.pkgver ≡ some v) × IsVersion v
  IsAnswer repo (missing (some e)) = (e ≡ 0) ⊎ (e ≡ enoent)
  IsAnswer repo (missing none) = (errno repo ≡ 0) ⊎ (errno repo ≡ enoent)

  abbrev pub Answers : Repo → Type 0
  Answers repo = (f : Found) × (repo_get_pkg fnmatch conf repo pattern ≡ some f) × IsAnswer repo f

  -- What the search does to the best package so far.
  pub record Improves (rpf rpf' : Fpkg) (repos : List Repo) : Type 0 where
    pub source : (rpf' ≡ rpf) ⊎ ((p : Pkgd) × (rpf' ≡ best_of p) × Any (λ r. Offers r p) repos)
    pub read : IsRead rpf'.bestpkgver
    pub keeps : NotAbove rpf.bestpkgver rpf'.bestpkgver
    pub tops : All (λ r. (q : Pkgd) → Offers r q → NotAbove q.pkgver rpf'.bestpkgver) repos

  abbrev pub cb : Repo → Fpkg → Option (ℕ × Bool × Fpkg)
  cb = find_best_pkg_cb fnmatch conf errno pattern

  answered :
      (repo : Repo) (rpf : Fpkg) (set : Option ℕ)
      → repo_get_pkg fnmatch conf repo pattern ≡ some (missing set)
      → IsAnswer repo (missing set)
      → cb repo rpf ≡ some (0, false, rpf)
  unfolding find_best_pkg_cb
  answered repo rpf none e ans = rw (find_best_pkg_cb, e, quiet (errno repo) ans) refl
  answered repo rpf (some n) e ans = rw (find_best_pkg_cb, e, quiet n ans) refl

  Improves-missing :
      (repo : Repo) (rpf : Fpkg) (set : Option ℕ)
      → repo_get_pkg fnmatch conf repo pattern ≡ some (missing set)
      → IsAnswer repo (missing set)
      → IsRead rpf.bestpkgver
      → (cb repo rpf ≡ some (0, false, rpf)) × Improves rpf rpf (repo ∷ [])
  unfolding find_best_pkg_cb
  Improves-missing repo rpf set e ans ok = (
    answered repo rpf set e ans,
    record {
      source = inl refl;
      read = ok;
      keeps = NotAbove-self rpf.bestpkgver ok;
      tops = (λ q o. absurd (cc (e, o)), tt);
    },
  )

  stays :
      (repo : Repo) (rpf : Fpkg) (p : Pkgd) (v w : Bytes) (s : Sign)
      → repo_get_pkg fnmatch conf repo pattern ≡ some (found p)
      → p.pkgver ≡ some v
      → rpf.bestpkgver ≡ some w
      → cmpver v w ≡ some s
      → s ≢ greater
      → cb repo rpf ≡ some (0, false, rpf)
  unfolding find_best_pkg_cb
  stays repo rpf p v w greater e is last sign other = absurd (other refl)
  stays repo rpf p v w less e is last sign other = simp (find_best_pkg_cb, e, last, is, sign)
  stays repo rpf p v w equal e is last sign other = simp (find_best_pkg_cb, e, last, is, sign)

  Improves-found :
      (repo : Repo) (rpf : Fpkg) (p : Pkgd)
      → repo_get_pkg fnmatch conf repo pattern ≡ some (found p)
      → IsAnswer repo (found p)
      → IsRead rpf.bestpkgver
      → (rpf' : Fpkg) × (cb repo rpf ≡ some (0, false, rpf')) × Improves rpf rpf' (repo ∷ [])
  unfolding find_best_pkg_cb
  Improves-found repo rpf p e (v, is, reads) ok = elim (Option-cases rpf.bestpkgver) [
    | inl first ↦ (
      best_of p,
      rw (find_best_pkg_cb, e, first) refl,
      record {
        source = inr (p, refl, inl e);
        read = subst IsRead (sym is) reads;
        keeps = subst (λ b. NotAbove b p.pkgver) (sym first) tt;
        tops = (λ q o. NotAbove-same q p (cc (e, o)) (subst IsRead (sym is) reads), tt);
      },
    )
    | inr (w, last) ↦
        let readw : IsVersion w = subst IsRead last ok in
        elim (cmpver-greater v w reads readw) [
          | inl (up, down) ↦ (
            best_of p,
            simp (find_best_pkg_cb, e, last, is, up),
            record {
              source = inr (p, refl, inl e);
              read = subst IsRead (sym is) reads;
              keeps = simp (last, is) down;
              tops = (λ q o. NotAbove-same q p (cc (e, o)) (subst IsRead (sym is) reads), tt);
            },
          )
          | inr (s, sign, other) ↦ (
            rpf,
            stays repo rpf p v w s e is last sign other,
            record {
              source = inl refl;
              read = ok;
              keeps = NotAbove-self rpf.bestpkgver ok;
              tops = (
                λ q o.
                    let same : p ≡ q = cc (e, o) in
                    let here : NotAbove p.pkgver rpf.bestpkgver =
                      simp (is, last) (λ g. other (cc (sign, g))) in
                    subst (λ x. NotAbove x.pkgver rpf.bestpkgver) same here,
                tt,
              );
            },
          )
        ]
  ]

  pub Improves-step :
      (repo : Repo) (rpf : Fpkg)
      → Answers repo
      → IsRead rpf.bestpkgver
      → (rpf' : Fpkg) × (cb repo rpf ≡ some (0, false, rpf')) × Improves rpf rpf' (repo ∷ [])
  Improves-step repo rpf (found p, e, ans) ok = Improves-found repo rpf p e ans ok
  Improves-step repo rpf (missing set, e, ans) ok =
      let (now, better) = Improves-missing repo rpf set e ans ok in (rpf, now, better)
