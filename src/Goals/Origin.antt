-- ===== src/Goals/Origin.antt =====
-- Where the packages that `trans_find_pkg` chooses come from: the installed one from the database,
-- the other one from the repositories.
use flappy.Base.{
  ℕ, ◌≡◌, sym, ap, ◌∙◌, Bool, true, false, ◌⊎◌, inl, inr, Option, none, some, if◌then◌else◌, Bytes,
  Bool-cases, Option-cases,
}
use flappy.Pkgver.{pkg_name}
use flappy.Arrays.{name_size}
use flappy.Dicts.{Dict, Pkgd, PkgDict}
use flappy.Find.{Found, found, missing, pkgdb_get_pkg, pkgdb_get_virtualpkg}
use flappy.Find.First.{Found-cases}
use flappy.Conflicts.{trans_update, trans_install}
use flappy.Goals.{trans_reinstall, RepoPool, chosen, chosen_or, choose_repo, choose_virtual, choose}

-- The search ends without a package.
abbrev pub IsMissing : Option Found → Type 0
IsMissing o = (errno : Option ℕ) × (o ≡ some (missing errno))

-- The name of a pkgver, and any other text itself.
abbrev pub sought : Bytes → Bytes
sought pkg = elim (pkg_name name_size pkg) [ some name ↦ name | none ↦ pkg ]

module _ (fnmatch : Bytes → Bytes → ℕ → Bool) (vpkgd : Dict (Dict Bytes)) {R : Type 0}
    (repos : RepoPool R) (pkgdb : PkgDict) (pool : R) where
  -- The pool has `d` for this text, or has no real package for it and `d` as a virtual one.
  abbrev pub InPool : Bytes → Pkgd → Type 0
  InPool pkg d =
      (repos.get_pkg pool pkg ≡ some (found d))
      ⊎ (IsMissing (repos.get_pkg pool pkg) × (repos.get_virtualpkg pool pkg ≡ some (found d)))

  -- For the installed `q`: the pool has `d` for this text, or, if `q` is locked to its repository,
  -- that repository has it.
  abbrev pub Replaces : Pkgd → Bytes → Pkgd → Type 0
  Replaces q pkg d =
      ((q.repolock ≡ false) × (repos.get_pkg pool pkg ≡ some (found d)))
      ⊎ ((q.repolock ≡ true)
          × ((url : Bytes) × (q.repository ≡ some url)
              × (repos.has_repo pool url ≡ true)
              × (repos.get_from pool url pkg ≡ some (found d))))

  -- The database has no real package of that name.
  abbrev pub NotReal : Bytes → Type 0
  NotReal pkg = IsMissing (pkgdb_get_pkg fnmatch pkgdb (sought pkg))

  -- The search of the database for a virtual package of that name.
  abbrev pub virtual_pkg : Bytes → Option Found
  virtual_pkg pkg = pkgdb_get_virtualpkg fnmatch vpkgd pkgdb (sought pkg)

  -- No installed package is taken: one is installed, but the packages are only downloaded; or none
  -- is, and no virtual package either, or the pool has a real package for the text. Otherwise the
  -- installed package is taken, or, if none is, the installed virtual one, of which the name is then
  -- looked for, provided that the pool has no real package for the text.
  abbrev pub Origin : Bool → Bytes → Option Pkgd → Pkgd → Type 0
  Origin dl pkg p d =
      ((p ≡ none)
        × (((q : Pkgd) × (pkgdb_get_pkg fnmatch pkgdb (sought pkg) ≡ some (found q)) × (dl ≡ true))
            ⊎ (NotReal pkg
                × (IsMissing (virtual_pkg pkg)
                    ⊎ ((e : Pkgd) × (repos.get_pkg pool pkg ≡ some (found e))))))
        × InPool pkg d)
      ⊎ ((q : Pkgd) × (p ≡ some q)
          × (((dl ≡ false)
                × (pkgdb_get_pkg fnmatch pkgdb (sought pkg) ≡ some (found q))
                × Replaces q pkg d)
              ⊎ (NotReal pkg
                  × (virtual_pkg pkg ≡ some (found q))
                  × IsMissing (repos.get_pkg pool pkg)
                  × ((name : Bytes) × (q.pkgname ≡ some name) × Replaces q name d))))

  chosen_or-found :
      (p q : Option Pkgd) (t u : ℕ) (o : Option Found) (d : Pkgd)
      → chosen_or fnmatch vpkgd repos pkgdb p t o ≡ some (chosen q d u)
      → (p ≡ q) × (o ≡ some (found d))
  chosen_or-found p q t u o d h = elim (Option-cases o) [
    | inl e ↦ absurd (cc (rw e at h))
    | inr (f, e) ↦ elim (Found-cases f) [
      | inl (x, k) ↦
          let it : some (chosen p x t) ≡ some (chosen q d u) = rw (e, k) at h in
          let is : x ≡ d = cc it in (cc it, e ∙ ap some (k ∙ ap found is))
      | inr (errno, k) ↦ absurd (cc (rw (e, k) at h))
    ]
  ]

  choose_repo-none :
      (p : Option Pkgd) (pkg : Bytes) (force : Bool) (d : Pkgd) (t : ℕ)
      → choose_repo fnmatch vpkgd repos pkgdb pool none pkg force ≡ some (chosen p d t)
      → (p ≡ none) × InPool pkg d
  unfolding choose_repo
  choose_repo-none p pkg force d t h = elim (Option-cases (repos.get_pkg pool pkg)) [
    | inl e ↦ absurd (cc (rw (choose_repo, e) at h))
    | inr (f, e) ↦ elim (Found-cases f) [
      | inl (x, k) ↦
          let it : some (chosen none x trans_install) ≡ some (chosen p d t) =
            rw (choose_repo, e, k) at h in
          let is : x ≡ d = cc it in (sym (cc it), inl (e ∙ ap some (k ∙ ap found is)))
      | inr (errno, k) ↦
          let (same, there) =
            chosen_or-found none p trans_install t (repos.get_virtualpkg pool pkg) d
              (rw (choose_repo, e, k) at h) in
          (sym same, inr ((errno, e ∙ ap some k), there))
    ]
  ]

  choose_repo-some :
      (i : Pkgd) (p : Option Pkgd) (pkg : Bytes) (force : Bool) (d : Pkgd) (t : ℕ)
      → choose_repo fnmatch vpkgd repos pkgdb pool (some i) pkg force ≡ some (chosen p d t)
      → (p ≡ some i) × Replaces i pkg d
  unfolding choose_repo
  choose_repo-some i p pkg force d t h =
      let ttype : ℕ = if force then trans_reinstall else trans_update in
      elim (Bool-cases i.repolock) [
        | inr e ↦
            let (same, there) =
              chosen_or-found (some i) p ttype t (repos.get_pkg pool pkg) d
                (rw (choose_repo, e) at h) in
            (sym same, inl (e, there))
        | inl e ↦ elim (Option-cases i.repository) [
          | inl k ↦ absurd (cc (rw (choose_repo, e, k) at h))
          | inr (url, k) ↦ elim (Bool-cases (repos.has_repo pool url)) [
            | inl z ↦
                let (same, there) =
                  chosen_or-found (some i) p ttype t (repos.get_from pool url pkg) d
                    (rw (choose_repo, e, k, z) at h) in
                (sym same, inr (e, (url, k, z, there)))
            | inr z ↦ absurd (cc (rw (choose_repo, e, k, z) at h))
          ]
        ]
      ]

  -- With the installed virtual package, where no real one is installed.
  choose_virtual-Origin :
      (dl : Bool) (i : Pkgd) (p : Option Pkgd) (pkg : Bytes) (force : Bool) (d : Pkgd) (t : ℕ)
      → NotReal pkg
      → virtual_pkg pkg ≡ some (found i)
      → choose_virtual fnmatch vpkgd repos pkgdb pool (some i) pkg force ≡ some (chosen p d t)
      → Origin dl pkg p d
  unfolding choose_virtual
  choose_virtual-Origin dl i p pkg force d t real virtual h =
      elim (Option-cases (repos.get_pkg pool pkg)) [
        | inl e ↦ absurd (cc (rw (choose_virtual, e) at h))
        | inr (f, e) ↦ elim (Found-cases f) [
          | inl (x, k) ↦
              let (same, there) =
                choose_repo-none p pkg force d t (rw (choose_virtual, e, k) at h) in
              inl (same, inr (real, inr (x, e ∙ ap some k)), there)
          | inr (errno, k) ↦ elim (Option-cases i.pkgname) [
            | inl z ↦ absurd (cc (rw (choose_virtual, e, k, z) at h))
            | inr (name, z) ↦
                let (same, there) =
                  choose_repo-some i p name force d t (rw (choose_virtual, e, k, z) at h) in
                inr (i, same, inr (real, virtual, (errno, e ∙ ap some k), (name, z, there)))
          ]
        ]
      ]

  pub choose-Origin :
      (dl : Bool) (pkg : Bytes) (force : Bool) (p : Option Pkgd) (d : Pkgd) (t : ℕ)
      → choose fnmatch vpkgd repos pkgdb dl pool pkg force ≡ some (chosen p d t)
      → Origin dl pkg p d
  unfolding choose choose_virtual
  choose-Origin dl pkg force p d t h =
      elim (Option-cases (pkgdb_get_pkg fnmatch pkgdb (sought pkg))) [
        | inl e ↦ absurd (cc (rw (choose, e) at h))
        | inr (f, e) ↦ elim (Found-cases f) [
          | inl (x, k) ↦ elim (Bool-cases dl) [
            | inl z ↦
                let (same, there) = choose_repo-none p pkg force d t (rw (choose, e, k, z) at h) in
                inl (same, inl (x, e ∙ ap some k, z), there)
            | inr z ↦
                let (same, there) =
                  choose_repo-some x p pkg force d t (rw (choose, e, k, z) at h) in
                inr (x, same, inl (z, e ∙ ap some k, there))
          ]
          | inr (errno, k) ↦
              let real : NotReal pkg = (errno, e ∙ ap some k) in
              elim (Option-cases (virtual_pkg pkg)) [
                | inl z ↦ absurd (cc (rw (choose, e, k, z) at h))
                | inr (g, z) ↦ elim (Found-cases g) [
                  | inl (x, y) ↦
                      choose_virtual-Origin dl x p pkg force d t real (z ∙ ap some y)
                        (rw (choose, e, k, z, y) at h)
                  | inr (errno', y) ↦
                      let (same, there) =
                        choose_repo-none p pkg force d t (rw (choose, e, k, z, y) at h) in
                      inl (same, inr (real, inl (errno', z ∙ ap some y)), there)
                ]
              ]
        ]
      ]
