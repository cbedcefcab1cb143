-- ===== src/Goals/Choose.antt =====
-- What `trans_find_pkg` chooses: an update is newer than what is installed, or reverts it.
use flappy.Base.{
  ℕ, ◌≡◌, refl, sym, ap, ◌∙◌, subst, Bool, true, false, ◌⊎◌, inl, inr, Option, none, some,
  if◌then◌else◌, ◌>>=◌, Bytes, Bool-cases, Option-cases,
}
use flappy.Pkgver.{pkg_name}
use flappy.Dewey.Compare.{Sign, less, equal, greater, cmpver}
use flappy.Arrays.{name_size}
use flappy.Dicts.{Dict, Pkgd, PkgDict}
use flappy.Find.{Found, pkgdb_get_pkg, pkgdb_get_virtualpkg}
use flappy.Find.First.{Found-cases}
use flappy.Conflicts.{trans_install, trans_update}
use flappy.Goals.{
  trans_reinstall, RepoPool, pkg_reverts, Refusal, already_there, Choice, refused, chosen,
  compare_installed, chosen_or, choose_repo, choose_virtual, choose,
}

pub Choice-cases :
    (c : Choice)
    → ((rv : Refusal) × (c ≡ refused rv))
      ⊎ ((p : Option Pkgd) × (d : Pkgd) × (t : ℕ) × (c ≡ chosen p d t))
Choice-cases (refused rv) = inl (rv, refl)
Choice-cases (chosen p d t) = inr (p, d, t, refl)

-- The version of `d` is greater than that of the installed `p`, or `d` reverts that.
abbrev pub Newer : Pkgd → Pkgd → Type 0
Newer d p =
    (v : Bytes) × (w : Bytes) × (d.pkgver ≡ some v)
    × (p.pkgver ≡ some w)
    × ((cmpver v w ≡ some greater) ⊎ (pkg_reverts d w ≡ some true))

-- An installation of what is not installed, or a reinstallation or an update of what is.
abbrev pub Typed : Bool → Option Pkgd → ℕ → Type 0
Typed force p t =
    ((p ≡ none) × (t ≡ trans_install))
    ⊎ ((q : Pkgd) × (p ≡ some q) × (t ≡ (if force then trans_reinstall else trans_update)))

-- The same after the comparison of the versions.
abbrev pub Goal : Bool → Option Pkgd → Pkgd → ℕ → Type 0
Goal force p d t =
    ((p ≡ none) × (t ≡ trans_install))
    ⊎ ((q : Pkgd) × (p ≡ some q)
        × (((t ≡ trans_reinstall) × (force ≡ true)) ⊎ ((t ≡ trans_update) × Newer d q)))

module _ (fnmatch : Bytes → Bytes → ℕ → Bool) (vpkgd : Dict (Dict Bytes)) {R : Type 0}
    (repos : RepoPool R) (pkgdb : PkgDict) where
  chosen_or-chosen :
      (p q : Option Pkgd) (t u : ℕ) (o : Option Found) (d : Pkgd)
      → chosen_or fnmatch vpkgd repos pkgdb p t o ≡ some (chosen q d u)
      → (p ≡ q) × (t ≡ u)
  chosen_or-chosen p q t u o d h = elim (Option-cases o) [
    | inl e ↦ absurd (cc (rw e at h))
    | inr (f, e) ↦ elim (Found-cases f) [
      | inl (x, k) ↦
          let it : some (chosen p x t) ≡ some (chosen q d u) = rw (e, k) at h in (cc it, cc it)
      | inr (errno, k) ↦ absurd (cc (rw (e, k) at h))
    ]
  ]

  choose_repo-Typed :
      (pool : R) (i p : Option Pkgd) (pkg : Bytes) (force : Bool) (d : Pkgd) (t : ℕ)
      → choose_repo fnmatch vpkgd repos pkgdb pool i pkg force ≡ some (chosen p d t)
      → Typed force p t
  unfolding choose_repo
  choose_repo-Typed pool none p pkg force d t h = elim (Option-cases (repos.get_pkg pool pkg)) [
    | inl e ↦ absurd (cc (rw (choose_repo, e) at h))
    | inr (f, e) ↦ elim (Found-cases f) [
      | inl (x, k) ↦
          let it : some (chosen none x trans_install) ≡ some (chosen p d t) =
            rw (choose_repo, e, k) at h in
          inl (sym (cc it), sym (cc it))
      | inr (errno, k) ↦
          let (same, type) =
            chosen_or-chosen none p trans_install t (repos.get_virtualpkg pool pkg) d
              (rw (choose_repo, e, k) at h) in
          inl (sym same, sym type)
    ]
  ]
  choose_repo-Typed pool (some i) p pkg force d t h =
      let ttype : ℕ = if force then trans_reinstall else trans_update in
      elim (Bool-cases i.repolock) [
        | inr e ↦
            let (same, type) =
              chosen_or-chosen (some i) p ttype t (repos.get_pkg pool pkg) d
                (rw (choose_repo, e) at h) in
            inr (i, sym same, sym type)
        | inl e ↦ elim (Option-cases i.repository) [
          | inl k ↦ absurd (cc (rw (choose_repo, e, k) at h))
          | inr (url, k) ↦ elim (Bool-cases (repos.has_repo pool url)) [
            | inl z ↦
                let (same, type) =
                  chosen_or-chosen (some i) p ttype t (repos.get_from pool url pkg) d
                    (rw (choose_repo, e, k, z) at h) in
                inr (i, sym same, sym type)
            | inr z ↦ absurd (cc (rw (choose_repo, e, k, z) at h))
          ]
        ]
      ]

  choose_virtual-Typed :
      (pool : R) (i p : Option Pkgd) (pkg : Bytes) (force : Bool) (d : Pkgd) (t : ℕ)
      → choose_virtual fnmatch vpkgd repos pkgdb pool i pkg force ≡ some (chosen p d t)
      → Typed force p t
  unfolding choose_virtual
  choose_virtual-Typed pool none p pkg force d t h = choose_repo-Typed pool none p pkg force d t h
  choose_virtual-Typed pool (some i) p pkg force d t h =
      elim (Option-cases (repos.get_pkg pool pkg)) [
        | inl e ↦ absurd (cc (rw (choose_virtual, e) at h))
        | inr (f, e) ↦ elim (Found-cases f) [
          | inl (x, k) ↦
              choose_repo-Typed pool none p pkg force d t (rw (choose_virtual, e, k) at h)
          | inr (errno, k) ↦ elim (Option-cases i.pkgname) [
            | inl z ↦ absurd (cc (rw (choose_virtual, e, k, z) at h))
            | inr (n, z) ↦
                choose_repo-Typed pool (some i) p n force d t (rw (choose_virtual, e, k, z) at h)
          ]
        ]
      ]

  pub choose-Typed :
      (dl : Bool) (pool : R) (pkg : Bytes) (force : Bool) (p : Option Pkgd) (d : Pkgd) (t : ℕ)
      → choose fnmatch vpkgd repos pkgdb dl pool pkg force ≡ some (chosen p d t)
      → Typed force p t
  unfolding choose
  choose-Typed dl pool pkg force p d t h =
      let buf : Bytes = elim (pkg_name name_size pkg) [ some buf ↦ buf | none ↦ pkg ] in
      elim (Option-cases (pkgdb_get_pkg fnmatch pkgdb buf)) [
        | inl e ↦ absurd (cc (rw (choose, e) at h))
        | inr (f, e) ↦ elim (Found-cases f) [
          | inl (x, k) ↦
              choose_repo-Typed pool (if dl then none else some x) p pkg force d t
                (rw (choose, e, k) at h)
          | inr (errno, k) ↦ elim (Option-cases (pkgdb_get_virtualpkg fnmatch vpkgd pkgdb buf)) [
            | inl z ↦ absurd (cc (rw (choose, e, k, z) at h))
            | inr (g, z) ↦ elim (Found-cases g) [
              | inl (x, y) ↦
                  choose_virtual-Typed pool (some x) p pkg force d t (rw (choose, e, k, z, y) at h)
              | inr (errno', y) ↦
                  choose_virtual-Typed pool none p pkg force d t (rw (choose, e, k, z, y) at h)
            ]
          ]
        ]
      ]

pub Sign-cases : (s : Sign) → (s ≡ greater) ⊎ ((s ≡ less) ⊎ (s ≡ equal))
Sign-cases greater = inl refl
Sign-cases less = inr (inl refl)
Sign-cases equal = inr (inr refl)

-- The installed package and the chosen one are kept by the comparison.
abbrev pub Compared : Bool → Option Pkgd → Pkgd → Option Pkgd → Pkgd → ℕ → Type 0
Compared force p d p' d' t' = (p ≡ p') × (d ≡ d') × Goal force p d t'

compare_update :
    (q d d' : Pkgd) (p' : Option Pkgd) (t' : ℕ)
    → compare_installed (some q) d trans_update ≡ some (chosen p' d' t')
    → Compared false (some q) d p' d' t'
unfolding compare_installed
compare_update q d d' p' t' h = elim (Option-cases d.pkgver) [
  | inl e ↦ absurd (cc (rw (compare_installed, e) at h))
  | inr (v, e) ↦ elim (Option-cases q.pkgver) [
    | inl k ↦ absurd (cc (rw (compare_installed, e, k) at h))
    | inr (w, k) ↦ elim (Option-cases (cmpver v w)) [
      | inl z ↦ absurd (cc (rw (compare_installed, e, k, z) at h))
      | inr (s, z) ↦
          let takes : ((cmpver v w ≡ some greater) ⊎ (pkg_reverts d w ≡ some true))
              → some (chosen (some q) d trans_update) ≡ some (chosen p' d' t')
              → Compared false (some q) d p' d' t' =
            λ newer it. (cc it, cc it, inr (q, refl, inr (sym (cc it), (v, w, e, k, newer)))) in
          let older : (pkg_reverts d w >>= λ r.
          some (if r then chosen (some q) d trans_update else refused already_there))
                ≡ some (chosen p' d' t')
              → Compared false (some q) d p' d' t' =
            λ it. elim (Option-cases (pkg_reverts d w)) [
              | inl y ↦ absurd (cc (rw y at it))
              | inr (b, y) ↦ elim (Bool-cases b) [
                | inl c ↦ takes (inr (y ∙ ap some c)) (rw (y, c) at it)
                | inr c ↦ absurd (cc (rw (y, c) at it))
              ]
            ] in
          elim (Sign-cases s) [
            | inl y ↦ takes (inl (z ∙ ap some y)) (rw (compare_installed, e, k, z, y) at h)
            | inr (inl y) ↦ older (rw (compare_installed, e, k, z, y) at h)
            | inr (inr y) ↦ older (rw (compare_installed, e, k, z, y) at h)
          ]
    ]
  ]
]

compare_reinstall :
    (q d d' : Pkgd) (p' : Option Pkgd) (t' : ℕ)
    → compare_installed (some q) d trans_reinstall ≡ some (chosen p' d' t')
    → Compared true (some q) d p' d' t'
unfolding compare_installed
compare_reinstall q d d' p' t' h = elim (Option-cases d.pkgver) [
  | inl e ↦ absurd (cc (rw (compare_installed, e) at h))
  | inr (v, e) ↦ elim (Option-cases q.pkgver) [
    | inl k ↦ absurd (cc (rw (compare_installed, e, k) at h))
    | inr (w, k) ↦ elim (Option-cases (cmpver v w)) [
      | inl z ↦ absurd (cc (rw (compare_installed, e, k, z) at h))
      | inr (s, z) ↦
          let stays : some (chosen (some q) d trans_reinstall) ≡ some (chosen p' d' t')
              → Compared true (some q) d p' d' t' =
            λ it. (cc it, cc it, inr (q, refl, inl (sym (cc it), refl))) in
          elim (Sign-cases s) [
            | inl y ↦
                let it : some (chosen (some q) d trans_update) ≡ some (chosen p' d' t') =
                  rw (compare_installed, e, k, z, y) at h in
                (cc it, cc it, inr (q, refl, inr (sym (cc it), (v, w, e, k, inl (z ∙ ap some y)))))
            | inr (inl y) ↦ stays (rw (compare_installed, e, k, z, y) at h)
            | inr (inr y) ↦ stays (rw (compare_installed, e, k, z, y) at h)
          ]
    ]
  ]
]

pub compare_installed-Compared :
    (force : Bool) (p p' : Option Pkgd) (d d' : Pkgd) (t t' : ℕ)
    → Typed force p t
    → compare_installed p d t ≡ some (chosen p' d' t')
    → Compared force p d p' d' t'
unfolding compare_installed
compare_installed-Compared force p p' d d' t t' (inl (nothing, install)) h =
    let it : some (chosen none d t) ≡ some (chosen p' d' t') = rw nothing at h in
    let same : t ≡ t' = cc it in (nothing ∙ cc it, cc it, inl (nothing, sym same ∙ install))
compare_installed-Compared true p p' d d' t t' (inr (q, is, type)) h =
    subst (λ x. Compared true x d p' d' t') (sym is)
      (compare_reinstall q d d' p' t' (
        subst (λ x. compare_installed (some q) d x ≡ some (chosen p' d' t')) type
          (subst (λ x. compare_installed x d t ≡ some (chosen p' d' t')) is h)))
compare_installed-Compared false p p' d d' t t' (inr (q, is, type)) h =
    subst (λ x. Compared false x d p' d' t') (sym is)
      (compare_update q d d' p' t' (
        subst (λ x. compare_installed (some q) d x ≡ some (chosen p' d' t')) type
          (subst (λ x. compare_installed x d t ≡ some (chosen p' d' t')) is h)))
