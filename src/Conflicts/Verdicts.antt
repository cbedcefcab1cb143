-- ===== src/Conflicts/Verdicts.antt =====
-- What a round of the loops over conflicts says: where it passes, the conflict is settled.
use flappy.Base.{
  ℕ, ◌≡◌, ◌≢◌, refl, sym, ap, ◌∙◌, Bool, true, false, ◌⊎◌, inl, inr, List, Option, none, some,
  ◌>>=◌, Bytes, str_eq, str_eq→eq, Bool-cases, Option-cases,
}
use flappy.Dicts.{Dict, Pkgd, PkgDict}
use flappy.Find.{Found, found, missing, get_pkg_in_array, find_pkg_in_array}
use flappy.Find.First.{Found-cases, get_pkg_in_array-pkgver, find_virtualpkg_in_array-pkgver}
use flappy.Conflicts.{
  Verdict, passes, ends, is_left, is_changed, judge_queued, find_queued, find_installed,
  judge_installed, judge_trans, judge_pkgdb,
}

-- The package has the name, or is to be removed or on hold.
abbrev pub OkQueued : Bytes → Found → Type 0
OkQueued name (missing e) = Unit
OkQueued name (found q) = (is_left q ≡ true) ⊎ (q.pkgname ≡ some name)

judge_queued-passes :
    (bare : Option Verdict) (ver name cf : Bytes) (q : Pkgd)
    → q.pkgver ≢ none
    → judge_queued bare ver name cf q ≡ some passes
    → OkQueued name (found q)
unfolding judge_queued
judge_queued-passes bare ver name cf q has h = elim (Bool-cases (is_left q)) [
  | inl e ↦ inl e
  | inr e ↦ elim (Option-cases q.pkgname) [
    | inl k ↦ absurd (cc (rw (judge_queued, e, k) at h))
    | inr (n, k) ↦ elim (Bool-cases (str_eq n name)) [
      | inl f ↦ inr (k ∙ ap some (str_eq→eq n name f))
      | inr f ↦ elim (Option-cases q.pkgver) [
        | inl z ↦ absurd (has z)
        | inr (v, z) ↦ absurd (cc (rw (judge_queued, e, k, f, z) at h))
      ]
    ]
  ]
]

judge_queued-ends :
    (bare : Option Verdict) (ver name cf : Bytes) (q : Pkgd)
    → q.pkgver ≢ none
    → judge_queued bare ver name cf q ≢ some ends
unfolding judge_queued
judge_queued-ends bare ver name cf q has h = elim (Bool-cases (is_left q)) [
  | inl e ↦ cc (rw (judge_queued, e) at h)
  | inr e ↦ elim (Option-cases q.pkgname) [
    | inl k ↦ cc (rw (judge_queued, e, k) at h)
    | inr (n, k) ↦ elim (Bool-cases (str_eq n name)) [
      | inl f ↦ cc (rw (judge_queued, e, k, f) at h)
      | inr f ↦ elim (Option-cases q.pkgver) [
        | inl z ↦ has z
        | inr (v, z) ↦ cc (rw (judge_queued, e, k, f, z) at h)
      ]
    ]
  ]
]

module _ (fnmatch : Bytes → Bytes → ℕ → Bool) (vpkgd : Dict (Dict Bytes)) (pkgs : List Pkgd) where
  find_queued-pkgver :
      (cf : Bytes) (q : Pkgd) → find_queued fnmatch vpkgd pkgs cf ≡ some (found q) → q.pkgver ≢ none
  unfolding find_pkg_in_array
  find_queued-pkgver cf q h = elim (Option-cases (get_pkg_in_array fnmatch pkgs cf 0 false)) [
    | inl e ↦ absurd (cc (rw e at h))
    | inr (f, e) ↦ elim (Found-cases f) [
      | inl (p, k) ↦
          let it : some (found p) ≡ some (found q) = rw (e, k) at h in
          let same : p ≡ q = cc it in
          get_pkg_in_array-pkgver fnmatch pkgs cf 0 false q (e ∙ ap some (k ∙ ap found same))
      | inr (errno, k) ↦ find_virtualpkg_in_array-pkgver fnmatch vpkgd pkgs cf 0 q (rw (e, k) at h)
    ]
  ]

  -- What the transaction has for a conflict is settled.
  abbrev pub QueuedClear : Bytes → Bytes → Type 0
  QueuedClear name cf = (g : Found) × (find_queued fnmatch vpkgd pkgs cf ≡ some g) × OkQueued name g

  -- An installed package is on hold, has the name, or is changed by the transaction; if there is
  -- none, what the transaction has is settled.
  abbrev pub OkInstalled : Bytes → Bytes → Found → Type 0
  OkInstalled name cf (missing e) = QueuedClear name cf
  OkInstalled name cf (found p) =
      (p.hold ≡ true)
      ⊎ ((n : Bytes) × (p.pkgname ≡ some n)
          × ((n ≡ name)
              ⊎ ((f : Found) × (find_pkg_in_array fnmatch pkgs n 0 ≡ some f)
                  × (is_changed f ≡ true))))

  abbrev pub InstalledClear : PkgDict → Bytes → Bytes → Type 0
  InstalledClear pkgdb name cf =
      (f : Found) × (find_installed fnmatch vpkgd pkgdb cf ≡ some f) × OkInstalled name cf f

  judge_installed-ends :
      (ver name cf : Bytes) (p : Pkgd)
      → judge_installed fnmatch vpkgd pkgs ver name cf p ≢ some ends
  unfolding judge_installed
  judge_installed-ends ver name cf p h = elim (Bool-cases p.hold) [
    | inl e ↦ cc (rw (judge_installed, e) at h)
    | inr e ↦ elim (Option-cases p.pkgname) [
      | inl k ↦ cc (rw (judge_installed, e, k) at h)
      | inr (n, k) ↦ elim (Bool-cases (str_eq n name)) [
        | inl f ↦ cc (rw (judge_installed, e, k, f) at h)
        | inr f ↦ elim (Option-cases p.pkgver) [
          | inl z ↦ cc (rw (judge_installed, e, k, f, z) at h)
          | inr (v, z) ↦ elim (Option-cases (find_pkg_in_array fnmatch pkgs n 0)) [
            | inl g ↦ cc (rw (judge_installed, e, k, f, z, g) at h)
            | inr (t, g) ↦ elim (Bool-cases (is_changed t)) [
              | inl b ↦ cc (rw (judge_installed, e, k, f, z, g, b) at h)
              | inr b ↦ cc (rw (judge_installed, e, k, f, z, g, b) at h)
            ]
          ]
        ]
      ]
    ]
  ]

  judge_installed-passes :
      (ver name cf : Bytes) (p : Pkgd)
      → judge_installed fnmatch vpkgd pkgs ver name cf p ≡ some passes
      → OkInstalled name cf (found p)
  unfolding judge_installed
  judge_installed-passes ver name cf p h = elim (Bool-cases p.hold) [
    | inl e ↦ inl e
    | inr e ↦ elim (Option-cases p.pkgname) [
      | inl k ↦ absurd (cc (rw (judge_installed, e, k) at h))
      | inr (n, k) ↦ elim (Bool-cases (str_eq n name)) [
        | inl f ↦ inr (n, k, inl (str_eq→eq n name f))
        | inr f ↦ elim (Option-cases p.pkgver) [
          | inl z ↦ absurd (cc (rw (judge_installed, e, k, f, z) at h))
          | inr (v, z) ↦ elim (Option-cases (find_pkg_in_array fnmatch pkgs n 0)) [
            | inl g ↦ absurd (cc (rw (judge_installed, e, k, f, z, g) at h))
            | inr (t, g) ↦ elim (Bool-cases (is_changed t)) [
              | inl b ↦ inr (n, k, inr (t, g, b))
              | inr b ↦ absurd (cc (rw (judge_installed, e, k, f, z, g, b) at h))
            ]
          ]
        ]
      ]
    ]
  ]

  -- A search in the transaction, before what is made of it.
  queued-verdict :
      (bare : Option Verdict) (ver name cf : Bytes) (r : Option Verdict)
      → r ≡ (
          find_queued fnmatch vpkgd pkgs cf >>= λ g. elim g [
            | found q ↦ judge_queued bare ver name cf q
            | missing errno ↦ some passes
          ])
      → (r ≢ some ends) × (r ≡ some passes → QueuedClear name cf)
  queued-verdict bare ver name cf r is = elim (Option-cases (find_queued fnmatch vpkgd pkgs cf)) [
    | inl e ↦
        let now : r ≡ none = rw e at is in (λ h. absurd (cc (now, h)), λ h. absurd (cc (now, h)))
    | inr (g, e) ↦ elim (Found-cases g) [
      | inl (q, k) ↦
          let has = find_queued-pkgver cf q (e ∙ ap some k) in
          let now : r ≡ judge_queued bare ver name cf q = rw (e, k) at is in
          (
            λ h. judge_queued-ends bare ver name cf q has (sym now ∙ h),
            λ h. (found q, e ∙ ap some k, judge_queued-passes bare ver name cf q has (sym now ∙ h)),
          )
      | inr (errno, k) ↦
          let now : r ≡ some passes = rw (e, k) at is in
          (λ h. absurd (cc (now, h)), λ h. (missing errno, e ∙ ap some k, tt))
    ]
  ]

  pub judge_pkgdb-verdict :
      (ver name cf : Bytes)
      → (judge_pkgdb fnmatch vpkgd pkgs ver name cf ≢ some ends)
        × (judge_pkgdb fnmatch vpkgd pkgs ver name cf ≡ some passes → QueuedClear name cf)
  unfolding judge_pkgdb
  judge_pkgdb-verdict ver name cf =
      queued-verdict none ver name cf (judge_pkgdb fnmatch vpkgd pkgs ver name cf) refl

  pub judge_trans-verdict :
      (pkgdb : PkgDict) (ver name cf : Bytes)
      → (judge_trans fnmatch vpkgd pkgdb pkgs ver name cf ≢ some ends)
        × (judge_trans fnmatch vpkgd pkgdb pkgs ver name cf ≡ some passes
            → InstalledClear pkgdb name cf)
  unfolding judge_trans
  judge_trans-verdict pkgdb ver name cf =
      elim (Option-cases (find_installed fnmatch vpkgd pkgdb cf)) [
        | inl e ↦ rw (judge_trans, e) (λ h. absurd (cc h), λ h. absurd (cc h))
        | inr (f, e) ↦ elim (Found-cases f) [
          | inl (p, k) ↦
              rw (judge_trans, e, k)
                (
                  judge_installed-ends ver name cf p,
                  λ h. (found p, refl, judge_installed-passes ver name cf p h),
                )
          | inr (errno, k) ↦
              let q = queued-verdict (some ends) ver name cf _ refl in
              rw (judge_trans, e, k) (q.0, λ h. (missing errno, refl, q.1 h))
        ]
      ]
