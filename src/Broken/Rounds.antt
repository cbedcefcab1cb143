-- ===== src/Broken/Rounds.antt =====
-- One round for a reverse dependency: it only adds messages, and where it adds none the reverse
-- dependency is settled.
use flappy.Base.{
  ℕ, ◌≤◌, ◌≡◌, ◌≢◌, refl, sym, ap, ◌∙◌, subst, Bool, true, false, ◌⊎◌, inl, inr, List, [], ◌∷◌,
  ◌++◌, Option, some, ◌==◌, arith, Bytes, codes, length, str_eq, str_eq_refl, Bool-cases,
  Option-cases, All, Any,
}
use flappy.Pkgver.{pkg_name}
use flappy.Arrays.{name_size, by_pkgdep, match_string_in_array}
use flappy.Arrays.Search.{search_pkgdep}
use flappy.Dicts.{empty_pkgd, Pkgd, PkgDict}
use flappy.Find.{Found, found, missing, transaction_pkg_type, pkgdb_get_pkg, find_pkg_in_array}
use flappy.Find.First.{Found-cases}
use flappy.Revdeps.{dep_name, run_depends_of}
use flappy.Conflicts.{trans_update, trans_remove}
use flappy.Broken.{
  Checked, Search, named, unnamed, absent, broken_pkg, provides_of, find_named, check_virtual_pkgs,
  check_removed, check_real, check_rev, rev_round,
}
use flappy.Broken.Virtual.{length-snoc, Matches, Meets, MetByAll, check_virtual_pkgs-Quiet}

-- Messages are only added, and where none is and the loop goes on, `P` holds.
abbrev pub Settles : List Bytes → Type 0 → Checked → Type 0
Settles m P r = (length m ≤ length r.0) × (length r.0 ≤ length m → r.1 ≡ true → P)

-- A round that adds nothing.
pub stays_quiet :
    (m : List Bytes) (b : Bool) (P : Type 0) (r : Checked)
    → some (m, b) ≡ some r
    → (b ≡ true → P)
    → Settles m P r
stays_quiet m b P r h holds =
    let same : (m, b) ≡ r = cc h in subst (Settles m P) same (omega arith, λ small is. holds is)

says_broken :
    (m : List Bytes) (dep pkg : Bytes) (P : Type 0) (r : Checked)
    → some (broken_pkg m dep pkg, true) ≡ some r
    → Settles m P r
says_broken m dep pkg P r h =
    let same : (broken_pkg m dep pkg, true) ≡ r = cc h in
    let longer =
      length-snoc m (pkg ++ codes " in transaction breaks installed pkg `" ++ dep ++ codes "'") in
    subst (Settles m P) same (omega (arith, longer), λ small is. absurd (omega (arith, longer)))

pub Search-cases : (s : Search) → (s ≡ named) ⊎ ((s ≡ unnamed) ⊎ (s ≡ absent))
Search-cases named = inl refl
Search-cases unnamed = inr (inl refl)
Search-cases absent = inr (inr refl)

-- No dependency has the name.
find_named-absent :
    (rundeps : List Bytes) (n : Bytes)
    → find_named rundeps n ≡ absent
    → All (λ dep. dep_name dep ≢ some n) rundeps
unfolding find_named
find_named-absent [] n h = tt
find_named-absent (dep ∷ rundeps) n h = elim (Option-cases (dep_name dep)) [
  | inl e ↦ absurd (cc (rw (find_named, e) at h))
  | inr (d, e) ↦ elim (Bool-cases (str_eq d n)) [
    | inl k ↦ absurd (cc (rw (find_named, e, k) at h))
    | inr k ↦ (
      λ is.
          let both : some d ≡ some n = sym e ∙ is in
          let same : d ≡ n = cc both in
          let self : str_eq d n ≡ true = rw same (str_eq_refl n) in cc (k, self),
      find_named-absent rundeps n (rw (find_named, e, k) at h),
    )
  ]
]

module _ (fnmatch : Bytes → Bytes → ℕ → Bool) (pkgs : List Pkgd) where
  -- The first package of the transaction with that name is to be removed or updated.
  abbrev pub Is : ℕ → Bytes → Type 0
  Is type name = (q : Pkgd) × (find_pkg_in_array fnmatch pkgs name type ≡ some (found q))

  -- The reverse dependency `name` depends on no package by that name, or on this version of it, or
  -- is to be updated.
  abbrev pub RealMet : List Bytes → Bytes → Bytes → Type 0
  RealMet rundeps pkgver name =
      ((n : Bytes) × (pkg_name name_size pkgver ≡ some n)
        × All (λ dep. dep_name dep ≢ some n) rundeps)
      ⊎ (Any (Meets fnmatch pkgver) rundeps ⊎ Is trans_update name)

  -- What the reverse dependency `name` with the dictionary `rev` has to be to stay whole.
  abbrev pub Whole : Pkgd → Bytes → Bytes → Pkgd → Type 0
  Whole obj pkgver name rev =
      ((transaction_pkg_type obj == trans_remove) ≡ true
        → (obj.replaced ≡ true) ⊎ Is trans_remove name)
      × ((transaction_pkg_type obj == trans_remove) ≡ false
          → MetByAll fnmatch (run_depends_of rev) (provides_of obj)
            × RealMet (run_depends_of rev) pkgver name)

  check_removed-Settles :
      (obj : Pkgd) (ver rev name : Bytes) (m : List Bytes) (r : Checked)
      → check_removed fnmatch pkgs obj ver rev name m ≡ some r
      → Settles m ((obj.replaced ≡ true) ⊎ Is trans_remove name) r
  unfolding check_removed
  check_removed-Settles obj ver rev name m r h = elim (Bool-cases obj.replaced) [
    | inl e ↦ stays_quiet m true _ r (rw (check_removed, e) at h) (λ _. inl e)
    | inr e ↦ elim (Option-cases (find_pkg_in_array fnmatch pkgs name trans_remove)) [
      | inl k ↦ absurd (cc (rw (check_removed, e, k) at h))
      | inr (f, k) ↦ elim (Found-cases f) [
        | inl (q, z) ↦
            stays_quiet m true _ r (rw (check_removed, e, k, z) at h) (λ _. inr (q, k ∙ ap some z))
        | inr (errno, z) ↦ says_broken m rev ver _ r (rw (check_removed, e, k, z) at h)
      ]
    ]
  ]

  pkgdep-Any :
      (rundeps : List Bytes) (ver : Bytes)
      → Any (Matches fnmatch ver) rundeps
      → Any (Meets fnmatch ver) rundeps
  pkgdep-Any [] ver h = absurd h
  pkgdep-Any (x ∷ l) ver (inl p) = inl (inr p)
  pkgdep-Any (x ∷ l) ver (inr p) = inr (pkgdep-Any l ver p)

  check_real-Settles :
      (rundeps : List Bytes) (ver rev name : Bytes) (m : List Bytes) (r : Checked)
      → check_real fnmatch pkgs rundeps ver rev name m ≡ some r
      → Settles m (RealMet rundeps ver name) r
  unfolding check_real
  check_real-Settles rundeps ver rev name m r h = elim (Option-cases (pkg_name name_size ver)) [
    | inl e ↦ stays_quiet m false _ r (rw (check_real, e) at h) (λ is. absurd (cc is))
    | inr (n, e) ↦ elim (Search-cases (find_named rundeps n)) [
      | inr (inl k) ↦ stays_quiet m false _ r (rw (check_real, e, k) at h) (λ is. absurd (cc is))
      | inr (inr k) ↦
          stays_quiet m true _ r (rw (check_real, e, k) at h)
            (λ _. inl (n, e, find_named-absent rundeps n k))
      | inl k ↦ elim (Option-cases (match_string_in_array fnmatch rundeps ver by_pkgdep)) [
        | inl z ↦ absurd (cc (rw (check_real, e, k, z) at h))
        | inr (b, z) ↦ elim (Bool-cases b) [
          | inl y ↦ stays_quiet m true _ r (rw (check_real, e, k, z, y) at h) (λ _.
              inr
                (inl (pkgdep-Any rundeps ver (search_pkgdep fnmatch rundeps ver (z ∙ ap some y)))))
          | inr y ↦ elim (Option-cases (find_pkg_in_array fnmatch pkgs name trans_update)) [
            | inl g ↦ absurd (cc (rw (check_real, e, k, z, y, g) at h))
            | inr (f, g) ↦ elim (Found-cases f) [
              | inl (q, i) ↦
                  stays_quiet m true _ r (rw (check_real, e, k, z, y, g, i) at h)
                    (λ _. inr (inr (q, g ∙ ap some i)))
              | inr (errno, i) ↦ says_broken m rev ver _ r (rw (check_real, e, k, z, y, g, i) at h)
            ]
          ]
        ]
      ]
    ]
  ]

  check_rev-Settles :
      (obj : Pkgd) (ver rev name : Bytes) (m : List Bytes) (d : Pkgd) (r : Checked)
      → check_rev fnmatch pkgs obj ver rev name m d ≡ some r
      → Settles m (Whole obj ver name d) r
  unfolding check_rev
  check_rev-Settles obj ver rev name m d r h =
      elim (Bool-cases (transaction_pkg_type obj == trans_remove)) [
        | inl e ↦
            let (up, all) = check_removed-Settles obj ver rev name m r (rw (check_rev, e) at h) in
            (up, λ small on. ((λ _. all small on), (λ other. absurd (cc (e, other)))))
        | inr e ↦ elim (Option-cases (check_virtual_pkgs fnmatch m obj d)) [
          | inl k ↦ absurd (cc (rw (check_rev, e, k) at h))
          | inr (c, k) ↦
              let (up, quiet) = check_virtual_pkgs-Quiet fnmatch m obj d c k in
              elim (Bool-cases c.1) [
                | inl z ↦
                    let it : some (c.0, true) ≡ some r = rw (check_rev, e, k, z) at h in
                    let same : (c.0, true) ≡ r = cc it in
                    subst (Settles m (Whole obj ver name d)) same
                      (up, λ small on. let (other, met) = quiet small in absurd (cc (z, other)))
                | inr z ↦
                    let (up', all) =
                      check_real-Settles (run_depends_of d) ver rev name c.0 r
                        (rw (check_rev, e, k, z) at h) in
                    (
                      omega arith,
                      λ small on. (
                        (λ other. absurd (cc (e, other))),
                        (λ _. ((quiet (omega arith)).1, all (omega arith) on)),
                      ),
                    )
              ]
        ]
      ]

  -- The reverse dependency is to be removed, or stays whole, by what the transaction has of it, or
  -- by what is installed.
  abbrev pub SettledBy : PkgDict → Pkgd → Bytes → Bytes → Bytes → Found → Type 0
  SettledBy pkgdb obj ver rev name (found q) =
      ((transaction_pkg_type q == trans_remove) ≡ true) ⊎ Whole obj ver name q
  SettledBy pkgdb obj ver rev name (missing errno) =
      ((d : Pkgd) × (pkgdb_get_pkg fnmatch pkgdb rev ≡ some (found d)) × Whole obj ver name d)
      ⊎ ((e : Option ℕ) × (pkgdb_get_pkg fnmatch pkgdb rev ≡ some (missing e))
          × Whole obj ver name empty_pkgd)

  pub record Settled (pkgdb : PkgDict) (obj : Pkgd) (ver rev : Bytes) : Type 0 where
    pub name : Bytes
    pub named : pkg_name name_size rev ≡ some name
    pub first : Found
    pub finds : find_pkg_in_array fnmatch pkgs name 0 ≡ some first
    pub settled : SettledBy pkgdb obj ver rev name first

  pub rev_round-Settles :
      (pkgdb : PkgDict) (obj : Pkgd) (ver rev : Bytes) (m : List Bytes) (r : Checked)
      → rev_round fnmatch pkgs pkgdb obj ver rev m ≡ some r
      → Settles m (Settled pkgdb obj ver rev) r
  unfolding rev_round
  rev_round-Settles pkgdb obj ver rev m r h = elim (Option-cases (pkg_name name_size rev)) [
    | inl e ↦ stays_quiet m false _ r (rw (rev_round, e) at h) (λ is. absurd (cc is))
    | inr (n, e) ↦ elim (Option-cases (find_pkg_in_array fnmatch pkgs n 0)) [
      | inl k ↦ absurd (cc (rw (rev_round, e, k) at h))
      | inr (f, k) ↦
          let Here : Type 0 = SettledBy pkgdb obj ver rev n f in
          let whole : Here → Settled pkgdb obj ver rev =
            λ s. record { name = n; named = e; first = f; finds = k; settled = s } in
          elim (Found-cases f) [
            | inl (q, z) ↦ elim (Bool-cases (transaction_pkg_type q == trans_remove)) [
              | inl g ↦
                  stays_quiet m true _ r (rw (rev_round, e, k, z, g) at h)
                    (λ _. whole (rw z (inl g)))
              | inr g ↦
                  let (up, all) =
                    check_rev-Settles obj ver rev n m q r (rw (rev_round, e, k, z, g) at h) in
                  (up, λ small on. whole (rw z (inr (all small on))))
            ]
            | inr (errno, z) ↦ elim (Option-cases (pkgdb_get_pkg fnmatch pkgdb rev)) [
              | inl g ↦ absurd (cc (rw (rev_round, e, k, z, g) at h))
              | inr (d, g) ↦ elim (Found-cases d) [
                | inl (q, i) ↦
                    let (up, all) =
                      check_rev-Settles obj ver rev n m q r (rw (rev_round, e, k, z, g, i) at h) in
                    (up, λ small on. whole (rw z (inl (q, g ∙ ap some i, all small on))))
                | inr (errno', i) ↦
                    let (up, all) =
                      check_rev-Settles obj ver rev n m empty_pkgd r
                        (rw (rev_round, e, k, z, g, i) at h) in
                    (up, λ small on. whole (rw z (inr (errno', g ∙ ap some i, all small on))))
              ]
            ]
          ]
    ]
  ]
