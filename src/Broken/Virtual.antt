-- ===== src/Broken/Virtual.antt =====
-- `check_virtual_pkgs` only adds messages, and where it adds none every dependency on a virtual
-- package is met.
use flappy.Base.{
  ◌+◌, ℕ, ◌≤◌, ◌≡◌, refl, sym, ap, ◌∙◌, subst, Bool, true, false, ◌⊎◌, inl, inr, List, [], ◌∷◌,
  ◌++◌, Option, none, some, arith, Bytes, length, length-append, str_eq, str_eq→eq, str_eq_refl,
  Bool-cases, Option-cases, All,
}
use flappy.Pkgver.{pkg_name}
use flappy.Pattern.{Answer, pkgpattern_match}
use flappy.Arrays.{name_size, is_nonzero}
use flappy.Dicts.{Pkgd}
use flappy.Revdeps.{dep_name, run_depends_of}
use flappy.Broken.{Checked, provides_of, judge_dep, rundeps_loop, provides_loop, check_virtual_pkgs}

pub length-snoc : (l : List Bytes) (m : Bytes) → length (l ++ m ∷ []) ≡ length l + 1
length-snoc l m = length-append l (m ∷ [])

-- Messages are only added, and where none is, the mark is as before and `P` holds.
abbrev pub Quiet : Checked → Type 0 → Checked → Type 0
Quiet before P after =
    (length before.0 ≤ length after.0)
    × (length after.0 ≤ length before.0 → (after.1 ≡ before.1) × P)

module _ (fnmatch : Bytes → Bytes → ℕ → Bool) where
  -- The pattern matches, or is malformed.
  abbrev pub Matches : Bytes → Bytes → Type 0
  Matches pkgver dep =
      (a : Answer) × (pkgpattern_match fnmatch pkgver dep ≡ some a) × (is_nonzero a ≡ true)

  -- The package with the pkgver `pkgver` is one that the pattern `dep` asks for.
  abbrev pub Meets : Bytes → Bytes → Type 0
  Meets pkgver dep = (pkgver ≡ dep) ⊎ Matches pkgver dep

  -- A dependency by the name of the virtual package is met.
  abbrev pub MetBy : Bytes → Bytes → Bytes → Type 0
  MetBy vpkgver vpkgname dep = dep_name dep ≡ some vpkgname → Meets vpkgver dep

  -- The dependencies are met by the provided packages up to the first without a name.
  abbrev pub MetByAll : List Bytes → List Bytes → Type 0
  MetByAll rundeps [] = Unit
  MetByAll rundeps (vpkgver ∷ provides) =
      (n : Bytes)
      → pkg_name name_size vpkgver ≡ some n
      → All (MetBy vpkgver n) rundeps × MetByAll rundeps provides

  judge_dep-MetBy :
      (v n : Bytes) (rev : Option Bytes) (dep : Bytes)
      → judge_dep fnmatch v n rev dep ≡ some none
      → MetBy v n dep
  unfolding judge_dep
  judge_dep-MetBy v n rev dep h is = elim (Bool-cases (str_eq v dep)) [
    | inl e ↦ inl (str_eq→eq v dep e)
    | inr e ↦ elim (Option-cases (pkgpattern_match fnmatch v dep)) [
      | inl k ↦ absurd (cc (rw (judge_dep, is, str_eq_refl n, e, k) at h))
      | inr (a, k) ↦ elim (Bool-cases (is_nonzero a)) [
        | inl z ↦ inr (a, k, z)
        | inr z ↦ elim (Option-cases rev) [
          | inl q ↦ absurd (cc (rw (judge_dep, is, str_eq_refl n, e, k, z, q) at h))
          | inr (r, q) ↦ absurd (cc (rw (judge_dep, is, str_eq_refl n, e, k, z, q) at h))
        ]
      ]
    ]
  ]

  rundeps_loop-Quiet :
      (v n : Bytes) (rev : Option Bytes) (rundeps : List Bytes) (c r : Checked)
      → rundeps_loop fnmatch v n rev rundeps c ≡ some r
      → Quiet c (All (MetBy v n) rundeps) r
  unfolding rundeps_loop
  rundeps_loop-Quiet v n rev [] c r h =
      let same : c ≡ r = cc h in subst (Quiet c Unit) same (omega arith, λ small. (refl, tt))
  rundeps_loop-Quiet v n rev (dep ∷ rundeps) c r h =
      elim (Option-cases (judge_dep fnmatch v n rev dep)) [
        | inl e ↦ absurd (cc (rw e at h))
        | inr (m, e) ↦ elim (Option-cases m) [
          | inl k ↦
              let (up, all) = rundeps_loop-Quiet v n rev rundeps c r (rw (e, k) at h) in
              (
                up,
                λ small.
                    let (same, later) = all small in
                    (same, (judge_dep-MetBy v n rev dep (e ∙ ap some k), later)),
              )
          | inr (s, k) ↦
              let (up, all) =
                rundeps_loop-Quiet v n rev rundeps (c.0 ++ s ∷ [], true) r (rw (e, k) at h) in
              let longer = length-snoc c.0 s in (omega arith, λ small. absurd (omega arith))
        ]
      ]

  provides_loop-Quiet :
      (rev : Pkgd) (provides : List Bytes) (c r : Checked)
      → provides_loop fnmatch rev provides c ≡ some r
      → Quiet c (MetByAll (run_depends_of rev) provides) r
  unfolding provides_loop
  provides_loop-Quiet rev [] c r h =
      let same : c ≡ r = cc h in subst (Quiet c Unit) same (omega arith, λ small. (refl, tt))
  provides_loop-Quiet rev (v ∷ provides) c r h = elim (Option-cases (pkg_name name_size v)) [
    | inl e ↦
        let it : some c ≡ some r = rw (provides_loop, e) at h in
        let same : c ≡ r = cc it in
        subst (Quiet c (MetByAll (run_depends_of rev) (v ∷ provides))) same
          (omega arith, λ small. (refl, λ n is. absurd (cc (e, is))))
    | inr (n, e) ↦
        elim (Option-cases (rundeps_loop fnmatch v n rev.pkgver (run_depends_of rev) c)) [
          | inl k ↦ absurd (cc (rw (provides_loop, e, k) at h))
          | inr (c', k) ↦
              let (up, one) = rundeps_loop-Quiet v n rev.pkgver (run_depends_of rev) c c' k in
              let (up', all) =
                provides_loop-Quiet rev provides c' r (rw (provides_loop, e, k) at h) in
              (
                omega arith,
                λ small.
                    let (same, here) = one (omega arith) in
                    let (same', later) = all (omega arith) in
                    (
                      same' ∙ same,
                      (λ n' is.
                          let both : some n ≡ some n' = sym e ∙ is in
                          (
                            subst (λ x. All (MetBy v x) (run_depends_of rev)) (cc both) here,
                            later,
                          )),
                    ),
              )
        ]
  ]

  pub check_virtual_pkgs-Quiet :
      (m : List Bytes) (p rev : Pkgd) (r : Checked)
      → check_virtual_pkgs fnmatch m p rev ≡ some r
      → Quiet (m, false) (MetByAll (run_depends_of rev) (provides_of p)) r
  unfolding check_virtual_pkgs
  check_virtual_pkgs-Quiet m p rev r h = provides_loop-Quiet rev (provides_of p) (m, false) r h
