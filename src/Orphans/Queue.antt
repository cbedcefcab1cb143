-- ===== src/Orphans/Queue.antt =====
-- What stands in the array of packages, and how many packages of a database do not.
use flappy.Base.{
  subst, ℕ, suc, ◌+◌, ◌≤◌, ◌<◌, ◌≡◌, ◌≢◌, refl, sym, ap, ◌∙◌, Bool, true, false, ◌||◌, ◌⊎◌, inl,
  inr, List, [], ◌∷◌, ◌++◌, Option, none, some, if◌then◌else◌, arith, Bytes, length, str_eq,
  str_eq_iff, str_eq_refl, Bool-cases, Option-cases, All, Any,
}
use flappy.Pkgver.{pkg_version, pkgpattern_version}
use flappy.Pattern.{is_some}
use flappy.Dicts.{Dict, Pkgd, PkgDict}
use flappy.Find.{get_pkg_in_array, is_pkg, find_loop, find_pkg_in_array}
use flappy.Orphans.{is_queued, count_queued}

-- The array has a package with this pkgver.
abbrev pub Holds : List Pkgd → Bytes → Type 0
Holds a v = Any (λ d. d.pkgver ≡ some v) a

-- A text that the searches take for a pkgver.
pub record IsPlain (v : Bytes) : Type 0 where
  pub no_pattern : pkgpattern_version v ≡ none
  pub versioned : is_some (pkg_version v) ≡ true

abbrev pub HasPkgver : Pkgd → Type 0
HasPkgver d = (v : Bytes) × (d.pkgver ≡ some v)

unfoldable pub carries : Bytes → Pkgd → Bool
carries v d = elim d.pkgver [ none ↦ false | some w ↦ str_eq v w ]

unfoldable pub has : List Pkgd → Bytes → Bool
has [] v = false
has (d ∷ a) v = carries v d || has a v

carries_iff :
    (v : Bytes) (d : Pkgd) (b : Bool)
    → carries v d ≡ b
    → HasPkgver d
    → (b ≡ true → d.pkgver ≡ some v) × (b ≡ false → d.pkgver ≢ some v)
unfolding carries
carries_iff v d b e (w, is) =
    let now : str_eq v w ≡ b = rw (carries, is) at e in
    (
      λ t. is ∙ ap some (sym ((str_eq_iff v w).0 (now ∙ t))),
      λ f h.
          let same : some w ≡ some v = sym is ∙ h in
          let it : w ≡ v = cc same in absurd (cc (rw (it, str_eq_refl v) at now, f)),
    )

carries-pkgver : (v : Bytes) (d : Pkgd) → d.pkgver ≡ some v → carries v d ≡ true
unfolding carries
carries-pkgver v d e = rw (carries, e) (str_eq_refl v)

pub has-Holds : (a : List Pkgd) (v : Bytes) → All HasPkgver a → has a v ≡ true → Holds a v
unfolding has
has-Holds [] v all h = absurd (cc h)
has-Holds (d ∷ a) v all h = elim (Bool-cases (carries v d)) [
  | inl e ↦ inl ((carries_iff v d true e all.0).0 refl)
  | inr e ↦ inr (has-Holds a v all.1 (rw e at h))
]

pub Holds-has : (a : List Pkgd) (v : Bytes) → Holds a v → has a v ≡ true
unfolding has
Holds-has [] v h = absurd h
Holds-has (d ∷ a) v (inl e) = rw (carries-pkgver v d e) refl
Holds-has (d ∷ a) v (inr h) = elim (Bool-cases (carries v d)) [
  | inl e ↦ rw e refl
  | inr e ↦ rw e (Holds-has a v h)
]

pub has-Holds_not : (a : List Pkgd) (v : Bytes) → has a v ≡ false → ¬ Holds a v
has-Holds_not a v e h = absurd (cc (Holds-has a v h, e))

pub has-append :
    (a : List Pkgd) (d : Pkgd) (v : Bytes) → has (a ++ d ∷ []) v ≡ (has a v || carries v d)
unfolding has
has-append [] d v = elim (Bool-cases (carries v d)) [ inl e ↦ rw e refl | inr e ↦ rw e refl ]
has-append (c ∷ a) d v = elim (Bool-cases (carries v c)) [
  | inl e ↦ rw e refl
  | inr e ↦ rw e (has-append a d v)
]

-- 1 for a package that the array does not have.
unfoldable weight : List Pkgd → Pkgd → ℕ
weight a pkgd = elim pkgd.pkgver [ none ↦ 0 | some v ↦ if has a v then 0 else 1 ]

weight_small : (a : List Pkgd) (p : Pkgd) → weight a p ≤ 1
unfolding weight
weight_small a p = elim (Option-cases p.pkgver) [
  | inl e ↦ rw (weight, e) (omega arith)
  | inr (v, e) ↦ elim (Bool-cases (has a v)) [
    | inl h ↦ rw (weight, e, h) (omega arith)
    | inr h ↦ rw (weight, e, h) (omega arith)
  ]
]

weight-append : (a : List Pkgd) (d p : Pkgd) → weight (a ++ d ∷ []) p ≤ weight a p
unfolding weight
weight-append a d p = elim (Option-cases p.pkgver) [
  | inl e ↦ rw (weight, e) (omega arith)
  | inr (v, e) ↦ elim (Bool-cases (has a v)) [
    | inl h ↦
        let more : has (a ++ d ∷ []) v ≡ true = has-append a d v ∙ ap (λ b. b || carries v d) h in
        rw (weight, e, h, more) (omega arith)
    | inr h ↦
        let one : weight a p ≡ 1 = rw (weight, e, h) refl in
        omega (arith, one, weight_small (a ++ d ∷ []) p)
  ]
]

weight-append_same :
    (a : List Pkgd) (d : Pkgd) (v : Bytes)
    → d.pkgver ≡ some v
    → has a v ≡ false
    → (weight (a ++ d ∷ []) d ≡ 0) × (weight a d ≡ 1)
unfolding weight
weight-append_same a d v e new =
    let more : has (a ++ d ∷ []) v ≡ true = rw (has-append a d v, new) (carries-pkgver v d e) in
    (rw (weight, e, more) refl, rw (weight, e, new) refl)

-- The number of packages of a list that the array does not have.
pub waiting : List Pkgd → PkgDict → ℕ
waiting a [] = 0
waiting a ((key, pkgd) ∷ rest) = weight a pkgd + waiting a rest

pub waiting-length : (a : List Pkgd) (es : PkgDict) → waiting a es ≤ length es
unfolding waiting
waiting-length a [] = omega arith
waiting-length a ((key, pkgd) ∷ es) = omega (arith, weight_small a pkgd, waiting-length a es)

waiting-append : (a : List Pkgd) (d : Pkgd) (es : PkgDict) → waiting (a ++ d ∷ []) es ≤ waiting a es
unfolding waiting
waiting-append a d [] = omega arith
waiting-append a d ((key, pkgd) ∷ es) = omega (arith, weight-append a d pkgd, waiting-append a d es)

pub waiting-append_lt :
    (a : List Pkgd) (key : Bytes) (d : Pkgd) (v : Bytes) (es : PkgDict)
    → d.pkgver ≡ some v
    → has a v ≡ false
    → Any (λ e. Path (Bytes × Pkgd) e (key, d)) es
    → waiting (a ++ d ∷ []) es < waiting a es
unfolding waiting
waiting-append_lt a key d v [] e new at = absurd at
waiting-append_lt a key d v ((k, p) ∷ es) e new (inl same) =
    let (after, before) = weight-append_same a d v e new in
    let it : p ≡ d = ap (λ x. x.1) same in
    let after' = subst (λ x. weight (a ++ d ∷ []) x ≡ 0) (sym it) after in
    let before' = subst (λ x. weight a x ≡ 1) (sym it) before in
    omega (arith, after', before', waiting-append a d es)
waiting-append_lt a key d v ((k, p) ∷ es) e new (inr at) =
    omega (arith, weight-append a d p, waiting-append_lt a key d v es e new at)

module _ (fnmatch : Bytes → Bytes → ℕ → Bool) (vpkgd : Dict (Dict Bytes)) (pkgdb : PkgDict) where
  is_pkg-carries :
      (v : Bytes) (d : Pkgd)
      → IsPlain v
      → HasPkgver d
      → is_pkg fnmatch false v d ≡ some (carries v d)
  unfolding is_pkg carries
  is_pkg-carries v d plain (w, is) = simp (is_pkg, carries, is, plain.no_pattern, plain.versioned)

  find_loop-has :
      (a : List Pkgd) (v : Bytes)
      → All HasPkgver a
      → IsPlain v
      → (o : Option Pkgd) × (find_loop fnmatch a v false ≡ some o) × (is_some o ≡ has a v)
  unfolding find_loop has
  find_loop-has [] v all plain = (none, refl, refl)
  find_loop-has (d ∷ a) v all plain =
      let (o, rest, same) = find_loop-has a v all.1 plain in
      elim (Bool-cases (carries v d)) [
        | inl e ↦ (some d, rw (is_pkg-carries v d plain all.0, e) refl, rw e refl)
        | inr e ↦ (o, rw (is_pkg-carries v d plain all.0, e) rest, rw e same)
      ]

  pub is_queued-has :
      (a : List Pkgd) (v : Bytes)
      → All HasPkgver a
      → IsPlain v
      → is_queued fnmatch vpkgd pkgdb a v ≡ some (has a v)
  unfolding is_queued find_pkg_in_array get_pkg_in_array
  is_queued-has a v all plain =
      let (o, e, same) = find_loop-has a v all plain in
      elim (Option-cases o) [
        | inl nothing ↦ rw (e, nothing) (ap some (rw nothing at same))
        | inr (d, it) ↦ rw (e, it) (ap some (rw it at same))
      ]

  -- The count is that of all reverse dependencies, or one of them is not in the array.
  pub count_queued-Holds :
      (a : List Pkgd) (revs : List Bytes)
      → All HasPkgver a
      → All IsPlain revs
      → (n : ℕ) × (count_queued fnmatch vpkgd pkgdb a revs ≡ some n)
        × (((n ≡ length revs) × All (Holds a) revs)
            ⊎ ((n < length revs) × ((x : Bytes) × Any (λ y. y ≡ x) revs × ¬ Holds a x)))
  unfolding count_queued
  count_queued-Holds a [] all plain = (0, refl, inl (refl, tt))
  count_queued-Holds a (v ∷ revs) all plain =
      let (n, e, rest) = count_queued-Holds a revs all plain.1 in
      elim (Bool-cases (has a v)) [
        | inl h ↦ (
          suc n,
          rw (is_queued-has a v all plain.0, e, h) refl,
          elim rest [
            | inl (full, holds) ↦ inl (ap suc full, (has-Holds a v all h, holds))
            | inr (fewer, left) ↦ let (x, at, out) = left in inr (omega arith, (x, inr at, out))
          ],
        )
        | inr h ↦ (
          n,
          rw (is_queued-has a v all plain.0, e, h) refl,
          inr (
            elim rest [ inl (full, holds) ↦ omega arith | inr (fewer, left) ↦ omega arith ],
            (v, inl refl, has-Holds_not a v h),
          ),
        )
      ]
