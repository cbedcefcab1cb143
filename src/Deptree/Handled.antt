-- ===== src/Deptree/Handled.antt =====
-- What the tree says of a dependency, and how many packages are still to be visited.
use flappy.Base.{
  ℕ, suc, ◌≤◌, ◌<◌, ◌≡◌, sym, ap, ◌∙◌, subst, Bool, true, false, ◌⊎◌, inl, inr, List, [], ◌∷◌,
  Option, none, some, arith, Bytes, Option-cases, All,
}
use flappy.Dicts.{dict_get, Pkgd}
use flappy.Find.{Found, found, missing}
use flappy.Revdeps.{dep_name, run_depends_of}
use flappy.Deptree.{Item, Tree, is_provided}
use flappy.Deptree.Mono.{Mem, At, Has, Ext, Ext-Has}
use flappy.Deptree.Steps.{Reach}

-- The number of the names without an item.
unfoldable pub unvisited : List Bytes → Tree → ℕ
unvisited [] t = 0
unvisited (n ∷ names) t = elim (dict_get t.items n) [
  | none ↦ suc (unvisited names t)
  | some i ↦ unvisited names t
]

pub unvisited-Ext :
    (names : List Bytes) (t u : Tree) → Ext t u → unvisited names u ≤ unvisited names t
unfolding unvisited
unvisited-Ext [] t u e = omega arith
unvisited-Ext (n ∷ names) t u e =
    let rest = unvisited-Ext names t u e in
    elim (Option-cases (dict_get t.items n)) [
      | inr (i, k) ↦ let (j, at, s) = e.keeps n i k in rw (unvisited, k, at) rest
      | inl k ↦ elim (Option-cases (dict_get u.items n)) [
        | inl z ↦ rw (unvisited, k, z) (omega (arith, rest))
        | inr (j, z) ↦ rw (unvisited, k, z) (omega (arith, rest))
      ]
    ]

pub unvisited_less :
    (names : List Bytes) (t u : Tree) (n : Bytes)
    → Mem n names
    → dict_get t.items n ≡ none
    → Has u n
    → Ext t u
    → unvisited names u < unvisited names t
unfolding unvisited
unvisited_less [] t u n m new has e = absurd m
unvisited_less (x ∷ names) t u n (inl same) new (j, at) e =
    let old : dict_get t.items x ≡ none = rw same new in
    let now : dict_get u.items x ≡ some j = rw same at in
    let rest = unvisited-Ext names t u e in rw (unvisited, old, now) (omega (arith, rest))
unvisited_less (x ∷ names) t u n (inr m) new has e =
    let rest = unvisited_less names t u n m new has e in
    elim (Option-cases (dict_get t.items x)) [
      | inr (i, k) ↦ let (j, at, s) = e.keeps x i k in rw (unvisited, k, at) rest
      | inl k ↦ elim (Option-cases (dict_get u.items x)) [
        | inl z ↦ rw (unvisited, k, z) (omega (arith, rest))
        | inr (j, z) ↦ rw (unvisited, k, z) (omega (arith, rest))
      ]
    ]

module _ (fnmatch : Bytes → Bytes → ℕ → Bool) (find : Bytes → Option Found) (rpool : Bool) where
  -- A dependency `dep` of `q` is missing, which is passed over in the database, or is by the name of
  -- something that `q` provides, or there is an item by its name, or for the package that is found
  -- for it.
  abbrev pub Handled : Tree → Pkgd → Bytes → Type 0
  Handled t q dep =
      ((e : Option ℕ) × (find dep ≡ some (missing e)) × (rpool ≡ false))
      ⊎ (((d : Bytes) × (dep_name dep ≡ some d) × ((is_provided fnmatch q d ≡ some true) ⊎ Has t d))
          ⊎ ((p : Pkgd) × (m : Bytes) × (find dep ≡ some (found p))
              × (p.pkgname ≡ some m)
              × Has t m))

  pub Handled-Ext :
      (t u : Tree) (q : Pkgd) (dep : Bytes) → Ext t u → Handled t q dep → Handled u q dep
  Handled-Ext t u q dep e (inl gone) = inl gone
  Handled-Ext t u q dep e (inr (inl (d, is, inl given))) = inr (inl (d, is, inl given))
  Handled-Ext t u q dep e (inr (inl (d, is, inr has))) =
      inr (inl (d, is, inr (Ext-Has t u d e has)))
  Handled-Ext t u q dep e (inr (inr (p, m, f, is, has))) =
      inr (inr (p, m, f, is, Ext-Has t u m e has))

  pub All-Handled-Ext :
      (t u : Tree) (q : Pkgd) (deps : List Bytes)
      → Ext t u
      → All (Handled t q) deps
      → All (Handled u q) deps
  All-Handled-Ext t u q [] e all = tt
  All-Handled-Ext t u q (dep ∷ deps) e all =
      (Handled-Ext t u q dep e all.0, All-Handled-Ext t u q deps e all.1)

  -- The item `n` is that of a package that is reached, and all of whose dependencies are handled.
  pub record Whole (root : Pkgd) (t : Tree) (n : Bytes) (i : Item) : Type 0 where
    pub pkg : Pkgd
    pub reach : Reach find root pkg
    pub name : pkg.pkgname ≡ some n
    pub pkgver : pkg.pkgver ≡ some i.pkgver
    pub handled : All (Handled t pkg) (run_depends_of pkg)

  -- The same with its pkgver in the result.
  abbrev pub Done : Pkgd → Tree → Bytes → Type 0
  Done root t n = (i : Item) × At t n i × Mem i.pkgver t.result × Whole root t n i

  pub Done-Ext : (root : Pkgd) (t u : Tree) (n : Bytes) → Ext t u → Done root t n → Done root u n
  Done-Ext root t u n e (i, at, m, w) =
      let (j, at', s) = e.keeps n i at in
      (
        j,
        at',
        subst (λ v. Mem v u.result) (sym s) (e.grows i.pkgver m),
        record {
          pkg = w.pkg;
          reach = w.reach;
          name = w.name;
          pkgver = w.pkgver ∙ ap some (sym s);
          handled = All-Handled-Ext t u w.pkg (run_depends_of w.pkg) e w.handled;
        },
      )

  -- Every item that is new is done.
  abbrev pub New : Pkgd → Tree → Tree → Type 0
  New root t u = (n : Bytes) → Has u n → Has t n ⊎ Done root u n

  pub New_trans :
      (root : Pkgd) (t u w : Tree) → Ext u w → New root t u → New root u w → New root t w
  New_trans root t u w e a b n has = elim (b n has) [
    | inr d ↦ inr d
    | inl h ↦ elim (a n h) [ inl h' ↦ inl h' | inr d ↦ inr (Done-Ext root u w n e d) ]
  ]

  -- A tree with the same names has no new item.
  pub New_same :
      (root : Pkgd) (t u w : Tree)
      → ((n : Bytes) → Has w n → Has u n)
      → Ext u w
      → New root t u
      → New root t w
  New_same root t u w same e a n has = elim (a n (same n has)) [
    | inl h ↦ inl h
    | inr d ↦ inr (Done-Ext root u w n e d)
  ]
