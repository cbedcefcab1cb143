-- ===== src/Deptree/Loop.antt =====
-- The loop over the dependencies of an item: every one is handled, or the loop ends with NULL.
use flappy.Base.{
  ℕ, ◌<◌, ◌≡◌, refl, sym, ap, ◌∙◌, Bool, true, false, not, ◌⊎◌, inl, inr, List, [], ◌∷◌, Option,
  none, some, arith, Bytes, Bool-cases, Option-cases, All,
}
use flappy.Arrays.Search.{search_pkgname_ends}
use flappy.Dicts.{dict_get, dict_set, Pkgd}
use flappy.Find.{Found, found}
use flappy.Find.First.{Found-cases}
use flappy.Revdeps.{dep_name, run_depends_of}
use flappy.Deptree.{Item, Tree, add_depn, is_provided, dep_round, deps_round}
use flappy.Deptree.Mono.{
  Mem, At, Has, Ext, Ext-refl, Ext-trans, Ext-Has, add_depn-Ext, dict_set-cases, linked,
  add_depn-At,
}
use flappy.Deptree.Steps.{Reach, next, Good, add_deps_lem, add_depn-Good}
use flappy.Deptree.Handled.{
  unvisited, unvisited-Ext, Handled, Handled-Ext, New, New_trans, New_same,
}

-- A package with a pkgver and a name that is one of `names`, whose dependencies have names; the
-- search for each ends.
pub record IsPkg (find : Bytes → Option Found) (names : List Bytes) (q : Pkgd) : Type 0 where
  pub name : Bytes
  pub has_name : q.pkgname ≡ some name
  pub known : Mem name names
  pub pkgver : Bytes
  pub has_pkgver : q.pkgver ≡ some pkgver
  pub deps :
      All
        (λ dep. ((d : Bytes) × (dep_name dep ≡ some d)) × ((f : Found) × (find dep ≡ some f)))
        (run_depends_of q)

module _ (fnmatch : Bytes → Bytes → ℕ → Bool) (find : Bytes → Option Found) (rpool : Bool)
    (names : List Bytes) (root : Pkgd) where
  is_provided_ends : (q : Pkgd) (d : Bytes) → (b : Bool) × (is_provided fnmatch q d ≡ some b)
  unfolding is_provided
  is_provided_ends q d = elim (Option-cases q.provides) [
    | inl e ↦ (false, rw (is_provided, e) refl)
    | inr (l, e) ↦ let (b, ends) = search_pkgname_ends fnmatch l d in (b, rw (is_provided, e) ends)
  ]

  -- The tree is in order and has grown, and each new item is done.
  pub record Grown (t u : Tree) : Type 0 where
    pub good : Good find root u
    pub ext : Ext t u
    pub new : New fnmatch find rpool root t u

  pub Grown-trans : (t u w : Tree) → Grown t u → Grown u w → Grown t w
  Grown-trans t u w a b = record {
    good = b.good;
    ext = Ext-trans t u w a.ext b.ext;
    new = New_trans fnmatch find rpool root t u w b.ext a.new b.new;
  }

  pub Grown-refl : (t : Tree) → Good find root t → Grown t t
  Grown-refl t g = record { good = g; ext = Ext-refl t; new = λ n has. inl has }

  -- What a call for a dependency gives: NULL, where the search is in the pool, or the item.
  abbrev pub Visited : Pkgd → Tree → Option Bytes × Tree → Type 0
  Visited d t r =
      ((r.0 ≡ none) × (rpool ≡ true))
      ⊎ ((n : Bytes) × (i : Item) × (r.0 ≡ some n)
          × (d.pkgname ≡ some n)
          × At r.1 n i
          × Mem i.pkgver r.1.result
          × Grown t r.1)

  abbrev pub Visits : (Pkgd → Tree → Option (Option Bytes × Tree)) → ℕ → Type 0
  Visits visit fuel =
      (d : Pkgd) (t : Tree)
      → Reach find root d
      → Good find root t
      → unvisited names t < fuel
      → (r : Option Bytes × Tree) × (visit d t ≡ some r) × Visited d t r

  -- What a round gives: it ends the loop, where the search is in the pool, or the dependencies are
  -- handled.
  abbrev pub Rounded : Pkgd → Tree → List Bytes → Bool × Tree → Type 0
  Rounded q t deps r =
      ((r.0 ≡ false) × (rpool ≡ true))
      ⊎ ((r.0 ≡ true) × Grown t r.1 × All (Handled fnmatch find rpool r.1 q) deps)

  add_depn-Grown :
      (t u : Tree) (n x : Bytes) (i : Item)
      → At u x i
      → Mem i.pkgver u.result
      → Grown t u
      → Grown t (add_depn n x u)
  add_depn-Grown t u n x i at m g = record {
    good = add_depn-Good find root u n x i g.good at m;
    ext = Ext-trans t u (add_depn n x u) g.ext (add_depn-Ext n x u i at);
    new = New_same fnmatch find rpool root t u (add_depn n x u) old (add_depn-Ext n x u i at) g.new;
  }
    where
      old : (k : Bytes) → Has (add_depn n x u) k → Has u k
      old k (j, at') =
          let at'' : dict_get (dict_set u.items x (linked n i)) k ≡ some j =
            sym (ap (λ w. dict_get w.items k) (add_depn-At n x u i at)) ∙ at' in
          elim (dict_set-cases u.items x k (linked n i) j at'') [
            | inl (same, is) ↦ (i, sym (ap (λ y. dict_get u.items y) same) ∙ at)
            | inr (other, here) ↦ (j, here)
          ]

  module _ (visit : Pkgd → Tree → Option (Option Bytes × Tree)) (fuel : ℕ) (q : Pkgd)
      (n : Bytes) where
    dep_round_lem :
        (dep : Bytes) (t : Tree)
        → Visits visit fuel
        → Reach find root q
        → Mem dep (run_depends_of q)
        → ((d : Bytes) × (dep_name dep ≡ some d)) × ((f : Found) × (find dep ≡ some f))
        → Good find root t
        → unvisited names t < fuel
        → (r : Bool × Tree) × (dep_round fnmatch find rpool visit q n dep t ≡ some r)
          × Rounded q t (dep ∷ []) r
    unfolding dep_round
    dep_round_lem dep t visits reach m ((d, named), (f, finds)) good small = elim (Found-cases f) [
      | inr (errno, e) ↦ (
        (not rpool, t),
        rw (dep_round, finds, e) refl,
        elim (Bool-cases rpool) [
          | inl k ↦ inl (ap not k, k)
          | inr k ↦ inr (ap not k, Grown-refl t good, (inl (errno, finds ∙ ap some e, k), tt))
        ],
      )
      | inl (p, e) ↦
          let at : find dep ≡ some (found p) = finds ∙ ap some e in
          let (b, given) = is_provided_ends q d in
          elim (Bool-cases b) [
            | inl k ↦ (
              (true, t),
              rw (dep_round, finds, e, named, given, k) refl,
              inr (refl, Grown-refl t good, (inr (inl (d, named, inl (given ∙ ap some k))), tt)),
            )
            | inr k ↦ elim (Option-cases (dict_get t.items d)) [
              | inr (i, z) ↦
                  let (u, runs, good', ext, same, m') =
                    add_deps_lem fnmatch find root t d i good z in
                  (
                    (true, u),
                    rw (dep_round, finds, e, named, given, k, z, runs) refl,
                    inr (
                      refl,
                      record {
                        good = good';
                        ext = ext;
                        new = λ x has. inl (has.0, sym (ap (λ y. dict_get y x) same) ∙ has.1);
                      },
                      (inr (inl (d, named, inr (i, ap (λ y. dict_get y d) same ∙ z))), tt),
                    ),
                  )
              | inl z ↦
                  let (r, runs, seen) = visits p t (next p dep reach m at) good small in
                  elim seen [
                    | inl (null, is) ↦ (
                      (false, r.1),
                      rw (dep_round, finds, e, named, given, k, z, runs, null) refl,
                      inl (refl, is),
                    )
                    | inr (x, i, gives, named', at', m', grown) ↦
                        let u = add_depn n x r.1 in
                        let grown' = add_depn-Grown t r.1 n x i at' m' grown in
                        (
                          (true, u),
                          rw (dep_round, finds, e, named, given, k, z, runs, gives) refl,
                          inr (
                            refl,
                            grown',
                            (
                              inr (
                                  inr (
                                    p,
                                    x,
                                    at,
                                    named',
                                    Ext-Has r.1 u x (add_depn-Ext n x r.1 i at') (i, at'),
                                  )),
                              tt,
                            ),
                          ),
                        )
                  ]
            ]
          ]
    ]

    deps_round_step :
        (dep : Bytes) (deps : List Bytes) (t : Tree) (r : Bool × Tree)
        → dep_round fnmatch find rpool visit q n dep t ≡ some r
        → deps_round fnmatch find rpool visit q n (dep ∷ deps) t ≡ elim r.0 [
          | true ↦ deps_round fnmatch find rpool visit q n deps r.1
          | false ↦ some (false, r.1)
        ]
    unfolding deps_round
    deps_round_step dep deps t r e = rw (deps_round, e) refl

    deps_round_ends :
        (dep : Bytes) (deps : List Bytes) (t : Tree) (r : Bool × Tree)
        → dep_round fnmatch find rpool visit q n dep t ≡ some r
        → r.0 ≡ false
        → deps_round fnmatch find rpool visit q n (dep ∷ deps) t ≡ some (false, r.1)
    deps_round_ends dep deps t (b, u) e k = deps_round_step dep deps t (b, u) e ∙ rw k refl

    deps_round_goes :
        (dep : Bytes) (deps : List Bytes) (t : Tree) (r : Bool × Tree)
        → dep_round fnmatch find rpool visit q n dep t ≡ some r
        → r.0 ≡ true
        → deps_round fnmatch find rpool visit q n (dep ∷ deps) t
          ≡ deps_round fnmatch find rpool visit q n deps r.1
    deps_round_goes dep deps t (b, u) e k = deps_round_step dep deps t (b, u) e ∙ rw k refl

    pub deps_round_lem :
        (deps : List Bytes) (t : Tree)
        → Visits visit fuel
        → Reach find root q
        → ((dep : Bytes) → Mem dep deps → Mem dep (run_depends_of q))
        → All
            (λ dep. ((d : Bytes) × (dep_name dep ≡ some d)) × ((f : Found) × (find dep ≡ some f)))
            deps
        → Good find root t
        → unvisited names t < fuel
        → (r : Bool × Tree) × (deps_round fnmatch find rpool visit q n deps t ≡ some r)
          × Rounded q t deps r
    unfolding deps_round
    deps_round_lem [] t visits reach inside all good small =
        ((true, t), refl, inr (refl, Grown-refl t good, tt))
    deps_round_lem (dep ∷ deps) t visits reach inside all good small =
        let (r, runs, one) =
          dep_round_lem dep t visits reach (inside dep (inl refl)) all.0 good small in
        elim one [
          | inl (ends, is) ↦ ((false, r.1), deps_round_ends dep deps t r runs ends, inl (refl, is))
          | inr (on, grown, here) ↦
              let less = unvisited-Ext names t r.1 grown.ext in
              let (r', runs', rest) =
                deps_round_lem deps r.1 visits reach (λ x m. inside x (inr m)) all.1 grown.good
                  (omega (arith, less, small)) in
              (
                r',
                deps_round_goes dep deps t r runs on ∙ runs',
                elim rest [
                  | inl stop ↦ inl stop
                  | inr (on', grown', later) ↦ inr (
                    on',
                    Grown-trans t r.1 r'.1 grown grown',
                    (Handled-Ext fnmatch find rpool r.1 r'.1 q dep grown'.ext here.0, later),
                  )
                ],
              )
        ]
