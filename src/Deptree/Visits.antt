-- ===== src/Deptree/Visits.antt =====
-- Every call of `ordered_depends` for a dependency returns, with enough fuel.
use flappy.Base.{
  ℕ, zero, suc, ◌<◌, ◌≡◌, refl, sym, ap, ◌∙◌, Bool, true, false, ◌⊎◌, inl, inr, List, Option, none,
  some, ◌>>=◌, arith, Bytes, Option-cases,
}
use flappy.Dicts.{dict_get, Pkgd}
use flappy.Dicts.Laws.{dict_get-dict_set}
use flappy.Find.{Found, found}
use flappy.Revdeps.{run_depends_of}
use flappy.Deptree.{
  Item, Tree, add_item, end_depends, add_deps, item_depends, ordered_depends, deps_round,
}
use flappy.Deptree.Mono.{At, add_item-Ext, add_item_new, fresh}
use flappy.Deptree.Steps.{Reach, start, next, Good, add_deps_lem, add_item-Good}
use flappy.Deptree.Handled.{unvisited, unvisited_less}
use flappy.Deptree.Loop.{IsPkg, Visits, deps_round_lem}
use flappy.Deptree.Looped.{Looped, Looped-rounded, end_depends_null, end_depends_later}

bind_some :
    {A B : Type 0} (f : A → Option B) {o : Option A} {a : A} {r : Option B}
    → o ≡ some a
    → f a ≡ r
    → (o >>= f) ≡ r
bind_some f e h = rw e h

module _ (fnmatch : Bytes → Bytes → ℕ → Bool) (find : Bytes → Option Found) (rpool : Bool)
    (names : List Bytes) (root : Pkgd) (is_root : IsPkg find names root)
    (are_pkgs : (dep : Bytes) (q : Pkgd) → find dep ≡ some (found q) → IsPkg find names q) where
  Reach-IsPkg : (q : Pkgd) → Reach find root q → IsPkg find names q
  Reach-IsPkg q start = is_root
  Reach-IsPkg q (next q' dep reach m at) = are_pkgs dep q at

  -- The search and the loop over the dependencies of an item that is new.
  pub looped :
      (fuel : ℕ) (d : Pkgd) (t : Tree) (p : IsPkg find names d)
      → Visits fnmatch find rpool names root (ordered_depends fnmatch find rpool fuel false) fuel
      → Reach find root d
      → Good find root t
      → dict_get t.items p.name ≡ none
      → unvisited names t < suc fuel
      → (r : Bool × Tree) × (deps_round fnmatch find rpool
            (ordered_depends fnmatch find rpool fuel false)
            d
            p.name
            (run_depends_of d)
            (add_item p.name p.pkgver t)
          ≡ some r)
        × (((r.0 ≡ false) × (rpool ≡ true))
            ⊎ ((r.0 ≡ true) × Looped fnmatch find rpool names root d p.name p.pkgver t r.1))
  looped fuel d t p visits reach good new small =
      let t1 = add_item p.name p.pkgver t in
      let good1 =
        add_item-Good find root t p.name p.pkgver good new (d, reach, p.has_name, p.has_pkgver) in
      let at1 : At t1 p.name (fresh p.pkgver) =
        ap (λ w. dict_get w.items p.name) (add_item_new p.name p.pkgver t new)
        ∙ dict_get-dict_set t.items p.name (fresh p.pkgver) in
      let less =
        unvisited_less names t t1 p.name p.known new (fresh p.pkgver, at1)
          (add_item-Ext p.name p.pkgver t new) in
      let (r, runs, rounded) =
        deps_round_lem fnmatch find rpool names root (ordered_depends fnmatch find rpool fuel false)
          fuel d p.name (run_depends_of d) t1 visits reach (λ x m. m) p.deps good1
          (omega (arith, less, small)) in
      (
        r,
        runs,
        elim rounded [
          | inl null ↦ inl null
          | inr (on, grown, all) ↦ inr (
            on,
            Looped-rounded fnmatch find rpool names root d p.name p.pkgver t r.1 new grown all,
          )
        ],
      )

  ordered_depends_named :
      (fuel : ℕ) (first : Bool) (d : Pkgd) (t : Tree) (n : Bytes)
      → d.pkgname ≡ some n
      → ordered_depends fnmatch find rpool (suc fuel) first d t
        ≡ item_depends fnmatch find rpool
            (ordered_depends fnmatch find rpool fuel false)
            first
            d
            t
            n
  unfolding ordered_depends
  ordered_depends_named fuel first d t n named = rw named refl

  ordered_depends_old :
      (fuel : ℕ) (first : Bool) (d : Pkgd) (t : Tree) (n : Bytes) (i : Item) (u : Tree)
      → d.pkgname ≡ some n
      → At t n i
      → add_deps fnmatch first n t ≡ some u
      → ordered_depends fnmatch find rpool (suc fuel) first d t ≡ some (some n, u)
  unfolding item_depends
  ordered_depends_old fuel first d t n i u named at runs =
      ordered_depends_named fuel first d t n named ∙ rw (item_depends, at, runs) refl

  pub ordered_depends_new :
      (fuel : ℕ) (first : Bool) (d : Pkgd) (t : Tree) (n v : Bytes) (r : Bool × Tree)
      (o : Option Bytes × Tree)
      → d.pkgname ≡ some n
      → dict_get t.items n ≡ none
      → d.pkgver ≡ some v
      → deps_round fnmatch find rpool
          (ordered_depends fnmatch find rpool fuel false)
          d
          n
          (run_depends_of d)
          (add_item n v t)
        ≡ some r
      → end_depends fnmatch find rpool first n v r ≡ some o
      → ordered_depends fnmatch find rpool (suc fuel) first d t ≡ some o
  unfolding item_depends
  ordered_depends_new fuel first d t n v r o named new ver runs ends =
      ordered_depends_named fuel first d t n named
      ∙ rw (item_depends, new) (bind_some _ ver (bind_some _ runs ends))

  pub ordered_depends-Visits :
      (fuel : ℕ)
      → Visits fnmatch find rpool names root (ordered_depends fnmatch find rpool fuel false) fuel
  unfolding ordered_depends
  ordered_depends-Visits zero d t reach good small = absurd (omega (arith, small))
  ordered_depends-Visits (suc fuel) d t reach good small =
      let p = Reach-IsPkg d reach in
      elim (Option-cases (dict_get t.items p.name)) [
        | inr (i, e) ↦
            let (u, runs, good', ext, same, m) = add_deps_lem fnmatch find root t p.name i good e in
            (
              (some p.name, u),
              ordered_depends_old fuel false d t p.name i u p.has_name e runs,
              inr (
                p.name,
                i,
                refl,
                p.has_name,
                ap (λ y. dict_get y p.name) same ∙ e,
                m,
                record {
                  good = good';
                  ext = ext;
                  new = λ x has. inl (has.0, sym (ap (λ y. dict_get y x) same) ∙ has.1);
                },
              ),
            )
        | inl e ↦
            let (r, runs, end) =
              looped fuel d t p (ordered_depends-Visits fuel) reach good e small in
            elim end [
              | inl (null, is) ↦ (
                (none, r.1),
                ordered_depends_new fuel false d t p.name p.pkgver r (none, r.1) p.has_name e
                    p.has_pkgver runs
                    (end_depends_null fnmatch find rpool names root false p.name p.pkgver r null),
                inl (refl, is),
              )
              | inr (on, l) ↦
                  let (u, ends, (i, at, m, grown)) =
                    end_depends_later fnmatch find rpool names root d p.name p.pkgver t r on reach
                      p.has_name p.has_pkgver l in
                  (
                    (some p.name, u),
                    ordered_depends_new fuel false d t p.name p.pkgver r (some p.name, u) p.has_name
                        e p.has_pkgver runs ends,
                    inr (p.name, i, refl, p.has_name, at, m, grown),
                  )
            ]
      ]
