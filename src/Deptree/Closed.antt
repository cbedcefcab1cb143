-- ===== src/Deptree/Closed.antt =====
-- The full dependency tree is what is reached from a package, and is closed under dependencies.
use flappy.Base.{
  ℕ, suc, ◌≤◌, ◌≡◌, refl, sym, ap, ◌∙◌, subst, Bool, true, ◌⊎◌, inl, inr, List, [], ◌∷◌, Option,
  none, some, arith, Bytes, length, Option-cases,
}
use flappy.Dicts.{Dict, dict_get, Pkgd}
use flappy.Find.{Found, found}
use flappy.Repo.Unique.{Unique}
use flappy.Deptree.{Item, Tree, ordered_depends, get_pkg_fulldeptree}
use flappy.Deptree.Mono.{Mem, At, Has}
use flappy.Deptree.Steps.{start, Listed, Good}
use flappy.Deptree.Handled.{unvisited, Whole}
use flappy.Deptree.Loop.{IsPkg}
use flappy.Deptree.Looped.{Looped, end_depends_null, end_depends_first}
use flappy.Deptree.Visits.{looped, ordered_depends_new, ordered_depends-Visits}

-- The tree `u` has an item for `root` and for all that its items depend on; its result is the
-- pkgvers of its items, each once, but for the one of `root`, which may be missing.
pub record IsTree (fnmatch : Bytes → Bytes → ℕ → Bool) (find : Bytes → Option Found) (rpool : Bool)
    (root : Pkgd) (u : Tree) : Type 0 where
  pub has_root : (n : Bytes) × (root.pkgname ≡ some n) × Has u n
  pub whole : (n : Bytes) (i : Item) → At u n i → Whole fnmatch find rpool root u n i
  pub in_result :
      (n : Bytes) (i : Item) → At u n i → (root.pkgname ≡ some n) ⊎ Mem i.pkgver u.result
  pub listed : (v : Bytes) → Mem v u.result → Listed u v
  pub unique : Unique u.result

unvisited-length : (names : List Bytes) (t : Tree) → unvisited names t ≤ length names
unfolding unvisited
unvisited-length [] t = omega arith
unvisited-length (n ∷ names) t =
    let rest = unvisited-length names t in
    elim (Option-cases (dict_get t.items n)) [
      | inl k ↦ rw (unvisited, k) (omega (arith, rest))
      | inr (i, k) ↦ rw (unvisited, k) (omega (arith, rest))
    ]

module _ (fnmatch : Bytes → Bytes → ℕ → Bool) (find : Bytes → Option Found) (rpool : Bool)
    (names : List Bytes) (root : Pkgd) (is_root : IsPkg find names root)
    (are_pkgs : (dep : Bytes) (q : Pkgd) → find dep ≡ some (found q) → IsPkg find names q) where
  -- The first call, on the empty table.
  abbrev empty : Tree
  empty = record { items = []; result = [] }

  empty-Good : Good find root empty
  unfolding Unique dict_get
  empty-Good = record {
    unlinked = λ n i at. absurd (cc at);
    unique = tt;
    listed = λ v m. absurd m;
    reached = λ n i at. absurd (cc at);
  }

  empty_new : (n : Bytes) → dict_get empty.items n ≡ none
  unfolding dict_get
  empty_new n = refl

  Looped-IsTree :
      (n v : Bytes) (u : Tree)
      → root.pkgname ≡ some n
      → root.pkgver ≡ some v
      → Looped fnmatch find rpool names root root n v empty u
      → IsTree fnmatch find rpool root u
  Looped-IsTree n v u named ver l = record {
    has_root = (n, named, (l.item, l.at));
    whole = λ k i at. elim (l.others k (i, at)) [
      | inl same ↦
          let it : some l.item ≡ some i = sym l.at ∙ ap (λ x. dict_get u.items x) (sym same) ∙ at in
          let is : l.item ≡ i = cc it in
          record {
            pkg = root;
            reach = start;
            name = named ∙ ap some (sym same);
            pkgver = ver ∙ ap some (sym l.is ∙ ap (λ x. x.pkgver) is);
            handled = l.handled;
          }
      | inr (inl (j, old)) ↦ absurd (cc (sym (empty_new k) ∙ old))
      | inr (inr (j, at', m, w)) ↦
          let it : some j ≡ some i = sym at' ∙ at in
          subst (Whole fnmatch find rpool root u k) (cc it) w
    ];
    in_result = λ k i at. elim (l.others k (i, at)) [
      | inl same ↦ inl (named ∙ ap some (sym same))
      | inr (inl (j, old)) ↦ absurd (cc (sym (empty_new k) ∙ old))
      | inr (inr (j, at', m, w)) ↦
          let it : some j ≡ some i = sym at' ∙ at in
          let is : j ≡ i = cc it in inr (subst (λ x. Mem x.pkgver u.result) is m)
    ];
    listed = l.good.listed;
    unique = l.good.unique;
  }

  fulldeptree_runs :
      (fuel : ℕ) (pkg : Bytes) (o : Option Bytes × Tree)
      → find pkg ≡ some (found root)
      → ordered_depends fnmatch find rpool (suc fuel) true root empty ≡ some o
      → get_pkg_fulldeptree fnmatch find rpool (suc fuel) [] pkg
        ≡ some (elim o.0 [ none ↦ (none, o.1.items) | some item ↦ (some o.1.result, []) ])
  unfolding get_pkg_fulldeptree
  fulldeptree_runs fuel pkg o finds runs = rw (get_pkg_fulldeptree, finds, runs) refl

  -- `flappy_get_pkg_fulldeptree` returns, with as much fuel as there are names and one.
  pub get_pkg_fulldeptree-IsTree :
      (pkg : Bytes)
      → find pkg ≡ some (found root)
      → (r : Option (List Bytes) × Dict Item) × (get_pkg_fulldeptree fnmatch find rpool
            (suc (length names))
            []
            pkg
          ≡ some r)
        × (((r.0 ≡ none) × (rpool ≡ true))
            ⊎ ((u : Tree) × (r.0 ≡ some u.result) × (r.1 ≡ []) × IsTree fnmatch find rpool root u))
  get_pkg_fulldeptree-IsTree pkg finds =
      let p = is_root in
      let few = unvisited-length names empty in
      let (r, runs, end) =
        looped fnmatch find rpool names root is_root are_pkgs (length names) root empty p
          (ordered_depends-Visits fnmatch find rpool names root is_root are_pkgs (length names))
          start empty-Good (empty_new p.name) (omega (arith, few)) in
      elim end [
        | inl (null, is) ↦ (
          (none, r.1.items),
          fulldeptree_runs (length names) pkg (none, r.1) finds
              (ordered_depends_new fnmatch find rpool names root is_root are_pkgs (length names)
                true root empty p.name p.pkgver r (none, r.1) p.has_name (empty_new p.name)
                p.has_pkgver runs
                (end_depends_null fnmatch find rpool names root true p.name p.pkgver r null)),
          inl (refl, is),
        )
        | inr (on, l) ↦ (
          (some r.1.result, []),
          fulldeptree_runs (length names) pkg (some p.name, r.1) finds
              (ordered_depends_new fnmatch find rpool names root is_root are_pkgs (length names)
                true root empty p.name p.pkgver r (some p.name, r.1) p.has_name (empty_new p.name)
                p.has_pkgver runs
                (end_depends_first fnmatch find rpool names root p.name p.pkgver r on)),
          inr (r.1, refl, refl, Looped-IsTree p.name p.pkgver r.1 p.has_name p.has_pkgver l),
        )
      ]
