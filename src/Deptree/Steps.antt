-- ===== src/Deptree/Steps.antt =====
-- The steps of the search keep the tree in order: an item with a link is in the result, which is why
-- `add_deps_recursive` follows no link.
use flappy.Base.{
  ℕ, ◌≡◌, refl, sym, ap, ◌∙◌, subst, Bool, false, ◌⊎◌, inl, inr, List, [], ◌∷◌, Option, none, some,
  Bytes, Bool-cases,
}
use flappy.Arrays.Search.{search_string}
use flappy.Dicts.{dict_get, Pkgd}
use flappy.Find.{Found, found}
use flappy.Repo.Unique.{Unique}
use flappy.Revdeps.{run_depends_of}
use flappy.Deptree.{
  Item, Tree, add_item, add_depn, add_first, links_loop, add_deps_recursive, add_deps,
}
use flappy.Deptree.Mono.{
  Mem, At, Ext, Ext-refl, add_first-Ext, add_item-Ext, add_depn-Ext, dict_set-cases, fresh,
  add_item_new, linked, add_depn-At,
}

pub Items-cases : (l : List Bytes) → (l ≡ []) ⊎ ((x : Bytes) × (r : List Bytes) × (l ≡ x ∷ r))
Items-cases [] = inl refl
Items-cases (x ∷ r) = inr (x, r, refl)

-- The packages that are reached from `root` by what is found for run-time dependencies.
pub data Reach (find : Bytes → Option Found) (root : Pkgd) : Pkgd → Type 0 where
  start : Reach find root root
  next :
      {p : Pkgd} (q : Pkgd) (dep : Bytes)
      → Reach find root p
      → Mem dep (run_depends_of p)
      → find dep ≡ some (found q)
      → Reach find root q

-- A package that is reached has the name `n` and the pkgver `v`.
abbrev pub Reached : (Bytes → Option Found) → Pkgd → Bytes → Bytes → Type 0
Reached find root n v = (q : Pkgd) × Reach find root q × (q.pkgname ≡ some n) × (q.pkgver ≡ some v)

-- An item has the pkgver `v`.
abbrev pub Listed : Tree → Bytes → Type 0
Listed t v = (n : Bytes) × (i : Item) × At t n i × (i.pkgver ≡ v)

Listed-Ext : (t u : Tree) (v : Bytes) → Ext t u → Listed t v → Listed u v
Listed-Ext t u v e (n, i, at, is) = let (j, at', s) = e.keeps n i at in (n, j, at', s ∙ is)

pub record Good (find : Bytes → Option Found) (root : Pkgd) (t : Tree) : Type 0 where
  pub unlinked : (n : Bytes) (i : Item) → At t n i → (i.dbase ≡ []) ⊎ Mem i.pkgver t.result
  pub unique : Unique t.result
  pub listed : (v : Bytes) → Mem v t.result → Listed t v
  pub reached : (n : Bytes) (i : Item) → At t n i → Reached find root n i.pkgver

module _ (find : Bytes → Option Found) (root : Pkgd) where
  pub add_first-Good :
      (t : Tree) (n : Bytes) (i : Item)
      → Good find root t
      → At t n i
      → ¬ Mem i.pkgver t.result
      → Good find root (add_first i.pkgver t)
  unfolding Unique
  add_first-Good t n i g at new = record {
    unlinked = λ k j at'. elim (g.unlinked k j at') [ inl e ↦ inl e | inr m ↦ inr (inr m) ];
    unique = (new, g.unique);
    listed = λ v. elim [ inl e ↦ (n, i, at, e) | inr m ↦ g.listed v m ];
    reached = g.reached;
  }

  pub add_item-Good :
      (t : Tree) (n v : Bytes)
      → Good find root t
      → dict_get t.items n ≡ none
      → Reached find root n v
      → Good find root (add_item n v t)
  add_item-Good t n v g new r = subst (Good find root) (sym (add_item_new n v t new)) (record {
    unlinked = λ k j at. elim (dict_set-cases t.items n k (fresh v) j at) [
      | inl (same, is) ↦ inl (sym (ap (λ y. y.dbase) is))
      | inr (other, at') ↦ g.unlinked k j at'
    ];
    unique = g.unique;
    listed = λ w m.
        Listed-Ext t _ w (subst (Ext t) (add_item_new n v t new) (add_item-Ext n v t new))
          (g.listed w m);
    reached = λ k j at. elim (dict_set-cases t.items n k (fresh v) j at) [
      | inl (same, is) ↦
          subst (λ x. Reached find root x j.pkgver) same
            (subst (Reached find root n) (ap (λ y. y.pkgver) is) r)
      | inr (other, at') ↦ g.reached k j at'
    ];
  })

  pub add_depn-Good :
      (t : Tree) (n x : Bytes) (i : Item)
      → Good find root t
      → At t x i
      → Mem i.pkgver t.result
      → Good find root (add_depn n x t)
  add_depn-Good t n x i g at m = subst (Good find root) (sym (add_depn-At n x t i at)) (record {
    unlinked = λ k j at'. elim (dict_set-cases t.items x k (linked n i) j at') [
      | inl (same, is) ↦ inr (subst (λ y. Mem y.pkgver t.result) is m)
      | inr (other, at'') ↦ g.unlinked k j at''
    ];
    unique = g.unique;
    listed = λ w m'.
        Listed-Ext t _ w (subst (Ext t) (add_depn-At n x t i at) (add_depn-Ext n x t i at))
          (g.listed w m');
    reached = λ k j at'. elim (dict_set-cases t.items x k (linked n i) j at') [
      | inl (same, is) ↦
          subst (λ y. Reached find root y j.pkgver) same
            (subst (λ y. Reached find root x y.pkgver) is (g.reached x i at))
      | inr (other, at'') ↦ g.reached k j at''
    ];
  })

module _ (fnmatch : Bytes → Bytes → ℕ → Bool) (find : Bytes → Option Found) (root : Pkgd) where
  -- An item comes into the result, if it is not there, and nothing else changes.
  pub add_deps_lem :
      (t : Tree) (n : Bytes) (i : Item)
      → Good find root t
      → At t n i
      → (u : Tree) × (add_deps fnmatch false n t ≡ some u)
        × Good find root u
        × Ext t u
        × (u.items ≡ t.items)
        × Mem i.pkgver u.result
  unfolding add_deps_recursive links_loop
  add_deps_lem t n i g at =
      let s = search_string fnmatch t.result i.pkgver in
      elim (Bool-cases s.answer) [
        | inl e ↦ (t, rw (add_deps_recursive, at, s.ends, e) refl, g, Ext-refl t, refl, s.sound e)
        | inr e ↦
            let out : ¬ Mem i.pkgver t.result = λ m. cc (e, s.complete m) in
            elim (Items-cases i.dbase) [
              | inl k ↦ (
                add_first i.pkgver t,
                rw (add_deps_recursive, at, s.ends, e, k) refl,
                add_first-Good find root t n i g at out,
                add_first-Ext i.pkgver t,
                refl,
                inl refl,
              )
              | inr (x, r, k) ↦ elim (g.unlinked n i at) [
                | inl z ↦ absurd (cc (k, z))
                | inr m ↦ absurd (out m)
              ]
            ]
      ]
