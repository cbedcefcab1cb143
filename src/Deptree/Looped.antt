-- ===== src/Deptree/Looped.antt =====
-- An item that is new, after the loop over its dependencies, and the end of `ordered_depends`.
use flappy.Base.{
  ℕ, ◌≡◌, refl, sym, ap, ◌∙◌, subst, Bool, true, false, ◌⊎◌, inl, inr, List, Option, none, some,
  Bytes, Bool-cases, All,
}
use flappy.Arrays.Search.{search_string}
use flappy.Dicts.{dict_get, dict_set, Pkgd}
use flappy.Dicts.Laws.{dict_get-dict_set}
use flappy.Find.{Found}
use flappy.Revdeps.{run_depends_of}
use flappy.Deptree.{Item, Tree, add_item, add_first, end_depends}
use flappy.Deptree.Mono.{
  Mem, At, Has, Ext, Ext-trans, Ext-refl, add_first-Ext, add_item-Ext, add_item_new, fresh,
  dict_set-cases,
}
use flappy.Deptree.Steps.{Reach, Good, add_first-Good}
use flappy.Deptree.Handled.{Handled, All-Handled-Ext, Done, Done-Ext}
use flappy.Deptree.Loop.{Grown}

module _ (fnmatch : Bytes → Bytes → ℕ → Bool) (find : Bytes → Option Found) (rpool : Bool)
    (names : List Bytes) (root : Pkgd) where
  -- An item that is new, and the loop over its dependencies.
  pub record Looped (d : Pkgd) (n v : Bytes) (t u : Tree) : Type 0 where
    pub good : Good find root u
    pub ext : Ext t u
    pub item : Item
    pub at : At u n item
    pub is : item.pkgver ≡ v
    pub others : (k : Bytes) → Has u k → (k ≡ n) ⊎ (Has t k ⊎ Done fnmatch find rpool root u k)
    pub handled : All (Handled fnmatch find rpool u d) (run_depends_of d)

  pub Looped-rounded :
      (d : Pkgd) (n v : Bytes) (t u : Tree)
      → dict_get t.items n ≡ none
      → Grown fnmatch find rpool names root (add_item n v t) u
      → All (Handled fnmatch find rpool u d) (run_depends_of d)
      → Looped d n v t u
  Looped-rounded d n v t u new g all =
      let at1 : At (add_item n v t) n (fresh v) =
        ap (λ w. dict_get w.items n) (add_item_new n v t new)
        ∙ dict_get-dict_set t.items n (fresh v) in
      let (j, at, s) = g.ext.keeps n (fresh v) at1 in
      record {
        good = g.good;
        ext = Ext-trans t _ u (add_item-Ext n v t new) g.ext;
        item = j;
        at = at;
        is = s;
        others = λ k has. elim (g.new k has) [
          | inr done ↦ inr (inr done)
          | inl (i, at') ↦
              let at'' : dict_get (dict_set t.items n (fresh v)) k ≡ some i =
                sym (ap (λ w. dict_get w.items k) (add_item_new n v t new)) ∙ at' in
              elim (dict_set-cases t.items n k (fresh v) i at'') [
                | inl (same, is) ↦ inl (sym same)
                | inr (other, here) ↦ inr (inl (i, here))
              ]
        ];
        handled = all;
      }

  pub end_depends_null :
      (first : Bool) (n v : Bytes) (r : Bool × Tree)
      → r.0 ≡ false
      → end_depends fnmatch find rpool first n v r ≡ some (none, r.1)
  unfolding end_depends
  end_depends_null first n v (true, u) e = absurd (cc e)
  end_depends_null first n v (false, u) e = refl

  pub end_depends_first :
      (n v : Bytes) (r : Bool × Tree)
      → r.0 ≡ true
      → end_depends fnmatch find rpool true n v r ≡ some (some n, r.1)
  unfolding end_depends
  end_depends_first n v (true, u) e = refl
  end_depends_first n v (false, u) e = absurd (cc e)

  -- The end for a dependency: its pkgver is in the result.
  pub end_depends_later :
      (d : Pkgd) (n v : Bytes) (t : Tree) (r : Bool × Tree)
      → r.0 ≡ true
      → Reach find root d
      → d.pkgname ≡ some n
      → d.pkgver ≡ some v
      → Looped d n v t r.1
      → (u : Tree) × (end_depends fnmatch find rpool false n v r ≡ some (some n, u))
        × ((i : Item) × At u n i × Mem i.pkgver u.result × Grown fnmatch find rpool names root t u)
  unfolding end_depends
  end_depends_later d n v t (false, u) e reach named ver l = absurd (cc e)
  end_depends_later d n v t (true, u) e reach named ver l =
      let s = search_string fnmatch u.result v in
      elim (Bool-cases s.answer) [
        | inl k ↦
            let m : Mem l.item.pkgver u.result =
              subst (λ x. Mem x u.result) (sym l.is) (s.sound k) in
            (
              u,
              rw (s.ends, k) refl,
              (l.item, l.at, m, grown u (Ext-refl u) (λ x has. has) l.good m),
            )
        | inr k ↦
            let out : ¬ Mem l.item.pkgver u.result =
              λ m. cc (k, s.complete (subst (λ x. Mem x u.result) l.is m)) in
            let good' =
              subst (λ x. Good find root (add_first x u)) l.is
                (add_first-Good find root u n l.item l.good l.at out) in
            (
              add_first v u,
              rw (s.ends, k) refl,
              (
                l.item,
                l.at,
                inl (sym l.is),
                grown (add_first v u) (add_first-Ext v u) (λ x has. has) good' (inl (sym l.is)),
              ),
            )
      ]
    where
      grown :
          (w : Tree)
          → Ext u w
          → ((x : Bytes) → Has w x → Has u x)
          → Good find root w
          → Mem l.item.pkgver w.result
          → Grown fnmatch find rpool names root t w
      grown w e same good m =
          let (j, at, s) = e.keeps n l.item l.at in
          let own : Done fnmatch find rpool root w n = (
            j,
            at,
            subst (λ x. Mem x w.result) (sym s) m,
            record {
              pkg = d;
              reach = reach;
              name = named;
              pkgver = ver ∙ ap some (sym (s ∙ l.is));
              handled = All-Handled-Ext fnmatch find rpool u w d (run_depends_of d) e l.handled;
            },
          ) in
          record {
            good = good;
            ext = Ext-trans t u w l.ext e;
            new = λ k has. elim (l.others k (same k has)) [
              | inl is ↦ inr (subst (Done fnmatch find rpool root w) (sym is) own)
              | inr (inl old) ↦ inl old
              | inr (inr done) ↦ inr (Done-Ext fnmatch find rpool root u w k e done)
            ];
          }
