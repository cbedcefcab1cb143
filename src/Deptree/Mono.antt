-- ===== src/Deptree/Mono.antt =====
-- How a tree grows: items stay with their pkgver, and what is in the result stays there.
use flappy.Base.{
  ◌≡◌, refl, sym, ap, ◌∙◌, subst, false, ◌⊎◌, inl, inr, List, [], ◌∷◌, none, some, Bytes, str_eq,
  str_eq→eq, Bool-cases, Any,
}
use flappy.Dicts.{Dict, dict_get, dict_set}
use flappy.Dicts.Laws.{dict_get-dict_set, dict_get-dict_set_other}
use flappy.Deptree.{Item, Tree, add_item, add_depn, add_first}

abbrev pub Mem : Bytes → List Bytes → Type 0
Mem v l = Any (λ o. o ≡ v) l

abbrev pub At : Tree → Bytes → Item → Type 0
At t n i = dict_get t.items n ≡ some i

-- The tree has an item by that name.
abbrev pub Has : Tree → Bytes → Type 0
Has t n = (i : Item) × At t n i

pub record Ext (t u : Tree) : Type 0 where
  pub keeps : (n : Bytes) (i : Item) → At t n i → (j : Item) × At u n j × (j.pkgver ≡ i.pkgver)
  pub grows : (v : Bytes) → Mem v t.result → Mem v u.result

pub Ext-refl : (t : Tree) → Ext t t
Ext-refl t = record { keeps = λ n i at. (i, at, refl); grows = λ v m. m }

pub Ext-trans : (t u w : Tree) → Ext t u → Ext u w → Ext t w
Ext-trans t u w e f = record {
  keeps = λ n i at.
      let (j, at', s) = e.keeps n i at in let (k, at'', s') = f.keeps n j at' in (k, at'', s' ∙ s);
  grows = λ v m. f.grows v (e.grows v m);
}

pub Ext-Has : (t u : Tree) (n : Bytes) → Ext t u → Has t n → Has u n
Ext-Has t u n e (i, at) = let (j, at', s) = e.keeps n i at in (j, at')

pub add_first-Ext : (v : Bytes) (t : Tree) → Ext t (add_first v t)
add_first-Ext v t = record { keeps = λ n i at. (i, at, refl); grows = λ w m. inr m }

-- A look into a dictionary that was set.
pub dict_set-cases :
    {A : Type 0} (d : Dict A) (k n : Bytes) (a b : A)
    → dict_get (dict_set d k a) n ≡ some b
    → ((k ≡ n) × (a ≡ b)) ⊎ ((str_eq k n ≡ false) × (dict_get d n ≡ some b))
dict_set-cases d k n a b h = elim (Bool-cases (str_eq k n)) [
  | inl e ↦
      let same : k ≡ n = str_eq→eq k n e in
      let it : some a ≡ some b =
        sym (dict_get-dict_set d k a) ∙ ap (λ x. dict_get (dict_set d k a) x) same ∙ h in
      inl (same, cc it)
  | inr e ↦ inr (e, sym (dict_get-dict_set_other d k n a e) ∙ h)
]

pub dict_set-keeps :
    {A : Type 0} (d : Dict A) (k n : Bytes) (a b : A)
    → dict_get d n ≡ some b
    → ((k ≡ n) × (dict_get (dict_set d k a) n ≡ some a))
      ⊎ ((str_eq k n ≡ false) × (dict_get (dict_set d k a) n ≡ some b))
dict_set-keeps d k n a b h = elim (Bool-cases (str_eq k n)) [
  | inl e ↦
      let same : k ≡ n = str_eq→eq k n e in
      inl (same, subst (λ x. dict_get (dict_set d k a) x ≡ some a) same (dict_get-dict_set d k a))
  | inr e ↦ inr (e, dict_get-dict_set_other d k n a e ∙ h)
]

abbrev pub fresh : Bytes → Item
fresh v = record { pkgver = v; dbase = [] }

-- A new item.
pub add_item_new :
    (n v : Bytes) (t : Tree)
    → dict_get t.items n ≡ none
    → add_item n v t ≡ record t { items = dict_set t.items n (fresh v) }
unfolding add_item
add_item_new n v t h = simp (add_item, h)

pub add_item-Ext : (n v : Bytes) (t : Tree) → dict_get t.items n ≡ none → Ext t (add_item n v t)
add_item-Ext n v t h = subst (Ext t) (sym (add_item_new n v t h)) (record {
  keeps = λ k i at. elim (dict_set-keeps t.items n k (fresh v) i at) [
    | inl (same, at') ↦ absurd (cc (sym h ∙ ap (λ x. dict_get t.items x) same ∙ at))
    | inr (other, at') ↦ (i, at', refl)
  ];
  grows = λ w m. m;
})

abbrev pub linked : Bytes → Item → Item
linked n i = record i { dbase = n ∷ i.dbase }

pub add_depn-At :
    (n x : Bytes) (t : Tree) (i : Item)
    → At t x i
    → add_depn n x t ≡ record t { items = dict_set t.items x (linked n i) }
unfolding add_depn
add_depn-At n x t i h = simp (add_depn, h)

pub add_depn-Ext : (n x : Bytes) (t : Tree) (i : Item) → At t x i → Ext t (add_depn n x t)
add_depn-Ext n x t i h = subst (Ext t) (sym (add_depn-At n x t i h)) (record {
  keeps = λ k j at. elim (dict_set-keeps t.items x k (linked n i) j at) [
    | inl (same, at') ↦
        let it : some i ≡ some j = sym h ∙ ap (λ y. dict_get t.items y) same ∙ at in
        let at_item : i ≡ j = cc it in (linked n i, at', ap (λ y. y.pkgver) at_item)
    | inr (other, at') ↦ (j, at', refl)
  ];
  grows = λ w m. m;
})
