-- ===== src/Dicts/Laws.antt =====
-- Laws of dictionaries.
use flappy.Base.{
  ◌≡◌, refl, false, [], ◌∷◌, some, Bytes, str_eq, str_eq_iff, str_eq_refl, Bool-cases, Any, inl,
  inr,
}
use flappy.Dicts.{Dict, dict_get, dict_set}

pub dict_get-dict_set {ℓ} :
    {A : Type ℓ} (d : Dict A) (key : Bytes) (a : A) → dict_get (dict_set d key a) key ≡ some a
unfolding dict_get dict_set
dict_get-dict_set [] key a = rw (str_eq_refl key) refl
dict_get-dict_set ((k, b) ∷ d) key a = elim (Bool-cases (str_eq k key)) [
  | inl e ↦ rw (e, e) refl
  | inr e ↦ rw (e, e) (dict_get-dict_set d key a)
]

pub dict_get-dict_set_other {ℓ} :
    {A : Type ℓ} (d : Dict A) (key other : Bytes) (a : A)
    → str_eq key other ≡ false
    → dict_get (dict_set d key a) other ≡ dict_get d other
unfolding dict_get dict_set
dict_get-dict_set_other [] key other a ne = rw ne refl
dict_get-dict_set_other ((k, b) ∷ d) key other a ne = elim (Bool-cases (str_eq k key)) [
  | inl e ↦
      let same : k ≡ key = (str_eq_iff k key).0 e in
      let differs : str_eq k other ≡ false = rw same ne in rw (e, differs) refl
  | inr e ↦ elim (Bool-cases (str_eq k other)) [
    | inl f ↦ rw (e, f) refl
    | inr f ↦ rw (e, f) (dict_get-dict_set_other d key other a ne)
  ]
]

-- What is found is an entry of the dictionary.
pub dict_get-Any :
    {A : Type 0} (d : Dict A) (key : Bytes) (a : A)
    → dict_get d key ≡ some a
    → Any (λ e. Path (Bytes × A) e (key, a)) d
unfolding dict_get
dict_get-Any [] key a h = absurd (cc h)
dict_get-Any ((k, b) ∷ d) key a h = elim (Bool-cases (str_eq k key)) [
  | inl e ↦
      let same : k ≡ key = (str_eq_iff k key).0 e in
      let here : some b ≡ some a = rw e at h in
      let value : b ≡ a = cc here in inl (rw (same, value) refl)
  | inr e ↦ inr (dict_get-Any d key a (rw e at h))
]
