-- ===== src/Arrays/Remove.antt =====
-- What `remove_obj_from_array` takes out of an array.
use flappy.Base.{
  ◌∙◌, str_eq_refl, ap, ℕ, suc, ◌+◌, ◌≡◌, refl, ◌⊎◌, inl, inr, Bool, true, false, List, [], ◌∷◌,
  ◌++◌, Option, none, some, arith, Bool-cases, All, Bytes, str_eq, length,
}
use flappy.Arrays.{
  remove_string_from_array, remove_pkg_from_array_by_name, Round, found_if, remove_at, find_index,
  remove_obj, PkgObj, remove_pkg_from_array_by_pkgver,
}

-- The array is `a`, the object, and `b`; the object is the first that has `P`.
pub record FirstAt {ℓ} {A : Type ℓ} (P : A → Type 0) (array rest : List A) : Type ℓ where
  pub ahead : List A
  pub obj : A
  pub behind : List A
  pub whole : array ≡ ahead ++ obj ∷ behind
  pub left : rest ≡ ahead ++ behind
  pub has : P obj
  pub first : All (λ o. ¬ P o) ahead

-- What a removal did: it took out the first object with `P` and returns true, or there is none,
-- the array is as it was, and it returns false.
pub Removes {ℓ} : {A : Type ℓ} → (A → Type 0) → List A → List A × Bool → Type ℓ
Removes P array (rest, true) = FirstAt P array rest
Removes P array (rest, false) = (rest ≡ array) × All (λ o. ¬ P o) array

module _ {ℓ} {A : Type ℓ} (test : A → Bool) where
  abbrev plain : A → Option Round
  plain obj = some (found_if (test obj))

  abbrev Passes : A → Type 0
  Passes obj = test obj ≡ true

  -- The index that the loop finds from `idx` on.
  abbrev Index : List A → ℕ → Option (Option ℕ) → Type ℓ
  Index array idx r =
      ((a : List A) × (o : A) × (b : List A) × (array ≡ a ++ o ∷ b)
        × Passes o
        × All (λ x. ¬ Passes x) a
        × (r ≡ some (some (idx + length a))))
      ⊎ (All (λ x. ¬ Passes x) array × (r ≡ some none))

  find_index_lem : (array : List A) (idx : ℕ) → Index array idx (find_index plain array idx)
  unfolding find_index
  find_index_lem [] idx = inr (tt, refl)
  find_index_lem (x ∷ array) idx = elim (Bool-cases (test x)) [
    | inl e ↦ inl ([], x, array, refl, e, tt, rw e (ap (λ t. some (some t)) (omega arith)))
    | inr e ↦ elim (find_index_lem array (suc idx)) [
      | inl (a, o, b, w, p, f, r) ↦ inl (
        x ∷ a,
        o,
        b,
        ap (λ t. x ∷ t) w,
        p,
        (λ t. cc, f),
        rw (e, r) (ap (λ t. some (some t)) (omega arith)),
      )
      | inr (f, r) ↦ inr ((λ t. cc, f), rw e r)
    ]
  ]

  remove_at-length : (a : List A) (o : A) (b : List A) → remove_at (length a) (a ++ o ∷ b) ≡ a ++ b
  remove_at-length [] o b = refl
  remove_at-length (x ∷ a) o b = ap (λ t. x ∷ t) (remove_at-length a o b)

  -- The removal ends: it takes the first object that passes the test out of the array, or leaves
  -- the array alone if there is none, and tells which.
  remove_obj_lem :
      (array : List A)
      → (r : List A × Bool) × (remove_obj plain array ≡ some r) × Removes Passes array r
  unfolding remove_obj Removes
  remove_obj_lem array = elim (find_index_lem array 0) [
    | inl (a, o, b, w, p, f, r) ↦
        let z : 0 + length a ≡ length a = omega arith in
        (
          (a ++ b, true),
          rw r (ap (λ t. some (t, true)) (rw (w, z) (remove_at-length a o b))),
          record { ahead = a; obj = o; behind = b; whole = w; left = refl; has = p; first = f },
        )
    | inr (f, r) ↦ ((array, false), rw r refl, (refl, f))
  ]

-- `flappy_remove_pkg_from_array_by_pkgver` ends: it takes the first package of that pkgver out of
-- the array and returns true, the others staying in their order; or, if there is none, it returns
-- false and the array is as it was.
remove_by_pkgver :
    (array : List PkgObj) (str : Bytes)
    → (r : List PkgObj × Bool) × (remove_pkg_from_array_by_pkgver array str ≡ some r)
      × Removes (λ o. str_eq o.pkgver str ≡ true) array r
unfolding remove_pkg_from_array_by_pkgver
remove_by_pkgver array str = remove_obj_lem (λ o. str_eq o.pkgver str) array

-- The same of `flappy_remove_pkg_from_array_by_name` and the package's name.
pub remove_by_name :
    (array : List PkgObj) (str : Bytes)
    → (r : List PkgObj × Bool) × (remove_pkg_from_array_by_name array str ≡ some r)
      × Removes (λ o. str_eq o.pkgname str ≡ true) array r
unfolding remove_pkg_from_array_by_name
remove_by_name array str = remove_obj_lem (λ o. str_eq o.pkgname str) array

-- The same of `flappy_remove_string_from_array` and the string itself.
pub remove_string :
    (array : List Bytes) (str : Bytes)
    → (r : List Bytes × Bool) × (remove_string_from_array array str ≡ some r)
      × Removes (λ o. str_eq o str ≡ true) array r
unfolding remove_string_from_array
remove_string array str = remove_obj_lem (λ o. str_eq o str) array

find_index_at :
    (a b : List Bytes) (str : Bytes) (idx : ℕ)
    → All (λ o. str_eq o str ≡ false) a
    → find_index (λ obj. some (found_if (str_eq obj str))) (a ++ str ∷ b) idx
      ≡ some (some (idx + length a))
unfolding find_index
find_index_at [] b str idx h = rw (str_eq_refl str) (ap (λ t. some (some t)) (omega arith))
find_index_at (o ∷ a) b str idx h =
    rw h.0 (find_index_at a b str (suc idx) h.1 ∙ ap (λ t. some (some t)) (omega arith))

-- The string at its first place is the one that goes.
pub remove_string_at :
    (a b : List Bytes) (str : Bytes)
    → All (λ o. str_eq o str ≡ false) a
    → remove_string_from_array (a ++ str ∷ b) str ≡ some (a ++ b, true)
unfolding remove_string_from_array remove_obj
remove_string_at a b str h =
    let z : 0 + length a ≡ length a = omega arith in
    rw (find_index_at a b str 0 h, z, remove_at-length (λ (o : Bytes). true) a str b) refl
