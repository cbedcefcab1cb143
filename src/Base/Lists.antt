-- ===== src/Base/Lists.antt =====
-- Lists measured and indexed by native numbers, under the library's names.
use Prim.Native.Nat.{ℕ, zero, suc, ◌+◌, ◌-◌, ◌≤◌, ◌<◌, min}
use mathlib.Core.Logic.{◌⊎◌, inl, inr}
use mathlib.Core.Path.{◌≡◌, refl, ap, subst}
use mathlib.Core.List.{List, [], ◌∷◌, ◌++◌}
use mathlib.Core.Option.{Option, none, some}
use native.Mathlib.Omega.{arith}

module _ {ℓ} {A : Type ℓ} where
  abbrev pub length : List A → ℕ
  length [] = 0
  length (x ∷ xs) = suc (length xs)

  abbrev pub get_elem? : List A → ℕ → Option A
  get_elem? [] i = none
  get_elem? (x ∷ xs) zero = some x
  get_elem? (x ∷ xs) (suc i) = get_elem? xs i

  abbrev pub get_or : List A → ℕ → A → A
  get_or [] i d = d
  get_or (x ∷ xs) zero d = x
  get_or (x ∷ xs) (suc i) d = get_or xs i d

  abbrev pub take : ℕ → List A → List A
  take zero xs = []
  take (suc n) [] = []
  take (suc n) (x ∷ xs) = x ∷ take n xs

  abbrev pub drop : ℕ → List A → List A
  drop zero xs = xs
  drop (suc n) [] = []
  drop (suc n) (x ∷ xs) = drop n xs

module _ {ℓ} {A : Type ℓ} where
  pub length-append : (xs ys : List A) → length (xs ++ ys) ≡ length xs + length ys
  length-append [] ys = omega arith
  length-append (x ∷ xs) ys = omega (arith, length-append xs ys)

  pub length-take : (n : ℕ) (xs : List A) → length (take n xs) ≡ min n (length xs)
  length-take zero xs = omega arith
  length-take (suc n) [] = omega arith
  length-take (suc n) (x ∷ xs) = omega (arith, length-take n xs)

  pub length-drop : (n : ℕ) (xs : List A) → length (drop n xs) ≡ length xs - n
  length-drop zero xs = omega arith
  length-drop (suc n) [] = omega arith
  length-drop (suc n) (x ∷ xs) = omega (arith, length-drop n xs)

  pub take-append_length : (xs ys : List A) → take (length xs) (xs ++ ys) ≡ xs
  take-append_length [] ys = refl
  take-append_length (x ∷ xs) ys = ap (λ t. x ∷ t) (take-append_length xs ys)

  pub take_all : (n : ℕ) (xs : List A) → length xs ≤ n → take n xs ≡ xs
  take_all zero [] h = refl
  take_all zero (x ∷ xs) h = absurd (omega arith)
  take_all (suc n) [] h = refl
  take_all (suc n) (x ∷ xs) h = ap (λ t. x ∷ t) (take_all n xs (omega arith))

  pub drop-append_length : (xs ys : List A) → drop (length xs) (xs ++ ys) ≡ ys
  drop-append_length [] ys = refl
  drop-append_length (x ∷ xs) ys = drop-append_length xs ys

  pub get_or_past : (xs : List A) (i : ℕ) (d : A) → length xs ≤ i → get_or xs i d ≡ d
  get_or_past [] i d h = refl
  get_or_past (x ∷ xs) zero d h = absurd (omega arith)
  get_or_past (x ∷ xs) (suc i) d h = get_or_past xs i d (omega arith)

module _ {A : Type 0} where
  pub get_elem?-in : (s : List A) (i : ℕ) → i < length s → (c : A) × (get_elem? s i ≡ some c)
  get_elem?-in [] i h = absurd (omega arith)
  get_elem?-in (c ∷ s) zero h = (c, refl)
  get_elem?-in (c ∷ s) (suc i) h = get_elem?-in s i (omega arith)

-- `P` of every element.
module _ {ℓ κ} {A : Type ℓ} (P : A → Type κ) where
  abbrev pub All : List A → Type κ
  All [] = Unit
  All (x ∷ xs) = P x × All xs

module _ {ℓ κ} {A : Type ℓ} (P : A → Type κ) where
  pub All-append : (xs ys : List A) → All P xs → All P ys → All P (xs ++ ys)
  All-append [] ys _ hy = hy
  All-append (x ∷ xs) ys (px, hx) hy = (px, All-append xs ys hx hy)

  pub All-append_left : (xs ys : List A) → All P (xs ++ ys) → All P xs
  All-append_left [] ys h = tt
  All-append_left (x ∷ xs) ys (px, h) = (px, All-append_left xs ys h)

  pub All-append_right : (xs ys : List A) → All P (xs ++ ys) → All P ys
  All-append_right [] ys h = h
  All-append_right (x ∷ xs) ys (px, h) = All-append_right xs ys h

  pub All-get_or : (xs : List A) (i : ℕ) (d : A) → P d → All P xs → P (get_or xs i d)
  All-get_or [] i d pd h = pd
  All-get_or (x ∷ xs) zero d pd (px, h) = px
  All-get_or (x ∷ xs) (suc i) d pd (px, h) = All-get_or xs i d pd h

-- `P` of some element.
module _ {ℓ} {A : Type ℓ} (P : A → Type 0) where
  abbrev pub Any : List A → Type 0
  Any [] = ⊥
  Any (x ∷ xs) = P x ⊎ Any xs

module _ {A : Type 0} (P : A → Type 0) where
  pub Any-append_left : (xs ys : List A) → Any P xs → Any P (xs ++ ys)
  Any-append_left [] ys h = absurd h
  Any-append_left (x ∷ xs) ys (inl p) = inl p
  Any-append_left (x ∷ xs) ys (inr h) = inr (Any-append_left xs ys h)

  pub Any-append_right : (xs ys : List A) → Any P ys → Any P (xs ++ ys)
  Any-append_right [] ys h = h
  Any-append_right (x ∷ xs) ys h = inr (Any-append_right xs ys h)

  pub Any-append_split : (xs ys : List A) → Any P (xs ++ ys) → Any P xs ⊎ Any P ys
  Any-append_split [] ys h = inr h
  Any-append_split (x ∷ xs) ys (inl p) = inl (inl p)
  Any-append_split (x ∷ xs) ys (inr h) = elim (Any-append_split xs ys h) [
    | inl l ↦ inl (inr l)
    | inr r ↦ inr r
  ]

  -- What all elements have, a given one has.
  pub All-at : (xs : List A) (x : A) → All P xs → Any (λ y. Path A y x) xs → P x
  All-at [] x all at = absurd at
  All-at (y ∷ xs) x all (inl e) = subst P e all.0
  All-at (y ∷ xs) x all (inr h) = All-at xs x all.1 h

  -- What each element has, all elements have.
  pub All-of : (xs : List A) → ((x : A) → Any (λ y. Path A y x) xs → P x) → All P xs
  All-of [] each = tt
  All-of (x ∷ xs) each = (each x (inl refl), All-of xs (λ y at. each y (inr at)))
