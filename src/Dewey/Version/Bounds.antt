-- ===== src/Dewey/Version/Bounds.antt =====
-- No overflow in lib/external/dewey.c where the numbers of a version string have few digits.
use native.Mathlib.Nat.{pow-suc, pow-le-pow_right}
use flappy.Base.{
  ℕ, zero, suc, ◌+◌, ◌-◌, ◌*◌, ◌%◌, ◌^◌, ◌≤◌, ◌<◌, ◌≡◌, true, [], ◌∷◌, Option, none, some, arith,
  Bool-cases, Option-cases, inl, inr, ◌>>=◌, All, All-append, Bytes, is_digit, to_lower, drop,
  if◌then◌else◌, length, is_alpha, ltb, ◌==◌,
}
use flappy.Dewey.Int32.{int_mod, IsSmall, IsSmall-nat}
use flappy.Dewey.Version.{
  Arr, grow, grow_double, push, read_int, find_modifier, modifiers, number_component,
  letter_component, other_component, mkcomponent, mkversion_loop, mkversion,
}

-- How many digits the string begins with.
abbrev pub digit_run : Bytes → ℕ
digit_run [] = 0
digit_run (c ∷ s) = if is_digit c then suc (digit_run s) else 0

-- No number of the string has more than nine digits.
abbrev pub ShortRuns : Bytes → Type 0
ShortRuns [] = Unit
ShortRuns (c ∷ s) = (digit_run (c ∷ s) ≤ 9) × ShortRuns s

pub record IsSmallArr (arr : Arr) : Type 0 where
  pub numbers : All IsSmall arr.v
  pub revision : IsSmall arr.revision

-- The number behind `j` digits that make `n`.
read_int-lt : (s : Bytes) (n j : ℕ) → n < 10 ^ j → j + digit_run s ≤ 9 → (read_int n s).0 < 10 ^ 9
unfolding read_int
read_int-lt [] n j h b =
    let p : 10 ^ j ≤ 10 ^ 9 = pow-le-pow_right (omega arith) {j = 9} (omega arith) in omega arith
read_int-lt (c ∷ s) n j h b = elim (Bool-cases (is_digit c)) [
  | inl d ↦
      let b' : j + suc (digit_run s) ≤ 9 = rw d at b in
      let small : c - b'0' ≤ 9 = ground arith in
      let grown : (n * 10 + (c - b'0')) % int_mod < 10 ^ suc j = omega (arith, pow-suc 10 j) in
      rw d (read_int-lt s _ (suc j) grown (omega arith))
  | inr d ↦
      let p : 10 ^ j ≤ 10 ^ 9 = pow-le-pow_right (omega arith) {j = 9} (omega arith) in
      rw d (omega arith)
]

read_int-IsSmall : (s : Bytes) → digit_run s ≤ 9 → IsSmall (read_int 0 s).0
read_int-IsSmall s h = IsSmall-nat _ (omega (arith, read_int-lt s 0 0 (omega arith) (omega arith)))

digit_run-ShortRuns : (s : Bytes) → ShortRuns s → digit_run s ≤ 9
digit_run-ShortRuns [] h = omega arith
digit_run-ShortRuns (c ∷ s) h = h.0

drop-ShortRuns : (n : ℕ) (s : Bytes) → ShortRuns s → ShortRuns (drop n s)
drop-ShortRuns zero s h = h
drop-ShortRuns (suc n) [] h = h
drop-ShortRuns (suc n) (c ∷ s) (_, h) = drop-ShortRuns n s h

abbrev fst_arr : Arr × ℕ → Arr
fst_arr step = step.0

abbrev itself : Arr → Arr
itself arr = arr

-- The array is small, if there is one.
abbrev Keeps {ℓ} : {A : Type ℓ} → (A → Arr) → Option A → Type 0
Keeps f none = Unit
Keeps f (some a) = IsSmallArr (f a)

grow-Small : {arr : Arr} → IsSmallArr arr → IsSmallArr (grow arr)
unfolding grow
grow-Small h = ground arith

grow_double-Small : {arr : Arr} → IsSmallArr arr → IsSmallArr (grow_double arr)
unfolding grow_double
grow_double-Small h = ground arith

push-Keeps : (x : ℕ) {arr : Arr} → IsSmall x → IsSmallArr arr → Keeps itself (push x arr)
unfolding push
push-Keeps x {arr} hx h = elim (Bool-cases (ltb (length arr.v) arr.size)) [
  | inl e ↦ rw e (record {
    numbers = All-append IsSmall arr.v (x ∷ []) h.numbers (hx, tt);
    revision = h.revision;
  })
  | inr e ↦ rw e tt
]

-- A chain keeps an array small if its steps do.
bind-Keeps {ℓ κ} :
    {A : Type ℓ} {B : Type κ} (f : A → Arr) (g : B → Arr) (o : Option A) (k : A → Option B)
    → Keeps f o
    → ((a : A) → IsSmallArr (f a) → Keeps g (k a))
    → Keeps g (o >>= k)
bind-Keeps f g none k h step = tt
bind-Keeps f g (some a) k h step = step a h

module _ {arr : Arr} (h : IsSmallArr arr) where
  push_count-Keeps : (x n : ℕ) → IsSmall x → Keeps fst_arr (push x arr >>= λ a. some (a, n))
  push_count-Keeps x n hx = bind-Keeps itself fst_arr (push x arr) _ (push-Keeps x hx h) (λ a k. k)

  letter-Keeps : (c : ℕ) → is_alpha c ≡ true → Keeps fst_arr (letter_component arr c)
  unfolding letter_component
  letter-Keeps c e = bind-Keeps itself fst_arr (push 0 arr) _ (push-Keeps 0 (omega arith) h) λ a k.
      bind-Keeps itself fst_arr (push (to_lower c - b'a' + 1) (grow_double a)) _
        (push-Keeps _ (IsSmall-nat _ (ground arith)) (grow_double-Small k)) (λ b j. j)

  other-Keeps : (c : ℕ) (s : Bytes) → digit_run s ≤ 9 → Keeps fst_arr (other_component arr c s)
  unfolding other_component
  other-Keeps c s b = elim (Bool-cases (c == b'_')) [
    | inl e ↦ rw e (record { numbers = h.numbers; revision = read_int-IsSmall s b })
    | inr e ↦ elim (Bool-cases (is_alpha c)) [
      | inl l ↦ rw (e, l) (letter-Keeps c l)
      | inr l ↦ rw (e, l) h
    ]
  ]

find_modifier-IsSmall :
    (s : Bytes) {t len : ℕ} → find_modifier modifiers s ≡ some (t, len) → IsSmall t
unfolding find_modifier
find_modifier-IsSmall s h = ground arith

mkcomponent-Keeps :
    (arr : Arr) (c : ℕ) (s : Bytes)
    → IsSmallArr arr
    → ShortRuns (c ∷ s)
    → Keeps fst_arr (mkcomponent arr (c ∷ s))
unfolding mkcomponent number_component
mkcomponent-Keeps arr c s h (run, runs) = elim (Bool-cases (is_digit c)) [
  | inl d ↦ rw d (push_count-Keeps (grow-Small h) _ _ (read_int-IsSmall (c ∷ s) run))
  | inr d ↦ elim (Option-cases (find_modifier modifiers (c ∷ s))) [
    | inl e ↦ rw (d, e) (other-Keeps (grow-Small h) c s (digit_run-ShortRuns s runs))
    | inr ((t, len), e) ↦
        rw (d, e) (push_count-Keeps (grow-Small h) t len (find_modifier-IsSmall (c ∷ s) e))
  ]
]

mkversion_loop-Keeps :
    (fuel : ℕ) (arr : Arr) (s : Bytes)
    → IsSmallArr arr
    → ShortRuns s
    → Keeps itself (mkversion_loop fuel arr s)
unfolding mkversion_loop
mkversion_loop-Keeps fuel arr [] h runs = h
mkversion_loop-Keeps zero arr (c ∷ s) h runs = tt
mkversion_loop-Keeps (suc fuel) arr (c ∷ s) h runs =
    bind-Keeps fst_arr itself (mkcomponent arr (c ∷ s)) _ (mkcomponent-Keeps arr c s h runs)
      λ (a, n) k. mkversion_loop-Keeps fuel a (drop n (c ∷ s)) k (drop-ShortRuns n (c ∷ s) runs)

-- If no number in a version string has more than nine digits, then every number of its array and
-- its revision lie between -3 and 2^30 - 1, so nothing wrapped around.
pub mkversion-IsSmallArr :
    (num : Bytes) {r : Arr} → ShortRuns num → mkversion num ≡ some r → IsSmallArr r
unfolding mkversion
mkversion-IsSmallArr num h e = rw e at (
    mkversion_loop-Keeps (length num) (record { size = 0; v = []; revision = 0 }) num (omega arith)
      h)
