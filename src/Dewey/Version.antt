-- ===== src/Dewey/Version.antt =====
-- `mkcomponent` and `mkversion` of lib/external/dewey.c: a version string becomes an array of
-- integers and a revision. A write outside the array, and fuel that runs out, are `none`.
pub mod Total
pub mod Bounds
use flappy.Base.{
  ℕ, zero, suc, ◌+◌, ◌-◌, ◌*◌, ◌%◌, ◌^◌, ◌≡◌, refl, Bool, List, [], ◌∷◌, ◌++◌, Option, none, some,
  ltb, ◌==◌, if◌then◌else◌, ◌>>=◌, length, drop, Bytes, codes, is_digit, is_alpha, to_lower,
  starts_with_nocase,
}
use flappy.Dewey.Int32.{int_mod, minus}

-- The enum of modifiers.
abbrev pub alpha : ℕ
alpha = minus 3

abbrev pub beta : ℕ
beta = minus 2

abbrev pub rc : ℕ
rc = minus 1

abbrev pub dot : ℕ
dot = 0

-- `arr_t`; its count `c` is the length of `v`.
pub record Arr : Type 0 where
  pub size : ℕ
  pub v : List ℕ
  pub revision : ℕ

abbrev pub modifiers : List (Bytes × ℕ)
modifiers =
    (codes "alpha", alpha)
    ∷ (codes "beta", beta)
    ∷ (codes "pre", rc)
    ∷ (codes "rc", rc)
    ∷ (codes "pl", dot)
    ∷ (codes ".", dot)
    ∷ []

-- The value of the first modifier that the string begins with, and the modifier's length.
find_modifier : List (Bytes × ℕ) → Bytes → Option (ℕ × ℕ)
find_modifier [] num = none
find_modifier ((s, t) ∷ rest) num =
    if starts_with_nocase num s then some (t, length s) else find_modifier rest num

-- The loop over digits: the number read, and the string behind it.
read_int : ℕ → Bytes → ℕ × Bytes
read_int n [] = (n, [])
read_int n (c ∷ s) = if is_digit c then read_int ((n * 10 + (c - b'0')) % int_mod) s else (n, c ∷ s)

-- The first growth test: an empty array gets 62 places, a full one twice its size.
grow : Arr → Arr
grow ap =
    if length ap.v == ap.size
    then record ap { size = if ap.size == 0 then 62 else (ap.size * 2) % 2 ^ 32 }
    else ap

-- The second growth test.
grow_double : Arr → Arr
grow_double ap = if length ap.v == ap.size then record ap { size = (ap.size * 2) % 2 ^ 32 } else ap

-- ap->v[ap->c++] = x
push : ℕ → Arr → Option Arr
push x ap = if ltb (length ap.v) ap.size then some (record ap { v = ap.v ++ x ∷ [] }) else none

-- The component at a digit.
number_component : Arr → Bytes → Option (Arr × ℕ)
number_component ap num = do
  let (n, rest) = read_int 0 num
  ap' ← push n ap
  some (ap', length num - length rest)

-- The component at a letter: a dot, and the letter's place in the alphabet, from 1.
letter_component : Arr → ℕ → Option (Arr × ℕ)
letter_component ap c = do
  ap₁ ← push dot ap
  ap₂ ← push (to_lower c - b'a' + 1) (grow_double ap₁)
  some (ap₂, 1)

-- The tests behind the modifiers: a revision, a letter, and any other byte.
other_component : Arr → ℕ → Bytes → Option (Arr × ℕ)
other_component ap c s =
    let (n, rest) = read_int 0 s in
    if c == b'_'
    then some (record ap { revision = n }, suc (length s) - length rest)
    else if is_alpha c
    then letter_component ap c
    else some (ap, 1)

-- The new array, and how many bytes the component takes.
mkcomponent : Arr → Bytes → Option (Arr × ℕ)
mkcomponent ap [] = some (grow ap, 1)
mkcomponent ap (c ∷ s) =
    if is_digit c
    then number_component (grow ap) (c ∷ s)
    else elim (find_modifier modifiers (c ∷ s)) [
      | some (t, len) ↦ push t (grow ap) >>= λ ap'. some (ap', len)
      | none ↦ other_component (grow ap) c s
    ]

-- `while (*num) num += mkcomponent(ap, num);`
mkversion_loop : ℕ → Arr → Bytes → Option Arr
mkversion_loop fuel ap [] = some ap
mkversion_loop zero ap (c ∷ s) = none
mkversion_loop (suc fuel) ap (c ∷ s) = do
  (ap', n) ← mkcomponent ap (c ∷ s)
  mkversion_loop fuel ap' (drop n (c ∷ s))

unfoldable pub mkversion : Bytes → Option Arr
unfolding mkversion_loop mkcomponent number_component letter_component other_component find_modifier
    read_int grow grow_double push starts_with_nocase
mkversion num = mkversion_loop (length num) (record { size = 0; v = []; revision = 0 }) num
