-- ===== src/Dewey/Compare/Spec.antt =====
-- What a comparison of versions means, with no loop and no subtraction: arrays are compared place
-- by place as signed integers, a missing place counting as 0, and then by revision.
use Prim.Native.Nat.{compare, Ordering}
use flappy.Base.{◌≢◌, ℕ, ◌≡◌, refl, Bool, true, false, List, [], ◌∷◌, arith}
use flappy.Dewey.Int32.{rank}
use flappy.Dewey.Version.{Arr}
use flappy.Dewey.Compare.{Test, lt, le, eq, ge, gt, ne, Sign, less, equal, greater}

-- The tests that a sign passes.
abbrev pub holds : Sign → Test → Bool
holds less lt = true
holds less le = true
holds less ne = true
holds equal le = true
holds equal eq = true
holds equal ge = true
holds greater gt = true
holds greater ge = true
holds greater ne = true
holds _ _ = false

abbrev pub flip : Sign → Sign
flip less = greater
flip equal = equal
flip greater = less

-- The first sign that is not `equal`.
abbrev pub first_of_two : Sign → Sign → Sign
first_of_two less t = less
first_of_two equal t = t
first_of_two greater t = greater

unfoldable pub compare_int : ℕ → ℕ → Sign
compare_int a b = elim (compare (rank a) (rank b)) [
  | Ordering.lt ↦ less
  | Ordering.eq ↦ equal
  | Ordering.gt ↦ greater
]

unfoldable pub compare_places : List ℕ → List ℕ → Sign
compare_places [] [] = equal
compare_places (a ∷ l) [] = first_of_two (compare_int a 0) (compare_places l [])
compare_places [] (b ∷ r) = first_of_two (compare_int 0 b) (compare_places [] r)
compare_places (a ∷ l) (b ∷ r) = first_of_two (compare_int a b) (compare_places l r)

unfoldable pub compare_arr : Arr → Arr → Sign
compare_arr l r = first_of_two (compare_places l.v r.v) (compare_int l.revision r.revision)

compare_int-flip : (a b : ℕ) → compare_int b a ≡ flip (compare_int a b)
unfolding compare_int
compare_int-flip a b = ground arith

compare_places-flip : (l r : List ℕ) → compare_places r l ≡ flip (compare_places l r)
unfolding compare_places
compare_places-flip [] [] = refl
compare_places-flip (a ∷ l) [] = ground (arith, compare_int-flip a 0, compare_places-flip l [])
compare_places-flip [] (b ∷ r) = ground (arith, compare_int-flip 0 b, compare_places-flip [] r)
compare_places-flip (a ∷ l) (b ∷ r) = ground (arith, compare_int-flip a b, compare_places-flip l r)

pub compare_arr-flip : (l r : Arr) → compare_arr r l ≡ flip (compare_arr l r)
unfolding compare_arr
compare_arr-flip l r =
    ground (arith, compare_places-flip l.v r.v, compare_int-flip l.revision r.revision)

-- If neither of two comparisons says greater, then the sign of the whole chain is known.
abbrev Chains : Sign → Sign → Sign → Type 0
Chains greater q r = Unit
Chains p greater r = Unit
Chains equal q r = r ≡ q
Chains less q r = r ≡ less

compare_int-Chains : (a b c : ℕ) → Chains (compare_int a b) (compare_int b c) (compare_int a c)
unfolding compare_int
compare_int-Chains a b c = ground arith

Chains-first_of_two :
    (p q r p' q' r' : Sign)
    → Chains p q r
    → Chains p' q' r'
    → Chains (first_of_two p p') (first_of_two q q') (first_of_two r r')
Chains-first_of_two p q r p' q' r' h h' = ground arith

chain :
    (a b c : ℕ) (p q r : Sign)
    → Chains p q r
    → Chains
        (first_of_two (compare_int a b) p)
        (first_of_two (compare_int b c) q)
        (first_of_two (compare_int a c) r)
chain a b c p q r h = Chains-first_of_two _ _ _ _ _ _ (compare_int-Chains a b c) h

Chains-left : (q : Sign) → Chains equal q q
Chains-left q = ground arith

Chains-right : (p : Sign) → Chains p equal p
Chains-right p = ground arith

compare_places-Chains :
    (l m r : List ℕ) → Chains (compare_places l m) (compare_places m r) (compare_places l r)
unfolding compare_places compare_int
compare_places-Chains [] [] [] = refl
compare_places-Chains (a ∷ l) (b ∷ m) (c ∷ r) = chain a b c _ _ _ (compare_places-Chains l m r)
compare_places-Chains (a ∷ l) (b ∷ m) [] = chain a b 0 _ _ _ (compare_places-Chains l m [])
compare_places-Chains (a ∷ l) [] (c ∷ r) = chain a 0 c _ _ _ (compare_places-Chains l [] r)
compare_places-Chains (a ∷ l) [] [] = Chains-right _
compare_places-Chains [] (b ∷ m) (c ∷ r) = chain 0 b c _ _ _ (compare_places-Chains [] m r)
compare_places-Chains [] (b ∷ m) [] = chain 0 b 0 _ _ _ (compare_places-Chains [] m [])
compare_places-Chains [] [] (c ∷ r) = Chains-left _

compare_arr-Chains : (l m r : Arr) → Chains (compare_arr l m) (compare_arr m r) (compare_arr l r)
unfolding compare_arr
compare_arr-Chains l m r =
    Chains-first_of_two _ _ _ _ _ _ (compare_places-Chains l.v m.v r.v)
      (compare_int-Chains l.revision m.revision r.revision)

-- No later array before an earlier one.
pub compare_arr_trans :
    (l m r : Arr)
    → compare_arr l m ≢ greater
    → compare_arr m r ≢ greater
    → compare_arr l r ≢ greater
compare_arr_trans l m r h k = ground (arith, compare_arr-Chains l m r)
