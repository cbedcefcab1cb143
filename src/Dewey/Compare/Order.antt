-- ===== src/Dewey/Compare/Order.antt =====
-- `vtest` decides the comparison of `Spec`, and `flappy_cmpver` and `dewey_cmp` are one order of
-- the version strings.
use mathlib.Core.List.{tail}
use flappy.Base.{
  ℕ, zero, suc, ◌^◌, ◌≤◌, ◌<◌, ◌≡◌, ◌≢◌, refl, List, [], ◌∷◌, some, ◌∙◌, ap, arith, ◌==◌, length,
  All, Bytes,
}
use flappy.Dewey.Int32.{sub32, IsSmall, sub32_negative, sub32_zero}
use flappy.Dewey.Version.{Arr, mkversion}
use flappy.Dewey.Version.Total.{mkversion_total}
use flappy.Dewey.Version.Bounds.{ShortRuns, IsSmallArr, mkversion-IsSmallArr}
use flappy.Dewey.Compare.{
  Test, lt, eq, gt, Sign, equal, greater, result, digit, vtest_loop, vtest, dewey_cmp, cmpver,
}
use flappy.Dewey.Compare.Spec.{
  holds, flip, first_of_two, compare_int, compare_places, compare_arr, compare_arr-flip,
  compare_arr_trans,
}

-- The subtraction of two small integers shows their order to each of the tests.
result_lem :
    (a b : ℕ) (tst : Test)
    → IsSmall a
    → IsSmall b
    → result (sub32 a b) tst ≡ holds (compare_int a b) tst
unfolding result compare_int
result_lem a b lt ha hb = ground (arith, sub32_negative a b ha hb, sub32_zero a b ha hb)
result_lem a b _ ha hb = ground (arith, sub32_negative a b ha hb, sub32_zero a b ha hb)

sub32_zero_lem : (a b : ℕ) → IsSmall a → IsSmall b → (sub32 a b == 0) ≡ holds (compare_int a b) eq
sub32_zero_lem a b ha hb = unfold result in result_lem a b eq ha hb

-- The array with its first place taken off.
abbrev rest : Arr → Arr
rest arr = record arr { v = tail arr.v }

digit_suc : (v : List ℕ) (i : ℕ) → digit v (suc i) ≡ digit (tail v) i
digit_suc [] i = refl
digit_suc (a ∷ v) i = refl

vtest_loop-suc :
    (n i : ℕ) (l : Arr) (tst : Test) (r : Arr)
    → vtest_loop n (suc i) l tst r ≡ vtest_loop n i (rest l) tst (rest r)
unfolding vtest_loop
vtest_loop-suc zero i l tst r = refl
vtest_loop-suc (suc n) i l tst r =
    rw (digit_suc l.v i, digit_suc r.v i, vtest_loop-suc n (suc i) l tst r)

abbrev first : List ℕ → ℕ
first v = digit v 0

compare_places_step :
    (l r : List ℕ)
    → compare_places l r
      ≡ first_of_two (compare_int (first l) (first r)) (compare_places (tail l) (tail r))
unfolding compare_places compare_int
compare_places_step [] [] = refl
compare_places_step [] (b ∷ r) = refl
compare_places_step (a ∷ l) [] = refl
compare_places_step (a ∷ l) (b ∷ r) = refl

first-IsSmall : (v : List ℕ) → All IsSmall v → IsSmall (first v)
first-IsSmall [] h = omega arith
first-IsSmall (a ∷ v) h = h.0

tail-IsSmall : (v : List ℕ) → All IsSmall v → All IsSmall (tail v)
tail-IsSmall [] h = tt
tail-IsSmall (a ∷ v) h = h.1

length-tail : (v : List ℕ) (n : ℕ) → length v ≤ suc n → length (tail v) ≤ n
length-tail [] n h = omega arith
length-tail (a ∷ v) n h = omega arith

compare_places_empty : (l r : List ℕ) → length l ≤ 0 → length r ≤ 0 → compare_places l r ≡ equal
unfolding compare_places
compare_places_empty [] [] hl hr = refl
compare_places_empty (a ∷ l) r hl hr = absurd (omega arith)
compare_places_empty [] (b ∷ r) hl hr = absurd (omega arith)

-- With enough rounds the loop tells the sign of the whole comparison.
vtest_loop_lem :
    (n : ℕ) (l : Arr) (tst : Test) (r : Arr)
    → IsSmallArr l
    → IsSmallArr r
    → length l.v ≤ n
    → length r.v ≤ n
    → vtest_loop n 0 l tst r ≡ holds (compare_arr l r) tst
unfolding vtest_loop compare_arr
vtest_loop_lem zero l tst r hl hr nl nr =
    rw (compare_places_empty l.v r.v nl nr)
      (result_lem l.revision r.revision tst hl.revision hr.revision)
vtest_loop_lem (suc n) l tst r hl hr nl nr =
    let a = first l.v in
    let b = first r.v in
    let ha = first-IsSmall l.v hl.numbers in
    let hb = first-IsSmall r.v hr.numbers in
    let later =
      vtest_loop_lem n (rest l) tst (rest r)
        (record { numbers = tail-IsSmall l.v hl.numbers; revision = hl.revision })
        (record { numbers = tail-IsSmall r.v hr.numbers; revision = hr.revision })
        (length-tail l.v n nl) (length-tail r.v n nr) in
    ground (
      arith,
      later,
      vtest_loop-suc n 0 l tst r,
      compare_places_step l.v r.v,
      sub32_zero_lem a b ha hb,
      result_lem a b tst ha hb,
    )

vtest_lem :
    (l : Arr) (tst : Test) (r : Arr)
    → IsSmallArr l
    → IsSmallArr r
    → vtest l tst r ≡ holds (compare_arr l r) tst
unfolding vtest
vtest_lem l tst r hl hr = vtest_loop_lem _ l tst r hl hr (omega arith) (omega arith)

-- A version string in reach of the theorems: below 2^30 bytes, no number of ten digits or more.
pub record IsVersion (num : Bytes) : Type 0 where
  pub short : length num < 2 ^ 30
  pub runs : ShortRuns num

parse : (num : Bytes) → IsVersion num → (arr : Arr) × (mkversion num ≡ some arr) × IsSmallArr arr
parse num h =
    let (arr, e, _) = mkversion_total num h.short in (arr, e, mkversion-IsSmallArr num h.runs e)

-- Two version strings that are shorter than 2^30 bytes and have no number of more than nine digits
-- are both read, and each of the six tests of `dewey_cmp` gives what it means for the arrays: place
-- by place as signed integers, missing places counting as 0, then by revision.
pub dewey_cmp_lem :
    (a : Bytes) (tst : Test) (b : Bytes)
    → IsVersion a
    → IsVersion b
    → (l : Arr) × (r : Arr) × (mkversion a ≡ some l)
      × (mkversion b ≡ some r)
      × (dewey_cmp a tst b ≡ some (holds (compare_arr l r) tst))
unfolding dewey_cmp
dewey_cmp_lem a tst b ha hb =
    let (l, e, hl) = parse a ha in
    let (r, k, hr) = parse b hb in (l, r, e, k, rw (e, k, vtest_lem l tst r hl hr))

cmpver_arr :
    (a b : Bytes) (l r : Arr)
    → mkversion a ≡ some l
    → mkversion b ≡ some r
    → IsSmallArr l
    → IsSmallArr r
    → cmpver a b ≡ some (compare_arr l r)
unfolding cmpver dewey_cmp
cmpver_arr a b l r e k hl hr =
    rw (e, k, vtest_lem l lt r hl hr, vtest_lem l gt r hl hr) (ground arith)

-- `flappy_cmpver` answers for every two version strings that are shorter than 2^30 bytes and have
-- no number of more than nine digits, and the other way round it answers the opposite sign.
pub cmpver-flip :
    (a b : Bytes)
    → IsVersion a
    → IsVersion b
    → (s : Sign) × (cmpver a b ≡ some s) × (cmpver b a ≡ some (flip s))
cmpver-flip a b ha hb =
    let (l, e, hl) = parse a ha in
    let (r, k, hr) = parse b hb in
    (
      compare_arr l r,
      cmpver_arr a b l r e k hl hr,
      rw (← compare_arr-flip l r) (cmpver_arr b a r l k e hr hl),
    )

-- For version strings that are shorter than 2^30 bytes and have no number of more than nine digits,
-- each test of `dewey_cmp` holds exactly on the signs of `flappy_cmpver` that it names.
pub dewey_cmp-cmpver :
    (a : Bytes) (tst : Test) (b : Bytes)
    → IsVersion a
    → IsVersion b
    → (s : Sign) × (cmpver a b ≡ some s) × (dewey_cmp a tst b ≡ some (holds s tst))
dewey_cmp-cmpver a tst b ha hb =
    let (l, e, hl) = parse a ha in
    let (r, k, hr) = parse b hb in
    (
      compare_arr l r,
      cmpver_arr a b l r e k hl hr,
      unfold dewey_cmp in rw (e, k, vtest_lem l tst r hl hr),
    )

-- `flappy_cmpver` is transitive on version strings that are shorter than 2^30 bytes and have no
-- number of more than nine digits: if it does not answer greater for the first and the second, nor
-- for the second and the third, it does not for the first and the third.
pub cmpver_trans :
    (a b c : Bytes)
    → IsVersion a
    → IsVersion b
    → IsVersion c
    → cmpver a b ≢ some greater
    → cmpver b c ≢ some greater
    → cmpver a c ≢ some greater
cmpver_trans a b c ha hb hc p q n =
    let (l, e, hl) = parse a ha in
    let (m, k, hm) = parse b hb in
    let (r, j, hr) = parse c hc in
    compare_arr_trans l m r (λ g. p (cmpver_arr a b l m e k hl hm ∙ ap some g))
      (λ g. q (cmpver_arr b c m r k j hm hr ∙ ap some g)) (cc (cmpver_arr a c l r e j hl hr, n))
