-- ===== src/Pattern.antt =====
-- Package patterns: `dewey_mktest` and `dewey_match` of lib/external/dewey.c, and the matchers of
-- lib/util.c. fnmatch(3) is the argument `fnmatch`: of the pattern, the string and the flags, it
-- tells whether the result is 0.
pub mod Range
pub mod Compare
pub mod Tests
use flappy.Base.{
  ℕ, suc, ◌+◌, ◌-◌, ◌≡◌, refl, Bool, true, false, not, ◌&&◌, ◌||◌, List, [], ◌∷◌, Option, none,
  some, min, ltb, ◌==◌, if◌then◌else◌, ◌>>=◌, length, take, drop, Bytes, codes, str_eq,
  starts_with_nocase, strchr, strrchr, strpbrk, find_byte,
}
use flappy.Strl.{strlcpy}
use flappy.Dewey.Compare.{Test, lt, le, eq, ge, gt, ne, dewey_cmp}

-- The results 1, 0 and -1.
pub data Answer : Type 0 where
  matched unmatched error : Answer

abbrev pub answer : Bool → Answer
answer true = matched
answer false = unmatched

abbrev pub tests : List (Bytes × Test)
tests =
    (codes "<=", le)
    ∷ (codes "<", lt)
    ∷ (codes ">=", ge)
    ∷ (codes ">", gt)
    ∷ (codes "==", eq)
    ∷ (codes "!=", ne)
    ∷ []

-- The loop of `dewey_mktest`: the test and its length.
mktest_loop : List (Bytes × Test) → Bytes → Option (Test × ℕ)
mktest_loop [] test = none
mktest_loop ((s, t) ∷ rest) test =
    if starts_with_nocase test s then some (t, length s) else mktest_loop rest test

pub dewey_mktest : Bytes → Option (Test × ℕ)
unfolding mktest_loop starts_with_nocase
dewey_mktest test = mktest_loop tests test

abbrev pub pattern_max : ℕ
pattern_max = 1024

-- The lower limit, cut out of the pattern between its operator and the second operator.
lower_limit : Bytes → Bytes → Bytes
lower_limit sep sep2 = (strlcpy sep (min pattern_max (length sep - length sep2 + 1))).0

-- Both limits: the upper first, and the lower if the version is below the upper.
match_range : Bytes → Test → Bytes → Bytes → Option Answer
match_range version op sep sep2 = elim (dewey_mktest sep2) [
  | none ↦ some unmatched
  | some (op2, n) ↦
      let lower = dewey_cmp version op (lower_limit sep sep2) >>= λ b. some (answer b) in
      dewey_cmp version op2 (drop n sep2) >>= λ below. if below then lower else some unmatched
]

abbrev is_lower_test : Test → Bool
is_lower_test gt = true
is_lower_test ge = true
is_lower_test _ = false

-- The pattern from its operator on.
match_operator : Bytes → Bytes → Option Answer
match_operator version sep = elim (dewey_mktest sep) [
  | none ↦ some unmatched
  | some (op, n) ↦
      let limit = drop n sep in
      elim (if is_lower_test op then strchr limit b'<' else none) [
        | none ↦ dewey_cmp version op limit >>= λ b. some (answer b)
        | some sep2 ↦ match_range version op limit sep2
      ]
]

-- The names in front of the operator and of the version are the same.
same_name : Bytes → Bytes → Bytes → Bytes → Bool
same_name pattern sep pkg version =
    let n = length pkg - length version in
    length pattern - length sep == n && str_eq (take n pkg) (take n pattern)

pub dewey_match : Bytes → Bytes → Option Answer
dewey_match pattern pkg = elim (strrchr pkg b'-') [
  | none ↦ some unmatched
  | some version ↦ elim (strpbrk pattern (codes "<>")) [
    | none ↦ some error
    | some sep ↦
        if same_name pattern sep pkg version
        then match_operator (drop 1 version) sep
        else some unmatched
  ]
]

-- FNM_PERIOD of <fnmatch.h>
abbrev pub fnm_period : ℕ
fnm_period = 4

abbrev pub is_some {ℓ} : {A : Type ℓ} → Option A → Bool
is_some none = false
is_some (some a) = true

-- The pattern that is matched, and whether it negates.
abbrev pub bare_pattern : Bytes → Bytes × Bool
bare_pattern [] = ([], false)
bare_pattern (c ∷ s) =
    if c == b'!' then (s, true) else if c == b'\\' then (s, false) else (c ∷ s, false)

module _ (fnmatch : Bytes → Bytes → ℕ → Bool) where
  unfoldable pub pkgpattern_match : Bytes → Bytes → Option Answer
  pkgpattern_match pkg pattern =
      if str_eq pattern pkg
      then some matched
      else if is_some (strpbrk pattern (codes "<>"))
      then dewey_match pattern pkg
      else some (
          if is_some (strpbrk pattern (codes "*?[]")) && fnmatch pattern pkg fnm_period
          then matched
          else unmatched)

  -- The loop of `flappy_patterns_match`: the last pattern that matches decides.
  patterns_loop : List Bytes → Bytes → Bool → Bool
  patterns_loop [] path found = found
  patterns_loop (p ∷ patterns) path found =
      let (pattern, negate) = bare_pattern p in
      patterns_loop patterns path (if fnmatch pattern path 0 then not negate else found)

  -- The array may be missing.
  pub patterns_match : Option (List Bytes) → Bytes → Bool
  unfolding patterns_loop
  patterns_match none path = false
  patterns_match (some patterns) path = patterns_loop patterns path false
