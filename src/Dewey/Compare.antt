-- ===== src/Dewey/Compare.antt =====
-- The comparison of lib/external/dewey.c: `result`, `vtest`, `dewey_cmp` and `flappy_cmpver`.
pub mod Spec
pub mod Order
pub mod Tests
use flappy.Base.{
  ℕ, zero, suc, ◌≡◌, refl, Bool, not, ◌&&◌, ◌||◌, List, Option, some, max, ◌==◌, if◌then◌else◌,
  ◌>>=◌, length, get_or, Bytes, codes,
}
use flappy.Dewey.Int32.{sub32, is_negative}
use flappy.Dewey.Version.{Arr, mkversion}

-- The enum of tests.
pub data Test : Type 0 where
  lt le eq ge gt ne : Test

-- The results -1, 0 and 1 of `flappy_cmpver`.
pub data Sign : Type 0 where
  less equal greater : Sign

pub result : ℕ → Test → Bool
result cmp lt = is_negative cmp
result cmp le = is_negative cmp || cmp == 0
result cmp gt = not (is_negative cmp) && not (cmp == 0)
result cmp ge = not (is_negative cmp)
result cmp eq = cmp == 0
result cmp ne = not (cmp == 0)

-- DIGIT(v, c, i)
abbrev pub digit : List ℕ → ℕ → ℕ
digit v i = get_or v i 0

-- The loop of `vtest`, with the rounds left and the index.
pub vtest_loop : ℕ → ℕ → Arr → Test → Arr → Bool
vtest_loop zero i lhs tst rhs = result (sub32 lhs.revision rhs.revision) tst
vtest_loop (suc rounds) i lhs tst rhs =
    let next = vtest_loop rounds (suc i) lhs tst rhs in
    let cmp = sub32 (digit lhs.v i) (digit rhs.v i) in if cmp == 0 then next else result cmp tst

pub vtest : Arr → Test → Arr → Bool
unfolding vtest_loop result sub32
vtest lhs tst rhs = vtest_loop (max (length lhs.v) (length rhs.v)) 0 lhs tst rhs

pub dewey_cmp : Bytes → Test → Bytes → Option Bool
unfolding vtest mkversion
dewey_cmp lhs op rhs = do left ← mkversion lhs; right ← mkversion rhs; some (vtest left op right)

pub cmpver : Bytes → Bytes → Option Sign
unfolding dewey_cmp
cmpver pkg1 pkg2 = do
  below ← dewey_cmp pkg1 lt pkg2
  let above = dewey_cmp pkg1 gt pkg2 >>= λ b. some (if b then greater else equal)
  if below then some less else above
