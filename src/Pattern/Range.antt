-- ===== src/Pattern/Range.antt =====
-- `dewey_match` takes a pattern apart into its name, its operators and its limits.
use flappy.Base.{
  ==_iff, ℕ, ◌+◌, ◌-◌, ◌<◌, ◌≡◌, ◌≢◌, refl, sym, ◌∙◌, Bool, true, false, ◌&&◌, [], ◌∷◌, ◌++◌,
  Option, none, some, inl, inr, min, arith, ◌==◌, if◌then◌else◌, ◌>>=◌, Bool-cases, &&-eq_true,
  ==_refl, length, length-append, take, drop, drop-append_length, take-append_length, All, Bytes,
  codes, str_eq, str_eq_iff, str_eq_refl, has_byte, Lacks, strchr, strpbrk, strrchr-append,
  strchr-append, strchr_Lacks, find_byte-append,
}
use flappy.Strl.Laws.{strlcpy_lem}
use flappy.Dewey.Compare.{Test, lt, le, ge, gt, dewey_cmp}
use flappy.Pattern.{
  unmatched, answer, dewey_mktest, pattern_max, lower_limit, match_range, is_lower_test,
  match_operator, same_name, dewey_match,
}

-- The operators of a pattern: `<`, `<=`, `>` and `>=`.
pub data Bound : Type 0 where
  below at_most above at_least : Bound

abbrev pub test_of : Bound → Test
test_of below = lt
test_of at_most = le
test_of above = gt
test_of at_least = ge

abbrev pub spell : Bound → Bytes
spell below = codes "<"
spell at_most = codes "<="
spell above = codes ">"
spell at_least = codes ">="

abbrev pub is_lower : Bound → Bool
is_lower b = is_lower_test (test_of b)

-- The string does not begin with `c`.
abbrev pub FirstIsNot : ℕ → Bytes → Type 0
FirstIsNot c [] = Unit
FirstIsNot c (d ∷ s) = d ≢ c

-- A name in a pattern: it holds no operator.
pub record IsPatternName (name : Bytes) : Type 0 where
  pub no_less : Lacks b'<' name
  pub no_greater : Lacks b'>' name

mktest-spell :
    (b : Bound) (limit : Bytes)
    → FirstIsNot b'=' limit
    → dewey_mktest (spell b ++ limit) ≡ some (test_of b, length (spell b))
unfolding dewey_mktest
mktest-spell below [] h = refl
mktest-spell below (d ∷ s) h = ground arith
mktest-spell at_most limit h = refl
mktest-spell above [] h = refl
mktest-spell above (d ∷ s) h = ground arith
mktest-spell at_least limit h = refl

drop-spell : (b : Bound) (s : Bytes) → drop (length (spell b)) (spell b ++ s) ≡ s
drop-spell b s = drop-append_length (spell b) s

no_operator :
    (s : Bytes) → Lacks b'<' s → Lacks b'>' s → All (λ d. has_byte (codes "<>") d ≡ false) s
no_operator [] h k = tt
no_operator (c ∷ s) (h, hs) (k, ks) = (ground arith, no_operator s hs ks)

pub strpbrk-spell :
    (name : Bytes) (b : Bound) (s : Bytes)
    → IsPatternName name
    → strpbrk (name ++ (spell b ++ s)) (codes "<>") ≡ some (spell b ++ s)
strpbrk-spell name below s h =
    find_byte-append _ name _ _ (no_operator name h.no_less h.no_greater) refl
strpbrk-spell name _ s h =
    find_byte-append _ name _ _ (no_operator name h.no_less h.no_greater) refl

length_upto : (a b : Bytes) → length (a ++ b) - length b ≡ length a
length_upto a b = omega (arith, length-append a b)

same_name_refl : (name p v : Bytes) → same_name (name ++ p) p (name ++ v) v ≡ true
unfolding same_name
same_name_refl name p v = rw (
  length_upto name p,
  length_upto name v,
  take-append_length name p,
  take-append_length name v,
  ==_refl (length name),
  str_eq_refl name,
)

same_name→eq : (n m p v : Bytes) → same_name (n ++ p) p (m ++ v) v ≡ true → n ≡ m
unfolding same_name
same_name→eq n m p v h =
    let both : (length (n ++ p) - length p == length (m ++ v) - length v
          && str_eq (take (length (m ++ v) - length v) (m ++ v))
              (take (length (m ++ v) - length v) (n ++ p)))
        ≡ true =
      h in
    let (size, text) = &&-eq_true _ _ both in
    let names = (str_eq_iff _ _).0 text in
    let sizes : length n ≡ length m =
      omega (arith, (==_iff _ _).0 size, length_upto n p, length_upto m v) in
    sym (take-append_length n p)
    ∙ rw sizes (sym (rw (length_upto m v) at names))
    ∙ take-append_length m v

same_name-ne : (n m p v : Bytes) → n ≢ m → same_name (n ++ p) p (m ++ v) v ≡ false
same_name-ne n m p v apart = elim (Bool-cases (same_name (n ++ p) p (m ++ v) v)) [
  | inl e ↦ absurd (apart (same_name→eq n m p v e))
  | inr e ↦ e
]

if_same {ℓ} : {A : Type ℓ} (b : Bool) (a : A) → (if b then a else a) ≡ a
if_same true a = refl
if_same false a = refl

FirstIsNot-append :
    (lo : Bytes) (c : Bound) (hi : Bytes)
    → FirstIsNot b'=' lo
    → FirstIsNot b'=' (lo ++ (spell c ++ hi))
FirstIsNot-append [] below hi h = omega arith
FirstIsNot-append [] _ hi h = omega arith
FirstIsNot-append (d ∷ lo) c hi h = h

-- The second operator is found where the lower limit ends.
strchr-lower :
    (lo : Bytes) (c : Bound) (hi : Bytes)
    → is_lower c ≡ false
    → Lacks b'<' lo
    → strchr (lo ++ (spell c ++ hi)) b'<' ≡ some (spell c ++ hi)
strchr-lower lo below hi u l = strchr-append lo hi b'<' l
strchr-lower lo at_most hi u l = strchr-append lo (b'=' ∷ hi) b'<' l
strchr-lower lo above hi u l = cc
strchr-lower lo at_least hi u l = cc

lower_limit_lem : (lo rest : Bytes) → length lo < pattern_max → lower_limit (lo ++ rest) rest ≡ lo
unfolding lower_limit
lower_limit_lem lo rest h =
    let size : min pattern_max (length (lo ++ rest) - length rest + 1) ≡ length lo + 1 =
      omega (arith, length_upto lo rest) in
    let less : length lo + 1 - 1 ≡ length lo = omega arith in
    let (e, _) = strlcpy_lem (lo ++ rest) (length lo + 1) (omega arith) in
    rw (size, lower_limit) (e ∙ rw less (take-append_length lo rest))

match_range_lem :
    (version : Bytes) (op : Test) (c : Bound) (lo hi : Bytes)
    → FirstIsNot b'=' hi
    → length lo < pattern_max
    → match_range version op (lo ++ (spell c ++ hi)) (spell c ++ hi) ≡ (
        dewey_cmp version (test_of c) hi >>= λ under.
        if under then (dewey_cmp version op lo >>= λ r. some (answer r)) else some unmatched)
unfolding match_range
match_range_lem version op c lo hi fh size =
    rw (mktest-spell c hi fh, lower_limit_lem lo (spell c ++ hi) size, match_range, drop-spell c hi)

-- With one name, what is left is the operator.
dewey_match-name :
    (name : Bytes) (b : Bound) (s version : Bytes)
    → IsPatternName name
    → Lacks b'-' version
    → dewey_match (name ++ (spell b ++ s)) (name ++ b'-' ∷ version)
      ≡ match_operator version (spell b ++ s)
unfolding dewey_match
dewey_match-name name b s version h d = rw (
  strrchr-append name version b'-' d,
  strpbrk-spell name b s h,
  same_name_refl name (spell b ++ s) (b'-' ∷ version),
  dewey_match,
)

-- A pattern of one operator matches a package of its name if the version passes the operator's
-- test against the limit. The limit has no `<` and does not begin with `=`; the name has no
-- operator, and the version no dash.
pub dewey_match-one :
    (name : Bytes) (b : Bound) (limit version : Bytes)
    → IsPatternName name
    → Lacks b'-' version
    → FirstIsNot b'=' limit
    → Lacks b'<' limit
    → dewey_match (name ++ (spell b ++ limit)) (name ++ b'-' ∷ version)
      ≡ (dewey_cmp version (test_of b) limit >>= λ r. some (answer r))
unfolding match_operator
dewey_match-one name b limit version h d f l =
    dewey_match-name name b limit version h d
    ∙ rw (
      mktest-spell b limit f,
      drop-spell b limit,
      strchr_Lacks limit b'<' l,
      if_same {A = Option Bytes} (is_lower b) none,
      match_operator,
      drop-spell b limit,
    )

-- A pattern with a lower limit and an upper one, behind it, matches a package of its name if the
-- version passes both tests.
pub dewey_match-both :
    (name : Bytes) (b c : Bound) (lo hi version : Bytes)
    → IsPatternName name
    → Lacks b'-' version
    → is_lower b ≡ true
    → is_lower c ≡ false
    → FirstIsNot b'=' lo
    → FirstIsNot b'=' hi
    → Lacks b'<' lo
    → length lo < pattern_max
    → dewey_match (name ++ (spell b ++ (lo ++ (spell c ++ hi)))) (name ++ b'-' ∷ version) ≡ (
        dewey_cmp version (test_of c) hi >>= λ under.
        if under
        then (dewey_cmp version (test_of b) lo >>= λ r. some (answer r))
        else some unmatched)
unfolding match_operator
dewey_match-both name b c lo hi version h d bl cu fl fh l size =
    let sep2 = spell c ++ hi in
    let operator : match_operator version (spell b ++ (lo ++ sep2))
        ≡ match_range version (test_of b) (lo ++ sep2) sep2 =
      rw (
        mktest-spell b (lo ++ sep2) (FirstIsNot-append lo c hi fl),
        drop-spell b (lo ++ sep2),
        bl,
        strchr-lower lo c hi cu l,
        match_operator,
        drop-spell b (lo ++ sep2),
      ) in
    dewey_match-name name b (lo ++ sep2) version h d
    ∙ operator
    ∙ match_range_lem version (test_of b) c lo hi fh size

-- A package of another name is not matched, whatever the limits.
pub dewey_match-other :
    (n m : Bytes) (b : Bound) (s version : Bytes)
    → IsPatternName n
    → Lacks b'-' version
    → n ≢ m
    → dewey_match (n ++ (spell b ++ s)) (m ++ b'-' ∷ version) ≡ some unmatched
unfolding dewey_match
dewey_match-other n m b s version h d apart = rw (
  strrchr-append m version b'-' d,
  strpbrk-spell n b s h,
  same_name-ne n m (spell b ++ s) (b'-' ∷ version) apart,
  dewey_match,
)
