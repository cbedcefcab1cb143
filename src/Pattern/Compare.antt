-- ===== src/Pattern/Compare.antt =====
-- `flappy_pkgpattern_match` agrees with the order of versions, and `flappy_patterns_match` lets
-- the last pattern that matches decide.
use mathlib.Core.List.{append_cancel_left}
use flappy.Base.{
  ℕ, ◌<◌, ◌≡◌, ◌≢◌, refl, ◌∙◌, Bool, true, false, not, ◌&&◌, List, [], ◌∷◌, ◌++◌, some, inl, inr,
  arith, if◌then◌else◌, Bool-cases, length, Bytes, str_eq, str_eq_iff, Lacks,
}
use flappy.Dewey.Compare.{Sign, cmpver}
use flappy.Dewey.Compare.Spec.{holds}
use flappy.Dewey.Compare.Order.{IsVersion, dewey_cmp-cmpver}
use flappy.Pattern.{
  unmatched, answer, pattern_max, dewey_match, pkgpattern_match, bare_pattern, patterns_loop,
  patterns_match,
}
use flappy.Pattern.Range.{
  Bound, below, test_of, spell, is_lower, FirstIsNot, IsPatternName, strpbrk-spell, dewey_match-one,
  dewey_match-both, dewey_match-other,
}

differ : (s t : Bytes) → s ≢ t → str_eq s t ≡ false
differ s t apart = elim (Bool-cases (str_eq s t)) [
  | inl e ↦ absurd (apart ((str_eq_iff s t).0 e))
  | inr e ↦ e
]

-- A pattern of a name and an operator is none of the packages of that name.
no_dash : (b : Bound) (s version : Bytes) → ¬ (spell b ++ s ≡ b'-' ∷ version)
no_dash below s version h = ground arith
no_dash _ s version h = ground arith

pattern-ne-pkg :
    (name : Bytes) (b : Bound) (s version : Bytes)
    → str_eq (name ++ (spell b ++ s)) (name ++ b'-' ∷ version) ≡ false
pattern-ne-pkg name b s version =
    differ _ _ λ e. no_dash b s version (append_cancel_left name (spell b ++ s) (b'-' ∷ version) e)

both_answers :
    (p q : Bool) → (if q then some (answer p) else some unmatched) ≡ some (answer (p && q))
both_answers p q = ground arith

module _ (fnmatch : Bytes → Bytes → ℕ → Bool) where
  -- A pattern with an operator is matched by `dewey_match`.
  pkgpattern_match-dewey :
      (name : Bytes) (b : Bound) (s version : Bytes)
      → IsPatternName name
      → pkgpattern_match fnmatch (name ++ b'-' ∷ version) (name ++ (spell b ++ s))
        ≡ dewey_match (name ++ (spell b ++ s)) (name ++ b'-' ∷ version)
  unfolding pkgpattern_match
  pkgpattern_match-dewey name b s version h =
      rw (pattern-ne-pkg name b s version, strpbrk-spell name b s h) refl

  -- `name<limit`, and so for `<=`, `>` and `>=`, matches a package of that name exactly if
  -- `flappy_cmpver` puts its version on that side of the limit. The name holds no `<` and no `>`,
  -- the version no dash, and the limit no `<`, and no `=` at its front; both are shorter than 2^30
  -- bytes and have no number of more than nine digits.
  pub pkgpattern_match-one :
      (name : Bytes) (b : Bound) (limit version : Bytes)
      → IsPatternName name
      → Lacks b'-' version
      → FirstIsNot b'=' limit
      → Lacks b'<' limit
      → IsVersion version
      → IsVersion limit
      → (s : Sign) × (cmpver version limit ≡ some s)
        × (pkgpattern_match fnmatch (name ++ b'-' ∷ version) (name ++ (spell b ++ limit))
            ≡ some (answer (holds s (test_of b))))
  pkgpattern_match-one name b limit version h d f l hv hl =
      let (s, e, k) = dewey_cmp-cmpver version (test_of b) limit hv hl in
      (
        s,
        e,
        pkgpattern_match-dewey name b limit version h
            ∙ dewey_match-one name b limit version h d f l
            ∙ rw k,
      )

  -- `name>=lo<hi`, and so for `>` and `<=`, matches a package of that name exactly if
  -- `flappy_cmpver` puts its version between the limits. The name holds no `<` and no `>`, the
  -- version no dash, the lower limit no `<`, and neither limit begins with `=`; the lower limit is
  -- shorter than a pattern buffer, and all three are shorter than 2^30 bytes and have no number of
  -- more than nine digits.
  pub pkgpattern_match-both :
      (name : Bytes) (b c : Bound) (lo hi version : Bytes)
      → IsPatternName name
      → Lacks b'-' version
      → is_lower b ≡ true
      → is_lower c ≡ false
      → FirstIsNot b'=' lo
      → FirstIsNot b'=' hi
      → Lacks b'<' lo
      → length lo < pattern_max
      → IsVersion version
      → IsVersion lo
      → IsVersion hi
      → (s : Sign) × (t : Sign) × (cmpver version lo ≡ some s)
        × (cmpver version hi ≡ some t)
        × (pkgpattern_match fnmatch
              (name ++ b'-' ∷ version)
              (name ++ (spell b ++ (lo ++ (spell c ++ hi))))
            ≡ some (answer (holds s (test_of b) && holds t (test_of c))))
  pkgpattern_match-both name b c lo hi version h d bl cu fl fh l size hv hlo hhi =
      let (s, e, k) = dewey_cmp-cmpver version (test_of b) lo hv hlo in
      let (t, f, j) = dewey_cmp-cmpver version (test_of c) hi hv hhi in
      (
        s,
        t,
        e,
        f,
        pkgpattern_match-dewey name b (lo ++ (spell c ++ hi)) version h
            ∙ dewey_match-both name b c lo hi version h d bl cu fl fh l size
            ∙ rw (j, k) (both_answers (holds s (test_of b)) (holds t (test_of c))),
      )

  -- A package of another name, whose version has no dash, is not matched by a pattern with an
  -- operator behind a name without `<` and `>`, unless the two are the same string.
  pkgpattern_match-other :
      (n m : Bytes) (b : Bound) (s version : Bytes)
      → IsPatternName n
      → Lacks b'-' version
      → n ≢ m
      → n ++ (spell b ++ s) ≢ m ++ b'-' ∷ version
      → pkgpattern_match fnmatch (m ++ b'-' ∷ version) (n ++ (spell b ++ s)) ≡ some unmatched
  unfolding pkgpattern_match
  pkgpattern_match-other n m b s version h d apart distinct =
      rw (differ _ _ distinct, strpbrk-spell n b s h) (dewey_match-other n m b s version h d apart)

  patterns_loop-append :
      (ps : List Bytes) (p path : Bytes) (found : Bool)
      → patterns_loop fnmatch (ps ++ p ∷ []) path found ≡ (
          if fnmatch (bare_pattern p).0 path 0
          then not (bare_pattern p).1
          else patterns_loop fnmatch ps path found)
  unfolding patterns_loop
  patterns_loop-append [] p path found = refl
  patterns_loop-append (q ∷ ps) p path found = patterns_loop-append ps p path _

  -- The last pattern decides if it matches, `!` in front of it for a refusal; otherwise the
  -- patterns before it decide.
  patterns_match-append :
      (ps : List Bytes) (p path : Bytes)
      → patterns_match fnmatch (some (ps ++ p ∷ [])) path ≡ (
          if fnmatch (bare_pattern p).0 path 0
          then not (bare_pattern p).1
          else patterns_match fnmatch (some ps) path)
  unfolding patterns_match
  patterns_match-append ps p path = patterns_loop-append ps p path false
