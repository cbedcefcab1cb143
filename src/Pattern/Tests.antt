-- ===== src/Pattern/Tests.antt =====
-- Tests of the package patterns, and the theorems at inputs that meet their hypotheses.
use flappy.Base.{
  str_eq, ℕ, ◌≡◌, refl, some, arith, Bytes, codes, Bool, true, false, ◌∷◌, [], ◌&&◌, if◌then◌else◌,
  ◌==◌,
}
use flappy.Dewey.Compare.{Sign, cmpver}
use flappy.Dewey.Compare.Spec.{holds}
use flappy.Pattern.{matched, answer, pkgpattern_match}
use flappy.Pattern.Range.{below, at_least, test_of}
use flappy.Pattern.Compare.{pkgpattern_match-one, pkgpattern_match-both}

-- A file-name matcher that knows no special bytes.
abbrev plain : Bytes → Bytes → ℕ → Bool
plain [] [] flags = true
plain (c ∷ p) (d ∷ s) flags = if c == d then plain p s flags else false
plain _ _ flags = false

exact : pkgpattern_match plain (codes "foo-1.0") (codes "foo-1.0") ≡ some matched
unfolding pkgpattern_match str_eq
exact = refl

abbrev name : Bytes
name = codes "libx-dev"

abbrev version : Bytes
version = codes "1.4_2"

pkgpattern_match-one_example :
    (s : Sign) × (cmpver version (codes "1.3rc1") ≡ some s)
    × (pkgpattern_match plain (codes "libx-dev-1.4_2") (codes "libx-dev>=1.3rc1")
        ≡ some (answer (holds s (test_of at_least))))
pkgpattern_match-one_example =
    pkgpattern_match-one plain name at_least (codes "1.3rc1") version (omega arith) (omega arith)
      (omega arith) (omega arith) (omega arith) (omega arith)

pkgpattern_match-both_example :
    (s : Sign) × (t : Sign) × (cmpver version (codes "1.3") ≡ some s)
    × (cmpver version (codes "2.0") ≡ some t)
    × (pkgpattern_match plain (codes "libx-dev-1.4_2") (codes "libx-dev>=1.3<2.0")
        ≡ some (answer (holds s (test_of at_least) && holds t (test_of below))))
pkgpattern_match-both_example =
    pkgpattern_match-both plain name at_least below (codes "1.3") (codes "2.0") version
      (omega arith) (omega arith) refl refl (omega arith) (omega arith) (omega arith) (omega arith)
      (omega arith) (omega arith) (omega arith)
