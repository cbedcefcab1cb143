-- ===== src/Arrays/Tests.antt =====
-- The theorems on arrays at inputs that meet their hypotheses.
use flappy.Base.{
  ℕ, ◌≡◌, ◌≢◌, refl, some, none, Bytes, codes, Bool, false, List, [], ◌∷◌, All, str_eq,
}
use flappy.Pkgver.{pkg_name, pkg_version, pkgpattern_version}
use flappy.Arrays.{name_size, PkgObj}
use flappy.Pattern.{pkgpattern_match, matched}

abbrev never : Bytes → Bytes → ℕ → Bool
never p s flags = false

abbrev provides : List Bytes
provides = codes "a-1_1" ∷ codes "b-2_1" ∷ []

a-name : pkg_name name_size (codes "a-1_1") ≡ some (codes "a")
unfolding pkg_name
a-name = refl

b-name : pkg_name name_size (codes "b-2_1") ≡ some (codes "b")
unfolding pkg_name
b-name = refl

provides_named : All (λ o. pkg_name name_size o ≢ none) provides
provides_named = (cc a-name, (cc b-name, tt))

bare : (pkgpattern_version (codes "b") ≡ none) × (pkg_version (codes "b") ≡ none)
unfolding pkgpattern_version pkg_version
bare = (refl, refl)

exact :
    (pkgpattern_version (codes "b-2_1") ≡ none) × (pkg_version (codes "b-2_1") ≡ some (codes "2_1"))
unfolding pkgpattern_version pkg_version
exact = (refl, refl)

a_matches : pkgpattern_match never (codes "a-1_1") (codes "a-1_1") ≡ some matched
unfolding pkgpattern_match str_eq
a_matches = refl

abbrev objects : List PkgObj
objects =
    record { pkgname = codes "a"; pkgver = codes "a-1_1" }
    ∷ record { pkgname = codes "b"; pkgver = codes "b-2_1" }
    ∷ []
