-- ===== src/Find/Tests.antt =====
-- The searches for packages at inputs that meet the hypotheses of their theorems.
use flappy.Base.{
  inr, inl, ◌↔◌, ℕ, ◌≡◌, refl, some, none, Bytes, codes, Bool, true, false, [], ◌∷◌, All, str_eq,
}
use flappy.Pkgver.{pkg_name, pkg_version, pkgpattern_version, pkgpattern_name}
use flappy.Arrays.{name_size}
use flappy.Dicts.{empty_pkgd, Dict, dict_get, Pkgd, PkgDict}
use flappy.Find.{found, is_pkg, find_pkg_in_dict, vpkg_user_conf}
use flappy.Find.Exact.{IsKeyed, Stored, find_pkg_in_dict-exact, find_pkg_in_dict-is_pkg}
use flappy.Find.First.{first_versioned, vpkg_user_conf_any}

abbrev never : Bytes → Bytes → ℕ → Bool
never p s flags = false

abbrev sample_pkg : Bytes → ℕ → Pkgd
sample_pkg pkgver type = record empty_pkgd { pkgver = some pkgver; transaction = some type }

abbrev a : Pkgd
a = sample_pkg (codes "a-1_1") 1

abbrev b : Pkgd
b = sample_pkg (codes "b-2_1") 5

abbrev registry : PkgDict
registry = (codes "a", a) ∷ (codes "b", b) ∷ []

a-name : pkg_name name_size (codes "a-1_1") ≡ some (codes "a")
unfolding pkg_name
a-name = refl

b-name : pkg_name name_size (codes "b-2_1") ≡ some (codes "b")
unfolding pkg_name
b-name = refl

plain : pkgpattern_version (codes "b-2_1") ≡ none
unfolding pkgpattern_version
plain = refl

b-stored : dict_get registry (codes "b") ≡ some b
unfolding dict_get str_eq
b-stored = refl

registry-IsKeyed : All IsKeyed registry
registry-IsKeyed = (
  record { pkgver = codes "a-1_1"; has_pkgver = refl; named = a-name },
  (record { pkgver = codes "b-2_1"; has_pkgver = refl; named = b-name }, tt),
)

find_pkg_in_dict-exact_example :
    (find_pkg_in_dict never registry (codes "b-2_1") ≡ some (found b))
    ↔ ((dict_get registry (codes "b") ≡ some b) × (b.pkgver ≡ some (codes "b-2_1")))
find_pkg_in_dict-exact_example =
    find_pkg_in_dict-exact never registry (codes "b-2_1") (codes "b") b plain b-name

find_pkg_in_dict-is_pkg_example :
    (find_pkg_in_dict never registry (codes "b-2_1") ≡ some (found b)
      → Stored registry b × (is_pkg never false (codes "b-2_1") b ≡ some true))
    × (pkgpattern_version (codes "b-2_1") ≡ none
        → Stored registry b × (is_pkg never false (codes "b-2_1") b ≡ some true)
        → find_pkg_in_dict never registry (codes "b-2_1") ≡ some (found b))
find_pkg_in_dict-is_pkg_example =
    find_pkg_in_dict-is_pkg never registry (codes "b-2_1") b registry-IsKeyed

b-found : find_pkg_in_dict never registry (codes "b-2_1") ≡ some (found b)
b-found =
    (find_pkg_in_dict-exact never registry (codes "b-2_1") (codes "b") b plain b-name).1
      (b-stored, refl)

b-taken : is_pkg never false (codes "b-2_1") b ≡ some true
b-taken = ((find_pkg_in_dict-is_pkg never registry (codes "b-2_1") b registry-IsKeyed).0 b-found).1

passes : is_pkg never false (codes "b-2_1") a ≡ some false
unfolding is_pkg pkgpattern_version pkg_version str_eq
passes = refl

-- The providers of the virtual package `b`, of which the first has no version.
abbrev providers : Dict Bytes
providers = (codes "d", codes "d") ∷ (codes "a-1_1", codes "c") ∷ []

abbrev configured : Dict (Dict Bytes)
configured = (codes "b", providers) ∷ []

b-configured : dict_get configured (codes "b") ≡ some providers
unfolding dict_get str_eq
b-configured = refl

b-unpatterned : pkgpattern_name name_size (codes "b-2_1") ≡ none
unfolding pkgpattern_name
b-unpatterned = refl

d-bare : pkg_version (codes "d") ≡ none
unfolding pkg_version
d-bare = refl

vpkg_user_conf_any_example :
    vpkg_user_conf never configured (codes "b-2_1") ≡ some (first_versioned providers)
vpkg_user_conf_any_example =
    vpkg_user_conf_any never configured (codes "b-2_1") (codes "b") providers b-unpatterned b-name
      b-configured (inl (d-bare, λ e. absurd (cc e)), (inr (codes "a", a-name), tt))
