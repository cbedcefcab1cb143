-- ===== src/State/Tests.antt =====
-- The theorems on package states at inputs that meet their hypotheses.
use flappy.Base.{ℕ, ◌≡◌, refl, some, none, Bytes, codes, Bool, false, [], str_eq, arith}
use flappy.Pkgver.{pkg_name, pkgpattern_version}
use flappy.Arrays.{name_size}
use flappy.Dicts.{dict_get, PkgDict}
use flappy.State.{set_pkg_state_installed, pkg_state_installed}
use flappy.State.RoundTrip.{set_pkg_state-pkg_state}

abbrev never : Bytes → Bytes → ℕ → Bool
never p s flags = false

abbrev sample : Bytes
sample = codes "a-1_1"

plain : pkgpattern_version sample ≡ none
unfolding pkgpattern_version
plain = refl

named : pkg_name name_size sample ≡ some (codes "a")
unfolding pkg_name
named = refl

set_pkg_state-pkg_state_example :
    (pkgdb' : PkgDict) × (set_pkg_state_installed never [] sample 2 ≡ some (pkgdb', 0))
    × (pkg_state_installed never pkgdb' sample ≡ some (0, some 2))
    × ((other : Bytes)
        → str_eq (codes "a") other ≡ false
        → dict_get pkgdb' other ≡ dict_get [] other)
set_pkg_state-pkg_state_example =
    set_pkg_state-pkg_state never [] sample (codes "a") 2 plain named (omega arith) (omega arith)
