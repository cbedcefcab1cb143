-- ===== src/Orphans/Tests.antt =====
-- The orphans of a database that meets the hypotheses of the theorems.
use flappy.Base.{
  str_eq, List, ℕ, ◌≡◌, refl, some, none, Option, Bytes, codes, Bool, true, false, [], ◌∷◌, All,
}
use flappy.Pkgver.{pkgpattern_name, pkg_name, pkgpattern_version}
use flappy.Dicts.{empty_pkgd, dict_get, Dict, Pkgd, PkgDict}
use flappy.Find.First.{vpkg_user_conf-nil}
use flappy.Revdeps.{dep_name, provider}
use flappy.Revdeps.Table.{target, IsRegistered}
use flappy.Orphans.{find_pkg_orphans}
use flappy.Orphans.Queue.{Holds}
use flappy.Orphans.Built.{IsInstalled, Built}
use flappy.Orphans.Automatic.{find_pkg_orphans-Built, find_pkg_orphans_greatest}

abbrev never : Bytes → Bytes → ℕ → Bool
never p s flags = false

abbrev tool : Pkgd
tool = record empty_pkgd {
  pkgver = some (codes "a-1_1");
  automatic_install = some true;
  run_depends = some (codes "b>=2" ∷ []);
}

abbrev needed : Pkgd
needed = record empty_pkgd { pkgver = some (codes "b-2_1"); automatic_install = some true }

-- The package that is needed comes first.
abbrev database : PkgDict
database = (codes "b", needed) ∷ (codes "a", tool) ∷ []

b-target : target never [] (codes "b>=2") ≡ some (codes "b")
unfolding target dep_name provider pkgpattern_name
b-target = rw (vpkg_user_conf-nil never (codes "b")) refl

database-IsRegistered : All (IsRegistered never []) database
database-IsRegistered = (
  record { pkgver = codes "b-2_1"; has_pkgver = refl; known = tt },
  (record { pkgver = codes "a-1_1"; has_pkgver = refl; known = ((codes "b", b-target), tt) }, tt),
)

database-IsInstalled : All (IsInstalled database) database
unfolding pkg_name pkgpattern_version dict_get str_eq
database-IsInstalled = (
  record {
    pkgver = codes "b-2_1";
    has_pkgver = refl;
    no_pattern = refl;
    named = refl;
    stored = refl;
  },
  (
    record {
      pkgver = codes "a-1_1";
      has_pkgver = refl;
      no_pattern = refl;
      named = refl;
      stored = refl;
    },
    tt,
  ),
)

find_pkg_orphans-Built_example :
    (a : List Pkgd) × (known : Option (Dict (List Bytes))) × (find_pkg_orphans never [] database
        none
      ≡ some (a, known))
    × Built never [] database a
find_pkg_orphans-Built_example =
    find_pkg_orphans-Built never [] database database-IsRegistered database-IsInstalled

find_pkg_orphans_greatest_example :
    (a : List Pkgd) × (known : Option (Dict (List Bytes))) × (find_pkg_orphans never [] database
        none
      ≡ some (a, known))
    × ((b : List Pkgd) (x : Bytes) → Built never [] database b → Holds b x → Holds a x)
find_pkg_orphans_greatest_example =
    find_pkg_orphans_greatest never [] database database-IsRegistered database-IsInstalled
