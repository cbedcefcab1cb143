-- ===== src/Revdeps/Tests.antt =====
-- The theorem on the table of reverse dependencies at a database that meets its hypotheses.
use flappy.Base.{◌↔◌, List, ℕ, ◌≡◌, refl, some, none, Bytes, codes, Bool, false, [], ◌∷◌}
use flappy.Pkgver.{pkgpattern_name}
use flappy.Dicts.{empty_pkgd, Dict, Pkgd, PkgDict}
use flappy.Find.First.{vpkg_user_conf-nil}
use flappy.Revdeps.{dep_name, provider, generate_full_revdeps_tree}
use flappy.Revdeps.Table.{Lists, Needs, target, revdeps_tree-Lists}

abbrev never : Bytes → Bytes → ℕ → Bool
never p s flags = false

abbrev needs_b : Pkgd
needs_b = record empty_pkgd {
  pkgver = some (codes "a-1_1");
  run_depends = some (codes "b>=2" ∷ []);
}

abbrev database : PkgDict
database = (codes "a", needs_b) ∷ []

b-target : target never [] (codes "b>=2") ≡ some (codes "b")
unfolding target dep_name provider pkgpattern_name
b-target = rw (vpkg_user_conf-nil never (codes "b")) refl

revdeps_tree-Lists_example :
    (t : Dict (List Bytes)) × (generate_full_revdeps_tree never [] none database ≡ some t)
    × ((n x : Bytes) → Lists t n x ↔ Needs never [] database n x)
revdeps_tree-Lists_example =
    revdeps_tree-Lists never [] database (
      record { pkgver = codes "a-1_1"; has_pkgver = refl; known = ((codes "b", b-target), tt) },
      tt,
    )
