-- ===== src/PkgPath/Tests.antt =====
-- The theorems on package paths at inputs that meet their hypotheses.
use flappy.Base.{ℕ, ◌≡◌, refl, some, arith, Bytes, codes, ◌<◌, true, false, length}
use flappy.Pkgver.{binpkg_pkgver, binpkg_arch}
use flappy.Pkgver.Split.{IsPkgver}
use flappy.PkgPath.{
  Pkg, done, enoent, path_max, repository_is_remote, pkg_path, pkg_path_or_url, path_keys,
  cached_path,
}
use flappy.PkgPath.RoundTrip.{pkg_path-binpkg}

abbrev cache : Bytes
cache = codes "/c"

abbrev near : Pkg
near = record {
  pkgver = some (codes "a-1_1");
  architecture = some (codes "x86_64");
  repository = some (codes "/r");
}

abbrev far : Pkg
far = record {
  pkgver = some (codes "a-1_1");
  architecture = some (codes "x86_64");
  repository = some (codes "https://r");
}

-- A file system in which no file exists.
abbrev nothing : Bytes → ℕ
nothing path = enoent

abbrev far_path : Bytes
far_path = codes "/c/a-1_1.x86_64.flappy"

far_is_cached : pkg_path cache path_max far ≡ done far_path
unfolding pkg_path path_keys repository_is_remote
far_is_cached = refl

near_is_local : repository_is_remote (codes "/r") ≡ false
unfolding repository_is_remote
near_is_local = refl

far_is_remote : repository_is_remote (codes "https://r") ≡ true
unfolding repository_is_remote
far_is_remote = refl

far_found :
    pkg_path_or_url nothing cache path_max far ≡ done (codes "https://r/a-1_1.x86_64.flappy")
unfolding pkg_path_or_url path_keys cached_path repository_is_remote
far_found = refl

known-IsPkgver : IsPkgver (codes "a-1_1") (codes "a") (codes "1_1")
known-IsPkgver = record {
  joined = refl;
  version = record {
    upstream = codes "1";
    revision = codes "1";
    whole = refl;
    first = omega arith;
    digit = refl;
    revised = record { some_byte = cc; all_bytes = (refl, tt) };
    one_part = omega arith;
  };
}

pkg_path-binpkg_example :
    (binpkg_pkgver far_path ≡ some (codes "a-1_1"))
    × (binpkg_arch far_path ≡ some (codes "x86_64"))
    × (length far_path < path_max)
pkg_path-binpkg_example =
    pkg_path-binpkg cache path_max far far_path (codes "a-1_1") (codes "x86_64") (codes "a")
      (codes "1_1") far_is_cached refl refl known-IsPkgver (omega arith) (omega arith) (omega arith)
