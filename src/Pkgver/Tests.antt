-- ===== src/Pkgver/Tests.antt =====
-- Tests of lib/util.c's names, and the theorems at inputs that meet their hypotheses.
use flappy.Base.{
  strrchr, ◌≡◌, refl, some, none, arith, Bytes, codes, ◌++◌, ◌∷◌, Lacks, if◌then◌else◌, ltb, length,
}
use flappy.Pkgver.{
  pkg_version, pkg_revision, pkg_name, pkgpattern_name, binpkg_pkgver, binpkg_arch, binpkg_parts,
  file_name,
}
use flappy.Pkgver.Split.{IsPkgver, pkgver_parts}
use flappy.Pkgver.Binpkg.{binpkg-format}

version_test : pkg_version (codes "foo-blah-100dpi-21_1") ≡ some (codes "21_1")
unfolding pkg_version
version_test = refl

two_underscores : pkg_revision (codes "perl-Digest-1.17_01_1") ≡ some (codes "1")
unfolding pkg_revision
two_underscores = refl

no_revision : pkg_name 64 (codes "foo-1.2") ≡ none
unfolding pkg_name
no_revision = refl

pattern_name : pkgpattern_name 64 (codes "foo>=1.2") ≡ some (codes "foo")
unfolding pkgpattern_name
pattern_name = refl

leading_glob : pkgpattern_name 64 (codes "*nslookup") ≡ none
unfolding pkgpattern_name
leading_glob = refl

glob_name : pkgpattern_name 64 (codes "systemd-[0-9]*") ≡ some (codes "systemd")
unfolding pkgpattern_name
glob_name = refl

binpkg_test : binpkg_pkgver (codes "/path/to/foo-1.0_1.x86_64.flappy") ≡ some (codes "foo-1.0_1")
unfolding binpkg_pkgver binpkg_parts file_name pkg_version
binpkg_test = refl

arch_test : binpkg_arch (codes "/path/to/foo-1.0_1.x86_64-musl.flappy") ≡ some (codes "x86_64-musl")
unfolding binpkg_arch binpkg_parts file_name strrchr
arch_test = refl

abbrev sample : Bytes
sample = codes "perl-Digest-1.17_01_1"

abbrev sample_version : Bytes
sample_version = codes "1.17_01_1"

sample-IsPkgver : IsPkgver sample (codes "perl-Digest") sample_version
sample-IsPkgver = record {
  joined = refl;
  version = record {
    upstream = codes "1.17";
    revision = codes "01_1";
    whole = refl;
    first = omega arith;
    digit = refl;
    revised = record { some_byte = cc; all_bytes = (refl, (refl, (refl, (refl, tt)))) };
    one_part = omega arith;
  };
}

sample_version_found : pkg_version sample ≡ some sample_version
unfolding pkg_version
sample_version_found = refl

no_version : pkg_version (codes "foo-1.0") ≡ none
unfolding pkg_version
no_version = refl

pkgver_parts_example :
    (pkg_version sample ≡ some sample_version)
    × (pkg_name 64 sample
        ≡ (if ltb (length (codes "perl-Digest")) 64 then some (codes "perl-Digest") else none))
    × ((a : Bytes) × (r : Bytes) × (sample_version ≡ a ++ b'_' ∷ r)
        × Lacks b'_' r
        × (pkg_revision sample ≡ some r))
pkgver_parts_example = pkgver_parts 64 sample (codes "perl-Digest") sample_version sample-IsPkgver

binpkg-format_example :
    (binpkg_pkgver (codes "/r/perl-Digest-1.17_01_1.x86_64.flappy") ≡ some sample)
    × (binpkg_arch (codes "/r/perl-Digest-1.17_01_1.x86_64.flappy") ≡ some (codes "x86_64"))
binpkg-format_example =
    binpkg-format (codes "/r") sample (codes "perl-Digest") sample_version (codes "x86_64")
      sample-IsPkgver (omega arith) (omega arith) (omega arith)
