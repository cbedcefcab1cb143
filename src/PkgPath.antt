-- ===== src/PkgPath.antt =====
-- Where a binary package lies, in lib/util.c: `flappy_pkg_path` and the functions beside it. The
-- answer of access(2) is the argument `access`: 0, or the errno.
pub mod RoundTrip
pub mod Cache
pub mod Tests
use flappy.Base.{
  ℕ, ◌-◌, ◌≡◌, refl, Bool, true, false, ◌||◌, ◌&&◌, [], ◌∷◌, ◌++◌, Option, none, some, leb, ◌==◌,
  if◌then◌else◌, ◌>>=◌, length, take, Bytes, codes, starts_with, str_eq, List,
}

-- The keys that these functions read of a package dictionary; `none` is a missing key.
pub record Pkg : Type 0 where
  pub pkgver : Option Bytes
  pub architecture : Option Bytes
  pub repository : Option Bytes

-- A result of type ssize_t: the string in the buffer, whose length is returned, or the errno whose
-- negation is.
pub data PathResult : Type 0 where
  done : Bytes → PathResult
  failed : ℕ → PathResult

abbrev pub enoent : ℕ
enoent = 2

abbrev pub einval : ℕ
einval = 22

abbrev pub enobufs : ℕ
enobufs = 105

abbrev pub path_max : ℕ
path_max = 4096

pub repository_is_remote : Bytes → Bool
unfolding starts_with
repository_is_remote uri =
    starts_with uri (codes "http://")
    || starts_with uri (codes "https://")
    || starts_with uri (codes "ftp://")

-- "%s/%s.%s.flappy"
abbrev pub binpkg_format : Bytes → Bytes → Bytes → Bytes
binpkg_format repoloc pkgver arch = repoloc ++ b'/' ∷ (pkgver ++ b'.' ∷ (arch ++ codes ".flappy"))

-- snprintf(dst, dstsz, "%s/%s.%s.flappy", …) and the test of its result.
abbrev pub print_path : ℕ → Bytes → PathResult
print_path dstsz path = if leb dstsz (length path) then failed enobufs else done path

-- The three keys of the dictionary.
pub path_keys : Pkg → Option (Bytes × Bytes × Bytes)
path_keys pkgd = do
  pkgver ← pkgd.pkgver
  arch ← pkgd.architecture
  repoloc ← pkgd.repository
  some (pkgver, arch, repoloc)

-- The two keys that `flappy_remote_binpkg_exists` reads.
pub file_keys : Pkg → Option (Bytes × Bytes)
file_keys pkgd = do pkgver ← pkgd.pkgver; arch ← pkgd.architecture; some (pkgver, arch)

pub pkg_path : Bytes → ℕ → Pkg → PathResult
pkg_path cachedir dstsz pkgd = elim (path_keys pkgd) [
  | none ↦ failed einval
  | some (pkgver, arch, repoloc) ↦
      print_path dstsz
        (binpkg_format (if repository_is_remote repoloc then cachedir else repoloc) pkgver arch)
]

pub pkg_url : ℕ → Pkg → PathResult
pkg_url dstsz pkgd = elim (path_keys pkgd) [
  | none ↦ failed einval
  | some (pkgver, arch, repoloc) ↦ print_path dstsz (binpkg_format repoloc pkgver arch)
]

module _ (access : Bytes → ℕ) where
  -- The part for remote repositories: what it returns, if it returns.
  cached_path : Bytes → ℕ → Option PathResult
  cached_path path dstsz =
      if leb dstsz (length path)
      then some (failed enobufs)
      else if access path == 0
      then some (done path)
      else if access path == enoent
      then none
      else some (failed (access path))

  pub pkg_path_or_url : Bytes → ℕ → Pkg → PathResult
  unfolding cached_path
  pkg_path_or_url cachedir dstsz pkgd = elim (path_keys pkgd) [
    | none ↦ failed einval
    | some (pkgver, arch, repoloc) ↦
        elim (if repository_is_remote repoloc
          then cached_path (binpkg_format cachedir pkgver arch) dstsz
          else none) [ some r ↦ r | none ↦ print_path dstsz (binpkg_format repoloc pkgver arch) ]
  ]

  pub repository_pkg_path : Bytes → Pkg → Option Bytes
  repository_pkg_path cachedir pkgd = do
    (pkgver, arch, repoloc) ← path_keys pkgd
    let lbinpkg = binpkg_format cachedir pkgver arch
    some (
        if repository_is_remote repoloc && access lbinpkg == 0
        then lbinpkg
        else binpkg_format repoloc pkgver arch)

  -- The buffer holds PATH_MAX bytes, and a longer path is cut.
  pub binpkg_exists : Bytes → Pkg → Bool
  binpkg_exists cachedir pkgd = elim (path_keys pkgd) [
    | none ↦ false
    | some (pkgver, arch, repoloc) ↦
        access (
          take (path_max - 1) (
            binpkg_format (if repository_is_remote repoloc then cachedir else repoloc) pkgver arch))
        == 0
  ]

  pub remote_binpkg_exists : Bytes → Pkg → Bool
  remote_binpkg_exists cachedir pkgd = elim (file_keys pkgd) [
    | none ↦ false
    | some (pkgver, arch) ↦
        let path = take (path_max - 1) (binpkg_format cachedir pkgver arch ++ codes ".sig2") in
        if access path == 0 then access (take (length path - 5) path) == 0 else false
  ]

-- `flappy_pkg_arch_match`; the handle's target architecture may be unset.
pub pkg_arch_match : Option Bytes → Bytes → Bytes → Option Bytes → Bool
unfolding str_eq
pkg_arch_match target_arch native_arch orig none =
    let arch : Bytes = elim target_arch [ some a ↦ a | none ↦ native_arch ] in
    str_eq orig (codes "noarch") || str_eq orig arch
pkg_arch_match target_arch native_arch orig (some target) =
    str_eq orig (codes "noarch") || str_eq orig target
