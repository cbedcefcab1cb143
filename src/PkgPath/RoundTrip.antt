-- ===== src/PkgPath/RoundTrip.antt =====
-- The path of a package's file, read back by `flappy_binpkg_pkgver` and `flappy_binpkg_arch`.
use flappy.Base.{
  ℕ, ◌<◌, ◌≡◌, some, inl, inr, Bytes, Lacks, Option-cases, arith, if◌then◌else◌, length,
}
use flappy.Pkgver.{binpkg_pkgver, binpkg_arch}
use flappy.Pkgver.Split.{IsPkgver}
use flappy.Pkgver.Binpkg.{binpkg-format}
use flappy.PkgPath.Cache.{print_path_done}
use flappy.PkgPath.{Pkg, done, path_keys, binpkg_format, print_path, repository_is_remote, pkg_path}

keys_file :
    (pkgd : Pkg) (pkgver arch repoloc : Bytes)
    → path_keys pkgd ≡ some (pkgver, arch, repoloc)
    → (pkgd.pkgver ≡ some pkgver) × (pkgd.architecture ≡ some arch)
unfolding path_keys
keys_file pkgd pkgver arch repoloc h = (ground arith, ground arith)

-- The pkgver and the architecture are read back from the path that `flappy_pkg_path` prints, be
-- the repository local or remote, if the pkgver has a name and a version and no slash, and the
-- architecture has no dot and no slash. The path fits the buffer, its NUL included.
pub pkg_path-binpkg :
    (cachedir : Bytes) (dstsz : ℕ) (pkgd : Pkg) (path pkgver arch name v : Bytes)
    → pkg_path cachedir dstsz pkgd ≡ done path
    → pkgd.pkgver ≡ some pkgver
    → pkgd.architecture ≡ some arch
    → IsPkgver pkgver name v
    → Lacks b'/' pkgver
    → Lacks b'/' arch
    → Lacks b'.' arch
    → (binpkg_pkgver path ≡ some pkgver) × (binpkg_arch path ≡ some arch) × (length path < dstsz)
unfolding pkg_path
pkg_path-binpkg cachedir dstsz pkgd path pkgver arch name v h hv ha p sp sa da =
    elim (Option-cases (path_keys pkgd)) [
      | inl e ↦ absurd (cc (rw (e, pkg_path) at h))
      | inr ((pkgver', arch', repoloc), e) ↦
          let (ev, ea) = keys_file pkgd pkgver' arch' repoloc e in
          let dir = if repository_is_remote repoloc then cachedir else repoloc in
          let h' : print_path dstsz (binpkg_format dir pkgver' arch') ≡ done path =
            rw (e, pkg_path) at h in
          let (a, b) = binpkg-format dir pkgver name v arch p sp sa da in
          let (whole, fits) = print_path_done dstsz (binpkg_format dir pkgver' arch') path h' in
          let same : binpkg_format dir pkgver arch ≡ path = cc (whole, ev, ea) in
          (rw (← same) a, rw (← same) b, fits)
    ]
