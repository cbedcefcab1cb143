-- ===== src/PkgPath/Cache.antt =====
-- How the functions of `PkgPath` agree on the cached file and the repository's file.
use flappy.Base.{
  ◌>>=◌, ◌∙◌, ◌∙◌, ℕ, ◌+◌, ◌-◌, ◌<◌, ◌≡◌, refl, Bool, true, false, ◌&&◌, ◌++◌, none, some, ◌==◌,
  if◌then◌else◌, length, length-append, take_all, Bytes, codes, arith, Option-cases, inl, inr,
  upto-append,
}
use flappy.PkgPath.{
  print_path, Pkg, PathResult, done, failed, enoent, path_max, repository_is_remote, binpkg_format,
  path_keys, pkg_path, pkg_url, pkg_path_or_url, repository_pkg_path, binpkg_exists,
  remote_binpkg_exists, file_keys,
}

-- What follows from the cached path: itself if it can be read, the repository's if it is not
-- there, and the error of access(2) otherwise.
abbrev pub after_cached : (Bytes → ℕ) → PathResult → PathResult → PathResult
after_cached access (failed e) url = failed e
after_cached access (done p) url =
    if access p == 0 then done p else if access p == enoent then url else failed (access p)

pub print_path_done :
    (dstsz : ℕ) (f path : Bytes)
    → print_path dstsz f ≡ done path
    → (f ≡ path) × (length path < dstsz)
print_path_done dstsz f path h = (ground arith, ground arith)

-- The keys are there if those of the file and the repository are.
keys_lem :
    (pkgd : Pkg) (repoloc : Bytes)
    → pkgd.repository ≡ some repoloc
    → path_keys pkgd ≡ (file_keys pkgd >>= λ (v, a). some (v, a, repoloc))
unfolding path_keys file_keys
keys_lem pkgd repoloc r = ground arith

if_both : (a b : Bool) → (if a then b else false) ≡ (a && b)
if_both true b = refl
if_both false b = refl

module _ (access : Bytes → ℕ) (cachedir : Bytes) where
  -- Of a local repository `flappy_pkg_path`, `flappy_pkg_url` and `flappy_pkg_path_or_url` give one
  -- result.
  path_or_url_local :
      (dstsz : ℕ) (pkgd : Pkg) (repoloc : Bytes)
      → pkgd.repository ≡ some repoloc
      → repository_is_remote repoloc ≡ false
      → (pkg_path cachedir dstsz pkgd ≡ pkg_url dstsz pkgd)
        × (pkg_path_or_url access cachedir dstsz pkgd ≡ pkg_url dstsz pkgd)
  unfolding pkg_path pkg_url pkg_path_or_url path_keys
  path_or_url_local dstsz pkgd repoloc e l = (ground arith, ground arith)

  -- Of a remote repository `flappy_pkg_path_or_url` gives the result of `flappy_pkg_path`, the
  -- cached file, if that file can be read or its path does not fit; the result of
  -- `flappy_pkg_url` if the file does not exist; and otherwise the error of access(2).
  path_or_url_remote :
      (dstsz : ℕ) (pkgd : Pkg) (repoloc : Bytes)
      → pkgd.repository ≡ some repoloc
      → repository_is_remote repoloc ≡ true
      → pkg_path_or_url access cachedir dstsz pkgd
        ≡ after_cached access (pkg_path cachedir dstsz pkgd) (pkg_url dstsz pkgd)
  unfolding pkg_path pkg_url pkg_path_or_url path_keys
  path_or_url_remote dstsz pkgd repoloc e l = ground arith

  -- A path that `flappy_pkg_path_or_url` finds is the one that `flappy_repository_pkg_path` gives.
  repository_pkg_path_lem :
      (dstsz : ℕ) (pkgd : Pkg) (path : Bytes)
      → pkg_path_or_url access cachedir dstsz pkgd ≡ done path
      → repository_pkg_path access cachedir pkgd ≡ some path
  unfolding pkg_path_or_url repository_pkg_path
  repository_pkg_path_lem dstsz pkgd path h = ground arith

  -- `flappy_binpkg_exists` asks for the file that `flappy_pkg_path` names, if its path is shorter
  -- than PATH_MAX.
  binpkg_exists_lem :
      (pkgd : Pkg) (path : Bytes)
      → pkg_path cachedir path_max pkgd ≡ done path
      → binpkg_exists access cachedir pkgd ≡ (access path == 0)
  unfolding pkg_path binpkg_exists
  binpkg_exists_lem pkgd path h = elim (Option-cases (path_keys pkgd)) [
    | inl e ↦ absurd (cc (rw (e, pkg_path) at h))
    | inr ((pkgver, arch, repoloc), e) ↦
        let f =
          binpkg_format (if repository_is_remote repoloc then cachedir else repoloc) pkgver arch in
        let h' : print_path path_max f ≡ done path = rw (e, pkg_path) at h in
        let (same, fits) = print_path_done path_max f path h' in
        rw (e, binpkg_exists, same, take_all (path_max - 1) path (omega arith)) refl
  ]

  -- `flappy_remote_binpkg_exists` asks for the cached file and for its signature, the path with
  -- `.sig2` behind it, if that path is shorter than PATH_MAX.
  remote_binpkg_exists_lem :
      (pkgd : Pkg) (path repoloc : Bytes)
      → pkgd.repository ≡ some repoloc
      → repository_is_remote repoloc ≡ true
      → pkg_path cachedir path_max pkgd ≡ done path
      → length path + 5 < path_max
      → remote_binpkg_exists access cachedir pkgd
        ≡ (access (path ++ codes ".sig2") == 0 && access path == 0)
  unfolding pkg_path remote_binpkg_exists
  remote_binpkg_exists_lem pkgd path repoloc r l h fits = elim (Option-cases (file_keys pkgd)) [
    | inl e ↦
        let k : path_keys pkgd ≡ none = keys_lem pkgd repoloc r ∙ rw e in
        absurd (cc (rw (k, pkg_path) at h))
    | inr ((pkgver, arch), e) ↦
        let f = binpkg_format cachedir pkgver arch in
        let k : path_keys pkgd ≡ some (pkgver, arch, repoloc) = keys_lem pkgd repoloc r ∙ rw e in
        let h' : print_path path_max f ≡ done path = rw (k, l, pkg_path) at h in
        let (same, _) = print_path_done path_max f path h' in
        let sig = path ++ codes ".sig2" in
        let size = length-append path (codes ".sig2") in
        rw
          (
            e,
            remote_binpkg_exists,
            same,
            take_all (path_max - 1) sig (omega (arith, size)),
            upto-append path (codes ".sig2"),
          )
          (if_both (access sig == 0) (access path == 0))
  ]
