-- ===== src/Pkgver/Binpkg.antt =====
-- `flappy_binpkg_pkgver` and `flappy_binpkg_arch` read back the file name of a binary package.
use flappy.Base.{
  ◌≢◌, ◌≡◌, refl, sym, false, ◌∷◌, ◌++◌, append_assoc, some, arith, ltb, length, length-append,
  upto-append, Bytes, codes, Lacks, All-append, strrchr-append,
}
use flappy.Pkgver.{file_name, binpkg_parts, binpkg_pkgver, binpkg_arch}
use flappy.Pkgver.Split.{IsPkgver, pkgver_parts}

file_name_lem : (dir f : Bytes) → Lacks b'/' f → file_name (dir ++ b'/' ∷ f) ≡ f
unfolding file_name
file_name_lem dir f h = rw (strrchr-append dir f b'/' h, file_name)

-- The parts of a file name in a directory.
parts_lem :
    (dir pkgver arch : Bytes)
    → Lacks b'/' pkgver
    → Lacks b'/' arch
    → Lacks b'.' arch
    → binpkg_parts (dir ++ b'/' ∷ (pkgver ++ b'.' ∷ (arch ++ codes ".flappy")))
      ≡ some (pkgver ++ b'.' ∷ arch, b'.' ∷ arch)
unfolding binpkg_parts
parts_lem dir pkgver arch hp ha hd =
    let stem = pkgver ++ b'.' ∷ arch in
    let tail_text = arch ++ codes ".flappy" in
    let clean : Lacks b'/' (pkgver ++ b'.' ∷ tail_text) =
      All-append (λ d. d ≢ b'/') pkgver (b'.' ∷ tail_text) hp
        (omega arith, All-append (λ d. d ≢ b'/') arch (codes ".flappy") ha (omega arith)) in
    let split : pkgver ++ b'.' ∷ tail_text ≡ stem ++ codes ".flappy" =
      sym (append_assoc pkgver (b'.' ∷ arch) (codes ".flappy")) in
    let size = length-append stem (codes ".flappy") in
    let long : ltb (length (stem ++ codes ".flappy")) 7 ≡ false = ground (arith, size) in
    let front = upto-append stem (codes ".flappy") in
    rw (file_name_lem dir _ clean, split, long, front, strrchr-append pkgver arch b'.' hd) refl

-- From a file of the form `dir/pkgver.arch.flappy`, the two functions read the pkgver and the
-- architecture, if the pkgver has a name and a version and no slash, and the architecture has no
-- dot and no slash.
pub binpkg-format :
    (dir pkgver name v arch : Bytes)
    → IsPkgver pkgver name v
    → Lacks b'/' pkgver
    → Lacks b'/' arch
    → Lacks b'.' arch
    → (let file = dir ++ b'/' ∷ (pkgver ++ b'.' ∷ (arch ++ codes ".flappy")) in
        (binpkg_pkgver file ≡ some pkgver) × (binpkg_arch file ≡ some arch))
unfolding binpkg_pkgver binpkg_arch
binpkg-format dir pkgver name v arch h hp ha hd =
    let e = parts_lem dir pkgver arch hp ha hd in
    (rw (e, upto-append pkgver (b'.' ∷ arch), (pkgver_parts 0 pkgver name v h).0), rw e)
