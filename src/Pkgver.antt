-- ===== src/Pkgver.antt =====
-- Package names and versions in lib/util.c: a pkgver is `name-version_revision`, and a binary
-- package is the file `pkgver.arch.flappy`.
pub mod Split
pub mod Binpkg
pub mod Tests
use flappy.Base.{
  ℕ, suc, ◌+◌, ◌-◌, ◌^◌, ◌%◌, ◌≡◌, refl, Bool, true, false, ◌||◌, [], ◌∷◌, Option, none, some, ltb,
  leb, ◌==◌, if◌then◌else◌, ◌>>=◌, length, take, drop, get_or, Bytes, codes, is_digit, strchr,
  strrchr, strpbrk, upto, find_byte,
}

-- The loop of `is_revision`.
all_revision : Bytes → Bool
all_revision [] = true
all_revision (c ∷ s) = if is_digit c || c == b'_' then all_revision s else false

is_revision : Bytes → Bool
is_revision [] = false
is_revision (c ∷ s) = all_revision (c ∷ s)

-- The string behind the first byte, `r + 1`.
abbrev behind : Bytes → Bytes
behind r = drop 1 r

-- The loop of `flappy_pkg_version`, from `p[i]`: whether it returns `p`.
version_loop : Bytes → Bool
version_loop [] = false
version_loop (c ∷ s) =
    let next = version_loop s in
    if c == b'_'
    then false
    else if is_digit c
    then elim (strchr s b'_') [ some r ↦ is_revision (behind r) | none ↦ next ]
    else next

unfoldable pub pkg_version : Bytes → Option Bytes
unfolding version_loop is_revision all_revision strrchr find_byte
pkg_version pkg = do p ← strrchr pkg b'-'; if version_loop (behind p) then some (behind p) else none

-- The loop of `flappy_pkg_revision`: the string behind the last underscore.
revision_loop : Bytes → Option Bytes
revision_loop [] = none
revision_loop (c ∷ s) =
    let next = revision_loop s in
    if c == b'_'
    then none
    else if is_digit c
    then elim (strchr s b'_') [
      | some r ↦ if is_revision (behind r) then strrchr r b'_' >>= (λ q. some (behind q)) else none
      | none ↦ next
    ]
    else next

pub pkg_revision : Bytes → Option Bytes
unfolding revision_loop is_revision all_revision strrchr find_byte
pkg_revision pkg = strrchr pkg b'-' >>= λ p. revision_loop (behind p)

-- The loop of `flappy_pkg_name`: the value of `valid` at its end.
name_loop : Bytes → Bool
name_loop [] = false
name_loop (c ∷ s) =
    let next = name_loop s in
    if c == b'_'
    then false
    else if is_digit c
    then elim (strchr s b'_') [ some r ↦ is_revision (behind r) | none ↦ next ]
    else next

-- `flappy_pkg_name` with a buffer of `len` bytes: what it copies, if it returns true.
unfoldable pub pkg_name : ℕ → Bytes → Option Bytes
unfolding name_loop is_revision all_revision strrchr find_byte
pkg_name len pkg = do
  p ← strrchr pkg b'-'
  let plen = length pkg - length p + 1
  if name_loop (behind p) then (if ltb len plen then none else some (take (plen - 1) pkg)) else none

-- ><*?[]
abbrev pub pattern_bytes : Bytes
pattern_bytes = codes "><*?[]"

-- `flappy_pkgpattern_name` with a buffer of `len` bytes. `plen - 2` is computed in `size_t`.
unfoldable pub pkgpattern_name : ℕ → Bytes → Option Bytes
unfolding find_byte
pkgpattern_name len pkg = do
  res ← strpbrk pkg pattern_bytes
  let plen = length pkg - length res + 1
  let plen' = if get_or pkg (plen - 2) 0 == b'-' then plen - 1 else plen
  if ltb (length pkg) ((plen + 2 ^ 64 - 2) % 2 ^ 64) || ltb len plen'
      then none
      else some (take (plen' - 1) pkg)

unfoldable pub pkgpattern_version : Bytes → Option Bytes
unfolding find_byte
pkgpattern_version pkg = strpbrk pkg pattern_bytes

-- The file name behind the last slash.
pub file_name : Bytes → Bytes
file_name pkg = elim (strrchr pkg b'/') [ some f ↦ behind f | none ↦ pkg ]

-- The name with the length of `.flappy` taken off its end, and the last dot of what is left.
pub binpkg_parts : Bytes → Option (Bytes × Bytes)
binpkg_parts pkg =
    let fname = file_name pkg in
    if ltb (length fname) 7
    then none
    else (let p = take (length fname - 7) fname in strrchr p b'.' >>= λ p1. some (p, p1))

pub binpkg_pkgver : Bytes → Option Bytes
binpkg_pkgver pkg = do
  (p, p1) ← binpkg_parts pkg
  let ver = take (length p - length p1) p
  pkg_version ver >>= λ _. some ver

pub binpkg_arch : Bytes → Option Bytes
binpkg_arch pkg = binpkg_parts pkg >>= λ (p, p1). some (behind p1)
