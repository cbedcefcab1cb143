-- ===== src/Find/Conf.antt =====
-- `flappy_find_virtualpkg_in_conf` of lib/plist_find.c. It matches the array `vpkgver` that it never
-- writes: what stands in that array is the argument `vpkgver`.
use flappy.Base.{ℕ, Bool, [], ◌∷◌, Option, none, some, if◌then◌else◌, ◌>>=◌, Bytes, str_eq}
use flappy.Pkgver.{pkg_name, pkg_version, pkgpattern_version}
use flappy.Pattern.{pkgpattern_match, is_some}
use flappy.Arrays.{name_size, is_nonzero}
use flappy.Dicts.{Dict, dict_get, PkgDict}
use flappy.Find.{Found, missing, find_pkg_in_dict}

module _ (fnmatch : Bytes → Bytes → ℕ → Bool) (vpkgver : Bytes) where
  -- One round of the loop: whether the entry is taken. Where `vpkg_conf` has a version, `vpkgname`
  -- is the buffer `buf`, which then gets the name of `pkg`.
  conf_takes : Bytes → Bytes → Option Bool
  conf_takes pkg vpkg_conf =
      let versioned = is_some (pkg_version vpkg_conf) in
      let matched = λ (v : Bytes). (pkgpattern_match fnmatch v pkg >>= λ a. some (is_nonzero a)) in
      do
        name ← if versioned then pkg_name name_size vpkg_conf else some vpkg_conf
        let by_pkgver = pkg_name name_size pkg >>= λ buf.
            some (if versioned then str_eq buf buf else str_eq buf name)
        if is_some (pkgpattern_version pkg)
            then matched (if versioned then vpkg_conf else vpkgver)
            else if is_some (pkg_version pkg)
            then by_pkgver
            else some (str_eq pkg name)

  pub conf_loop : PkgDict → Bytes → Dict Bytes → Option Found
  conf_loop d pkg [] = some (missing none)
  conf_loop d pkg ((vpkg_conf, cur) ∷ providers) =
      let rest = conf_loop d pkg providers in
      conf_takes pkg vpkg_conf >>= λ t. if t then find_pkg_in_dict fnmatch d cur else rest

  -- `xhp->vpkgd_conf` may be missing.
  unfoldable pub find_virtualpkg_in_conf :
      Option (Dict (Dict Bytes)) → PkgDict → Bytes → Option Found
  find_virtualpkg_in_conf none d pkg = some (missing none)
  find_virtualpkg_in_conf (some vpkgd_conf) d pkg = elim (dict_get vpkgd_conf pkg) [
    | none ↦ some (missing none)
    | some providers ↦ conf_loop d pkg providers
  ]
