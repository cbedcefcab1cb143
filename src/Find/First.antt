-- ===== src/Find/First.antt =====
-- The order of the searches of lib/plist_find.c: which of several packages is taken.
use flappy.Base.{
  str_eq, Bool-cases, inr, inl, ◌⊎◌, Option-cases, ◌≢◌, ℕ, ◌≡◌, refl, ap, ◌∙◌, Bool, true, false,
  not, ◌&&◌, List, [], ◌∷◌, ◌++◌, Option, none, some, ◌==◌, if◌then◌else◌, Bytes, str_eq_refl, All,
}
use flappy.Pkgver.{pkg_name, pkgpattern_name}
use flappy.Arrays.{name_size}
use flappy.PkgPath.{enoent}
use flappy.Dicts.{Dict, dict_get, Pkgd}
use flappy.Find.{
  is_some, pkg_version, find_virtualpkg_in_array, Found, by_name, found, missing,
  transaction_pkg_type, is_pkg, find_loop, get_pkg_in_array, vpkg_user_conf, vpkg_loop, vpkg_kind,
  takes, Match, by_pkgver,
}
use flappy.Find.Exact.{some-pkg_version}

kind-by_pkgver :
    (vpkg name : Bytes)
    → pkgpattern_name name_size vpkg ≡ none
    → pkg_name name_size vpkg ≡ some name
    → Path (Match × Bytes) (vpkg_kind vpkg) (by_pkgver, name)
unfolding vpkg_kind
kind-by_pkgver vpkg name plain named = rw (vpkg_kind, plain, named) refl

kind-by_name :
    (vpkg : Bytes)
    → pkgpattern_name name_size vpkg ≡ none
    → pkg_name name_size vpkg ≡ none
    → Path (Match × Bytes) (vpkg_kind vpkg) (by_name, vpkg)
unfolding vpkg_kind
kind-by_name vpkg plain bare = rw (vpkg_kind, plain, bare) refl

pub Found-cases : (f : Found) → ((p : Pkgd) × (f ≡ found p)) ⊎ ((e : Option ℕ) × (f ≡ missing e))
Found-cases (found p) = inl (p, refl)
Found-cases (missing e) = inr (e, refl)

-- A configured provider: a text without a version, or a pkgver.
abbrev pub IsProvider : Bytes × Bytes → Type 0
IsProvider e =
    ((pkg_version e.0 ≡ none) × (e.0 ≢ [])) ⊎ ((any : Bytes) × (pkg_name name_size e.0 ≡ some any))

-- The package of the first provider that has a version.
unfoldable pub first_versioned : Dict Bytes → Option Bytes
first_versioned [] = none
first_versioned ((conf, pkg) ∷ providers) =
    if is_some (pkg_version conf) then some pkg else first_versioned providers

str_eq_nil : (c : ℕ) (s : Bytes) → str_eq [] (c ∷ s) ≡ false
unfolding str_eq
str_eq_nil c s = refl

module _ (fnmatch : Bytes → Bytes → ℕ → Bool) where
  find_loop-first :
      (before after : List Pkgd) (obj : Pkgd) (str : Bytes) (virtual : Bool)
      → All (λ o. is_pkg fnmatch virtual str o ≡ some false) before
      → is_pkg fnmatch virtual str obj ≡ some true
      → find_loop fnmatch (before ++ obj ∷ after) str virtual ≡ some (some obj)
  unfolding find_loop
  find_loop-first [] after obj str virtual passed here = rw here refl
  find_loop-first (o ∷ before) after obj str virtual passed here =
      rw passed.0 (find_loop-first before after obj str virtual passed.1 here)

  find_loop-none :
      (array : List Pkgd) (str : Bytes) (virtual : Bool)
      → All (λ o. is_pkg fnmatch virtual str o ≡ some false) array
      → find_loop fnmatch array str virtual ≡ some none
  unfolding find_loop
  find_loop-none [] str virtual passed = refl
  find_loop-none (o ∷ array) str virtual passed =
      rw passed.0 (find_loop-none array str virtual passed.1)

  -- `get_pkg_in_array` stops at the first package that it takes, whatever stands behind it: if a
  -- type of transaction is asked for and that package has another, the result is ENOENT, and
  -- otherwise it is that package. If it takes no package of the array, the result is ENOENT.
  get_pkg_in_array-first :
      (str : Bytes) (type : ℕ) (virtual : Bool) (before : List Pkgd)
      → All (λ o. is_pkg fnmatch virtual str o ≡ some false) before
      → (get_pkg_in_array fnmatch before str type virtual ≡ some (missing (some enoent)))
        × ((after : List Pkgd) (obj : Pkgd)
            → is_pkg fnmatch virtual str obj ≡ some true
            → get_pkg_in_array fnmatch (before ++ obj ∷ after) str type virtual
              ≡ some (
                  if not (type == 0) && not (transaction_pkg_type obj == type)
                  then missing (some enoent)
                  else found obj))
  unfolding get_pkg_in_array
  get_pkg_in_array-first str type virtual before passed = (
    rw (find_loop-none before str virtual passed) refl,
    λ after obj here. rw (find_loop-first before after obj str virtual passed here) refl,
  )

  -- With nothing configured.
  pub vpkg_user_conf-nil : (vpkg : Bytes) → vpkg_user_conf fnmatch [] vpkg ≡ some none
  unfolding vpkg_user_conf dict_get
  vpkg_user_conf-nil vpkg = refl

  takes-by_pkgver :
      (vpkg conf any : Bytes)
      → pkg_name name_size conf ≡ some any
      → takes fnmatch by_pkgver vpkg conf ≡ some true
  unfolding takes
  takes-by_pkgver vpkg conf any versioned =
      rw (some-pkg_version conf any versioned, versioned, str_eq_refl any) refl

  takes_not-by_pkgver :
      (vpkg conf : Bytes)
      → pkg_version conf ≡ none
      → conf ≢ []
      → takes fnmatch by_pkgver vpkg conf ≡ some false
  unfolding takes
  takes_not-by_pkgver vpkg [] bare full = absurd (full refl)
  takes_not-by_pkgver vpkg (c ∷ conf) bare full = rw (bare, str_eq_nil c conf) refl

  vpkg_loop-first_versioned :
      (vpkg : Bytes) (providers : Dict Bytes)
      → All IsProvider providers
      → vpkg_loop fnmatch by_pkgver vpkg providers ≡ some (first_versioned providers)
  unfolding vpkg_loop first_versioned
  vpkg_loop-first_versioned vpkg [] all = refl
  vpkg_loop-first_versioned vpkg ((conf, pkg) ∷ providers) (inl (bare, full), all) =
      rw (takes_not-by_pkgver vpkg conf bare full, bare)
        (vpkg_loop-first_versioned vpkg providers all)
  vpkg_loop-first_versioned vpkg ((conf, pkg) ∷ providers) (inr (any, named), all) =
      rw (takes-by_pkgver vpkg conf any named, some-pkg_version conf any named) refl

  -- For a virtual package that is given as a pkgver, and has providers configured under its name,
  -- each of them a pkgver whose name fits in a name buffer, or a text without a version that is not
  -- empty: `vpkg_user_conf` passes over those without a version and takes the first pkgver,
  -- whichever name and version that one has; if there is none, it takes nothing.
  pub vpkg_user_conf_any :
      (vpkgd : Dict (Dict Bytes)) (vpkg name : Bytes) (providers : Dict Bytes)
      → pkgpattern_name name_size vpkg ≡ none
      → pkg_name name_size vpkg ≡ some name
      → dict_get vpkgd name ≡ some providers
      → All IsProvider providers
      → vpkg_user_conf fnmatch vpkgd vpkg ≡ some (first_versioned providers)
  unfolding vpkg_user_conf
  vpkg_user_conf_any vpkgd vpkg name providers plain named configured all =
      let from : Match × Bytes → Option (Option Bytes) = λ k. elim (dict_get vpkgd k.1) [
        | none ↦ some none
        | some providers' ↦ vpkg_loop fnmatch k.0 vpkg providers'
      ] in
      ap from (kind-by_pkgver vpkg name plain named)
      ∙ rw configured (vpkg_loop-first_versioned vpkg providers all)

  takes-by_name :
      (vpkg conf : Bytes)
      → pkg_name name_size conf ≡ some vpkg
      → takes fnmatch by_name vpkg conf ≡ some true
  unfolding takes
  takes-by_name vpkg conf versioned =
      rw (some-pkg_version conf vpkg versioned, versioned, str_eq_refl vpkg) refl

  -- A name that is no pattern and no pkgver: the first provider is taken, if it is of that name.
  pub vpkg_user_conf-first :
      (vpkgd : Dict (Dict Bytes)) (vpkg conf pkg : Bytes) (later : Dict Bytes)
      → pkgpattern_name name_size vpkg ≡ none
      → pkg_name name_size vpkg ≡ none
      → dict_get vpkgd vpkg ≡ some ((conf, pkg) ∷ later)
      → pkg_name name_size conf ≡ some vpkg
      → vpkg_user_conf fnmatch vpkgd vpkg ≡ some (some pkg)
  unfolding vpkg_user_conf vpkg_loop
  vpkg_user_conf-first vpkgd vpkg conf pkg later plain bare providers versioned =
      let from : Match × Bytes → Option (Option Bytes) = λ k. elim (dict_get vpkgd k.1) [
        | none ↦ some none
        | some providers ↦ vpkg_loop fnmatch k.0 vpkg providers
      ] in
      ap from (kind-by_name vpkg plain bare)
      ∙ rw (providers, takes-by_name vpkg conf versioned) refl

  find_loop-pkgver :
      (array : List Pkgd) (str : Bytes) (virtual : Bool) (q : Pkgd)
      → find_loop fnmatch array str virtual ≡ some (some q)
      → q.pkgver ≢ none
  unfolding find_loop is_pkg
  find_loop-pkgver [] str virtual q h bare = cc h
  find_loop-pkgver (o ∷ array) str virtual q h bare =
      elim (Option-cases (is_pkg fnmatch virtual str o)) [
        | inl e ↦ cc (rw (find_loop, e) at h)
        | inr (b, e) ↦ elim (Bool-cases b) [
          | inl k ↦
              let it : some (some o) ≡ some (some q) = rw (find_loop, e, k) at h in
              let same : o ≡ q = cc it in cc (rw (is_pkg, ap (λ x. x.pkgver) same ∙ bare) at e)
          | inr k ↦ find_loop-pkgver array str virtual q (rw (find_loop, e, k) at h) bare
        ]
      ]

  -- A package that is found in an array has a pkgver.
  pub get_pkg_in_array-pkgver :
      (array : List Pkgd) (str : Bytes) (type : ℕ) (virtual : Bool) (q : Pkgd)
      → get_pkg_in_array fnmatch array str type virtual ≡ some (found q)
      → q.pkgver ≢ none
  unfolding get_pkg_in_array
  get_pkg_in_array-pkgver array str type virtual q h =
      elim (Option-cases (find_loop fnmatch array str virtual)) [
        | inl e ↦ absurd (cc (rw (get_pkg_in_array, e) at h))
        | inr (o, e) ↦ elim (Option-cases o) [
          | inl k ↦ absurd (cc (rw (get_pkg_in_array, e, k) at h))
          | inr (p, k) ↦
              elim (Bool-cases (not (type == 0) && not (transaction_pkg_type p == type))) [
                | inl f ↦ absurd (cc (rw (get_pkg_in_array, e, k, f) at h))
                | inr f ↦
                    let it : some (found p) ≡ some (found q) =
                      rw (get_pkg_in_array, e, k, f) at h in
                    let same : p ≡ q = cc it in
                    find_loop-pkgver array str virtual q (e ∙ ap some (k ∙ ap some same))
              ]
        ]
      ]

  pub find_virtualpkg_in_array-pkgver :
      (vpkgd : Dict (Dict Bytes)) (array : List Pkgd) (str : Bytes) (type : ℕ) (q : Pkgd)
      → find_virtualpkg_in_array fnmatch vpkgd array str type ≡ some (found q)
      → q.pkgver ≢ none
  unfolding find_virtualpkg_in_array
  find_virtualpkg_in_array-pkgver vpkgd array str type q h =
      elim (Option-cases (vpkg_user_conf fnmatch vpkgd str)) [
        | inl e ↦ absurd (cc (rw (find_virtualpkg_in_array, e) at h))
        | inr (v, e) ↦ elim (Option-cases v) [
          | inl k ↦
              get_pkg_in_array-pkgver array str type true q
                (rw (find_virtualpkg_in_array, e, k) at h)
          | inr (vpkg, k) ↦ elim (Option-cases (get_pkg_in_array fnmatch array vpkg type true)) [
            | inl f ↦ absurd (cc (rw (find_virtualpkg_in_array, e, k, f) at h))
            | inr (r, f) ↦ elim (Found-cases r) [
              | inl (d, g) ↦
                  let it : some (found d) ≡ some (found q) =
                    rw (find_virtualpkg_in_array, e, k, f, g) at h in
                  let same : d ≡ q = cc it in
                  get_pkg_in_array-pkgver array vpkg type true q (f ∙ ap some (g ∙ ap found same))
              | inr (errno, g) ↦
                  get_pkg_in_array-pkgver array str type true q
                    (rw (find_virtualpkg_in_array, e, k, f, g) at h)
            ]
          ]
        ]
      ]
