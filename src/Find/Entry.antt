-- ===== src/Find/Entry.antt =====
-- What is found in a dictionary of packages is an entry of it.
use flappy.Base.{
  refl, none, ℕ, ◌≡◌, ap, ◌∙◌, Bool, inl, inr, [], ◌∷◌, some, Bytes, str_eq, Bool-cases,
  Option-cases, Any,
}
use flappy.Pkgver.{pkg_name, pkg_version, pkgpattern_name, pkgpattern_version}
use flappy.Pattern.{pkgpattern_match, is_some}
use flappy.Arrays.{name_size, is_nonzero}
use flappy.Dicts.{Dict, dict_get, Pkgd, PkgDict}
use flappy.Dicts.Laws.{dict_get-Any}
use flappy.Find.{
  missing, found, match_pkg_by_pkgver, match_pkg_by_pattern, find_pkg_in_dict, pkgdb_get_pkg,
  match_virtual_pkg_in_dict, first_provider, vpkg_user_conf, find_virtualpkg_in_dict,
  pkgdb_get_virtualpkg,
}
use flappy.Find.First.{Found-cases, vpkg_user_conf-nil}

abbrev pub Entry : PkgDict → Pkgd → Type 0
Entry d q = Any (λ e. Path Pkgd e.1 q) d

pub dict_get-Entry : (d : PkgDict) (key : Bytes) (q : Pkgd) → dict_get d key ≡ some q → Entry d q
dict_get-Entry d key q h = second d (dict_get-Any d key q h)
  where
    second : (l : PkgDict) → Any (λ e. Path (Bytes × Pkgd) e (key, q)) l → Entry l q
    second [] h = absurd h
    second (e ∷ l) (inl is) = inl (ap (λ x. x.1) is)
    second (e ∷ l) (inr h) = inr (second l h)

match_pkg_by_pkgver-Entry :
    (d : PkgDict) (p : Bytes) (q : Pkgd) → match_pkg_by_pkgver d p ≡ found q → Entry d q
unfolding match_pkg_by_pkgver
match_pkg_by_pkgver-Entry d p q h = elim (Option-cases (pkg_name name_size p)) [
  | inl e ↦ absurd (cc (rw (match_pkg_by_pkgver, e) at h))
  | inr (n, e) ↦ elim (Option-cases (dict_get d n)) [
    | inl k ↦ absurd (cc (rw (match_pkg_by_pkgver, e, k) at h))
    | inr (x, k) ↦ elim (Option-cases x.pkgver) [
      | inl z ↦ absurd (cc (rw (match_pkg_by_pkgver, e, k, z) at h))
      | inr (v, z) ↦ elim (Bool-cases (str_eq v p)) [
        | inl y ↦
            let it : found x ≡ found q = rw (match_pkg_by_pkgver, e, k, z, y) at h in
            let same : x ≡ q = cc it in dict_get-Entry d n q (k ∙ ap some same)
        | inr y ↦ absurd (cc (rw (match_pkg_by_pkgver, e, k, z, y) at h))
      ]
    ]
  ]
]

module _ (fnmatch : Bytes → Bytes → ℕ → Bool) where
  match_pkg_by_pattern-Entry :
      (d : PkgDict) (p : Bytes) (q : Pkgd)
      → match_pkg_by_pattern fnmatch d p ≡ some (found q)
      → Entry d q
  unfolding match_pkg_by_pattern
  match_pkg_by_pattern-Entry d p q h = elim (Option-cases (pkgpattern_name name_size p)) [
    | inl e ↦ elim (Bool-cases (is_some (pkg_name name_size p))) [
      | inl k ↦
          let it : some (match_pkg_by_pkgver d p) ≡ some (found q) =
            rw (match_pkg_by_pattern, e, k) at h in
          match_pkg_by_pkgver-Entry d p q (cc it)
      | inr k ↦ absurd (cc (rw (match_pkg_by_pattern, e, k) at h))
    ]
    | inr (n, e) ↦ elim (Option-cases (dict_get d n)) [
      | inl k ↦ absurd (cc (rw (match_pkg_by_pattern, e, k) at h))
      | inr (x, k) ↦ elim (Option-cases x.pkgver) [
        | inl z ↦ absurd (cc (rw (match_pkg_by_pattern, e, k, z) at h))
        | inr (v, z) ↦ elim (Option-cases (pkgpattern_match fnmatch v p)) [
          | inl y ↦ absurd (cc (rw (match_pkg_by_pattern, e, k, z, y) at h))
          | inr (a, y) ↦ elim (Bool-cases (is_nonzero a)) [
            | inl c ↦
                let it : some (found x) ≡ some (found q) =
                  rw (match_pkg_by_pattern, e, k, z, y, c) at h in
                let same : x ≡ q = cc it in dict_get-Entry d n q (k ∙ ap some same)
            | inr c ↦ absurd (cc (rw (match_pkg_by_pattern, e, k, z, y, c) at h))
          ]
        ]
      ]
    ]
  ]

  pub find_pkg_in_dict-Entry :
      (d : PkgDict) (p : Bytes) (q : Pkgd)
      → find_pkg_in_dict fnmatch d p ≡ some (found q)
      → Entry d q
  unfolding find_pkg_in_dict
  find_pkg_in_dict-Entry d p q h = elim (Bool-cases (is_some (pkgpattern_version p))) [
    | inl e ↦ match_pkg_by_pattern-Entry d p q (rw (find_pkg_in_dict, e) at h)
    | inr e ↦ elim (Bool-cases (is_some (pkg_version p))) [
      | inl k ↦
          let it : some (match_pkg_by_pkgver d p) ≡ some (found q) =
            rw (find_pkg_in_dict, e, k) at h in
          match_pkg_by_pkgver-Entry d p q (cc it)
      | inr k ↦ elim (Option-cases (dict_get d p)) [
        | inl z ↦ absurd (cc (rw (find_pkg_in_dict, e, k, z) at h))
        | inr (x, z) ↦
            let it : some (found x) ≡ some (found q) = rw (find_pkg_in_dict, e, k, z) at h in
            let same : x ≡ q = cc it in dict_get-Entry d p q (z ∙ ap some same)
      ]
    ]
  ]

  pub pkgdb_get_pkg-Entry :
      (d : PkgDict) (p : Bytes) (q : Pkgd) → pkgdb_get_pkg fnmatch d p ≡ some (found q) → Entry d q
  unfolding pkgdb_get_pkg
  pkgdb_get_pkg-Entry d p q h = elim (Option-cases (find_pkg_in_dict fnmatch d p)) [
    | inl e ↦ absurd (cc (rw (pkgdb_get_pkg, e) at h))
    | inr (f, e) ↦ elim (Found-cases f) [
      | inl (x, k) ↦
          let it : some (found x) ≡ some (found q) = rw (pkgdb_get_pkg, e, k) at h in
          let same : x ≡ q = cc it in find_pkg_in_dict-Entry d p q (e ∙ ap some (k ∙ ap found same))
      | inr (errno, k) ↦ absurd (cc (rw (pkgdb_get_pkg, e, k) at h))
    ]
  ]

  first_provider-Entry :
      (d : PkgDict) (p : Bytes) (q : Pkgd) → first_provider fnmatch d p ≡ some (found q) → Entry d q
  unfolding first_provider
  first_provider-Entry [] p q h = absurd (cc h)
  first_provider-Entry ((key, x) ∷ d) p q h =
      elim (Option-cases (match_virtual_pkg_in_dict fnmatch x p)) [
        | inl e ↦ absurd (cc (rw (first_provider, e) at h))
        | inr (b, e) ↦ elim (Bool-cases b) [
          | inl k ↦
              let it : some (found x) ≡ some (found q) = rw (first_provider, e, k) at h in
              inl (cc it)
          | inr k ↦ inr (first_provider-Entry d p q (rw (first_provider, e, k) at h))
        ]
      ]

  pub pkgdb_get_virtualpkg-Entry :
      (vpkgd : Dict (Dict Bytes)) (d : PkgDict) (p : Bytes) (q : Pkgd)
      → pkgdb_get_virtualpkg fnmatch vpkgd d p ≡ some (found q)
      → Entry d q
  unfolding pkgdb_get_virtualpkg find_virtualpkg_in_dict
  pkgdb_get_virtualpkg-Entry vpkgd d p q h = elim (Option-cases (vpkg_user_conf fnmatch vpkgd p)) [
    | inl e ↦ absurd (cc (rw (pkgdb_get_virtualpkg, find_virtualpkg_in_dict, e) at h))
    | inr (o, e) ↦ elim (Option-cases o) [
      | inl k ↦
          first_provider-Entry d p q (rw (pkgdb_get_virtualpkg, find_virtualpkg_in_dict, e, k) at h)
      | inr (v, k) ↦ elim (Option-cases (find_pkg_in_dict fnmatch d v)) [
        | inl z ↦ absurd (cc (rw (pkgdb_get_virtualpkg, find_virtualpkg_in_dict, e, k, z) at h))
        | inr (f, z) ↦ elim (Found-cases f) [
          | inl (x, y) ↦
              let it : some (found x) ≡ some (found q) =
                rw (pkgdb_get_virtualpkg, find_virtualpkg_in_dict, e, k, z, y) at h in
              let same : x ≡ q = cc it in
              find_pkg_in_dict-Entry d v q (z ∙ ap some (y ∙ ap found same))
          | inr (errno, y) ↦
              first_provider-Entry d p q
                (rw (pkgdb_get_virtualpkg, find_virtualpkg_in_dict, e, k, z, y) at h)
        ]
      ]
    ]
  ]

  -- In an empty database nothing is found.
  pub pkgdb_get_virtualpkg-nil :
      (vpkg : Bytes) → pkgdb_get_virtualpkg fnmatch [] [] vpkg ≡ some (missing none)
  unfolding pkgdb_get_virtualpkg find_virtualpkg_in_dict first_provider
  pkgdb_get_virtualpkg-nil vpkg =
      rw (pkgdb_get_virtualpkg, find_virtualpkg_in_dict, vpkg_user_conf-nil fnmatch vpkg) refl
