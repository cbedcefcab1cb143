-- ===== src/Find/Exact.antt =====
-- The searches of lib/plist_find.c for a package in a dictionary and in an array: what they find.
use flappy.Base.{
  ◌↔◌, subst, ℕ, ◌≡◌, ◌≢◌, refl, sym, ap, ◌∙◌, Bool, true, false, [], ◌∷◌, Option, none, some,
  Bytes, str_eq, str_eq_iff, str_eq_refl, Bool-cases, Option-cases, inl, inr, ◌⊎◌, All, Any,
}
use flappy.Pkgver.{pkg_name, pkg_version, pkgpattern_name, pkgpattern_version}
use flappy.Pkgver.Split.{pkg_version-none}
use flappy.Pattern.{pkgpattern_match, is_some}
use flappy.Arrays.{name_size, is_nonzero}
use flappy.PkgPath.{enoent}
use flappy.Dicts.{dict_get, Pkgd, PkgDict}
use flappy.Dicts.Laws.{dict_get-Any}
use flappy.Find.{
  Found, found, missing, is_pkg, match_pkg_by_pkgver, match_pkg_by_pattern, find_pkg_in_dict,
  pkgdb_get_pkg,
}

-- A package is kept under the name of its version.
pub record IsKeyed (e : Bytes × Pkgd) : Type 0 where
  pub pkgver : Bytes
  pub has_pkgver : e.1.pkgver ≡ some pkgver
  pub named : pkg_name name_size pkgver ≡ some e.0

-- The dictionary has the package under some key.
abbrev pub Stored : PkgDict → Pkgd → Type 0
Stored d p = (key : Bytes) × (dict_get d key ≡ some p)

pub some-pkg_version :
    (s name : Bytes) → pkg_name name_size s ≡ some name → is_some (pkg_version s) ≡ true
some-pkg_version s name h = elim (Option-cases (pkg_version s)) [
  | inl e ↦ absurd (cc ((pkg_version-none name_size s e).0, h))
  | inr (v, e) ↦ rw e refl
]

pub dict_get-IsKeyed :
    (d : PkgDict) (key : Bytes) (p : Pkgd)
    → All IsKeyed d
    → dict_get d key ≡ some p
    → IsKeyed (key, p)
dict_get-IsKeyed d key p keyed h = go d keyed (dict_get-Any d key p h)
  where
    go :
        (d : PkgDict)
        → All IsKeyed d
        → Any (λ e. Path (Bytes × Pkgd) e (key, p)) d
        → IsKeyed (key, p)
    go [] k at = absurd at
    go (e ∷ d) k (inl same) = subst IsKeyed same k.0
    go (e ∷ d) k (inr later) = go d k.1 later

by_pkgver_iff :
    (d : PkgDict) (s name : Bytes) (p : Pkgd)
    → pkg_name name_size s ≡ some name
    → (match_pkg_by_pkgver d s ≡ found p) ↔ ((dict_get d name ≡ some p) × (p.pkgver ≡ some s))
unfolding match_pkg_by_pkgver
by_pkgver_iff d s name p named = (
  λ h. elim (Option-cases (dict_get d name)) [
    | inl none_there ↦ absurd (cc (rw (match_pkg_by_pkgver, named, none_there) at h))
    | inr (q, there) ↦ elim (Option-cases q.pkgver) [
      | inl bare ↦ absurd (cc (rw (match_pkg_by_pkgver, named, there, bare) at h))
      | inr (v, has) ↦ elim (Bool-cases (str_eq v s)) [
        | inl e ↦
            let same : v ≡ s = (str_eq_iff v s).0 e in
            let it : found q ≡ found p = rw (match_pkg_by_pkgver, named, there, has, e) at h in
            let q_is : q ≡ p = cc it in
            (there ∙ ap some q_is, ap (λ x. x.pkgver) (sym q_is) ∙ has ∙ ap some same)
        | inr e ↦ absurd (cc (rw (match_pkg_by_pkgver, named, there, has, e) at h))
      ]
    ]
  ],
  λ (there, has). simp (match_pkg_by_pkgver, named, there, has, str_eq_refl s),
)

by_pkgver-unnamed :
    (d : PkgDict) (s : Bytes) (p : Pkgd)
    → pkg_name name_size s ≡ none
    → match_pkg_by_pkgver d s ≢ found p
unfolding match_pkg_by_pkgver
by_pkgver-unnamed d s p e h = cc (rw (match_pkg_by_pkgver, e) at h)

module _ (fnmatch : Bytes → Bytes → ℕ → Bool) where
  -- `find_pkg_in_dict` with a pkgver that is no pattern, whose name fits in a name buffer: it finds
  -- a package if and only if the dictionary has it under that name and it has just this pkgver.
  pub find_pkg_in_dict-exact :
      (d : PkgDict) (s name : Bytes) (p : Pkgd)
      → pkgpattern_version s ≡ none
      → pkg_name name_size s ≡ some name
      → (find_pkg_in_dict fnmatch d s ≡ some (found p))
        ↔ ((dict_get d name ≡ some p) × (p.pkgver ≡ some s))
  unfolding find_pkg_in_dict
  find_pkg_in_dict-exact d s name p plain named =
      let (to, from) = by_pkgver_iff d s name p named in
      rw (plain, some-pkg_version s name named) (λ h. to (cc h), λ h. ap some (from h))

  takes_same :
      (s : Bytes) (p : Pkgd)
      → is_some (pkgpattern_version s) ≡ true
      → p.pkgver ≡ some s
      → is_pkg fnmatch false s p ≡ some true
  unfolding is_pkg pkgpattern_match
  takes_same s p pattern has = simp (is_pkg, has, pattern, str_eq_refl s)

  by_pattern-is_pkg :
      (d : PkgDict) (s : Bytes) (p : Pkgd)
      → is_some (pkgpattern_version s) ≡ true
      → match_pkg_by_pattern fnmatch d s ≡ some (found p)
      → Stored d p × (is_pkg fnmatch false s p ≡ some true)
  unfolding match_pkg_by_pattern is_pkg
  by_pattern-is_pkg d s p pattern h = elim (Option-cases (pkgpattern_name name_size s)) [
    | inl bare ↦ elim (Option-cases (pkg_name name_size s)) [
      | inl nope ↦ absurd (cc (rw (match_pkg_by_pattern, bare, nope) at h))
      | inr (name, named) ↦
          let it : some (match_pkg_by_pkgver d s) ≡ some (found p) =
            rw (match_pkg_by_pattern, bare, named) at h in
          let (there, has) = (by_pkgver_iff d s name p named).0 (cc it) in
          ((name, there), takes_same s p pattern has)
    ]
    | inr (name, named) ↦ elim (Option-cases (dict_get d name)) [
      | inl none_there ↦ absurd (cc (rw (match_pkg_by_pattern, named, none_there) at h))
      | inr (q, there) ↦ elim (Option-cases q.pkgver) [
        | inl nope ↦ absurd (cc (rw (match_pkg_by_pattern, named, there, nope) at h))
        | inr (v, has) ↦ elim (Option-cases (pkgpattern_match fnmatch v s)) [
          | inl fault ↦ absurd (cc (rw (match_pkg_by_pattern, named, there, has, fault) at h))
          | inr (a, e) ↦ elim (Bool-cases (is_nonzero a)) [
            | inl t ↦
                let it : some (found q) ≡ some (found p) =
                  rw (match_pkg_by_pattern, named, there, has, e, t) at h in
                let q_is : q ≡ p = cc it in
                (
                  (name, there ∙ ap some q_is),
                  subst (λ r. is_pkg fnmatch false s r ≡ some true) q_is
                      (simp (is_pkg, has, pattern, e, t)),
                )
            | inr t ↦ absurd (cc (rw (match_pkg_by_pattern, named, there, has, e, t) at h))
          ]
        ]
      ]
    ]
  ]

  found-is_pkg :
      (d : PkgDict) (s : Bytes) (p : Pkgd)
      → All IsKeyed d
      → find_pkg_in_dict fnmatch d s ≡ some (found p)
      → Stored d p × (is_pkg fnmatch false s p ≡ some true)
  unfolding find_pkg_in_dict is_pkg
  found-is_pkg d s p keyed h = elim (Bool-cases (is_some (pkgpattern_version s))) [
    | inl pattern ↦ by_pattern-is_pkg d s p pattern (rw pattern at h)
    | inr plain ↦ elim (Bool-cases (is_some (pkg_version s))) [
      | inl v ↦ elim (Option-cases (pkg_name name_size s)) [
        | inl nope ↦ absurd (by_pkgver-unnamed d s p nope (cc (rw (plain, v) at h)))
        | inr (name, named) ↦
            let it : some (match_pkg_by_pkgver d s) ≡ some (found p) = rw (plain, v) at h in
            let (there, has) = (by_pkgver_iff d s name p named).0 (cc it) in
            ((name, there), simp (is_pkg, has, plain, v, str_eq_refl s))
      ]
      | inr v ↦ elim (Option-cases (dict_get d s)) [
        | inl nope ↦ absurd (cc (rw (plain, v, nope) at h))
        | inr (q, there) ↦
            let it : some (found q) ≡ some (found p) = rw (plain, v, there) at h in
            let q_is : q ≡ p = cc it in
            let k = dict_get-IsKeyed d s q keyed there in
            (
              (s, there ∙ ap some q_is),
              subst (λ r. is_pkg fnmatch false s r ≡ some true) q_is
                  (simp (is_pkg, k.has_pkgver, plain, v, k.named, str_eq_refl s)),
            )
      ]
    ]
  ]

  stored-found :
      (d : PkgDict) (s key : Bytes) (p : Pkgd)
      → All IsKeyed d
      → pkgpattern_version s ≡ none
      → dict_get d key ≡ some p
      → is_pkg fnmatch false s p ≡ some true
      → find_pkg_in_dict fnmatch d s ≡ some (found p)
  unfolding find_pkg_in_dict is_pkg
  stored-found d s key p keyed plain there taken =
      let k = dict_get-IsKeyed d key p keyed there in
      elim (Bool-cases (is_some (pkg_version s))) [
        | inl v ↦
            let test : some (str_eq s k.pkgver) ≡ some true =
              rw (is_pkg, k.has_pkgver, plain, v) at taken in
            let same : s ≡ k.pkgver = (str_eq_iff s k.pkgver).0 (cc test) in
            (find_pkg_in_dict-exact d s key p plain (ap (pkg_name name_size) same ∙ k.named)).1
              (there, k.has_pkgver ∙ ap some (sym same))
        | inr v ↦
            let test : some (str_eq key s) ≡ some true =
              rw (is_pkg, k.has_pkgver, plain, v, k.named) at taken in
            let same : key ≡ s = (str_eq_iff key s).0 (cc test) in
            let here : dict_get d s ≡ some p = subst (λ x. dict_get d x ≡ some p) same there in
            rw (plain, v, here) refl
      ]

  -- Where every package is kept under the name of its pkgver: what `find_pkg_in_dict` finds is in
  -- the dictionary, and is a package that `get_pkg_in_array` would take for the same text. If the
  -- text is no pattern, the converse holds too: a package of the dictionary that the search in an
  -- array would take is the one that is found.
  pub find_pkg_in_dict-is_pkg :
      (d : PkgDict) (s : Bytes) (p : Pkgd)
      → All IsKeyed d
      → (find_pkg_in_dict fnmatch d s ≡ some (found p)
          → Stored d p × (is_pkg fnmatch false s p ≡ some true))
        × (pkgpattern_version s ≡ none
            → Stored d p × (is_pkg fnmatch false s p ≡ some true)
            → find_pkg_in_dict fnmatch d s ≡ some (found p))
  find_pkg_in_dict-is_pkg d s p keyed = (
    found-is_pkg d s p keyed,
    λ plain ((key, there), taken). stored-found d s key p keyed plain there taken,
  )

  -- The package of the database with just this pkgver.
  pub pkgdb_get_pkg_stored :
      (d : PkgDict) (s name : Bytes) (p : Pkgd)
      → pkgpattern_version s ≡ none
      → pkg_name name_size s ≡ some name
      → dict_get d name ≡ some p
      → p.pkgver ≡ some s
      → pkgdb_get_pkg fnmatch d s ≡ some (found p)
  unfolding pkgdb_get_pkg
  pkgdb_get_pkg_stored d s name p plain named there has =
      rw ((find_pkg_in_dict-exact d s name p plain named).1 (there, has)) refl

  pub pkgdb_get_pkg_cases :
      (d : PkgDict) (s name : Bytes)
      → pkgpattern_version s ≡ none
      → pkg_name name_size s ≡ some name
      → (pkgdb_get_pkg fnmatch d s ≡ some (missing (some enoent)))
        ⊎ ((p : Pkgd) × (pkgdb_get_pkg fnmatch d s ≡ some (found p)) × (p.pkgver ≡ some s))
  unfolding pkgdb_get_pkg find_pkg_in_dict
  pkgdb_get_pkg_cases d s name plain named =
      rw (plain, some-pkg_version s name named)
        (go (match_pkg_by_pkgver d s) (λ p e. ((by_pkgver_iff d s name p named).0 e).1))
    where
      go :
          (r : Found)
          → ((p : Pkgd) → r ≡ found p → p.pkgver ≡ some s)
          → (Path
              (Option Found)
              (some (elim r [ found d ↦ found d | missing errno ↦ missing (some enoent) ]))
              (some (missing (some enoent))))
            ⊎ ((p : Pkgd) × (Path
                  (Option Found)
                  (some (elim r [ found d ↦ found d | missing errno ↦ missing (some enoent) ]))
                  (some (found p)))
                × (p.pkgver ≡ some s))
      go (found p) h = inr (p, refl, h p refl)
      go (missing errno) h = inl refl
