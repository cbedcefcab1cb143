-- ===== src/Arrays/Virtual.antt =====
-- Virtual packages: which dependencies a `provides` array satisfies.
use flappy.Base.{
  ℕ, ◌≡◌, ◌≢◌, refl, inl, inr, Bool, true, List, [], ◌∷◌, none, some, arith, Option-cases, All, Any,
  Bytes,
}
use flappy.Pkgver.{pkg_name, pkg_version, pkgpattern_version}
use flappy.Pattern.{pkgpattern_match, Answer}
use flappy.Arrays.{
  name_size, match_virtual_pkg_in_array, any_dep, is_nonzero, match_any_virtualpkg_in_rundeps,
}
use flappy.Arrays.Search.{Finds-if, Finds, Finds-nil, search_string, search_pkgname}

same_answer : (a b : Answer) → some a ≡ some b → is_nonzero b ≡ true → is_nonzero a ≡ true
same_answer a b e k = ground arith

module _ (fnmatch : Bytes → Bytes → ℕ → Bool) where
  -- A dependency that is a pkgver and no pattern is satisfied exactly if it is provided as it
  -- stands.
  virtual_pkgver :
      (provides : List Bytes) (dep v : Bytes)
      → pkgpattern_version dep ≡ none
      → pkg_version dep ≡ some v
      → Finds (match_virtual_pkg_in_array fnmatch provides dep) (Any (λ o. o ≡ dep) provides)
  unfolding match_virtual_pkg_in_array
  virtual_pkgver provides dep v p e = rw (p, e) (search_string fnmatch provides dep)

  -- A dependency that is a bare name is satisfied exactly if some provided pkgver has that name,
  -- where every provided string is a pkgver.
  virtual_name :
      (provides : List Bytes) (dep : Bytes)
      → pkgpattern_version dep ≡ none
      → pkg_version dep ≡ none
      → All (λ o. pkg_name name_size o ≢ none) provides
      → Finds
          (match_virtual_pkg_in_array fnmatch provides dep)
          (Any (λ o. pkg_name name_size o ≡ some dep) provides)
  unfolding match_virtual_pkg_in_array
  virtual_name provides dep p e h = rw (p, e) (search_pkgname fnmatch provides dep h)

  -- The answer of a pattern match, where it ends.
  abbrev pub Satisfies : Bytes → Bytes → Type 0
  Satisfies pkg pattern =
      (a : Answer) × (pkgpattern_match fnmatch pkg pattern ≡ some a) × (is_nonzero a ≡ true)

  -- Every match of a provided package against a run dependency ends.
  abbrev pub AllEnd : List Bytes → List Bytes → Type 0
  AllEnd rundeps = All (λ v. All (λ p. pkgpattern_match fnmatch v p ≢ none) rundeps)

  any_dep_lem :
      (rundeps : List Bytes) (vpkgver : Bytes)
      → All (λ p. pkgpattern_match fnmatch vpkgver p ≢ none) rundeps
      → Finds (any_dep fnmatch rundeps vpkgver) (Any (Satisfies vpkgver) rundeps)
  unfolding any_dep
  any_dep_lem [] vpkgver h = Finds-nil
  any_dep_lem (p ∷ rundeps) vpkgver (hp, h) =
      elim (Option-cases (pkgpattern_match fnmatch vpkgver p)) [
        | inl e ↦ absurd (hp e)
        | inr (a, e) ↦ rw e (
            Finds-if (is_nonzero a) _ (λ k. (a, refl, k), λ (b, f, k). same_answer a b f k)
              (any_dep_lem rundeps vpkgver h))
      ]

  -- Some provided package satisfies some run dependency: the search ends, and says so exactly if
  -- it is so, where every match ends.
  virtual_rundeps :
      (rundeps provides : List Bytes)
      → AllEnd rundeps provides
      → Finds
          (match_any_virtualpkg_in_rundeps fnmatch rundeps provides)
          (Any (λ v. Any (Satisfies v) rundeps) provides)
  unfolding match_any_virtualpkg_in_rundeps
  virtual_rundeps rundeps [] h = Finds-nil
  virtual_rundeps rundeps (v ∷ provides) (hv, h) =
      let dep = any_dep_lem rundeps v hv in
      rw dep.ends
        (Finds-if dep.answer _ (dep.sound, dep.complete) (virtual_rundeps rundeps provides h))
