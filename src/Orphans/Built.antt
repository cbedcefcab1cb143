-- ===== src/Orphans/Built.antt =====
-- What an array of orphans is: every package in it is needed by none but earlier ones.
use flappy.Base.{
  Any-append_split, All-at, subst, All-append, ℕ, ◌≡◌, sym, ◌∙◌, Bool, true, ◌⊎◌, inl, inr, List,
  [], ◌∷◌, ◌++◌, none, some, Bytes, All, Any,
}
use flappy.Pkgver.{pkg_name, pkgpattern_version}
use flappy.Arrays.{name_size}
use flappy.Dicts.{Dict, dict_get, Pkgd, PkgDict}
use flappy.Find.Exact.{some-pkg_version}
use flappy.Revdeps.Table.{Needs}
use flappy.Orphans.{is_automatic}
use flappy.Orphans.Queue.{HasPkgver, IsPlain, Holds}

-- A package of the database that is kept under its name, once, with a pkgver that is no pattern.
pub record IsInstalled (pkgdb : PkgDict) (e : Bytes × Pkgd) : Type 0 where
  pub pkgver : Bytes
  pub has_pkgver : e.1.pkgver ≡ some pkgver
  pub no_pattern : pkgpattern_version pkgver ≡ none
  pub named : pkg_name name_size pkgver ≡ some e.0
  pub stored : dict_get pkgdb e.0 ≡ some e.1

module _ (fnmatch : Bytes → Bytes → ℕ → Bool) (vpkgd : Dict (Dict Bytes)) (pkgdb : PkgDict) where
  -- The arrays that can be built from `first` by adding at the end an automatic package of the
  -- database that is not there yet, once all that need it are there.
  pub data BuiltOn (first : List Pkgd) : List Pkgd → Type 0 where
    start : BuiltOn first first
    next :
        (a : List Pkgd) (key : Bytes) (pkgd : Pkgd) (v : Bytes)
        → BuiltOn first a
        → Any (λ e. Path (Bytes × Pkgd) e (key, pkgd)) pkgdb
        → pkgd.pkgver ≡ some v
        → is_automatic pkgd ≡ true
        → ¬ Holds a v
        → ((x : Bytes) → Needs fnmatch vpkgd pkgdb key x → Holds a x)
        → BuiltOn first (a ++ pkgd ∷ [])

  abbrev pub Built : List Pkgd → Type 0
  Built a = BuiltOn [] a

  -- The package is not automatic, or in the array, or needed by one that is not.
  abbrev pub Settled : List Pkgd → Bytes × Pkgd → Type 0
  Settled a (key, pkgd) =
      is_automatic pkgd ≡ true
      → Any (λ d. d.pkgver ≡ pkgd.pkgver) a
        ⊎ ((x : Bytes) × Needs fnmatch vpkgd pkgdb key x × ¬ Holds a x)

  pub Built-HasPkgver : (a : List Pkgd) → Built a → All HasPkgver a
  Built-HasPkgver [] start = tt
  Built-HasPkgver a (next b key pkgd v built at is auto new needs) =
      All-append HasPkgver b (pkgd ∷ []) (Built-HasPkgver b built) ((v, is), tt)

  pub Needs-IsPlain :
      (es : PkgDict) (key x : Bytes)
      → All (IsInstalled pkgdb) es
      → Needs fnmatch vpkgd es key x
      → IsPlain x
  Needs-IsPlain [] key x all n = absurd n
  Needs-IsPlain (e ∷ es) key x all (inl (is, dep)) =
      let i = all.0 in
      let same : some i.pkgver ≡ some x = sym i.has_pkgver ∙ is in
      let it : i.pkgver ≡ x = cc same in
      subst IsPlain it
        (record { no_pattern = i.no_pattern; versioned = some-pkg_version i.pkgver e.0 i.named })
  Needs-IsPlain (e ∷ es) key x all (inr later) = Needs-IsPlain es key x all.1 later

  -- An array that leaves no package out has what any array has that can be built.
  pub Settled-greatest :
      (a b : List Pkgd) (x : Bytes) → All (Settled a) pkgdb → Built b → Holds b x → Holds a x
  Settled-greatest a [] x settled start h = absurd h
  Settled-greatest a _ x settled (next b key pkgd v built at is auto new needs) h =
      elim (Any-append_split (λ d. d.pkgver ≡ some x) b (pkgd ∷ []) h) [
        | inl before ↦ Settled-greatest a b x settled built before
        | inr (inl it) ↦ elim (All-at (Settled a) pkgdb (key, pkgd) settled at auto) [
          | inl there ↦ subst (λ p. Any (λ d. d.pkgver ≡ p) a) it there
          | inr (y, need, out) ↦ absurd (out (Settled-greatest a b y settled built (needs y need)))
        ]
        | inr (inr it) ↦ absurd it
      ]
