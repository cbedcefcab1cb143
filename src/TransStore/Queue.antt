-- ===== src/TransStore/Queue.antt =====
-- The queue of a transaction: what is taken out of it, and the search by name.
use flappy.Base.{
  ℕ, suc, ◌+◌, ◌≡◌, ◌≢◌, refl, sym, ap, ◌∙◌, subst, Bool, true, false, inl, inr, List, [], ◌∷◌,
  ◌++◌, Option, none, some, ◌>>=◌, arith, Bytes, length, str_eq, str_eq→eq, str_eq_refl, Bool-cases,
  All, Any,
}
use flappy.Pkgver.{pkg_name, pkg_version, pkgpattern_version}
use flappy.Arrays.{name_size, found_if, find_index, remove_obj, remove_at}
use flappy.Dewey.Compare.{Sign, less, equal, greater, cmpver}
use flappy.Dewey.Compare.Order.{IsVersion}
use flappy.Dicts.{Pkgd}
use flappy.Find.{is_pkg, find_loop}
use flappy.TransStore.{remove_pkgd_by_pkgver, replace_older}

-- A package with a pkgver of less than 2^30 bytes, no number of which has more than nine digits, and a name that fits in a buffer.
pub record IsQueued (d : Pkgd) : Type 0 where
  pub pkgver : Bytes
  pub name : Bytes
  pub has_pkgver : d.pkgver ≡ some pkgver
  pub version : IsVersion pkgver
  pub named : pkg_name name_size pkgver ≡ some name

-- The package has this name, by its pkgver.
abbrev pub HasName : Bytes → Pkgd → Type 0
HasName n d = (d.pkgver >>= λ v. pkg_name name_size v) ≡ some n

-- The package with a pkgver of the array is taken out.
unfoldable pub Removed : List Pkgd → Bytes → List Pkgd → Type 0
Removed array s rest =
    (a : List Pkgd) × (o : Pkgd) × (b : List Pkgd) × (array ≡ a ++ o ∷ b)
    × (rest ≡ a ++ b)
    × (o.pkgver ≡ some s)

find_index-pkgver :
    (array : List Pkgd) (s : Bytes) (idx : ℕ)
    → All IsQueued array
    → Any (λ d. d.pkgver ≡ some s) array
    → (a : List Pkgd) × (o : Pkgd) × (b : List Pkgd) × (array ≡ a ++ o ∷ b)
      × (o.pkgver ≡ some s)
      × (find_index (λ obj. obj.pkgver >>= λ c. some (found_if (str_eq c s))) array idx
          ≡ some (some (idx + length a)))
unfolding find_index
find_index-pkgver [] s idx all h = absurd h
find_index-pkgver (d ∷ array) s idx all h = elim (Bool-cases (str_eq all.0.pkgver s)) [
  | inl e ↦ (
    [],
    d,
    array,
    refl,
    all.0.has_pkgver ∙ ap some (str_eq→eq all.0.pkgver s e),
    rw (find_index, all.0.has_pkgver, e) (ap (λ t. some (some t)) (omega arith)),
  )
  | inr e ↦
      let later : Any (λ d. d.pkgver ≡ some s) array = elim h [
        | inl is ↦
            let both : some all.0.pkgver ≡ some s = sym all.0.has_pkgver ∙ is in
            let same : all.0.pkgver ≡ s = cc both in absurd (cc (rw (same, str_eq_refl s) at e))
        | inr l ↦ l
      ] in
      let (a, o, b, whole, is, at) = find_index-pkgver array s (suc idx) all.1 later in
      (
        d ∷ a,
        o,
        b,
        ap (λ l. d ∷ l) whole,
        is,
        rw (find_index, all.0.has_pkgver, e) (at ∙ ap (λ t. some (some t)) (omega arith)),
      )
]

remove_at-middle :
    (a : List Pkgd) (o : Pkgd) (b : List Pkgd) → remove_at (length a) (a ++ o ∷ b) ≡ a ++ b
remove_at-middle [] o b = refl
remove_at-middle (x ∷ a) o b = ap (λ l. x ∷ l) (remove_at-middle a o b)

pub remove_pkgd-Removed :
    (array : List Pkgd) (s : Bytes)
    → All IsQueued array
    → Any (λ d. d.pkgver ≡ some s) array
    → (rest : List Pkgd) × (remove_pkgd_by_pkgver array s ≡ some (rest, true))
      × Removed array s rest
unfolding remove_pkgd_by_pkgver remove_obj Removed
remove_pkgd-Removed array s all h =
    let (a, o, b, whole, is, at) = find_index-pkgver array s 0 all h in
    let zero_ : 0 + length a ≡ length a = omega arith in
    (
      a ++ b,
      rw at (ap (λ l. some (l, true)) (rw (zero_, whole) (remove_at-middle a o b))),
      (a, o, b, whole, refl, is),
    )

pub Any-here : (l : List Pkgd) (d : Pkgd) (P : Pkgd → Type 0) → P d → Any (λ x. x ≡ d) l → Any P l
Any-here [] d P h at = absurd at
Any-here (x ∷ l) d P h (inl e) = inl (subst P (sym e) h)
Any-here (x ∷ l) d P h (inr at) = inr (Any-here l d P h at)

pub Any-pkgver :
    (l : List Pkgd) (d : Pkgd) (s : Bytes)
    → d.pkgver ≡ some s
    → Any (λ x. x ≡ d) l
    → Any (λ x. x.pkgver ≡ some s) l
Any-pkgver l d s e at = Any-here l d (λ x. x.pkgver ≡ some s) e at

pub stays :
    (pkgs : List Pkgd) (p : Pkgd) (v n : Bytes) (autoinst : Bool) (d : Pkgd) (i : IsQueued d)
    (s : Sign)
    → cmpver v i.pkgver ≡ some s
    → s ≢ greater
    → replace_older pkgs p v n autoinst d ≡ some (pkgs, true)
unfolding replace_older
stays pkgs p v n autoinst d i greater sign other = absurd (other refl)
stays pkgs p v n autoinst d i less sign other = simp (replace_older, i.has_pkgver, sign)
stays pkgs p v n autoinst d i equal sign other = simp (replace_older, i.has_pkgver, sign)

module _ (fnmatch : Bytes → Bytes → ℕ → Bool) where
  is_pkg-named :
      (n : Bytes) (d : Pkgd) (i : IsQueued d)
      → pkgpattern_version n ≡ none
      → pkg_version n ≡ none
      → is_pkg fnmatch false n d ≡ some (str_eq i.name n)
  unfolding is_pkg
  is_pkg-named n d i plain bare = simp (is_pkg, i.has_pkgver, plain, bare, i.named)

  -- The search by name ends, with a package of that name or with none.
  pub find_pkg-named :
      (array : List Pkgd) (n : Bytes)
      → All IsQueued array
      → pkgpattern_version n ≡ none
      → pkg_version n ≡ none
      → (o : Option Pkgd) × (find_loop fnmatch array n false ≡ some o)
        × ((d : Pkgd) → o ≡ some d → IsQueued d × HasName n d × Any (λ x. x ≡ d) array)
  unfolding find_loop
  find_pkg-named [] n all plain bare = (none, refl, λ d e. absurd (cc e))
  find_pkg-named (x ∷ array) n all plain bare =
      let i = all.0 in
      let (o, rest, holds) = find_pkg-named array n all.1 plain bare in
      let round = is_pkg-named n x i plain bare in
      elim (Bool-cases (str_eq i.name n)) [
        | inl e ↦ (
          some x,
          rw (find_loop, round, e) refl,
          λ d is.
              let same : x ≡ d = cc is in
              let here : HasName n x = rw i.has_pkgver (i.named ∙ ap some (str_eq→eq i.name n e)) in
              (subst IsQueued same i, subst (HasName n) same here, inl same),
        )
        | inr e ↦ (
          o,
          rw (find_loop, round, e) rest,
          λ d is. let (q, named, at) = holds d is in (q, named, inr at),
        )
      ]
