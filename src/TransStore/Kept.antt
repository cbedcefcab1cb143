-- ===== src/TransStore/Kept.antt =====
-- The queue of a transaction has a package that is not below what is stored, and loses no other.
use flappy.Base.{
  ℕ, ◌≡◌, sym, subst, Bool, true, inl, inr, List, [], ◌∷◌, ◌++◌, none, some, Bytes, Option-cases,
  All, Any, Any-append_left, Any-append_right, Any-append_split,
}
use flappy.Pkgver.{pkg_name, pkg_version, pkgpattern_version}
use flappy.Arrays.{name_size}
use flappy.Dewey.Compare.Order.{IsVersion}
use flappy.Repo.Version.{NotAbove, NotAbove-self, cmpver-greater}
use flappy.Dicts.{Pkgd}
use flappy.Find.{get_pkg_in_array, find_pkg_in_array}
use flappy.TransStore.{queued_copy, replace_older, transaction_store}
use flappy.TransStore.Queue.{
  IsQueued, HasName, Removed, remove_pkgd-Removed, Any-here, Any-pkgver, stays, find_pkg-named,
}

module _ (fnmatch : Bytes → Bytes → ℕ → Bool) where
  -- What the queue has after a package with this pkgver and name is stored.
  abbrev pub Kept : List Pkgd → Bytes → Bytes → List Pkgd → Type 0
  Kept pkgs v n after =
      Any (λ d. HasName n d × NotAbove (some v) d.pkgver) after
      × ((q : Pkgd) → Any (λ x. x ≡ q) pkgs → ¬ HasName n q → Any (λ x. x ≡ q) after)

  -- The copy at the end of a queue that has the others.
  copy-Kept :
      (pkgs l : List Pkgd) (c : Pkgd) (v n : Bytes)
      → c.pkgver ≡ some v
      → IsVersion v
      → pkg_name name_size v ≡ some n
      → ((q : Pkgd) → Any (λ x. x ≡ q) pkgs → ¬ HasName n q → Any (λ x. x ≡ q) l)
      → Kept pkgs v n (l ++ c ∷ [])
  copy-Kept pkgs l c v n has version named others =
      let here : HasName n c = rw has named in
      let level : NotAbove (some v) c.pkgver =
        subst (NotAbove (some v)) (sym has) (NotAbove-self (some v) version) in
      (
        Any-append_right (λ d. HasName n d × NotAbove (some v) d.pkgver) l (c ∷ [])
            (inl (here, level)),
        λ q at other. Any-append_left (λ x. x ≡ q) l (c ∷ []) (others q at other),
      )

  Removed-others :
      (pkgs rest : List Pkgd) (s n : Bytes)
      → Removed pkgs s rest
      → pkg_name name_size s ≡ some n
      → (q : Pkgd) → Any (λ x. x ≡ q) pkgs
      → ¬ HasName n q
      → Any (λ x. x ≡ q) rest
  unfolding Removed
  Removed-others pkgs rest s n (a, o, b, whole, left, is) named q at other =
      let at' : Any (λ x. x ≡ q) (a ++ o ∷ b) = subst (λ l. Any (λ x. x ≡ q) l) whole at in
      subst (λ l. Any (λ x. x ≡ q) l) (sym left)
        (elim (Any-append_split (λ x. x ≡ q) a (o ∷ b) at') [
          | inl front ↦ Any-append_left (λ x. x ≡ q) a b front
          | inr (inl same) ↦
              let here : HasName n o = rw is named in absurd (other (subst (HasName n) same here))
          | inr (inr back) ↦ Any-append_right (λ x. x ≡ q) a b back
        ])

  replace_older-Kept :
      (pkgs : List Pkgd) (p : Pkgd) (v n : Bytes) (autoinst : Bool) (d : Pkgd)
      → All IsQueued pkgs
      → p.pkgver ≡ some v
      → IsVersion v
      → pkg_name name_size v ≡ some n
      → IsQueued d
      → HasName n d
      → Any (λ x. x ≡ d) pkgs
      → (after : List Pkgd) × (replace_older pkgs p v n autoinst d ≡ some (after, true))
        × Kept pkgs v n after
  unfolding replace_older
  replace_older-Kept pkgs p v n autoinst d all has version named i called at =
      let c = queued_copy p n autoinst in
      let there : Any (λ x. x.pkgver ≡ some i.pkgver) pkgs =
        Any-pkgver pkgs d i.pkgver i.has_pkgver at in
      elim (cmpver-greater v i.pkgver version i.version) [
        | inl (up, down) ↦
            let (rest, e, removed) = remove_pkgd-Removed pkgs i.pkgver all there in
            let named' : pkg_name name_size i.pkgver ≡ some n = rw i.has_pkgver at called in
            (
              rest ++ c ∷ [],
              simp (replace_older, i.has_pkgver, up, e),
              copy-Kept pkgs rest c v n has version named
                  (Removed-others pkgs rest i.pkgver n removed named'),
            )
        | inr (s, sign, other) ↦
            let level : NotAbove (some v) d.pkgver =
              subst (NotAbove (some v)) (sym i.has_pkgver) (λ g. other (cc (sign, g))) in
            (
              pkgs,
              stays pkgs p v n autoinst d i s sign other,
              (
                Any-here pkgs d (λ x. HasName n x × NotAbove (some v) x.pkgver) (called, level) at,
                λ q there other. there,
              ),
            )
      ]

  -- `flappy_transaction_store` of a package whose pkgver is shorter than 2^30 bytes, has no number
  -- of more than nine digits and has its name, which is no pattern and no pkgver, on a queue of
  -- packages with such pkgvers whose names fit in a name buffer: it returns true. Afterwards the
  -- queue has a package of that name whose version the stored one is not above by
  -- `flappy_cmpver`, and it still has all packages of other names.
  pub transaction_store-Kept :
      (pkgs : List Pkgd) (p : Pkgd) (v n : Bytes) (autoinst : Bool)
      → All IsQueued pkgs
      → p.pkgver ≡ some v
      → p.pkgname ≡ some n
      → IsVersion v
      → pkg_name name_size v ≡ some n
      → pkgpattern_version n ≡ none
      → pkg_version n ≡ none
      → (after : List Pkgd) × (transaction_store fnmatch pkgs p autoinst ≡ some (after, true))
        × Kept pkgs v n after
  unfolding transaction_store find_pkg_in_array get_pkg_in_array
  transaction_store-Kept pkgs p v n autoinst all has is version named plain bare =
      let (o, e, holds) = find_pkg-named fnmatch pkgs n all plain bare in
      elim (Option-cases o) [
        | inl nothing ↦
            let c = queued_copy p n autoinst in
            (
              pkgs ++ c ∷ [],
              simp (transaction_store, has, is, e, nothing),
              copy-Kept pkgs pkgs c v n has version named (λ q at other. at),
            )
        | inr (d, there) ↦
            let (i, called, at) = holds d there in
            let (after, run, kept) =
              replace_older-Kept pkgs p v n autoinst d all has version named i called at in
            (after, simp (transaction_store, has, is, e, there, run), kept)
      ]
