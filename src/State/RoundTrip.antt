-- ===== src/State/RoundTrip.antt =====
-- A state that is set is read back.
use flappy.Base.{
  zero, suc, ◌<◌, ◌∙◌, suc, ◌<◌, ℕ, ◌≡◌, refl, ◌≤◌, Bool, false, none, some, ◌==◌, Bytes, str_eq,
  arith, inl, inr,
}
use flappy.Pkgver.{pkg_name, pkgpattern_version}
use flappy.Arrays.{name_size}
use flappy.PkgPath.{einval}
use flappy.Dicts.{dict_get, dict_set, Pkgd, PkgDict}
use flappy.Dicts.Laws.{dict_get-dict_set, dict_get-dict_set_other}
use flappy.Find.Exact.{pkgdb_get_pkg_cases, pkgdb_get_pkg_stored}
use flappy.State.{
  states, string_of, set_new_state, get_state, pkg_state_dictionary, pkg_state_installed,
  set_pkg_state_installed, new_pkgd,
}

above : (n : ℕ) → string_of states (suc (suc (suc (suc (suc (suc n)))))) ≡ none
above n = ground arith

-- A state from 1 to 5 that `set_new_state` sets is the one that `get_state` reads, and no other
-- key changes; any other number is refused with EINVAL, and the dictionary stays as it is.
set_new_state-get_state :
    (dict : Pkgd) (state : ℕ)
    → ((1 ≤ state)
        → (state ≤ 5)
        → (get_state (set_new_state dict state).0 ≡ state)
          × ((set_new_state dict state).1 ≡ 0)
          × ((set_new_state dict state).0.pkgver ≡ dict.pkgver))
      × ((5 < state) → set_new_state dict state ≡ (dict, einval))
      × (set_new_state dict 0 ≡ (dict, einval))
unfolding set_new_state get_state str_eq
set_new_state-get_state dict zero =
    (λ low high. absurd (omega arith), λ high. absurd (omega arith), refl)
set_new_state-get_state dict (suc zero) =
    (λ low high. (refl, refl, refl), λ high. absurd (omega arith), refl)
set_new_state-get_state dict (suc (suc zero)) =
    (λ low high. (refl, refl, refl), λ high. absurd (omega arith), refl)
set_new_state-get_state dict (suc (suc (suc zero))) =
    (λ low high. (refl, refl, refl), λ high. absurd (omega arith), refl)
set_new_state-get_state dict (suc (suc (suc (suc zero)))) =
    (λ low high. (refl, refl, refl), λ high. absurd (omega arith), refl)
set_new_state-get_state dict (suc (suc (suc (suc (suc zero))))) =
    (λ low high. (refl, refl, refl), λ high. absurd (omega arith), refl)
set_new_state-get_state dict (suc (suc (suc (suc (suc (suc n)))))) =
    (λ low high. absurd (omega arith), λ high. rw (set_new_state, above n) refl, refl)

module _ (fnmatch : Bytes → Bytes → ℕ → Bool) where
  stored :
      (pkgdb : PkgDict) (pkgver name : Bytes) (d : Pkgd) (state : ℕ)
      → pkgpattern_version pkgver ≡ none
      → pkg_name name_size pkgver ≡ some name
      → 1 ≤ state
      → state ≤ 5
      → d.pkgver ≡ some pkgver
      → (let after = dict_set pkgdb name (set_new_state d state).0 in
          (pkg_state_installed fnmatch after pkgver ≡ some (0, some state))
          × ((other : Bytes)
              → str_eq name other ≡ false
              → dict_get after other ≡ dict_get pkgdb other))
  unfolding pkg_state_installed pkg_state_dictionary
  stored pkgdb pkgver name d state plain named low high has =
      let (same, fine, kept) = (set_new_state-get_state d state).0 low high in
      let stores = dict_get-dict_set pkgdb name (set_new_state d state).0 in
      let after = dict_set pkgdb name (set_new_state d state).0 in
      let some_state : (state == 0) ≡ false = ground arith in
      (
        rw
            (
              pkgdb_get_pkg_stored fnmatch after pkgver name _ plain named stores (kept ∙ has),
              same,
              some_state,
            )
            refl,
        λ other ne. dict_get-dict_set_other pkgdb name other _ ne,
      )

  -- `flappy_set_pkg_state_installed` with a state from 1 to 5, for a pkgver that is no pattern and
  -- whose name fits in a name buffer, never fails, and then `flappy_pkg_state_installed` gives that
  -- state for that pkgver. The packages under other names stay as they are.
  pub set_pkg_state-pkg_state :
      (pkgdb : PkgDict) (pkgver name : Bytes) (state : ℕ)
      → pkgpattern_version pkgver ≡ none
      → pkg_name name_size pkgver ≡ some name
      → 1 ≤ state
      → state ≤ 5
      → (pkgdb' : PkgDict) × (set_pkg_state_installed fnmatch pkgdb pkgver state ≡ some (pkgdb', 0))
        × (pkg_state_installed fnmatch pkgdb' pkgver ≡ some (0, some state))
        × ((other : Bytes)
            → str_eq name other ≡ false
            → dict_get pkgdb' other ≡ dict_get pkgdb other)
  unfolding set_pkg_state_installed pkg_state_installed pkg_state_dictionary
  set_pkg_state-pkg_state pkgdb pkgver name state plain named low high =
      elim (pkgdb_get_pkg_cases fnmatch pkgdb pkgver name plain named) [
        | inl gone ↦
            let new = new_pkgd pkgver in
            let (same, fine, kept) = (set_new_state-get_state new state).0 low high in
            let (read, others) = stored pkgdb pkgver name new state plain named low high refl in
            (_, rw (gone, fine, named) refl, read, others)
        | inr (p, here, has) ↦
            let (same, fine, kept) = (set_new_state-get_state p state).0 low high in
            let (read, others) = stored pkgdb pkgver name p state plain named low high has in
            (_, rw (here, fine, named) refl, read, others)
      ]
