-- ===== src/State.antt =====
-- Package states: lib/package_state.c.
pub mod RoundTrip
pub mod Tests
use flappy.Base.{
  ℕ, ◌≡◌, refl, Bool, List, [], ◌∷◌, Option, none, some, ◌==◌, if◌then◌else◌, ◌>>=◌, Bytes, codes,
  str_eq,
}
use flappy.Pkgver.{pkg_name}
use flappy.Arrays.{name_size}
use flappy.PkgPath.{enoent, einval}
use flappy.Dicts.{empty_pkgd, dict_set, Pkgd, PkgDict}
use flappy.Find.{Found, found, missing, pkgdb_get_pkg}

-- The table: the name of a state, and its number.
abbrev pub states : List (Bytes × ℕ)
states =
    (codes "unpacked", 1)
    ∷ (codes "installed", 2)
    ∷ (codes "broken", 3)
    ∷ (codes "half-removed", 4)
    ∷ (codes "not-installed", 5)
    ∷ []

-- The loops over the table.
abbrev pub string_of : List (Bytes × ℕ) → ℕ → Option Bytes
string_of [] state = none
string_of ((string, number) ∷ table) state =
    let next = string_of table state in if state == number then some string else next

abbrev pub number_of : List (Bytes × ℕ) → Bytes → ℕ
number_of [] state_str = 0
number_of ((string, number) ∷ table) state_str =
    let next = number_of table state_str in if str_eq state_str string then number else next

-- The dictionary after the call, and what it returns.
unfoldable pub set_new_state : Pkgd → ℕ → Pkgd × ℕ
set_new_state dict state = elim (string_of states state) [
  | none ↦ (dict, einval)
  | some string ↦ (record dict { state = some string }, 0)
]

unfoldable pub get_state : Pkgd → ℕ
get_state dict = elim dict.state [ none ↦ 0 | some state_str ↦ number_of states state_str ]

-- What is returned, and `*state`.
unfoldable pub pkg_state_dictionary : Pkgd → ℕ × ℕ
pkg_state_dictionary dict =
    let state = get_state dict in if state == 0 then (einval, state) else (0, state)

-- The dictionary that `flappy_set_pkg_state_installed` makes.
abbrev pub new_pkgd : Bytes → Pkgd
new_pkgd pkgver = record empty_pkgd { pkgver = some pkgver }

module _ (fnmatch : Bytes → Bytes → ℕ → Bool) where
  -- What is returned and `*state`, which is not written for ENOENT.
  unfoldable pub pkg_state_installed : PkgDict → Bytes → Option (ℕ × Option ℕ)
  pkg_state_installed pkgdb pkgver = do
    r ← pkgdb_get_pkg fnmatch pkgdb pkgver
    some (elim r [
      | missing errno ↦ (enoent, none)
      | found pkgd ↦ let (rv, state) = pkg_state_dictionary pkgd in (rv, some state)
    ])

  -- The package database after the call, and what it returns; `none` is an abort.
  pub set_pkg_state_installed : PkgDict → Bytes → ℕ → Option (PkgDict × ℕ)
  set_pkg_state_installed pkgdb pkgver state = do
    r ← pkgdb_get_pkg fnmatch pkgdb pkgver
    let (pkgd, rv) = set_new_state (elim r [ missing errno ↦ new_pkgd pkgver | found d ↦ d ]) state
    let stored = pkg_name name_size pkgver >>= λ pkgname. some (dict_set pkgdb pkgname pkgd, 0)
    if rv == 0 then stored else some (pkgdb, rv)
