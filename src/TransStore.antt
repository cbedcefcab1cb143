-- ===== src/TransStore.antt =====
-- `flappy_transaction_store` of lib/transaction_store.c: the queue of a transaction, which keeps the
-- greater version of a package. `none` is an abort, a read of a pkgver that is missing, or a write
-- outside an array in `mkversion`.
pub mod Queue
pub mod Kept
pub mod Tests
use flappy.Base.{
  ℕ, ◌≡◌, refl, Bool, true, false, List, [], ◌∷◌, ◌++◌, Option, none, some, if◌then◌else◌, ◌>>=◌,
  Bytes, codes, str_eq,
}
use flappy.Arrays.{found_if, remove_obj}
use flappy.Dewey.Compare.{Sign, less, equal, greater, cmpver}
use flappy.Dicts.{Pkgd}
use flappy.Find.{Found, found, missing, find_pkg_in_array}

-- `flappy_remove_pkg_from_array_by_pkgver` on package dictionaries.
unfoldable pub remove_pkgd_by_pkgver : List Pkgd → Bytes → Option (List Pkgd × Bool)
remove_pkgd_by_pkgver array str =
    remove_obj (λ obj. obj.pkgver >>= λ curname. some (found_if (str_eq curname str))) array

-- The copy that is put in the queue. The copy shares the array `replaces` with the original, to
-- which the name is added too.
abbrev pub queued_copy : Pkgd → Bytes → Bool → Pkgd
queued_copy pkgrd pkgname autoinst =
    let replaces : List Bytes = elim pkgrd.replaces [ none ↦ [] | some l ↦ l ] in
    record pkgrd {
      automatic_install = if autoinst then some true else pkgrd.automatic_install;
      replaces = some (replaces ++ (pkgname ++ codes ">=0") ∷ []);
    }

-- The part of `flappy_transaction_store` on a package of that name in the queue.
unfoldable pub replace_older :
    List Pkgd → Pkgd → Bytes → Bytes → Bool → Pkgd → Option (List Pkgd × Bool)
replace_older pkgs pkgrd pkgver pkgname autoinst d = elim d.pkgver [
  | none ↦ some (pkgs, false)
  | some curpkgver ↦ cmpver pkgver curpkgver >>= λ rv. elim rv [
    | greater ↦ remove_pkgd_by_pkgver pkgs curpkgver >>= λ r.
        some (if r.1 then (r.0 ++ queued_copy pkgrd pkgname autoinst ∷ [], true) else (r.0, false))
    | equal ↦ some (pkgs, true)
    | less ↦ some (pkgs, true)
  ]
]

-- The queue after the call, and what it returns.
unfoldable pub transaction_store :
    (Bytes → Bytes → ℕ → Bool) → List Pkgd → Pkgd → Bool → Option (List Pkgd × Bool)
transaction_store fnmatch pkgs pkgrd autoinst = elim pkgrd.pkgver [
  | none ↦ some (pkgs, false)
  | some pkgver ↦ elim pkgrd.pkgname [
    | none ↦ some (pkgs, false)
    | some pkgname ↦ find_pkg_in_array fnmatch pkgs pkgname 0 >>= λ f. elim f [
      | missing errno ↦ some (pkgs ++ queued_copy pkgrd pkgname autoinst ∷ [], true)
      | found d ↦ replace_older pkgs pkgrd pkgver pkgname autoinst d
    ]
  ]
]
