-- ===== src/Find.antt =====
-- Searches for packages: lib/plist_find.c, and `flappy_pkgdb_get_pkg` and
-- `flappy_pkgdb_get_virtualpkg` of lib/pkgdb.c on a database that is open. In a result of type
-- `Option`, `none` is an abort, or a write outside an array in `mkversion`.
pub mod Exact
pub mod First
pub mod Conf
pub mod Entry
pub mod Tests
use flappy.Base.{
  ℕ, ◌≡◌, refl, Bool, true, false, not, ◌&&◌, List, [], ◌∷◌, Option, none, some, ◌==◌,
  if◌then◌else◌, ◌>>=◌, Bytes, codes, str_eq,
}
use flappy.Pkgver.{pkg_name, pkg_version, pkgpattern_name, pkgpattern_version}
use flappy.Pattern.{Answer, pkgpattern_match, is_some}
use flappy.Arrays.{name_size, is_nonzero, match_virtual_pkg_in_array}
use flappy.PkgPath.{enoent, einval}
use flappy.Dicts.{Dict, dict_get, Pkgd, PkgDict}

-- A result: a package, or NULL with the errno that is set, if one is.
pub data Found : Type 0 where
  found : Pkgd → Found
  missing : Option ℕ → Found

abbrev pub found_or : Option ℕ → Option Pkgd → Found
found_or errno none = missing errno
found_or errno (some d) = found d

-- `flappy_transaction_pkg_type`
abbrev pub transaction_pkg_type : Pkgd → ℕ
transaction_pkg_type pkg_repod = elim pkg_repod.transaction [ none ↦ 0 | some r ↦ r ]

-- `vpkg_user_conf`: what the virtual package is.
pub data Match : Type 0 where
  by_pattern by_pkgver by_name : Match

unfoldable pub match_pkg_by_pkgver : PkgDict → Bytes → Found
match_pkg_by_pkgver repod p = elim (pkg_name name_size p) [
  | none ↦ missing (some einval)
  | some pkgname ↦ elim (dict_get repod pkgname) [
    | none ↦ missing (some enoent)
    | some d ↦ elim d.pkgver [
      | none ↦ missing (some einval)
      | some pkgver ↦ if str_eq pkgver p then found d else missing (some enoent)
    ]
  ]
]

-- `match`, and `pkgname`.
vpkg_kind : Bytes → Match × Bytes
vpkg_kind vpkg = elim (pkgpattern_name name_size vpkg) [
  | some name ↦ (by_pattern, name)
  | none ↦ elim (pkg_name name_size vpkg) [ some name ↦ (by_pkgver, name) | none ↦ (by_name, vpkg) ]
]

module _ (fnmatch : Bytes → Bytes → ℕ → Bool) where
  pub match_virtual_pkg_in_dict : Pkgd → Bytes → Option Bool
  match_virtual_pkg_in_dict d str = elim d.provides [
    | none ↦ some false
    | some provides ↦ match_virtual_pkg_in_array fnmatch provides str
  ]

  -- One round of `get_pkg_in_array`: whether the package is the one that is looked for.
  unfoldable pub is_pkg : Bool → Bytes → Pkgd → Option Bool
  is_pkg virtual str obj = elim obj.pkgver [
    | none ↦ none
    | some pkgver ↦
        if virtual
        then match_virtual_pkg_in_dict obj str
        else if is_some (pkgpattern_version str)
        then (pkgpattern_match fnmatch pkgver str >>= λ a. some (is_nonzero a))
        else if is_some (pkg_version str)
        then some (str_eq str pkgver)
        else (pkg_name name_size pkgver >>= λ pkgname. some (str_eq pkgname str))
  ]

  -- The loop of `get_pkg_in_array`.
  unfoldable pub find_loop : List Pkgd → Bytes → Bool → Option (Option Pkgd)
  find_loop [] str virtual = some none
  find_loop (obj ∷ array) str virtual =
      let rest = find_loop array str virtual in
      is_pkg virtual str obj >>= λ here. if here then some (some obj) else rest

  -- The type `tt` of a transaction is `type` here.
  unfoldable pub get_pkg_in_array : List Pkgd → Bytes → ℕ → Bool → Option Found
  get_pkg_in_array array str type virtual = do
    o ← find_loop array str virtual
    some (elim o [
      | none ↦ missing (some enoent)
      | some obj ↦
          if not (type == 0) && not (transaction_pkg_type obj == type)
          then missing (some enoent)
          else found obj
    ])

  unfoldable pub find_pkg_in_array : List Pkgd → Bytes → ℕ → Option Found
  find_pkg_in_array a s type = get_pkg_in_array a s type false

  pub match_pkg_by_pattern : PkgDict → Bytes → Option Found
  match_pkg_by_pattern repod p = elim (pkgpattern_name name_size p) [
    | none ↦
        if is_some (pkg_name name_size p)
        then some (match_pkg_by_pkgver repod p)
        else some (missing (some einval))
    | some pkgname ↦ elim (dict_get repod pkgname) [
      | none ↦ some (missing (some enoent))
      | some d ↦ elim d.pkgver [
        | none ↦ some (missing (some einval))
        | some pkgver ↦ do
          a ← pkgpattern_match fnmatch pkgver p
          some (if is_nonzero a then found d else missing (some enoent))
      ]
    ]
  ]

  -- The search by a pattern, a pkgver or a name, which four functions make.
  unfoldable pub find_pkg_in_dict : PkgDict → Bytes → Option Found
  find_pkg_in_dict d pkg =
      if is_some (pkgpattern_version pkg)
      then match_pkg_by_pattern d pkg
      else if is_some (pkg_version pkg)
      then some (match_pkg_by_pkgver d pkg)
      else some (found_or none (dict_get d pkg))

  unfoldable pub pkgdb_get_pkg : PkgDict → Bytes → Option Found
  pkgdb_get_pkg pkgdb pkg = do
    r ← find_pkg_in_dict pkgdb pkg
    some (elim r [ found d ↦ found d | missing errno ↦ missing (some enoent) ])

  -- One round of the loop: whether the entry is taken. `buf` is empty where no name is put in it.
  takes : Match → Bytes → Bytes → Option Bool
  takes match vpkg vpkg_conf =
      let versioned = is_some (pkg_version vpkg_conf) in
      do
        buf ← if versioned then pkg_name name_size vpkg_conf else some []
        let vpkgname = if versioned then buf else vpkg_conf
        elim match [
          | by_pattern ↦
              if versioned
              then (pkgpattern_match fnmatch vpkg_conf vpkg >>= λ a. some (is_nonzero a))
              else some true
          | by_pkgver ↦ some (str_eq buf vpkgname)
          | by_name ↦ some (str_eq vpkg vpkgname)
        ]

  vpkg_loop : Match → Bytes → Dict Bytes → Option (Option Bytes)
  vpkg_loop match vpkg [] = some none
  vpkg_loop match vpkg ((vpkg_conf, pkg) ∷ providers) =
      let rest = vpkg_loop match vpkg providers in
      takes match vpkg vpkg_conf >>= λ t. if t then some (some pkg) else rest

  -- `vpkgd` is the dictionary of the virtual packages that the user has configured.
  pub vpkg_user_conf : Dict (Dict Bytes) → Bytes → Option (Option Bytes)
  vpkg_user_conf vpkgd vpkg =
      let (match, pkgname) = vpkg_kind vpkg in
      elim (dict_get vpkgd pkgname) [
        | none ↦ some none
        | some providers ↦ vpkg_loop match vpkg providers
      ]

  -- `flappy_find_virtualpkg_in_array`
  pub find_virtualpkg_in_array : Dict (Dict Bytes) → List Pkgd → Bytes → ℕ → Option Found
  find_virtualpkg_in_array vpkgd a s type =
      let unconfigured = get_pkg_in_array a s type true in
      do
        v ← vpkg_user_conf vpkgd s
        elim v [
          | none ↦ unconfigured
          | some vpkg ↦ do
            r ← get_pkg_in_array a vpkg type true
            elim r [ found d ↦ some (found d) | missing errno ↦ unconfigured ]
        ]

  -- The loop over the dictionary in `flappy_find_virtualpkg_in_dict`.
  first_provider : PkgDict → Bytes → Option Found
  first_provider [] pkg = some (missing none)
  first_provider ((key, pkgd) ∷ d) pkg =
      let rest = first_provider d pkg in
      match_virtual_pkg_in_dict pkgd pkg >>= λ b. if b then some (found pkgd) else rest

  pub find_virtualpkg_in_dict : Dict (Dict Bytes) → PkgDict → Bytes → Option Found
  find_virtualpkg_in_dict vpkgd d pkg =
      let first = first_provider d pkg in
      do
        v ← vpkg_user_conf vpkgd pkg
        elim v [
          | none ↦ first
          | some vpkg ↦ do
            r ← find_pkg_in_dict d vpkg
            elim r [ found p ↦ some (found p) | missing errno ↦ first ]
        ]

  unfoldable pub pkgdb_get_virtualpkg : Dict (Dict Bytes) → PkgDict → Bytes → Option Found
  pkgdb_get_virtualpkg vpkgd pkgdb vpkg = find_virtualpkg_in_dict vpkgd pkgdb vpkg
