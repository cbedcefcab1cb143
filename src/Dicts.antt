-- ===== src/Dicts.antt =====
-- Property list dictionaries, as the sources use them: a dictionary is the list of its keys with
-- their values, and a package dictionary is the record of the keys that are read.
pub mod Laws
use flappy.Base.{
  false, ℕ, ◌≡◌, refl, Bool, List, [], ◌∷◌, Option, none, some, if◌then◌else◌, Bytes, str_eq,
}

abbrev pub Dict {ℓ} : Type ℓ → Type ℓ
Dict A = List (Bytes × A)

unfoldable pub dict_get {ℓ} : {A : Type ℓ} → Dict A → Bytes → Option A
dict_get [] key = none
dict_get ((k, a) ∷ d) key = let later = dict_get d key in if str_eq k key then some a else later

unfoldable pub dict_set {ℓ} : {A : Type ℓ} → Dict A → Bytes → A → Dict A
dict_set [] key a = (key, a) ∷ []
dict_set ((k, b) ∷ d) key a =
    let later = dict_set d key a in if str_eq k key then (k, a) ∷ d else (k, b) ∷ later

-- The dictionary of a package.
pub record Pkgd : Type 0 where
  pub pkgver : Option Bytes
  pub state : Option Bytes
  pub automatic_install : Option Bool
  pub transaction : Option ℕ
  pub provides : Option (List Bytes)
  pub run_depends : Option (List Bytes)
  pub pkgname : Option Bytes
  pub repository : Option Bytes
  pub conflicts : Option (List Bytes)
  -- Whether the key is there.
  pub hold : Bool
  pub replaces : Option (List Bytes)
  -- Whether the key is there.
  pub replaced : Bool
  -- Whether the key is there.
  pub repolock : Bool
  pub reverts : Option (List Bytes)

-- A dictionary with no key.
abbrev pub empty_pkgd : Pkgd
empty_pkgd = record {
  pkgver = none;
  state = none;
  automatic_install = none;
  transaction = none;
  provides = none;
  run_depends = none;
  pkgname = none;
  repository = none;
  conflicts = none;
  hold = false;
  replaces = none;
  replaced = false;
  repolock = false;
  reverts = none;
}

-- A dictionary of packages.
abbrev pub PkgDict : Type 0
PkgDict = Dict Pkgd
