-- ===== src/Arrays.antt =====
-- Searches in arrays of strings: lib/plist_match.c, and the removals of lib/plist_remove.c. An
-- array of the property list library is a list.
pub mod Search
pub mod Virtual
pub mod Remove
pub mod Tests
use flappy.Base.{
  ℕ, zero, suc, ◌≡◌, refl, Bool, true, false, List, [], ◌∷◌, Option, none, some, ◌==◌,
  if◌then◌else◌, ◌>>=◌, Bytes, codes, str_eq,
}
use flappy.Pkgver.{pkg_name, pkg_version, pkgpattern_version}
use flappy.Pattern.{Answer, matched, unmatched, error, pkgpattern_match, is_some}

-- FLAPPY_NAME_SIZE
abbrev pub name_size : ℕ
name_size = 64

-- A result of `flappy_pkgpattern_match` as a condition: 1 and -1 are true.
abbrev pub is_nonzero : Answer → Bool
is_nonzero unmatched = false
is_nonzero matched = true
is_nonzero error = true

-- The modes 0 to 4 of `match_string_in_array`.
pub data Mode : Type 0 where
  by_string by_pkgname by_pkgver by_pattern by_pkgdep : Mode

-- What one round of the loop does: it ends with a result, or goes on.
pub data Round : Type 0 where
  found stopped go_on : Round

abbrev pub found_if : Bool → Round
found_if true = found
found_if false = go_on

-- The comparison with the name of a pkgver; the loop stops where there is no name.
abbrev pub name_round : Option Bytes → Bytes → Round
name_round none other = stopped
name_round (some pkgname) other = found_if (str_eq pkgname other)

-- The result after a round; `next` is the result of the rounds to come.
abbrev pub after : Round → Option Bool → Option Bool
after found next = some true
after stopped next = some false
after go_on next = next

module _ (fnmatch : Bytes → Bytes → ℕ → Bool) where
  unfoldable pub pattern_round : Bytes → Bytes → Option Round
  pattern_round pkg pattern = do
    a ← pkgpattern_match fnmatch pkg pattern
    some (found_if (is_nonzero a))

  unfoldable pub round : Mode → Bytes → Bytes → Option Round
  round by_string obj str = some (found_if (str_eq obj str))
  round by_pkgname obj str = some (name_round (pkg_name name_size obj) str)
  round by_pkgver obj str = some (name_round (pkg_name name_size str) obj)
  round by_pattern obj str = pattern_round obj str
  round by_pkgdep obj str = pattern_round str obj

  unfoldable pub match_string_in_array : List Bytes → Bytes → Mode → Option Bool
  match_string_in_array [] str mode = some false
  match_string_in_array (obj ∷ array) str mode =
      let next = match_string_in_array array str mode in round mode obj str >>= λ r. after r next

  -- `flappy_match_virtual_pkg_in_array`
  pub match_virtual_pkg_in_array : List Bytes → Bytes → Option Bool
  match_virtual_pkg_in_array a str =
      let by_patterns = (do
        dep ← match_string_in_array a str by_pkgdep
        let pattern = match_string_in_array a str by_pattern
        if dep then some true else pattern) in
      if is_some (pkgpattern_version str)
      then by_patterns
      else if is_some (pkg_version str)
      then match_string_in_array a str by_string
      else match_string_in_array a str by_pkgname

  -- The inner loop of `flappy_match_any_virtualpkg_in_rundeps`.
  any_dep : List Bytes → Bytes → Option Bool
  any_dep [] vpkgver = some false
  any_dep (pkgpattern ∷ rundeps) vpkgver =
      let next = any_dep rundeps vpkgver in
      pkgpattern_match fnmatch vpkgver pkgpattern >>= λ a. if is_nonzero a then some true else next

  pub match_any_virtualpkg_in_rundeps : List Bytes → List Bytes → Option Bool
  match_any_virtualpkg_in_rundeps rundeps [] = some false
  match_any_virtualpkg_in_rundeps rundeps (vpkgver ∷ provides) =
      let next = match_any_virtualpkg_in_rundeps rundeps provides in
      any_dep rundeps vpkgver >>= λ b. if b then some true else next

-- `array_remove(array, idx)`
abbrev pub remove_at {ℓ} : {A : Type ℓ} → ℕ → List A → List A
remove_at i [] = []
remove_at zero (x ∷ xs) = xs
remove_at (suc i) (x ∷ xs) = x ∷ remove_at i xs

-- A package dictionary in an array: the two keys that the removals read.
pub record PkgObj : Type 0 where
  pub pkgname : Bytes
  pub pkgver : Bytes

-- The loop of `remove_obj_from_array` from the index `idx`: the index of the object to remove.
unfoldable pub find_index {ℓ} : {A : Type ℓ} → (A → Option Round) → List A → ℕ → Option (Option ℕ)
find_index test [] idx = some none
find_index test (obj ∷ array) idx =
    let next = find_index test array (suc idx) in
    test obj >>= λ r. elim r [ found ↦ some (some idx) | stopped ↦ some none | go_on ↦ next ]

-- The array after the call, and what it returns.
unfoldable pub remove_obj {ℓ} : {A : Type ℓ} → (A → Option Round) → List A → Option (List A × Bool)
remove_obj test array = do
  i ← find_index test array 0
  some (elim i [ none ↦ (array, false) | some idx ↦ (remove_at idx array, true) ])

-- Modes 0 and 1, on strings.
pub remove_string_from_array : List Bytes → Bytes → Option (List Bytes × Bool)
remove_string_from_array array str = remove_obj (λ obj. some (found_if (str_eq obj str))) array

pub remove_pkgname_from_array : List Bytes → Bytes → Option (List Bytes × Bool)
remove_pkgname_from_array array str =
    remove_obj (λ obj. some (name_round (pkg_name name_size obj) str)) array

-- Modes 2 to 4, on dictionaries.
pub remove_pkg_from_array_by_name : List PkgObj → Bytes → Option (List PkgObj × Bool)
remove_pkg_from_array_by_name array str =
    remove_obj (λ obj. some (found_if (str_eq obj.pkgname str))) array

pub remove_pkg_from_array_by_pkgver : List PkgObj → Bytes → Option (List PkgObj × Bool)
remove_pkg_from_array_by_pkgver array str =
    remove_obj (λ obj. some (found_if (str_eq obj.pkgver str))) array

pub remove_pkg_from_array_by_pattern :
    (Bytes → Bytes → ℕ → Bool) → List PkgObj → Bytes → Option (List PkgObj × Bool)
remove_pkg_from_array_by_pattern fnmatch array str =
    remove_obj (λ obj. pattern_round fnmatch obj.pkgver str) array
