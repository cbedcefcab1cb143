-- ===== src/Arrays/Search.antt =====
-- What `match_string_in_array` finds in each mode.
use flappy.Base.{
  ap, sym, ℕ, ◌≡◌, ◌≢◌, refl, ◌↔◌, ◌⊎◌, inl, inr, Bool, true, false, List, [], ◌∷◌, Option, none,
  some, if◌then◌else◌, Option-cases, All, Any, Bytes, str_eq, str_eq_iff, Bool-cases,
}
use flappy.Pkgver.{pkg_name}
use flappy.Pattern.{Answer, pkgpattern_match}
use flappy.Arrays.{
  is_nonzero, by_pkgdep, pattern_round, after, name_size, by_string, by_pkgname, by_pkgver,
  found_if, round, match_string_in_array,
}

-- The search ends with an answer, which is true exactly if `P` holds.
pub record Finds (r : Option Bool) (P : Type 0) : Type 0 where
  pub answer : Bool
  pub ends : r ≡ some answer
  pub sound : answer ≡ true → P
  pub complete : P → answer ≡ true

-- One round that tests the element, before the rounds to come.
Finds-cons :
    (b : Bool) (next : Option Bool) {P Q : Type 0}
    → (b ≡ true) ↔ P
    → Finds next Q
    → Finds (after (found_if b) next) (P ⊎ Q)
Finds-cons true next e rest = record {
  answer = true;
  ends = refl;
  sound = λ h. inl (e.0 h);
  complete = λ _. refl;
}
Finds-cons false next e rest = record {
  answer = rest.answer;
  ends = rest.ends;
  sound = λ h. inr (rest.sound h);
  complete = elim [ inl p ↦ absurd (cc (e.1 p)) | inr q ↦ rest.complete q ];
}

-- The same, where the round is a condition.
pub Finds-if :
    (b : Bool) (next : Option Bool) {P Q : Type 0}
    → (b ≡ true) ↔ P
    → Finds next Q
    → Finds (if b then some true else next) (P ⊎ Q)
Finds-if true next e rest = Finds-cons true next e rest
Finds-if false next e rest = Finds-cons false next e rest

pub Finds-nil : Finds (some false) ⊥
Finds-nil = record { answer = false; ends = refl; sound = λ e. cc; complete = λ e. elim e [ ] }

module _ (fnmatch : Bytes → Bytes → ℕ → Bool) where
  -- By string: the search ends, and finds the string exactly if it is an element.
  pub search_string :
      (array : List Bytes) (str : Bytes)
      → Finds (match_string_in_array fnmatch array str by_string) (Any (λ o. o ≡ str) array)
  unfolding match_string_in_array round
  search_string [] str = Finds-nil
  search_string (o ∷ array) str =
      Finds-cons (str_eq o str) _ (str_eq_iff o str) (search_string array str)

  -- By name against pkgvers: the search ends, and finds the name exactly if it is the name of an
  -- element, where every element has one. (It stops at an element that has none.)
  pub search_pkgname :
      (array : List Bytes) (name : Bytes)
      → All (λ o. pkg_name name_size o ≢ none) array
      → Finds
          (match_string_in_array fnmatch array name by_pkgname)
          (Any (λ o. pkg_name name_size o ≡ some name) array)
  unfolding match_string_in_array round
  search_pkgname [] name h = Finds-nil
  search_pkgname (o ∷ array) name (ho, h) = elim (Option-cases (pkg_name name_size o)) [
    | inl e ↦ absurd (ho e)
    | inr (n, e) ↦ rw e (
        Finds-cons (str_eq n name) _
          (λ k. ap some ((str_eq_iff n name).0 k), λ k. (str_eq_iff n name).1 (cc k))
          (search_pkgname array name h))
  ]

  -- By pkgver against names: for a pkgver whose name fits in a name buffer, the search ends, and
  -- finds the pkgver exactly if its name is an element.
  search_pkgver :
      (array : List Bytes) (pkgver name : Bytes)
      → pkg_name name_size pkgver ≡ some name
      → Finds (match_string_in_array fnmatch array pkgver by_pkgver) (Any (λ o. o ≡ name) array)
  unfolding match_string_in_array round
  search_pkgver [] pkgver name h = Finds-nil
  search_pkgver (o ∷ array) pkgver name h = rw h (
      Finds-cons (str_eq name o) _
        (λ k. sym ((str_eq_iff name o).0 k), λ k. (str_eq_iff name o).1 (sym k))
        (search_pkgver array pkgver name h))

  -- By pkgdep: a pkgver that is found matches one of the patterns.
  pub search_pkgdep :
      (array : List Bytes) (pkgver : Bytes)
      → match_string_in_array fnmatch array pkgver by_pkgdep ≡ some true
      → Any
          (λ o. (a : Answer) × (pkgpattern_match fnmatch pkgver o ≡ some a) × (is_nonzero a ≡ true))
          array
  unfolding match_string_in_array round pattern_round
  search_pkgdep [] pkgver h = absurd (cc h)
  search_pkgdep (o ∷ array) pkgver h = elim (Option-cases (pkgpattern_match fnmatch pkgver o)) [
    | inl e ↦ absurd (cc (rw e at h))
    | inr (a, e) ↦ elim (Bool-cases (is_nonzero a)) [
      | inl k ↦ inl (a, e, k)
      | inr k ↦ inr (search_pkgdep array pkgver (rw (e, k) at h))
    ]
  ]

  -- By name the search ends.
  pub search_pkgname_ends :
      (array : List Bytes) (name : Bytes)
      → (b : Bool) × (match_string_in_array fnmatch array name by_pkgname ≡ some b)
  unfolding match_string_in_array round
  search_pkgname_ends [] name = (false, refl)
  search_pkgname_ends (o ∷ array) name = elim (Option-cases (pkg_name name_size o)) [
    | inl e ↦ (false, rw e refl)
    | inr (n, e) ↦ elim (Bool-cases (str_eq n name)) [
      | inl k ↦ (true, rw (e, k) refl)
      | inr k ↦ let (b, ends) = search_pkgname_ends array name in (b, rw (e, k) ends)
    ]
  ]
