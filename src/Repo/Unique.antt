-- ===== src/Repo/Unique.antt =====
-- `flappy_repo_store` keeps the repositories different from each other.
use flappy.Base.{
  ℕ, ◌≡◌, refl, sym, Bool, true, false, List, [], ◌∷◌, ◌++◌, Option, some, inl, inr, Bytes,
  Bool-cases, Any, Any-append_split, Any-append_right,
}
use flappy.Arrays.Search.{search_string}
use flappy.Repo.{repo_store, stored_uri}

unfoldable pub Unique : List Bytes → Type 0
Unique [] = Unit
Unique (x ∷ l) = (¬ Any (λ y. y ≡ x) l) × Unique l

Unique-snoc : (l : List Bytes) (x : Bytes) → Unique l → ¬ Any (λ y. y ≡ x) l → Unique (l ++ x ∷ [])
unfolding Unique
Unique-snoc [] x u new = ((λ h. absurd h), tt)
Unique-snoc (y ∷ l) x u new = (
  λ h. elim (Any-append_split (λ z. z ≡ y) l (x ∷ []) h) [
    | inl old ↦ u.0 old
    | inr (inl same) ↦ new (inl (sym same))
    | inr (inr nope) ↦ absurd nope
  ],
  Unique-snoc l x u.1 (λ h. new (inr h)),
)

-- `flappy_repo_store` on an array of different repositories returns, and the array has different
-- repositories afterwards, the one that is stored among them; where the result is false, it is the
-- array that was there.
pub repo_store-Unique :
    (fnmatch : Bytes → Bytes → ℕ → Bool) (realpath : Bytes → Option Bytes)
    (repositories : List Bytes) (repo : Bytes)
    → Unique repositories
    → (after : List Bytes) × (b : Bool) × (repo_store fnmatch realpath repositories repo
        ≡ some (after, b))
      × Unique after
      × Any (λ y. y ≡ stored_uri realpath repo) after
      × (b ≡ false → after ≡ repositories)
unfolding repo_store
repo_store-Unique fnmatch realpath repositories repo u =
    let stored = stored_uri realpath repo in
    let f = search_string fnmatch repositories stored in
    elim (Bool-cases f.answer) [
      | inl is ↦ (repositories, false, rw (f.ends, is) refl, u, f.sound is, λ h. refl)
      | inr is ↦ (
        repositories ++ stored ∷ [],
        true,
        rw (f.ends, is) refl,
        Unique-snoc repositories stored u (λ h. absurd (cc (f.complete h, is))),
        Any-append_right (λ y. y ≡ stored) repositories (stored ∷ []) (inl refl),
        λ h. absurd (cc h),
      )
    ]
