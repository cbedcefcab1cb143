-- ===== src/Repo/Served.antt =====
-- The repositories that are opened for the URIs of a pool, and its queue.
use flappy.Base.{
  ℕ, ◌≡◌, refl, sym, ap, ◌∙◌, Bool, true, not, ◌||◌, ◌⊎◌, inl, inr, List, [], ◌∷◌, ◌++◌, Option,
  none, some, ◌==◌, if◌then◌else◌, ◌>>=◌, Bytes, str_eq, str_eq_iff, Bool-cases, Option-cases,
}
use flappy.Repo.{Repo, Pool, enotsup, rpool_get_repo, Callback, registered}

module _ (open_repo : Bytes → Option Repo) where
  -- The repositories that are opened for a list of URIs.
  unfoldable pub served : List Bytes → List Repo
  served [] = []
  served (uri ∷ uris) = elim (open_repo uri) [ none ↦ served uris | some repo ↦ repo ∷ served uris ]

  pub served-none :
      (uri : Bytes) (uris : List Bytes) → open_repo uri ≡ none → served (uri ∷ uris) ≡ served uris
  unfolding served
  served-none uri uris e = rw (served, e) refl

  pub served-some :
      (uri : Bytes) (uris : List Bytes) (repo : Repo)
      → open_repo uri ≡ some repo
      → served (uri ∷ uris) ≡ repo ∷ served uris
  unfolding served
  served-some uri uris repo e = rw (served, e) refl

  -- What stands in the queue is what its URI is opened as.
  pub record IsPool (pool : Pool) : Type 0 where
    pub opened :
        (uri : Bytes) (repo : Repo)
        → rpool_get_repo pool.queue uri ≡ some repo
        → open_repo uri ≡ some repo

  -- A repository that is opened has the URI that it is opened by.
  abbrev pub KeepsUri : Type 0
  KeepsUri = (uri : Bytes) (repo : Repo) → open_repo uri ≡ some repo → repo.uri ≡ uri

  rpool_get_repo-snoc :
      (queue : List Repo) (repo : Repo) (uri : Bytes) (found : Repo)
      → rpool_get_repo (queue ++ repo ∷ []) uri ≡ some found
      → (rpool_get_repo queue uri ≡ some found) ⊎ ((uri ≡ repo.uri) × (repo ≡ found))
  unfolding rpool_get_repo
  rpool_get_repo-snoc [] repo uri found h = elim (Bool-cases (str_eq uri repo.uri)) [
    | inl e ↦
        let it : some repo ≡ some found = rw e at h in inr ((str_eq_iff uri repo.uri).0 e, cc it)
    | inr e ↦ absurd (cc (rw e at h))
  ]
  rpool_get_repo-snoc (r ∷ queue) repo uri found h = elim (Bool-cases (str_eq uri r.uri)) [
    | inl e ↦ inl (rw e (rw e at h))
    | inr e ↦ rw e (rpool_get_repo-snoc queue repo uri found (rw e at h))
  ]

  -- The repository of an URI that can be opened.
  pub registered-some :
      (pool : Pool) (uri : Bytes) (repo : Repo)
      → KeepsUri
      → IsPool pool
      → open_repo uri ≡ some repo
      → (pool' : Pool) × (registered open_repo pool uri ≡ some (repo, pool'))
        × (pool'.repositories ≡ pool.repositories)
        × IsPool pool'
  unfolding registered
  registered-some pool uri repo keeps ok e = elim (Option-cases (rpool_get_repo pool.queue uri)) [
    | inl new ↦ (
      record pool { queue = pool.queue ++ repo ∷ [] },
      rw (registered, new, e) refl,
      refl,
      record {
        opened = λ u r h. elim (rpool_get_repo-snoc pool.queue repo u r h) [
          | inl old ↦ ok.opened u r old
          | inr (at, it) ↦ ap open_repo (at ∙ keeps uri repo e) ∙ e ∙ ap some it
        ];
      },
    )
    | inr (r, old) ↦
        let same : some r ≡ some repo = sym (ok.opened uri r old) ∙ e in
        (pool, rw (registered, old) (ap (λ o. o >>= λ x. some (x, pool)) same), refl, ok)
  ]

  pub registered-none :
      (pool : Pool) (uri : Bytes)
      → IsPool pool
      → open_repo uri ≡ none
      → registered open_repo pool uri ≡ none
  unfolding registered
  registered-none pool uri ok e = elim (Option-cases (rpool_get_repo pool.queue uri)) [
    | inl new ↦ rw (registered, new, e) refl
    | inr (r, old) ↦ absurd (cc (ok.opened uri r old, e))
  ]

-- One callback after the other; ENOTSUP if there is no repository.
unfoldable pub run : {S : Type 0} → Callback S → List Repo → Bool → S → Option (ℕ × S)
run fn [] foundrepo arg = some (if foundrepo then 0 else enotsup, arg)
run fn (repo ∷ repos) foundrepo arg = do
  (rv, done, arg') ← fn repo arg
  let next = run fn repos true arg'
  if not (rv == 0) || done then some (rv, arg') else next
