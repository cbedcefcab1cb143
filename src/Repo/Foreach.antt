-- ===== src/Repo/Foreach.antt =====
-- `flappy_rpool_foreach` visits in order the repositories that can be opened, and drops the others.
use flappy.Base.{
  length-append, subst, ℕ, zero, suc, ◌<◌, ◌≡◌, ◌≢◌, refl, sym, ap, ◌∙◌, Bool, true, false, not,
  ◌||◌, inl, inr, List, [], ◌∷◌, ◌++◌, append_assoc, Option, none, some, arith, ◌==◌, if◌then◌else◌,
  ◌>>=◌, length, get_elem?, Bytes, str_eq, str_eq_iff, Bool-cases, Option-cases, All, All-append,
}
use flappy.Arrays.{remove_string_from_array}
use flappy.Arrays.Remove.{remove_string_at}
use flappy.Repo.Served.{
  served, served-none, served-some, IsPool, KeepsUri, registered-some, registered-none, run,
}
use flappy.Repo.{Repo, Pool, enotsup, Callback, foreach_loop, rpool_foreach}

get_elem?-middle : (a : List Bytes) (r : List Bytes) → get_elem? (a ++ r) (length a) ≡ get_elem? r 0
get_elem?-middle [] r = refl
get_elem?-middle (x ∷ a) r = get_elem?-middle a r

opened-differ :
    (open_repo : Bytes → Option Repo) (before : List Bytes) (uri : Bytes)
    → All (λ u. open_repo u ≢ none) before
    → open_repo uri ≡ none
    → All (λ u. str_eq u uri ≡ false) before
opened-differ open_repo [] uri all e = tt
opened-differ open_repo (u ∷ before) uri all e = (
  elim (Bool-cases (str_eq u uri)) [
    | inl same ↦ absurd (all.0 (ap open_repo ((str_eq_iff u uri).0 same) ∙ e))
    | inr other ↦ other
  ],
  opened-differ open_repo before uri all.1 e,
)

-- The outcome without the pool.
abbrev pub outcome : {S : Type 0} → Option (Pool × ℕ × S) → Option (ℕ × S)
outcome {S} r = r >>= λ x. some (x.1, x.2)

module _ (open_repo : Bytes → Option Repo) (keeps : KeepsUri open_repo) {S : Type 0}
    (fn : Callback S) where
  abbrev pub AllPool : Option (Pool × ℕ × S) → Type 0
  AllPool r = (pool : Pool) (rv : ℕ) (arg : S) → r ≡ some (pool, rv, arg) → IsPool open_repo pool

  -- What is shown of the loop, where `v` is the outcome of the callbacks alone.
  abbrev Good : Option (ℕ × S) → Option (Pool × ℕ × S) → Type 0
  Good v r = (outcome r ≡ v) × AllPool r

  -- A round on a repository that is opened, before the rounds to come.
  foreach_loop-round :
      (fuel : ℕ) (pool : Pool) (before rest : List Bytes) (uri : Bytes) (repo : Repo)
      (foundrepo : Bool) (arg : S)
      → IsPool open_repo pool
      → pool.repositories ≡ before ++ uri ∷ rest
      → get_elem? pool.repositories (length before) ≡ some uri
      → open_repo uri ≡ some repo
      → ((pool' : Pool) (arg' : S)
          → IsPool open_repo pool'
          → pool'.repositories ≡ pool.repositories
          → Good
              (run fn (served open_repo rest) true arg')
              (foreach_loop open_repo fn fuel pool' (suc (length before)) true arg'))
      → Good
          (run fn (repo ∷ served open_repo rest) foundrepo arg)
          (foreach_loop open_repo fn (suc fuel) pool (length before) foundrepo arg)
  unfolding foreach_loop run
  foreach_loop-round fuel pool before rest uri repo foundrepo arg ok text at it ih =
      let (pool', reg, same, ok') = registered-some open_repo pool uri repo keeps ok it in
      let now = foreach_loop open_repo fn (suc fuel) pool (length before) foundrepo arg in
      elim (Option-cases (fn repo arg)) [
        | inl fault ↦
            let step : now ≡ none = rw (foreach_loop, at, reg, fault) refl in
            rw fault (subst (Good none) (sym step) (refl, λ p rv s e. absurd (cc e)))
        | inr ((rv, done, arg'), e) ↦ elim (Bool-cases (not (rv == 0) || done)) [
          | inl stop ↦
              let step : now ≡ some (pool', rv, arg') = rw (foreach_loop, at, reg, e, stop) refl in
              rw (e, stop)
                (subst (Good (some (rv, arg'))) (sym step)
                  (refl, λ p k s h. subst (IsPool open_repo) (cc h) ok'))
          | inr more ↦
              let step : now
                  ≡ foreach_loop open_repo fn fuel pool' (suc (length before)) true arg' =
                rw (foreach_loop, at, reg, e, more) refl in
              rw (e, more) (subst (Good _) (sym step) (ih pool' arg' ok' same))
        ]
      ]

  foreach_loop-run :
      (fuel : ℕ) (pool : Pool) (before rest : List Bytes) (foundrepo : Bool) (arg : S)
      → IsPool open_repo pool
      → pool.repositories ≡ before ++ rest
      → All (λ u. open_repo u ≢ none) before
      → length rest < fuel
      → (let r = foreach_loop open_repo fn fuel pool (length before) foundrepo arg in
          (outcome r ≡ run fn (served open_repo rest) foundrepo arg) × AllPool r)
  unfolding foreach_loop served run
  foreach_loop-run zero pool before rest foundrepo arg ok text all size = absurd (omega arith)
  foreach_loop-run (suc fuel) pool before [] foundrepo arg ok text all size =
      let at : get_elem? pool.repositories (length before) ≡ none =
        ap (λ l. get_elem? l (length before)) text ∙ get_elem?-middle before [] in
      let step : foreach_loop open_repo fn (suc fuel) pool (length before) foundrepo arg
          ≡ some (pool, if foundrepo then 0 else enotsup, arg) =
        rw (foreach_loop, at) refl in
      subst (Good _) (sym step) (refl, λ p rv s e. subst (IsPool open_repo) (cc e) ok)
  foreach_loop-run (suc fuel) pool before (uri ∷ rest) foundrepo arg ok text all size =
      let at : get_elem? pool.repositories (length before) ≡ some uri =
        ap (λ l. get_elem? l (length before)) text ∙ get_elem?-middle before (uri ∷ rest) in
      let now = foreach_loop open_repo fn (suc fuel) pool (length before) foundrepo arg in
      elim (Option-cases (open_repo uri)) [
        | inl shut ↦
            let gone : remove_string_from_array pool.repositories uri
                ≡ some (before ++ rest, true) =
              ap (λ l. remove_string_from_array l uri) text
              ∙ remove_string_at before rest uri (opened-differ open_repo before uri all shut) in
            let left : Pool = record pool { repositories = before ++ rest } in
            let step : foreach_loop open_repo fn (suc fuel) pool (length before) foundrepo arg
                ≡ foreach_loop open_repo fn fuel left (length before) foundrepo arg =
              rw (foreach_loop, at, registered-none open_repo pool uri ok shut, gone) refl in
            let ih =
              foreach_loop-run fuel left before rest foundrepo arg (record { opened = ok.opened })
                refl all (omega arith) in
            subst (λ l. Good (run fn l foundrepo arg) now)
              (sym (served-none open_repo uri rest shut)) (subst (Good _) (sym step) ih)
        | inr (repo, it) ↦
            subst (λ l. Good (run fn l foundrepo arg) now)
              (sym (served-some open_repo uri rest repo it))
              (foreach_loop-round fuel pool before rest uri repo foundrepo arg ok text at it
                (λ pool' arg' ok' text'.
                  let more : length (before ++ uri ∷ []) ≡ suc (length before) =
                    omega (arith, length-append before (uri ∷ [])) in
                  let ih =
                    foreach_loop-run fuel pool' (before ++ uri ∷ []) rest true arg' ok'
                      (text' ∙ text ∙ sym (append_assoc before (uri ∷ []) rest))
                      (All-append (λ u. open_repo u ≢ none) before (uri ∷ []) all
                        ((λ e. cc (it, e)), tt))
                      (omega arith) in
                  subst
                    (λ n.
                      Good (run fn (served open_repo rest) true arg')
                        (foreach_loop open_repo fn fuel pool' n true arg'))
                    more ih))
      ]

  -- `flappy_rpool_foreach` on a pool whose queue holds what the URIs are opened as, where a
  -- repository that is opened has its URI: the result and the argument are those of the callback on
  -- the repositories that can be opened, in the order of their URIs, until it fails or is done, with
  -- ENOTSUP if there is none; and the queue still holds what the URIs are opened as.
  pub rpool_foreach-run :
      (pool : Pool) (arg : S)
      → IsPool open_repo pool
      → (let r = rpool_foreach open_repo fn pool arg in
          (outcome r ≡ run fn (served open_repo pool.repositories) false arg)
          × ((pool' : Pool) (rv : ℕ) (arg' : S)
              → r ≡ some (pool', rv, arg')
              → IsPool open_repo pool'))
  unfolding rpool_foreach
  rpool_foreach-run pool arg ok =
      foreach_loop-run (suc (length pool.repositories)) pool [] pool.repositories false arg ok refl
        tt (omega arith)
