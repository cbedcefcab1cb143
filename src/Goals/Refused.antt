-- ===== src/Goals/Refused.antt =====
-- A goal that is refused leaves the queue of the transaction as it was.
use flappy.Base.{
  str_eq, ℕ, ◌≡◌, ◌≢◌, refl, sym, ◌∙◌, subst, Bool, true, false, inl, inr, List, [], ◌∷◌, ◌++◌,
  Option, some, ◌==◌, if◌then◌else◌, ◌>>=◌, Bytes, Bool-cases, Option-cases,
}
use flappy.PkgPath.{enoent, einval}
use flappy.Dewey.Compare.{cmpver}
use flappy.Arrays.{find_index, remove_obj, remove_at}
use flappy.Arrays
use flappy.Dicts.{Dict, Pkgd, PkgDict}
use flappy.Find.{find_pkg_in_array}
use flappy.Find.First.{Found-cases}
use flappy.State.{set_new_state, pkg_state_installed}
use flappy.Conflicts.{trans_install, trans_update}
use flappy.TransStore.{queued_copy, remove_pkgd_by_pkgver, replace_older, transaction_store}
use flappy.Goals.{
  eexist, state_not_installed, RepoPool, transaction_pkg_type_set, code_of, respect,
  compare_installed, choose, World, packages, share_replaces, store_goal, goal_type, queue_state,
  queue_named, queue_goal, trans_find_pkg,
}
use flappy.Goals.Choose.{Choice-cases, Sign-cases}

remove_obj-false :
    {A : Type 0} (test : A → Option Arrays.Round) (array l : List A) (b : Bool)
    → remove_obj test array ≡ some (l, b)
    → b ≡ false
    → l ≡ array
unfolding remove_obj
remove_obj-false test array l b h off = elim (Option-cases (find_index test array 0)) [
  | inl e ↦ absurd (cc (rw (remove_obj, e) at h))
  | inr (i, e) ↦ elim (Option-cases i) [
    | inl k ↦
        let it : some (array, false) ≡ some (l, b) = rw (remove_obj, e, k) at h in
        let same : array ≡ l = cc it in sym same
    | inr (idx, k) ↦
        let it : some (remove_at idx array, true) ≡ some (l, b) = rw (remove_obj, e, k) at h in
        let on : true ≡ b = cc it in absurd (cc (on, off))
  ]
]

replace_older-false :
    (pkgs : List Pkgd) (p : Pkgd) (v n : Bytes) (auto : Bool) (d : Pkgd) (l : List Pkgd) (b : Bool)
    → replace_older pkgs p v n auto d ≡ some (l, b)
    → b ≡ false
    → l ≡ pkgs
unfolding replace_older remove_pkgd_by_pkgver
replace_older-false pkgs p v n auto d l b h off =
    let same : (c : Bool)
        → ◌≡◌ {A = Option (List Pkgd × Bool)} (some (pkgs, c)) (some (l, b))
        → l ≡ pkgs =
      λ c it. let is : pkgs ≡ l = cc it in sym is in
    elim (Option-cases d.pkgver) [
      | inl e ↦ same false (rw (replace_older, e) at h)
      | inr (c, e) ↦ elim (Option-cases (cmpver v c)) [
        | inl k ↦ absurd (cc (rw (replace_older, e, k) at h))
        | inr (s, k) ↦ elim (Sign-cases s) [
          | inr (inl z) ↦ same true (rw (replace_older, e, k, z) at h)
          | inr (inr z) ↦ same true (rw (replace_older, e, k, z) at h)
          | inl z ↦ elim (Option-cases (remove_pkgd_by_pkgver pkgs c)) [
            | inl y ↦ absurd (cc (rw (replace_older, e, k, z, y) at h))
            | inr (r, y) ↦ elim (Bool-cases r.1) [
              | inl x ↦
                  let it : some (r.0 ++ queued_copy p n auto ∷ [], true) ≡ some (l, b) =
                    rw (replace_older, e, k, z, y, x) at h in
                  let on : true ≡ b = cc it in absurd (cc (on, off))
              | inr x ↦
                  let it : some (r.0, false) ≡ some (l, b) =
                    rw (replace_older, e, k, z, y, x) at h in
                  let is : r.0 ≡ l = cc it in
                  sym is
                  ∙ remove_obj-false
                      (λ obj. obj.pkgver >>= λ curname. some (Arrays.found_if (str_eq curname c)))
                      pkgs r.0 r.1 y x
            ]
          ]
        ]
      ]
    ]

module _ (fnmatch : Bytes → Bytes → ℕ → Bool) where
  transaction_store-false :
      (pkgs : List Pkgd) (p : Pkgd) (auto : Bool) (l : List Pkgd) (b : Bool)
      → transaction_store fnmatch pkgs p auto ≡ some (l, b)
      → b ≡ false
      → l ≡ pkgs
  unfolding transaction_store
  transaction_store-false pkgs p auto l b h off =
      let same : (c : Bool)
          → ◌≡◌ {A = Option (List Pkgd × Bool)} (some (pkgs, c)) (some (l, b))
          → l ≡ pkgs =
        λ c it. let is : pkgs ≡ l = cc it in sym is in
      elim (Option-cases p.pkgver) [
        | inl e ↦ same false (rw (transaction_store, e) at h)
        | inr (v, e) ↦ elim (Option-cases p.pkgname) [
          | inl k ↦ same false (rw (transaction_store, e, k) at h)
          | inr (n, k) ↦ elim (Option-cases (find_pkg_in_array fnmatch pkgs n 0)) [
            | inl z ↦ absurd (cc (rw (transaction_store, e, k, z) at h))
            | inr (f, z) ↦ elim (Found-cases f) [
              | inl (d, y) ↦
                  let step : transaction_store fnmatch pkgs p auto
                      ≡ replace_older pkgs p v n auto d =
                    simp (transaction_store, e, k, z, y) in
                  replace_older-false pkgs p v n auto d l b (sym step ∙ h) off
              | inr (errno, y) ↦
                  let step : transaction_store fnmatch pkgs p auto
                      ≡ some (pkgs ++ queued_copy p n auto ∷ [], true) =
                    simp (transaction_store, e, k, z, y) in
                  let on : some (pkgs ++ queued_copy p n auto ∷ [], true) ≡ some (l, b) =
                    sym step ∙ h in
                  absurd (cc (on, off))
            ]
          ]
        ]
      ]

module _ (fnmatch : Bytes → Bytes → ℕ → Bool) (vpkgd : Dict (Dict Bytes)) {R : Type 0}
    (repos : RepoPool R) (pkgdb : PkgDict) where
  -- The queue is as it was.
  abbrev Same : List Pkgd → ℕ × World R → Type 0
  Same pkgs r = r.0 ≢ 0 → packages r.1.1 ≡ pkgs

  returns :
      (pkgs : List Pkgd) (c : ℕ) (pool : R) (transd : Option (List Pkgd)) (r : ℕ × World R)
      → some (c, (pool, transd)) ≡ some r
      → (c ≢ 0 → packages transd ≡ pkgs)
      → Same pkgs r
  returns pkgs c pool transd r h holds =
      let is : (c, (pool, transd)) ≡ r = cc h in subst (Same pkgs) is holds

  store_goal-Same :
      (auto : Bool) (pool : R) (pkgs : List Pkgd) (d : Pkgd) (t : ℕ) (r : ℕ × World R)
      → store_goal fnmatch vpkgd repos pkgdb auto pool pkgs d t ≡ some r
      → Same pkgs r
  unfolding store_goal
  store_goal-Same auto pool pkgs d t r h =
      let marked = (transaction_pkg_type_set d t).0 in
      let autoinst : Bool = if t == trans_install then auto else false in
      elim (Bool-cases (transaction_pkg_type_set d t).1) [
        | inr e ↦ returns pkgs einval pool (some pkgs) r (rw (store_goal, e) at h) (λ _. refl)
        | inl e ↦ elim (Option-cases (transaction_store fnmatch pkgs marked autoinst)) [
          | inl k ↦ absurd (cc (rw (store_goal, e, k) at h))
          | inr (s, k) ↦
              let kept =
                if s.1 then share_replaces fnmatch vpkgd repos pkgdb pkgs marked else some marked in
              elim (Option-cases kept) [
                | inl z ↦ absurd (cc (rw (store_goal, e, k, z) at h))
                | inr (m, z) ↦
                    returns pkgs (if s.1 then 0 else einval) (repos.put pool d m) (some s.0) r
                      (rw (store_goal, e, k, z) at h)
                      (λ code.
                        transaction_store-false fnmatch pkgs marked autoinst s.0 s.1 k
                          (failed s.1 code))
              ]
        ]
      ]
    where
      failed : (b : Bool) → (if b then 0 else einval) ≢ 0 → b ≡ false
      failed true code = absurd (code refl)
      failed false code = refl

  queue_state-Same :
      (auto force : Bool) (pool : R) (pkgs : List Pkgd) (d : Pkgd) (state t : ℕ) (r : ℕ × World R)
      → queue_state fnmatch vpkgd repos pkgdb auto force pool pkgs d state t ≡ some r
      → Same pkgs r
  unfolding queue_state
  queue_state-Same auto force pool pkgs d state t r h =
      let stated = (set_new_state d state).0 in
      elim (Bool-cases ((set_new_state d state).1 == 0)) [
        | inr e ↦
            returns pkgs (set_new_state d state).1 pool (some pkgs) r (rw (queue_state, e) at h)
              (λ _. refl)
        | inl e ↦
            store_goal-Same auto (repos.put pool d stated) pkgs stated
              (goal_type force stated state t) r (rw (queue_state, e) at h)
      ]

  queue_named-Same :
      (auto force : Bool) (pool : R) (pkgs : List Pkgd) (d : Pkgd) (t : ℕ) (r : ℕ × World R)
      → queue_named fnmatch vpkgd repos pkgdb auto force pool pkgs d t ≡ some r
      → Same pkgs r
  unfolding queue_named
  queue_named-Same auto force pool pkgs d t r h = elim (Option-cases d.pkgname) [
    | inl e ↦ returns pkgs einval pool (some pkgs) r (rw (queue_named, e) at h) (λ _. refl)
    | inr (n, e) ↦ elim (Option-cases (pkg_state_installed fnmatch pkgdb n)) [
      | inl k ↦ absurd (cc (rw (queue_named, e, k) at h))
      | inr (s, k) ↦ elim (Bool-cases (s.0 == 0)) [
        | inl z ↦ elim (Option-cases s.1) [
          | inl y ↦ absurd (cc (rw (queue_named, e, k, z, y) at h))
          | inr (state, y) ↦
              queue_state-Same auto force pool pkgs d state t r (rw (queue_named, e, k, z, y) at h)
        ]
        | inr z ↦ elim (Bool-cases (s.0 == enoent)) [
          | inl y ↦
              queue_state-Same auto force pool pkgs d state_not_installed t r
                (rw (queue_named, e, k, z, y) at h)
          | inr y ↦
              returns pkgs s.0 pool (some pkgs) r (rw (queue_named, e, k, z, y) at h) (λ _. refl)
        ]
      ]
    ]
  ]

  queue_goal-Same :
      (auto force : Bool) (pool : R) (pkgs : List Pkgd) (d : Pkgd) (t : ℕ) (r : ℕ × World R)
      → queue_goal fnmatch vpkgd repos pkgdb auto force pool pkgs d t ≡ some r
      → Same pkgs r
  unfolding queue_goal
  queue_goal-Same auto force pool pkgs d t r h = elim (Bool-cases (t == trans_update)) [
    | inr e ↦ queue_named-Same auto force pool pkgs d t r (rw (queue_goal, e) at h)
    | inl e ↦ elim (Option-cases d.pkgver) [
      | inl k ↦ absurd (cc (rw (queue_goal, e, k) at h))
      | inr (v, k) ↦ elim (Option-cases (find_pkg_in_array fnmatch pkgs v 0)) [
        | inl z ↦ absurd (cc (rw (queue_goal, e, k, z) at h))
        | inr (f, z) ↦ elim (Found-cases f) [
          | inl (q, y) ↦
              returns pkgs eexist pool (some pkgs) r (rw (queue_goal, e, k, z, y) at h) (λ _. refl)
          | inr (errno, y) ↦
              queue_named-Same auto force pool pkgs d t r (rw (queue_goal, e, k, z, y) at h)
        ]
      ]
    ]
  ]

  -- `trans_find_pkg`: where it returns anything but 0, the queue of the transaction is as it was.
  pub trans_find_pkg-Same :
      (dl auto : Bool) (pool : R) (transd : Option (List Pkgd)) (pkg : Bytes) (force : Bool)
      (r : ℕ × World R)
      → trans_find_pkg fnmatch vpkgd repos pkgdb dl auto (pool, transd) pkg force ≡ some r
      → r.0 ≢ 0
      → packages r.1.1 ≡ packages transd
  unfolding trans_find_pkg
  trans_find_pkg-Same dl auto pool transd pkg force r h =
      elim (Option-cases (choose fnmatch vpkgd repos pkgdb dl pool pkg force)) [
        | inl e ↦ absurd (cc (rw (trans_find_pkg, e) at h))
        | inr (c, e) ↦ elim (Choice-cases c) [
          | inl (rv, k) ↦
              returns (packages transd) (code_of rv) pool transd r (rw (trans_find_pkg, e, k) at h)
                (λ _. refl)
          | inr (p, d, t, k) ↦ elim (Option-cases (compare_installed p d t)) [
            | inl z ↦ absurd (cc (rw (trans_find_pkg, e, k, z) at h))
            | inr (c', z) ↦ elim (Choice-cases c') [
              | inl (rv, y) ↦
                  returns (packages transd) (code_of rv) pool transd r
                    (rw (trans_find_pkg, e, k, z, y) at h) (λ _. refl)
              | inr (p', d', t', y) ↦
                  queue_goal-Same auto force (repos.put pool d' (respect p' d')) (packages transd)
                    (respect p' d') t' r (rw (trans_find_pkg, e, k, z, y) at h)
            ]
          ]
        ]
      ]
