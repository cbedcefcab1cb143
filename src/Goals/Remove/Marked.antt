-- ===== src/Goals/Remove/Marked.antt =====
-- The removals add to the queue only packages that are marked to be removed.
use flappy.Base.{
  zero, suc, ℕ, ◌≡◌, refl, sym, ap, ◌∙◌, subst, Bool, true, false, ◌⊎◌, inl, inr, List, [], ◌∷◌,
  ◌++◌, Option, some, if◌then◌else◌, ◌>>=◌, Bytes, str_eq, Bool-cases, Option-cases, All, Any,
  All-append,
}
use flappy.PkgPath.{einval}
use flappy.Arrays
use flappy.Arrays.{find_index, remove_obj, remove_at}
use flappy.Dewey.Compare.{cmpver}
use flappy.Dicts.{Dict, Pkgd}
use flappy.Find.{pkgdb_get_pkg, find_pkg_in_array}
use flappy.Find.First.{Found-cases}
use flappy.Conflicts.{trans_remove}
use flappy.TransStore.{queued_copy, remove_pkgd_by_pkgver, replace_older, transaction_store}
use flappy.Orphans.{find_pkg_orphans}
use flappy.Orphans.Recursive.{find_pkg_removal}
use flappy.Goals.{enoent, RepoPool, packages, transaction_pkg_type_set, share_replaces}
use flappy.Goals.Choose.{Sign-cases}
use flappy.Goals.Remove.{
  remove_marked, Removing, put_pkgdb, remove_one, remove_all, transaction_remove_pkg,
  transaction_autoremove_pkgs,
}

-- What holds of all elements holds of what is left.
remove_at-All : (P : Pkgd → Type 0) (l : List Pkgd) (i : ℕ) → All P l → All P (remove_at i l)
remove_at-All P [] i all = tt
remove_at-All P (x ∷ l) zero all = all.1
remove_at-All P (x ∷ l) (suc i) all = (all.0, remove_at-All P l i all.1)

remove_obj-All :
    (P : Pkgd → Type 0) (test : Pkgd → Option Arrays.Round) (array : List Pkgd)
    (r : List Pkgd × Bool)
    → remove_obj test array ≡ some r
    → All P array
    → All P r.0
unfolding remove_obj
remove_obj-All P test array r h all = elim (Option-cases (find_index test array 0)) [
  | inl e ↦ absurd (cc (rw (remove_obj, e) at h))
  | inr (i, e) ↦ elim (Option-cases i) [
    | inl k ↦
        let it : some (array, false) ≡ some r = rw (remove_obj, e, k) at h in
        let is : (array, false) ≡ r = cc it in subst (λ x. All P x.0) is all
    | inr (idx, k) ↦
        let it : some (remove_at idx array, true) ≡ some r = rw (remove_obj, e, k) at h in
        let is : (remove_at idx array, true) ≡ r = cc it in
        subst (λ x. All P x.0) is (remove_at-All P array idx all)
  ]
]

module _ (fnmatch : Bytes → Bytes → ℕ → Bool) (P : Pkgd → Type 0) where
  -- The queue afterwards, where the copy has `P` if it is made.
  keeps_all :
      (l : List Pkgd) (b : Bool) (r : List Pkgd × Bool) → some (l, b) ≡ some r → All P l → All P r.0
  keeps_all l b r h all = let is : (l, b) ≡ r = cc h in subst (λ x. All P x.0) is all

  replace_older-All :
      (pkgs : List Pkgd) (p : Pkgd) (v n : Bytes) (auto : Bool) (d : Pkgd) (r : List Pkgd × Bool)
      → replace_older pkgs p v n auto d ≡ some r
      → All P pkgs
      → P (queued_copy p n auto)
      → All P r.0
  unfolding replace_older remove_pkgd_by_pkgver
  replace_older-All pkgs p v n auto d r h all copy = elim (Option-cases d.pkgver) [
    | inl e ↦ keeps_all pkgs false r (rw (replace_older, e) at h) all
    | inr (c, e) ↦ elim (Option-cases (cmpver v c)) [
      | inl k ↦ absurd (cc (rw (replace_older, e, k) at h))
      | inr (s, k) ↦ elim (Sign-cases s) [
        | inr (inl z) ↦ keeps_all pkgs true r (rw (replace_older, e, k, z) at h) all
        | inr (inr z) ↦ keeps_all pkgs true r (rw (replace_older, e, k, z) at h) all
        | inl z ↦ elim (Option-cases (remove_pkgd_by_pkgver pkgs c)) [
          | inl y ↦ absurd (cc (rw (replace_older, e, k, z, y) at h))
          | inr (q, y) ↦
              let left =
                remove_obj-All P
                  (λ obj. obj.pkgver >>= λ curname. some (Arrays.found_if (str_eq curname c))) pkgs
                  q y all in
              elim (Bool-cases q.1) [
                | inl x ↦
                    keeps_all (q.0 ++ queued_copy p n auto ∷ []) true r
                      (rw (replace_older, e, k, z, y, x) at h)
                      (All-append P q.0 (queued_copy p n auto ∷ []) left (copy, tt))
                | inr x ↦ keeps_all q.0 false r (rw (replace_older, e, k, z, y, x) at h) left
              ]
        ]
      ]
    ]
  ]

  transaction_store-All :
      (pkgs : List Pkgd) (p : Pkgd) (auto : Bool) (r : List Pkgd × Bool)
      → transaction_store fnmatch pkgs p auto ≡ some r
      → All P pkgs
      → ((n : Bytes) → P (queued_copy p n auto))
      → All P r.0
  unfolding transaction_store
  transaction_store-All pkgs p auto r h all copy =
      let Out : Type 0 = List Pkgd × Bool in
      elim (Option-cases p.pkgver) [
        | inl e ↦ keeps_all pkgs false r (rw (transaction_store, e) at h) all
        | inr (v, e) ↦ elim (Option-cases p.pkgname) [
          | inl k ↦ keeps_all pkgs false r (rw (transaction_store, e, k) at h) all
          | inr (n, k) ↦ elim (Option-cases (find_pkg_in_array fnmatch pkgs n 0)) [
            | inl z ↦ absurd (cc (rw (transaction_store, e, k, z) at h))
            | inr (f, z) ↦ elim (Found-cases f) [
              | inl (d, y) ↦
                  let step : transaction_store fnmatch pkgs p auto
                      ≡ replace_older pkgs p v n auto d =
                    simp (transaction_store, e, k, z, y) in
                  replace_older-All pkgs p v n auto d r (sym step ∙ h) all (copy n)
              | inr (errno, y) ↦
                  let step : transaction_store fnmatch pkgs p auto
                      ≡ some (pkgs ++ queued_copy p n auto ∷ [], true) =
                    simp (transaction_store, e, k, z, y) in
                  keeps_all (pkgs ++ queued_copy p n auto ∷ []) true r (sym step ∙ h)
                    (All-append P pkgs (queued_copy p n auto ∷ []) all (copy n, tt))
            ]
          ]
        ]
      ]

-- Of the packages `before`, or of the type REMOVE.
abbrev pub IsRemoval : List Pkgd → Pkgd → Type 0
IsRemoval before d = Any (λ x. x ≡ d) before ⊎ (d.transaction ≡ some trans_remove)

split : (l : List Pkgd) → (l ≡ []) ⊎ ((obj : Pkgd) × (orphans : List Pkgd) × (l ≡ obj ∷ orphans))
split [] = inl refl
split (obj ∷ orphans) = inr (obj, orphans, refl)

all_before : (l : List Pkgd) (P : Pkgd → Type 0) → ((d : Pkgd) → Any (λ x. x ≡ d) l → P d) → All P l
all_before [] P h = tt
all_before (x ∷ l) P h = (h x (inl refl), all_before l P (λ d k. h d (inr k)))

module _ (fnmatch : Bytes → Bytes → ℕ → Bool) (vpkgd : Dict (Dict Bytes)) {R : Type 0}
    (repos : RepoPool R) (before : List Pkgd) where
  -- The queue of a result, as an invariant of the steps.
  abbrev Kept : Removing → Type 0
  Kept s = All (IsRemoval before) (packages s.transd)

  remove_marked-Kept :
      (pkgver : Bytes) (marked : Pkgd) (s : Removing) (r : Bool × Removing)
      → marked.transaction ≡ some trans_remove
      → remove_marked fnmatch vpkgd repos pkgver marked s ≡ some r
      → Kept s
      → Kept r.1
  unfolding remove_marked
  remove_marked-Kept pkgver marked s r typed h all =
      let pkgs = packages s.transd in
      elim (Option-cases (transaction_store fnmatch pkgs marked false)) [
        | inl k ↦ absurd (cc (rw (remove_marked, k) at h))
        | inr (q, k) ↦
            let left =
              transaction_store-All fnmatch (IsRemoval before) pkgs marked false q k all
                (λ n. inr typed) in
            elim (Option-cases (
              if q.1
              then share_replaces fnmatch vpkgd repos s.pkgdb pkgs marked
              else some marked)) [
                | inl z ↦ absurd (cc (rw (remove_marked, k, z) at h))
                | inr (kept, z) ↦
                    let out : Bool × Removing = (
                      q.1,
                      record s { pkgdb = put_pkgdb s.pkgdb pkgver kept; transd = some q.0 },
                    ) in
                    let it : some out ≡ some r = rw (remove_marked, k, z) at h in
                    let is : out ≡ r = cc it in subst (λ x. Kept x.1) is left
              ]
      ]

  remove_one-Kept :
      (pkgd : Pkgd) (s : Removing) (r : Bool × Removing)
      → remove_one fnmatch vpkgd repos pkgd s ≡ some r
      → Kept s
      → Kept r.1
  unfolding remove_one transaction_pkg_type_set
  remove_one-Kept pkgd s r h all = elim (Option-cases pkgd.pkgver) [
    | inl e ↦ absurd (cc (rw (remove_one, e) at h))
    | inr (v, e) ↦
        let marked : Pkgd = record pkgd { transaction = some trans_remove } in
        let step : remove_one fnmatch vpkgd repos pkgd s
            ≡ remove_marked fnmatch vpkgd repos v marked s =
          ap (λ o. o >>= λ x. remove_marked fnmatch vpkgd repos x marked s) e in
        remove_marked-Kept v marked s r refl (sym step ∙ h) all
  ]

  remove_all-Kept :
      (orphans : List Pkgd) (s : Removing) (r : ℕ × Removing)
      → remove_all fnmatch vpkgd repos orphans s ≡ some r
      → Kept s
      → Kept r.1
  unfolding remove_all
  remove_all-Kept [] s r h all = let is : (0, s) ≡ r = cc h in subst (λ x. Kept x.1) is all
  remove_all-Kept (obj ∷ orphans) s r h all =
      elim (Option-cases (remove_one fnmatch vpkgd repos obj s)) [
        | inl e ↦ absurd (cc (rw (remove_all, e) at h))
        | inr (q, e) ↦
            let left = remove_one-Kept obj s q e all in
            elim (Bool-cases q.0) [
              | inl k ↦ remove_all-Kept orphans q.1 r (rw (remove_all, e, k) at h) left
              | inr k ↦
                  let it : some (einval, q.1) ≡ some r = rw (remove_all, e, k) at h in
                  let is : (einval, q.1) ≡ r = cc it in subst (λ x. Kept x.1) is left
            ]
      ]

  -- Whatever `flappy_transaction_remove_pkg` returns, recursive or not, each package of the queue
  -- afterwards is one of the queue before, or has the type of a removal.
  pub transaction_remove_pkg-IsRemoval :
      (s : Removing) (pkgname : Bytes) (recursive : Bool) (r : ℕ × Removing)
      → before ≡ packages s.transd
      → transaction_remove_pkg fnmatch vpkgd repos s pkgname recursive ≡ some r
      → All (IsRemoval before) (packages r.1.transd)
  unfolding transaction_remove_pkg
  transaction_remove_pkg-IsRemoval s pkgname recursive r same h =
      let s' : Removing = record s { transd = some (packages s.transd) } in
      let all : Kept s' =
        subst (λ l. All (IsRemoval before) l) same (all_before before _ (λ d k. inl k)) in
      elim (Option-cases (pkgdb_get_pkg fnmatch s.pkgdb pkgname)) [
        | inl e ↦ absurd (cc (rw (transaction_remove_pkg, e) at h))
        | inr (f, e) ↦ elim (Found-cases f) [
          | inr (errno, k) ↦
              let it : some (enoent, s) ≡ some r = rw (transaction_remove_pkg, e, k) at h in
              let is : (enoent, s) ≡ r = cc it in subst (λ x. Kept x.1) is all
          | inl (pkgd, k) ↦ elim (Bool-cases recursive) [
            | inl z ↦
                elim (Option-cases
                  (find_pkg_removal fnmatch vpkgd s.pkgdb s.known s.items (pkgname ∷ []))) [
                    | inl y ↦ absurd (cc (rw (transaction_remove_pkg, e, k, z, y) at h))
                    | inr (o, y) ↦
                        remove_all-Kept o.0.0 (record s' { known = o.0.1; items = o.1 }) r
                          (rw (transaction_remove_pkg, e, k, z, y) at h) all
                  ]
            | inr z ↦ elim (Option-cases (remove_one fnmatch vpkgd repos pkgd s')) [
              | inl y ↦ absurd (cc (rw (transaction_remove_pkg, e, k, z, y) at h))
              | inr (q, y) ↦
                  let out : ℕ × Removing = (if q.0 then 0 else einval, q.1) in
                  let it : some out ≡ some r = rw (transaction_remove_pkg, e, k, z, y) at h in
                  let is : out ≡ r = cc it in
                  subst (λ x. Kept x.1) is (remove_one-Kept pkgd s' q y all)
            ]
          ]
        ]
      ]

  -- Whatever `flappy_transaction_autoremove_pkgs` returns, each package of the queue afterwards is
  -- one of the queue before, or has the type of a removal.
  pub transaction_autoremove_pkgs-IsRemoval :
      (s : Removing) (r : ℕ × Removing)
      → before ≡ packages s.transd
      → transaction_autoremove_pkgs fnmatch vpkgd repos s ≡ some r
      → All (IsRemoval before) (packages r.1.transd)
  unfolding transaction_autoremove_pkgs
  transaction_autoremove_pkgs-IsRemoval s r same h =
      let all : Kept s =
        subst (λ l. All (IsRemoval before) l) same (all_before before _ (λ d k. inl k)) in
      elim (Option-cases (find_pkg_orphans fnmatch vpkgd s.pkgdb s.known)) [
        | inl e ↦ absurd (cc (rw (transaction_autoremove_pkgs, e) at h))
        | inr (o, e) ↦ elim (split o.0) [
          | inl k ↦
              let out : ℕ × Removing = (0, record s { known = o.1 }) in
              let it : some out ≡ some r = rw (transaction_autoremove_pkgs, e, k) at h in
              let is : out ≡ r = cc it in subst (λ x. Kept x.1) is all
          | inr (obj, orphans, k) ↦
              remove_all-Kept (obj ∷ orphans)
                (record s { transd = some (packages s.transd); known = o.1 }) r
                (rw (transaction_autoremove_pkgs, e, k) at h) all
        ]
      ]
